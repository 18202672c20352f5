-- ===== src/Servers/Join.antt =====
-- ServerSidebar.tsx, `handleJoin`: the list after a join.
use concordia_chat_app.Prelude.{none, some, List, inl, inr}
use concordia_chat_app.Prelude.Keyed.{has, IsUnique, IsUnique-concat}
use concordia_chat_app.Prelude.Tests.{Bool-cases}
use concordia_chat_app.Http.{Reply}
use concordia_chat_app.Servers.{Server, id_of, add_server}

pub add_server-IsUnique :
    (s : Server) (prev : List Server) → IsUnique id_of prev → IsUnique id_of (add_server s prev)
unfolding add_server
add_server-IsUnique s prev u = elim (Bool-cases (has id_of s.server_id prev)) [
  | inl e ↦ rw e u
  | inr e ↦ rw e (IsUnique-concat id_of prev s u e)
]

-- The lists that the gateway sends name no server twice.
abbrev pub IsUniqueReply : Reply (List Server) → Type 0
IsUniqueReply none = Unit
IsUniqueReply (some r) = elim r.json [ none ↦ Unit | some list ↦ IsUnique id_of list ]

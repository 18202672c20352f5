-- ===== src/Servers/Session/Ends.antt =====
-- ServerSidebar.tsx: how the ends of its requests change the list and the flags.
use concordia_chat_app.Prelude.{
  ◌≡◌, refl, inl, inr, true, false, not, ◌&&◌, none, some, List, String, arith,
}
use concordia_chat_app.Prelude.Keyed.{has, IsUnique, IsUnique-concat}
use concordia_chat_app.Prelude.Tests.{eqb, if_both, Option-cases, is_empty}
use concordia_chat_app.Prelude.Text.{trim}
use concordia_chat_app.Http.{Reply, is_ok}
use concordia_chat_app.Servers.{
  Server, Sidebar, Attempt, nothing, settled, asks, id_of, close_modal, push, finish_fetch,
  finish_create, start_join, finish_join, finish_details,
}
use concordia_chat_app.Servers.Uuid.{is_uuid}
use concordia_chat_app.Servers.Join.{IsUniqueReply, add_server-IsUnique}
use concordia_chat_app.Servers.Session.{is_in, is_refused}

-- A sidebar with other fields changed only.
pub record IsLike (s t : Sidebar) : Type 0 where
  pub creating : t.creating ≡ s.creating
  pub joining : t.joining ≡ s.joining
  pub distinct : IsUnique id_of s.servers → IsUnique id_of t.servers

-- A new server has an id that no server of the list has.
abbrev pub IsNew : Reply Server → List Server → Type 0
IsNew none prev = Unit
IsNew (some r) prev = elim r.json [
  | none ↦ Unit
  | some server ↦ has id_of server.server_id prev ≡ false
]

pub finish_fetch-IsLike :
    (r : Reply (List Server)) (s : Sidebar) → IsUniqueReply r → IsLike s (finish_fetch r s)
unfolding finish_fetch
finish_fetch-IsLike none s u = record { creating = refl; joining = refl; distinct = λ d. d }
finish_fetch-IsLike (some r) s u = elim (Option-cases r.json) [
  | inl e ↦ rw e (
      if_both (IsLike s) (is_ok r) (record { creating = refl; joining = refl; distinct = λ d. d })
        (record { creating = refl; joining = refl; distinct = λ d. d }))
  | inr (fresh, e) ↦
      let new : IsUnique id_of fresh = rw e at u in
      rw e (
        if_both (IsLike s) (is_ok r)
          (record { creating = refl; joining = refl; distinct = λ d. new })
          (record { creating = refl; joining = refl; distinct = λ d. d }))
]

-- The end of a creation or of a join.
pub record IsCreateOver (s t : Sidebar) : Type 0 where
  pub over : t.creating ≡ false
  pub joining : t.joining ≡ s.joining
  pub distinct : IsUnique id_of s.servers → IsUnique id_of t.servers

pub finish_create-IsCreateOver :
    (r : Reply Server) (s : Sidebar) → IsNew r s.servers → IsCreateOver s (finish_create r s)
unfolding finish_create close_modal push
finish_create-IsCreateOver none s n = record { over = refl; joining = refl; distinct = λ d. d }
finish_create-IsCreateOver (some r) s n = elim (Option-cases r.json) [
  | inl e ↦ rw e (
      if_both (IsCreateOver s) (is_ok r) (record { over = refl; joining = refl; distinct = λ d. d })
        (record { over = refl; joining = refl; distinct = λ d. d }))
  | inr (server, e) ↦
      let new : has id_of server.server_id s.servers ≡ false = rw e at n in
      rw e (
        if_both (IsCreateOver s) (is_ok r)
          (record {
            over = refl;
            joining = refl;
            distinct = λ d. IsUnique-concat id_of s.servers server d new;
          })
          (record { over = refl; joining = refl; distinct = λ d. d }))
]

pub record IsJoinOver (s t : Sidebar) : Type 0 where
  pub over : t.joining ≡ false
  pub creating : t.creating ≡ s.creating
  pub distinct : IsUnique id_of s.servers → IsUnique id_of t.servers

pub finish_join-IsJoinOver :
    (id : String) (r : Reply (Unit {0})) (s : Sidebar)
    → is_in r ≡ false
    → IsJoinOver s (finish_join id r none none s)
unfolding finish_join finish_details is_in
finish_join-IsJoinOver id none s out = record { over = refl; creating = refl; distinct = λ d. d }
finish_join-IsJoinOver id (some r) s out =
    if_both (IsJoinOver s) (not (is_ok r) && not (eqb r.status 409))
      (record { over = refl; creating = refl; distinct = λ d. d })
      (record { over = refl; creating = refl; distinct = λ d. d })

pub finish_details-IsJoinOver :
    (id : String) (r : Reply Server) (s : Sidebar)
    → is_refused r ≡ false
    → IsJoinOver s (finish_details id r none s)
unfolding finish_details is_refused close_modal push
finish_details-IsJoinOver id none s good = record {
  over = refl;
  creating = refl;
  distinct = λ d. d;
}
finish_details-IsJoinOver id (some r) s good =
    let ok : is_ok r ≡ true = ground (arith, good) in
    elim (Option-cases r.json) [
      | inl e ↦ rw (ok, e) (record { over = refl; creating = refl; distinct = λ d. d })
      | inr (server, e) ↦
          rw (ok, e)
            (record {
              over = refl;
              creating = refl;
              distinct = λ d. add_server-IsUnique server s.servers d;
            })
    ]

-- What an attempt to join may be.
abbrev pub IsAttempt : Sidebar → Attempt → Type 0
IsAttempt s nothing = Unit
IsAttempt s (settled t) = IsLike s t
IsAttempt s (asks id t) = t ≡ record s { joining = true; join_error = none }

pub start_join-IsAttempt : (s : Sidebar) → IsAttempt s (start_join s)
unfolding start_join close_modal push
start_join-IsAttempt s = if_both (IsAttempt s) (is_empty (trim s.join_id)) tt (
    if_both (IsAttempt s) (not (is_uuid (trim s.join_id)))
      (record { creating = refl; joining = refl; distinct = λ d. d })
      (if_both (IsAttempt s) (has id_of (trim s.join_id) s.servers)
        (record { creating = refl; joining = refl; distinct = λ d. d }) refl))

-- ===== src/Channels/Loading.antt =====
-- ChannelSidebar.tsx: a load with four good replies, and what a late one does.
use concordia_chat_app.Prelude.{◌≡◌, refl, true, some, List, String}
use concordia_chat_app.Http.{Response, is_ok}
use concordia_chat_app.Chat.{CurrentUser}
use concordia_chat_app.Channels.{
  Channel, Server, Member, Channels, has_role, finish_data, visit, load_ended,
}

-- Four replies, all with a good status and a body.
pub record IsComplete (c : Response (List Channel)) (v : Response Server) (u : Response CurrentUser)
    (m : Response (List Member)) (list : List Channel) (server : Server) (user : CurrentUser)
    (members : List Member) : Type 0 where
  pub c_ok : is_ok c ≡ true
  pub c_body : c.json ≡ some list
  pub v_ok : is_ok v ≡ true
  pub v_body : v.json ≡ some server
  pub u_ok : is_ok u ≡ true
  pub u_body : u.json ≡ some user
  pub m_ok : is_ok m ≡ true
  pub m_body : m.json ≡ some members

pub finish_data-IsComplete :
    {c : Response (List Channel)} {v : Response Server} {u : Response CurrentUser}
    {m : Response (List Member)} {list : List Channel} {server : Server} {user : CurrentUser}
    {members : List Member} (s : Channels)
    → IsComplete c v u m list server user members
    → finish_data (some c) (some v) (some u) (some m) s
      ≡ load_ended (record s {
        channels = list;
        server = some server;
        current_user = some user;
        has_manage_role = has_role user.user_id members;
      })
unfolding finish_data
finish_data-IsComplete s i =
    rw (i.c_ok, i.v_ok, i.c_body, i.v_body) (rw (i.u_ok, i.u_body) (rw (i.m_ok, i.m_body) refl))

-- Four good replies for another server, which come after the move to `id`, put that server's
-- channels under the address of `id`.
pub stale_server :
    (id : String) (c : Response (List Channel)) (v : Response Server) (u : Response CurrentUser)
    (m : Response (List Member)) (list : List Channel) (server : Server) (user : CurrentUser)
    (members : List Member) (s : Channels)
    → IsComplete c v u m list server user members
    → let t = finish_data (some c) (some v) (some u) (some m) (visit (some id) s) in
      (t.server_id ≡ some id) × (t.channels ≡ list) × (t.server ≡ some server)
unfolding visit
stale_server id c v u m list server user members s i =
    rw (finish_data-IsComplete (visit (some id) s) i) (refl, refl, refl)

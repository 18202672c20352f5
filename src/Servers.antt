-- ===== src/Servers.antt =====
-- apps/web-app/app/components/ServerSidebar.tsx: the list of servers, creating and joining one.
-- Each request ends a step of a handler; its reply is an argument of the next step.
pub mod Color
pub mod Uuid
pub mod Join
pub mod Active
pub mod Session
pub mod Screen
mod Tests
use concordia_chat_app.Prelude.{
  ℕ, Bool, true, false, not, ◌&&◌, ◌||◌, Option, none, some, List, [], ◌∷◌, ◌++◌, String,
}
use concordia_chat_app.Prelude.Keyed.{has}
use concordia_chat_app.Prelude.Tests.{eqb, is_empty, if◌then◌else◌}
use concordia_chat_app.Prelude.Text.{◌&◌, trim}
use concordia_chat_app.Http.{Response, Reply, is_ok}
use concordia_chat_app.Servers.Uuid.{is_uuid}

pub record Server : Type 0 where
  pub server_id : String
  pub name : String
  pub owner_id : String
  pub created_at : String

abbrev pub id_of : Server → String
id_of s = s.server_id

pub data Tab : Type 0 where
  create join : Tab

-- The state of the component, and the addresses that it has pushed to the router, the last first.
pub record Sidebar : Type 0 where
  pub servers : List Server
  pub loading : Bool
  pub error : Option String
  pub modal_open : Bool
  pub modal_tab : Tab
  pub new_name : String
  pub creating : Bool
  pub create_error : Option String
  pub join_id : String
  pub joining : Bool
  pub join_error : Option String
  pub pushed : List String

unfoldable pub close_modal : Sidebar → Sidebar
close_modal s = record s {
  modal_open = false;
  new_name = "";
  join_id = "";
  create_error = none;
  join_error = none;
}

abbrev pub path_of : String → String
path_of id = "/servers/" & id

unfoldable pub push : String → Sidebar → Sidebar
push id s = record s { pushed = path_of id ∷ s.pushed }

-- `fetchServers`, up to its request and from the reply on.
unfoldable pub start_fetch : Sidebar → Sidebar
start_fetch s = record s { loading = true; error = none }

unfoldable pub finish_fetch : Reply (List Server) → Sidebar → Sidebar
finish_fetch none s = record s { error = some "Failed to load servers"; loading = false }
finish_fetch (some r) s =
    if is_ok r
    then elim r.json [
      | none ↦ record s { error = some "Failed to load servers"; loading = false }
      | some data' ↦ record s { servers = data'; loading = false }
    ]
    else record s { error = some "Failed to load servers"; loading = false }

-- `handleCreate` up to the request; `none` means that none is made.
unfoldable pub start_create : Sidebar → Option Sidebar
start_create s =
    if is_empty (trim s.new_name)
    then none
    else some (record s { creating = true; create_error = none })

abbrev pub create_failed : Sidebar → Sidebar
create_failed s = record s { create_error = some "Failed to create server"; creating = false }

unfoldable pub finish_create : Reply Server → Sidebar → Sidebar
unfolding close_modal push
finish_create none s = create_failed s
finish_create (some r) s =
    if is_ok r
    then elim r.json [
      | none ↦ create_failed s
      | some created ↦
          record (push created.server_id
            (close_modal (record s { servers = s.servers ++ created ∷ [] }))) { creating = false }
    ]
    else create_failed s

-- What `handleJoin` does before a request: nothing, an error, a move to a server that the user is
-- in already, or the request.
pub data Attempt : Type 0 where
  nothing : Attempt
  settled : Sidebar → Attempt
  asks : String → Sidebar → Attempt

unfoldable pub start_join : Sidebar → Attempt
unfolding close_modal push
start_join s =
    let id : String = trim s.join_id in
    if is_empty id
    then nothing
    else if not (is_uuid id)
    then settled (record s { join_error = some "Invalid server ID format" })
    else if has id_of id s.servers
    then settled (push id (close_modal s))
    else asks id (record s { joining = true; join_error = none })

abbrev pub join_failed : String → Sidebar → Sidebar
join_failed text s = record s { join_error = some text; joining = false }

-- The updater that adds the joined server.
unfoldable pub add_server : Server → List Server → List Server
add_server joined prev = if has id_of joined.server_id prev then prev else prev ++ joined ∷ []

abbrev pub join_done : String → Sidebar → Sidebar
join_done id s = record (push id (close_modal s)) { joining = false }

-- `handleJoin` from the second reply on. Where the server's details are refused, the list is
-- fetched anew, with a third reply.
unfoldable pub finish_details : String → Reply Server → Reply (List Server) → Sidebar → Sidebar
unfolding add_server start_fetch finish_fetch close_modal push
finish_details id none list s = join_failed "Failed to join server" s
finish_details id (some r) list s =
    if is_ok r
    then elim r.json [
      | none ↦ join_failed "Failed to join server" s
      | some joined ↦ join_done id (record s { servers = add_server joined s.servers })
    ]
    else join_done id (finish_fetch list (start_fetch s))

-- `handleJoin` from the reply to the join request on.
unfoldable pub finish_join :
    String → Reply (Unit {0}) → Reply Server → Reply (List Server) → Sidebar → Sidebar
unfolding finish_details
finish_join id none details list s = join_failed "Failed to join server" s
finish_join id (some r) details list s =
    if not (is_ok r) && not (eqb r.status 409)
    then join_failed (if eqb r.status 404 then "Server not found" else "Failed to join server") s
    else finish_details id details list s

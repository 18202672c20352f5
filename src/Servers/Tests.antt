-- ===== src/Servers/Tests.antt =====
-- ServerSidebar.tsx: its theorems at a concrete list of servers.
use concordia_chat_app.Prelude.{
  ◌%◌, ◌≤◌, ◌≡◌, refl, true, false, none, some, List, [], ◌∷◌, String, ◌^◌,
}
use concordia_chat_app.Prelude.Keyed.{IsUnique}
use concordia_chat_app.Prelude.Text.{code_units, trim}
use concordia_chat_app.Http.{Reply}
use concordia_chat_app.Servers.{Server, Sidebar, join, id_of, path_of}
use concordia_chat_app.Servers.Uuid.{is_uuid}
use concordia_chat_app.Servers.Active.{
  active_server_id, active_channel_id, channel_path, active_server_id-path_of,
}
use concordia_chat_app.Servers.Session.{
  Event, fetched, plus_clicked, tab_chosen, id_typed, join_sent, joined, detailed, listed, run,
  opened, on_list, on_details, on_joined, submit_join, on_fetched,
}
use concordia_chat_app.Servers.Session.Turns.{one_if, joins}
use concordia_chat_app.Servers.Session.Runs.{run-opened}
use concordia_chat_app.Servers.Color.{
  hash_from, abs_int32, poly, colors, server_color, server_color-some,
}
use concordia_chat_app.Prelude.Lists.{get_elem?}

abbrev id : String
id = "6f9619ff-8b86-d011-b42d-00cf4fc964ff"

abbrev server : Server
server = record { server_id = id; name = "s"; owner_id = "u1"; created_at = "t" }

abbrev sidebar : Sidebar
sidebar = record {
  servers = server ∷ [];
  loading = false;
  error = none;
  modal_open = true;
  modal_tab = join;
  new_name = "";
  creating = false;
  create_error = none;
  join_id = id;
  joining = true;
  join_error = none;
  pushed = [];
}

-- The user is a member already (409), and the details are those of a server in the list.
abbrev conflict : Reply (Unit {0})
conflict = some (record { status = 409; json = none })

abbrev details : Reply Server
details = some (record { status = 200; json = some server })

abbrev other_id : String
other_id = "0b5c8e0e-3b0a-4c58-9d8c-6f1e0f1d2a3b"

abbrev other : Server
other = record server { server_id = other_id }

abbrev list_of : List Server → Reply (List Server)
list_of servers = some (record { status = 200; json = some servers })

-- A join of a server of the list, and two clicks to join another, whose details are refused.
abbrev joining_twice : List Event
joining_twice =
    fetched (list_of (server ∷ []))
    ∷ plus_clicked
    ∷ tab_chosen join
    ∷ id_typed id
    ∷ join_sent
    ∷ plus_clicked
    ∷ id_typed other_id
    ∷ join_sent
    ∷ join_sent
    ∷ joined conflict
    ∷ detailed (some (record { status = 500; json = none }))
    ∷ listed (list_of (server ∷ other ∷ []))
    ∷ []

joining_pushed : (run joining_twice opened).sidebar.pushed ≡ path_of other_id ∷ path_of id ∷ []
unfolding run is_uuid trim on_list on_details on_joined submit_join on_fetched
joining_pushed = refl

run-opened_example :
    let s = run joining_twice opened in
    (s.creates ≡ one_if s.sidebar.creating)
    × (joins s ≡ one_if s.sidebar.joining)
    × IsUnique id_of s.sidebar.servers
run-opened_example = run-opened joining_twice (
  (refl, tt),
  (tt, (tt, (tt, (tt, (tt, (tt, (tt, (tt, (tt, (tt, ((refl, (refl, tt)), tt))))))))))),
)

server_color-some_example :
    let hash = poly (code_units "server") % 2 ^ 32 in
    (hash_from 0 (code_units "server") ≡ hash)
    × (abs_int32 hash ≤ 2 ^ 31)
    × ((c : String) × (server_color "server" ≡ some c)
        × (get_elem? colors (abs_int32 hash % 8) ≡ some c))
server_color-some_example = server_color-some "server"

active_server_id-path_of_example :
    (active_server_id (path_of id) ≡ some id)
    × (active_server_id (channel_path id other_id) ≡ some id)
    × (active_channel_id (channel_path id other_id) ≡ some other_id)
unfolding is_uuid
active_server_id-path_of_example = active_server_id-path_of id other_id refl refl

-- ===== src/Servers/Session.antt =====
-- ServerSidebar.tsx: the sidebar with its modal, and the requests that it has under way. A button or
-- a form takes part only where the sidebar draws it, and a disabled button sends no form.
pub mod Ends
pub mod Turns
pub mod Runs
use concordia_chat_app.Prelude.{
  ℕ, zero, suc, ◌+◌, Bool, true, false, not, ◌&&◌, ◌||◌, Option, none, some, List, [], ◌∷◌, String,
}
use concordia_chat_app.Prelude.Tests.{eqb, is_empty, is_some, if◌then◌else◌}
use concordia_chat_app.Prelude.Text.{trim}
use concordia_chat_app.Prelude.Lists.{get_elem?}
use concordia_chat_app.Http.{Reply, is_ok}
use concordia_chat_app.Servers.{
  Server, Sidebar, Tab, create, join, Attempt, nothing, settled, asks, close_modal, push,
  start_fetch, finish_fetch, start_create, finish_create, start_join, finish_join, finish_details,
  join_done,
}

-- The sidebar with the number of fetches and of creations under way and, for a join under way, the
-- id of the server by the request that it waits for.
pub record Session : Type 0 where
  pub sidebar : Sidebar
  pub fetches : ℕ
  pub creates : ℕ
  pub joins_asked : List String
  pub details_asked : List String
  pub lists_asked : List String

-- `useState` and the effect of the first rendering.
abbrev pub opened : Session
opened = record {
  sidebar = record {
    servers = [];
    loading = true;
    error = none;
    modal_open = false;
    modal_tab = create;
    new_name = "";
    creating = false;
    create_error = none;
    join_id = "";
    joining = false;
    join_error = none;
    pushed = [];
  };
  fetches = 1;
  creates = 0;
  joins_asked = [];
  details_asked = [];
  lists_asked = [];
}

-- What the modal shows.
unfoldable pub create_shown : Sidebar → Bool
create_shown s = s.modal_open && elim s.modal_tab [ create ↦ true | join ↦ false ]

unfoldable pub join_shown : Sidebar → Bool
join_shown s = s.modal_open && elim s.modal_tab [ create ↦ false | join ↦ true ]

-- The form of a new server.
unfoldable pub submit_create : Session → Session
unfolding create_shown start_create
submit_create s =
    if create_shown s.sidebar && not (s.sidebar.creating || is_empty (trim s.sidebar.new_name))
    then elim (start_create s.sidebar) [
      | none ↦ s
      | some t ↦ record s { sidebar = t; creates = suc s.creates }
    ]
    else s

unfoldable pub on_created : Reply Server → Session → Session
unfolding finish_create
on_created r s = elim s.creates [
  | zero ↦ s
  | suc n ↦ record s { sidebar = finish_create r s.sidebar; creates = n }
]

-- The form of a join.
unfoldable pub submit_join : Session → Session
unfolding join_shown start_join
submit_join s =
    if join_shown s.sidebar && not (s.sidebar.joining || is_empty (trim s.sidebar.join_id))
    then elim (start_join s.sidebar) [
      | nothing ↦ s
      | settled t ↦ record s { sidebar = t }
      | asks id t ↦ record s { sidebar = t; joins_asked = id ∷ s.joins_asked }
    ]
    else s

-- The join is taken, or the user is in the server already.
unfoldable pub is_in : Reply (Unit {0}) → Bool
is_in none = false
is_in (some r) = is_ok r || eqb r.status 409

-- A reply with a bad status.
unfoldable pub is_refused : {A : Type 0} → Reply A → Bool
is_refused none = false
is_refused (some r) = not (is_ok r)

-- The three replies that `handleJoin` waits for, in turn.
unfoldable pub on_joined : Reply (Unit {0}) → Session → Session
unfolding is_in finish_join
on_joined r s = elim s.joins_asked [
  | [] ↦ s
  | id ∷ rest ↦
      if is_in r
      then record s { joins_asked = rest; details_asked = id ∷ s.details_asked }
      else record s { sidebar = finish_join id r none none s.sidebar; joins_asked = rest }
]

unfoldable pub on_details : Reply Server → Session → Session
unfolding is_refused finish_details start_fetch
on_details r s = elim s.details_asked [
  | [] ↦ s
  | id ∷ rest ↦
      if is_refused r
      then record s {
        sidebar = start_fetch s.sidebar;
        details_asked = rest;
        lists_asked = id ∷ s.lists_asked;
      }
      else record s { sidebar = finish_details id r none s.sidebar; details_asked = rest }
]

unfoldable pub on_list : Reply (List Server) → Session → Session
unfolding finish_fetch close_modal push
on_list r s = elim s.lists_asked [
  | [] ↦ s
  | id ∷ rest ↦ record s { sidebar = join_done id (finish_fetch r s.sidebar); lists_asked = rest }
]

-- The button "Retry", which stands under an error.
unfoldable pub retry : Session → Session
unfolding start_fetch
retry s =
    if is_some s.sidebar.error
    then record s { sidebar = start_fetch s.sidebar; fetches = suc s.fetches }
    else s

unfoldable pub on_fetched : Reply (List Server) → Session → Session
unfolding finish_fetch
on_fetched r s = elim s.fetches [
  | zero ↦ s
  | suc n ↦ record s { sidebar = finish_fetch r s.sidebar; fetches = n }
]

-- The icons of the servers.
unfoldable pub icons : Sidebar → List Server
icons s = if not s.loading && not (is_some s.error) then s.servers else []

unfoldable pub click_icon : ℕ → Sidebar → Sidebar
unfolding icons get_elem? push
click_icon i s = elim (get_elem? (icons s) i) [ none ↦ s | some server ↦ push server.server_id s ]

pub data Event : Type 0 where
  icon_clicked : ℕ → Event
  plus_clicked cancel_clicked : Event
  tab_chosen : Tab → Event
  name_typed id_typed : String → Event
  create_sent join_sent retry_clicked : Event
  created : Reply Server → Event
  joined : Reply (Unit {0}) → Event
  detailed : Reply Server → Event
  listed fetched : Reply (List Server) → Event

unfoldable pub step : Event → Session → Session
unfolding click_icon close_modal
step (icon_clicked i) s = record s { sidebar = click_icon i s.sidebar }
step plus_clicked s =
    if not s.sidebar.loading
    then record s { sidebar = record s.sidebar { modal_open = true } }
    else s
step cancel_clicked s =
    if s.sidebar.modal_open then record s { sidebar = close_modal s.sidebar } else s
step (tab_chosen tab) s =
    if s.sidebar.modal_open then record s { sidebar = record s.sidebar { modal_tab = tab } } else s
step (name_typed text) s =
    if create_shown s.sidebar
    then record s { sidebar = record s.sidebar { new_name = text } }
    else s
step (id_typed text) s =
    if join_shown s.sidebar then record s { sidebar = record s.sidebar { join_id = text } } else s
step create_sent s = submit_create s
step join_sent s = submit_join s
step retry_clicked s = retry s
step (created r) s = on_created r s
step (joined r) s = on_joined r s
step (detailed r) s = on_details r s
step (listed r) s = on_list r s
step (fetched r) s = on_fetched r s

unfoldable pub run : List Event → Session → Session
unfolding step
run [] s = s
run (e ∷ es) s = run es (step e s)

-- ===== src/Servers/Screen.antt =====
-- ServerSidebar.tsx: what the sidebar and its modal draw, without styles. `upper` is `toUpperCase`,
-- and the first character of a name stands for its first code unit.
use concordia_chat_app.Prelude.{
  ℕ, suc, ◌≡◌, refl, Bool, true, false, not, ◌||◌, Option, none, some, List, map, String, ◌==◌, ◌↔◌,
  eq_iff, arith,
}
use concordia_chat_app.Prelude.Tests.{truthy, is_empty, if◌then◌else◌}
use concordia_chat_app.Prelude.Text.{trim, slice}
use concordia_chat_app.Servers.{Server, Sidebar, Tab, create, join, start_create}
use concordia_chat_app.Servers.Color.{server_color}
use concordia_chat_app.Servers.Active.{active_server_id}
use concordia_chat_app.Servers.Session.{Session, icons, create_shown, submit_create}

pub record Icon : Type 0 where
  pub server_id : String
  pub title : String
  pub initial : String
  pub color : Option String
  pub is_active : Bool

-- A tab of the modal with its form.
pub record Form : Type 0 where
  pub tab : Tab
  pub heading : String
  pub placeholder : String
  pub value : String
  pub max_length : ℕ
  pub failure : Option String
  pub text : String
  pub disabled : Bool

pub record Screen : Type 0 where
  pub skeleton : Bool
  pub retry : Bool
  pub icons : List Icon
  pub plus : Bool
  pub tips_active : Bool
  pub modal : Option Form

abbrev shown : Option String → Option String
shown text = if truthy text then text else none

abbrev is_id : Option String → String → Bool
is_id none id = false
is_id (some a) id = id == a

unfoldable pub create_form : Sidebar → Form
create_form s = record {
  tab = create;
  heading = "Create a Server";
  placeholder = "Server name";
  value = s.new_name;
  max_length = 100;
  failure = shown s.create_error;
  text = if s.creating then "Creating…" else "Create";
  disabled = s.creating || is_empty (trim s.new_name);
}

unfoldable pub join_form : Sidebar → Form
join_form s = record {
  tab = join;
  heading = "Join a Server";
  placeholder = "Server ID (UUID)";
  value = s.join_id;
  max_length = 64;
  failure = shown s.join_error;
  text = if s.joining then "Joining…" else "Join";
  disabled = s.joining || is_empty (trim s.join_id);
}

unfoldable pub form : Sidebar → Option Form
unfolding create_form join_form
form s =
    if s.modal_open
    then some (elim s.modal_tab [ create ↦ create_form s | join ↦ join_form s ])
    else none

module _ (upper : String → String) where
  -- `serverInitial`
  unfoldable pub server_initial : String → String
  unfolding slice
  server_initial name = upper (slice 1 (trim name))

  unfoldable pub icon : Option String → Server → Icon
  unfolding server_initial server_color
  icon active s = record {
    server_id = s.server_id;
    title = s.name;
    initial = server_initial s.name;
    color = server_color s.server_id;
    is_active = is_id active s.server_id;
  }

  unfoldable pub screen : String → Sidebar → Screen
  unfolding icons icon form active_server_id
  screen pathname s = record {
    skeleton = s.loading;
    retry = truthy s.error;
    icons = map (icon (active_server_id pathname)) (icons s);
    plus = not s.loading;
    tips_active = pathname == "/app/tips";
    modal = form s;
  }

-- Where the modal shows the form of a new server, its button decides: disabled, the form is not sent,
-- and enabled, a creation is under way.
pub submit_create-create_form :
    (s : Session)
    → create_shown s.sidebar ≡ true
    → ((create_form s.sidebar).disabled ≡ true → submit_create s ≡ s)
      × ((create_form s.sidebar).disabled ≡ false → (submit_create s).creates ≡ suc s.creates)
unfolding create_form submit_create start_create
submit_create-create_form s shows = (
  λ off. rw (shows, off) refl,
  λ on.
      let named : is_empty (trim s.sidebar.new_name) ≡ false = ground (arith, on) in
      rw (shows, on, named) refl,
)

-- An icon is drawn as active exactly for the server of the address.
pub icon-is_active :
    (upper : String → String) (id : String) (s : Server)
    → ((icon upper (some id) s).is_active ≡ true) ↔ (s.server_id ≡ id)
unfolding icon
icon-is_active upper id s = eq_iff s.server_id id

-- ===== src/Channels/Screen.antt =====
-- ChannelSidebar.tsx: what the sidebar and its modal draw, without styles. `upper` is `toUpperCase`,
-- and the first character of a name stands for its first code unit.
use concordia_chat_app.Prelude.{
  ◌≡◌, refl, ap, Bool, true, false, ◌||◌, Option, none, some, List, [], ◌∷◌, ◌++◌, map, String,
  ◌==◌, arith,
}
use concordia_chat_app.Prelude.Tests.{truthy, is_empty, if◌then◌else◌}
use concordia_chat_app.Prelude.Text.{trim, slice}
use concordia_chat_app.Chat.{ChannelType, text, voice, CurrentUser}
use concordia_chat_app.Channels.{Channel, Channels, start_create}
use concordia_chat_app.Channels.Panel.{Sections, panel}
use concordia_chat_app.Channels.Session.{Session, submit, asked}
use concordia_chat_app.Servers.Active.{active_channel_id}

pub record Row : Type 0 where
  pub channel_id : String
  pub name : String
  pub is_active : Bool

-- A section with its rows, and the notice where it has none.
pub record Section : Type 0 where
  pub title : String
  pub rows : List Row
  pub notice : Option String
  pub plus : Option String

-- The bar of the user; the bell is there in the desktop application only.
pub record UserBar : Type 0 where
  pub initial : String
  pub name : String
  pub bell : Option String

pub record Form : Type 0 where
  pub chosen : ChannelType
  pub placeholder : String
  pub value : String
  pub failure : Option String
  pub text : String
  pub disabled : Bool

pub record Screen : Type 0 where
  pub header : String
  pub skeleton : Bool
  pub failure : Option String
  pub sections : List Section
  pub user_bar : UserBar
  pub modal : Option Form

abbrev is_id : Option String → String → Bool
is_id none id = false
is_id (some a) id = id == a

abbrev row : Option String → Channel → Row
row active c = record {
  channel_id = c.channel_id;
  name = c.name;
  is_active = is_id active c.channel_id;
}

abbrev when : Bool → String → Option String
when b title = if b then some title else none

abbrev none_of : List Channel → String → Option String
none_of [] notice = some notice
none_of (c ∷ cs) notice = none

unfoldable pub sections_of : Option String → Sections → List Section
sections_of active s =
    (record {
      title = "Text Channels";
      rows = map (row active) s.texts;
      notice = none_of s.texts "No text channels";
      plus = when s.can_create "Create Text Channel";
    })
    ∷ (record {
      title = "Voice Channels";
      rows = map (row active) s.voices;
      notice = none_of s.voices "No voice channels";
      plus = when s.can_create "Create Voice Channel";
    })
    ∷ []

unfoldable pub form : Channels → Form
form s = record {
  chosen = s.new_type;
  placeholder = elim s.new_type [ text ↦ "channel-name" | voice ↦ "Voice channel" ];
  value = s.new_name;
  failure = if truthy s.create_error then s.create_error else none;
  text = if s.creating then "Creating…" else "Create";
  disabled = s.creating || is_empty (trim s.new_name);
}

module _ (upper : String → String) where
  unfoldable pub user_bar : Bool → Bool → Option CurrentUser → UserBar
  unfolding slice
  user_bar in_desktop enabled user = record {
    initial = elim user [ none ↦ "U" | some u ↦ upper (slice 1 (trim u.username)) ];
    name = elim user [ none ↦ "username" | some u ↦ u.username ];
    bell =
        if in_desktop
        then some (if enabled then "Disable Notifications" else "Enable Notifications")
        else none;
  }

  unfoldable pub screen : String → Bool → Bool → Channels → Screen
  unfolding panel sections_of form user_bar active_channel_id
  screen pathname in_desktop enabled s = record {
    header = (panel s).header;
    skeleton = (panel s).skeleton;
    failure = (panel s).failure;
    sections = elim (panel s).sections [
      | none ↦ []
      | some parts ↦ sections_of (active_channel_id pathname) parts
    ];
    user_bar = user_bar in_desktop enabled s.current_user;
    modal = if s.modal_open then some (form s) else none;
  }

-- Where the modal stands, its button decides: disabled, the form is not sent, and enabled, a creation
-- is under way for the server of the address.
pub submit-form :
    (s : Session) (id : String)
    → s.channels.modal_open ≡ true
    → s.channels.server_id ≡ some id
    → is_empty id ≡ false
    → ((form s.channels).disabled ≡ true → submit s ≡ s)
      × ((form s.channels).disabled ≡ false → (submit s).creates ≡ s.creates ++ id ∷ [])
unfolding form submit start_create
submit-form s id opened here named = (
  λ off. rw (opened, off) refl,
  λ on.
      let titled : is_empty (trim s.channels.new_name) ≡ false = ground (arith, on) in
      rw (opened, on)
        (rw (here, start_create) (rw (titled, named) (ap (λ o. s.creates ++ asked o) here))),
)

-- ===== src/Channels/Session.antt =====
-- ChannelSidebar.tsx: the sidebar with its modal, over moves of the address, and the requests that it
-- has under way, each with the server that it was made for. A button takes part only where the
-- sidebar draws it, and a disabled button sends no form.
pub mod Ends
pub mod Awaits
pub mod Turns
pub mod Runs
use concordia_chat_app.Prelude.{
  ℕ, zero, suc, Bool, true, false, not, ◌&&◌, ◌||◌, Option, none, some, List, [], ◌∷◌, ◌++◌, String,
  ◌==◌,
}
use concordia_chat_app.Prelude.Lists.{get_elem?, remove_at}
use concordia_chat_app.Prelude.Tests.{is_empty, or_else, truthy, if◌then◌else◌}
use concordia_chat_app.Prelude.Text.{trim}
use concordia_chat_app.Http.{Reply}
use concordia_chat_app.Chat.{ChannelType, text, voice, CurrentUser}
use concordia_chat_app.Servers.Active.{channel_path}
use concordia_chat_app.Channels.{
  Channel, Server, Member, Channels, visit, start_data, finish_data, open_modal, close_modal,
  start_create, finish_create, can_manage_channels,
}
use concordia_chat_app.Channels.Panel.{Panel, Sections, panel}

-- The four replies that a load waits for.
pub record Load : Type 0 where
  pub channels : Reply (List Channel)
  pub server : Reply Server
  pub user : Reply CurrentUser
  pub members : Reply (List Member)

-- The sidebar; the servers of the loads and of the creations under way, the oldest first; and the
-- addresses pushed, the latest first.
pub record Session : Type 0 where
  pub channels : Channels
  pub loads : List String
  pub creates : List String
  pub pushed : List String

-- `useState`, before the effect of the first rendering.
abbrev pub opened : Session
opened = record {
  channels = record {
    server_id = none;
    channels = [];
    server = none;
    current_user = none;
    has_manage_role = false;
    loading = false;
    error = none;
    modal_open = false;
    new_name = "";
    new_type = text;
    creating = false;
    create_error = none;
  };
  loads = [];
  creates = [];
  pushed = [];
}

-- Whether a dependency of the effect stays as it was.
abbrev pub same_id : Option String → Option String → Bool
same_id none none = true
same_id none (some b) = false
same_id (some a) none = false
same_id (some a) (some b) = a == b

abbrev pub asked : Option String → List String
asked none = []
asked (some id) = id ∷ []

-- A move of the address, with the effect that follows a change of the server in it.
unfoldable pub move : Option String → Session → Session
unfolding visit
move id s =
    if same_id id s.channels.server_id
    then s
    else record s { channels = visit id s.channels; loads = s.loads ++ asked id }

-- The replies to one of the loads, counted from the oldest.
unfoldable pub on_loaded : ℕ → Load → Session → Session
unfolding finish_data get_elem? remove_at
on_loaded i l s = elim (get_elem? s.loads i) [
  | none ↦ s
  | some id ↦ record s {
    channels = finish_data l.channels l.server l.user l.members s.channels;
    loads = remove_at i s.loads;
  }
]

-- "Retry", which stands under an error.
unfoldable pub retry : Session → Session
unfolding start_data
retry s =
    if not s.channels.loading && truthy s.channels.error && truthy s.channels.server_id
    then record s {
      channels = start_data s.channels;
      loads = s.loads ++ asked s.channels.server_id;
    }
    else s

-- The "+" of a section.
unfoldable pub click_plus : ChannelType → Session → Session
unfolding panel open_modal
click_plus type s = elim (panel s.channels).sections [
  | none ↦ s
  | some sections ↦
      if sections.can_create then record s { channels = open_modal type s.channels } else s
]

-- The form of the modal.
unfoldable pub submit : Session → Session
unfolding start_create
submit s =
    if s.channels.modal_open && not (s.channels.creating || is_empty (trim s.channels.new_name))
    then elim (start_create s.channels) [
      | none ↦ s
      | some t ↦ record s { channels = t; creates = s.creates ++ asked s.channels.server_id }
    ]
    else s

unfoldable pub on_created : Reply Channel → Session → Session
unfolding finish_create
on_created r s = elim s.creates [
  | [] ↦ s
  | id ∷ rest ↦ record s { channels = finish_create r s.channels; creates = rest }
]

-- A row of one of the two sections.
unfoldable pub click_channel : ChannelType → ℕ → Session → Session
unfolding panel get_elem?
click_channel type i s = elim (panel s.channels).sections [
  | none ↦ s
  | some sections ↦
      elim (get_elem? (elim type [ text ↦ sections.texts | voice ↦ sections.voices ]) i) [
        | none ↦ s
        | some ch ↦ record s {
          pushed = channel_path (or_else s.channels.server_id "") ch.channel_id ∷ s.pushed;
        }
      ]
]

pub data Event : Type 0 where
  moved : Option String → Event
  loaded : ℕ → Load → Event
  retried : Event
  plus_clicked : ChannelType → Event
  cancelled : Event
  typed : String → Event
  type_chosen : ChannelType → Event
  sent : Event
  created : Reply Channel → Event
  channel_clicked : ChannelType → ℕ → Event

-- What happens in the modal.
abbrev pub in_modal : (Channels → Channels) → Session → Session
in_modal f s = if s.channels.modal_open then record s { channels = f s.channels } else s

unfoldable pub step : Event → Session → Session
unfolding close_modal
step (moved id) s = move id s
step (loaded i l) s = on_loaded i l s
step retried s = retry s
step (plus_clicked type) s = click_plus type s
step cancelled s = in_modal close_modal s
step (typed name) s = in_modal (λ c. record c { new_name = name }) s
step (type_chosen type) s = in_modal (λ c. record c { new_type = type }) s
step sent s = submit s
step (created r) s = on_created r s
step (channel_clicked type i) s = click_channel type i s

unfoldable pub run : List Event → Session → Session
unfolding step
run [] s = s
run (e ∷ es) s = run es (step e s)

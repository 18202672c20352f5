-- ===== src/Channels.antt =====
-- apps/web-app/app/components/ChannelSidebar.tsx: the channels of the server in the address, who may
-- manage them, and creating one. A request ends a step; its reply is an argument of the next one.
pub mod Loading
pub mod Creation
pub mod Panel
pub mod Session
pub mod Screen
mod Tests
use concordia_chat_app.Prelude.{
  ℕ, Bool, true, false, not, ◌&&◌, ◌||◌, Option, none, some, List, [], ◌∷◌, ◌++◌, String, ◌==◌,
}
use concordia_chat_app.Prelude.Lists.{filter, find?, length}
use concordia_chat_app.Prelude.Tests.{eqb, ltb, is_empty, if◌then◌else◌}
use concordia_chat_app.Prelude.Text.{trim}
use concordia_chat_app.Http.{Response, Reply, is_ok}
use concordia_chat_app.Chat.{ChannelType, text, voice, CurrentUser}

pub record Channel : Type 0 where
  pub channel_id : String
  pub name : String
  pub type : ChannelType
  pub server_id : String

pub record Server : Type 0 where
  pub server_id : String
  pub name : String
  pub owner_id : String

pub record Member : Type 0 where
  pub user_id : String
  pub username : String
  pub roles : Option (List String)

-- `server_id` is the server of the address, if it has one.
pub record Channels : Type 0 where
  pub server_id : Option String
  pub channels : List Channel
  pub server : Option Server
  pub current_user : Option CurrentUser
  pub has_manage_role : Bool
  pub loading : Bool
  pub error : Option String
  pub modal_open : Bool
  pub new_name : String
  pub new_type : ChannelType
  pub creating : Bool
  pub create_error : Option String

abbrev pub load_failed : Channels → Channels
load_failed s = record s { error = some "Failed to load channels"; loading = false }

abbrev pub load_ended : Channels → Channels
load_ended s = record s { loading = false }

-- `(memberEntry?.roles?.length ?? 0) > 0`
unfoldable pub has_role : String → List Member → Bool
unfolding find?
has_role id members = elim (find? (λ m. m.user_id == id) members) [
  | none ↦ false
  | some m ↦ elim m.roles [ none ↦ false | some roles ↦ ltb 0 (length roles) ]
]

-- `fetchData`, up to its four requests.
unfoldable pub start_data : Channels → Channels
start_data s = record s { loading = true; error = none }

-- `fetchData` where the user is known: the roles.
unfoldable pub finish_members : CurrentUser → Response (List Member) → Channels → Channels
unfolding has_role
finish_members u m s =
    if is_ok m
    then elim m.json [
      | none ↦ load_failed s
      | some members ↦ load_ended (record s { has_manage_role = has_role u.user_id members })
    ]
    else load_ended s

-- `fetchData` where the channels and the server are shown: the user.
unfoldable pub finish_user : Response CurrentUser → Response (List Member) → Channels → Channels
unfolding finish_members
finish_user u m s =
    if is_ok u
    then elim u.json [
      | none ↦ load_failed s
      | some user ↦ finish_members user m (record s { current_user = some user })
    ]
    else load_ended s

unfoldable pub finish_lists :
    Response (List Channel)
    → Response Server
    → Response CurrentUser
    → Response (List Member)
    → Channels
    → Channels
unfolding finish_user
finish_lists c v u m s =
    if not (is_ok c) then load_failed s else if not (is_ok v) then load_failed s else elim c.json [
      | none ↦ load_failed s
      | some list ↦ elim v.json [
        | none ↦ load_failed s
        | some server ↦ finish_user u m (record s { channels = list; server = some server })
      ]
    ]

-- `fetchData` from the four replies on; one that did not come fails all.
unfoldable pub finish_data :
    Reply (List Channel)
    → Reply Server
    → Reply CurrentUser
    → Reply (List Member)
    → Channels
    → Channels
unfolding finish_lists
finish_data none v u m s = load_failed s
finish_data (some c) none u m s = load_failed s
finish_data (some c) (some v) none m s = load_failed s
finish_data (some c) (some v) (some u) none s = load_failed s
finish_data (some c) (some v) (some u) (some m) s = finish_lists c v u m s

-- The effect that a change of the address runs, up to the requests.
unfoldable pub visit : Option String → Channels → Channels
unfolding start_data
visit (some id) s = start_data (record s { server_id = some id })
visit none s = record s {
  server_id = none;
  channels = [];
  server = none;
  has_manage_role = false;
  loading = false;
  error = none;
}

unfoldable pub open_modal : ChannelType → Channels → Channels
open_modal type s = record s {
  new_type = type;
  new_name = "";
  create_error = none;
  modal_open = true;
}

unfoldable pub close_modal : Channels → Channels
close_modal s = record s { modal_open = false; new_name = ""; create_error = none }

-- `handleCreate` up to the request; `none` means that none is made.
unfoldable pub start_create : Channels → Option Channels
start_create s = elim s.server_id [
  | none ↦ none
  | some id ↦
      if is_empty (trim s.new_name) || is_empty id
      then none
      else some (record s { creating = true; create_error = none })
]

abbrev pub create_failed : String → Channels → Channels
create_failed reason s = record s { create_error = some reason; creating = false }

-- `handleCreate` from the reply on, the `finally` block included.
unfoldable pub finish_create : Reply Channel → Channels → Channels
unfolding close_modal
finish_create none s = create_failed "Failed to create channel" s
finish_create (some r) s =
    if eqb r.status 403
    then create_failed "You don't have permission to create channels" s
    else if is_ok r
    then elim r.json [
      | none ↦ create_failed "Failed to create channel" s
      | some created ↦ record (close_modal (record s { channels = s.channels ++ created ∷ [] })) {
        creating = false;
      }
    ]
    else create_failed "Failed to create channel" s

-- `isOwner` and `canManageChannels`
unfoldable pub is_owner : Channels → Bool
is_owner s = elim s.current_user [
  | none ↦ false
  | some user ↦ elim s.server [ none ↦ false | some server ↦ user.user_id == server.owner_id ]
]

unfoldable pub can_manage_channels : Channels → Bool
unfolding is_owner
can_manage_channels s = is_owner s || s.has_manage_role

abbrev pub is_text : Channel → Bool
is_text c = elim c.type [ text ↦ true | voice ↦ false ]

-- `textChannels` and `voiceChannels`
unfoldable pub text_channels : Channels → List Channel
unfolding filter
text_channels s = filter is_text s.channels

unfoldable pub voice_channels : Channels → List Channel
unfolding filter
voice_channels s = filter (λ c. not (is_text c)) s.channels

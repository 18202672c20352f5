-- ===== src/Chat.antt =====
-- apps/web-app/app/components/ChannelView.tsx: the messages that a channel shows beyond those
-- fetched, that is what the WebSocket pushes and what the user is sending.
-- Each `await` ends a step: `send` is the part of `handleSend` before the POST, `settle` the part
-- after it, so that frames may arrive between the two. A frame carries the channel of the closure
-- that receives it. `sending` lists the POSTs under way; the source keeps them as suspended calls.
pub mod Delivery
pub mod Order
pub mod Spec
pub mod Socket
mod Tests
use concordia_chat_app.Prelude.{
  ℕ, Bool, true, false, ◌&&◌, ◌||◌, Option, none, some, List, [], ◌∷◌, ◌++◌, String, ◌==◌,
}
use concordia_chat_app.Prelude.Keyed.{has, without, replace}
use concordia_chat_app.Prelude.Lists.{find?}
use concordia_chat_app.Prelude.Tests.{eqb, if◌then◌else◌}
use concordia_chat_app.Prelude.Text.{◌&◌, decimal}
use concordia_chat_app.Http.{Response, Reply, is_ok}

pub data ChannelType : Type 0 where
  text voice : ChannelType

pub record Channel : Type 0 where
  pub channel_id : String
  pub name : String
  pub type : ChannelType

pub record CurrentUser : Type 0 where
  pub user_id : String
  pub username : String

pub record Message : Type 0 where
  pub message_id : String
  pub channel_id : String
  pub author_id : String
  pub content : String
  pub created_at : String
  pub username : Option String

abbrev pub id_of : Message → String
id_of m = m.message_id

-- A POST under way: the placeholder's id, and the user that the closure of `handleSend` saw.
pub record Sending : Type 0 where
  pub temp_id : String
  pub user : CurrentUser

abbrev pub temp_of : Sending → String
temp_of p = p.temp_id

pub record View : Type 0 where
  pub channel_id : String
  pub channel : Option Channel
  pub current_user : Option CurrentUser
  pub extra_messages : List Message
  pub sending : List Sending

-- The data of a WebSocket frame; `payload` is absent where `data.payload` is.
pub record Frame : Type 0 where
  pub type : String
  pub payload : Option Message

-- The continuation of `Promise.all` in the first effect, in the closure of the channel `ch`.
unfoldable pub load_user : Response CurrentUser → View → View
load_user r v =
    if is_ok r then elim r.json [ none ↦ v | some u ↦ record v { current_user = some u } ] else v

unfoldable pub load_channel : String → Response (List Channel) → Response CurrentUser → View → View
unfolding load_user find?
load_channel ch c u v =
    if is_ok c
    then elim c.json [
      | none ↦ v
      | some list ↦ load_user u (record v { channel = find? (λ x. x.channel_id == ch) list })
    ]
    else load_user u v

unfoldable pub load : String → Reply (List Channel) → Reply CurrentUser → View → View
unfolding load_channel
load ch none u v = v
load ch (some c) none v = v
load ch (some c) (some u) v = load_channel ch c u v

-- The updater of `setExtraMessages` in `ws.onmessage`.
unfoldable pub append_new : Message → List Message → List Message
append_new m prev = if has id_of m.message_id prev then prev else prev ++ m ∷ []

-- `ws.onmessage`, in the closure of the channel `ch`; `none` is a frame that is no JSON.
unfoldable pub on_message : String → Option Frame → View → View
unfolding append_new
on_message ch none v = v
on_message ch (some f) v =
    if f.type == "new_message"
    then elim f.payload [
      | none ↦ v
      | some m ↦
          if m.channel_id == ch
          then record v { extra_messages = append_new m v.extra_messages }
          else v
    ]
    else v

-- `opt-${Date.now()}`
unfoldable pub temp_id_at : ℕ → String
temp_id_at now = "opt-" & decimal now

unfoldable pub optimistic : String → CurrentUser → String → ℕ → String → Message
optimistic ch user content now iso = record {
  message_id = temp_id_at now;
  channel_id = ch;
  author_id = user.user_id;
  content = content;
  created_at = iso;
  username = some user.username;
}

-- `handleSend` up to the POST.
unfoldable pub send : String → ℕ → String → View → View
unfolding optimistic
send content now iso v = elim v.current_user [
  | none ↦ v
  | some user ↦ record v {
    extra_messages = v.extra_messages ++ optimistic v.channel_id user content now iso ∷ [];
    sending = v.sending ++ (record { temp_id = temp_id_at now; user = user }) ∷ [];
  }
]

-- The updater after a successful POST.
unfoldable pub confirm : Sending → Message → List Message → List Message
confirm p real prev =
    if has id_of real.message_id prev
    then without id_of p.temp_id prev
    else replace id_of p.temp_id (record real { username = some p.user.username }) prev

-- What the reply does to the messages: the three ways out of `handleSend`.
unfoldable pub settle_messages : Sending → Reply Message → List Message → List Message
unfolding confirm
settle_messages p none prev = without id_of p.temp_id prev
settle_messages p (some r) prev =
    if is_ok r || eqb r.status 201
    then elim r.json [ none ↦ without id_of p.temp_id prev | some real ↦ confirm p real prev ]
    else without id_of p.temp_id prev

-- `handleSend` from the reply on.
unfoldable pub settle : Sending → Reply Message → View → View
settle p reply v = record v {
  extra_messages = settle_messages p reply v.extra_messages;
  sending = without temp_of p.temp_id v.sending;
}

-- The effect that a change of `channelId` runs.
unfoldable pub navigate : String → View → View
navigate ch v = record v { channel_id = ch; extra_messages = [] }

pub data Event : Type 0 where
  frame : String → Option Frame → Event
  submit : String → ℕ → String → Event
  reply : Sending → Reply Message → Event
  move : String → Event
  info : String → Reply (List Channel) → Reply CurrentUser → Event

unfoldable pub step : Event → View → View
step (frame ch f) v = on_message ch f v
step (submit content now iso) v = send content now iso v
step (reply p r) v = settle p r v
step (move ch) v = navigate ch v
step (info ch c u) v = load ch c u v

unfoldable pub run : List Event → View → View
run [] v = v
run (e ∷ es) v = run es (step e v)

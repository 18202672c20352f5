-- ===== src/Room.antt =====
-- apps/web-app/app/components/ChannelView.tsx with the two components that it shows for a text
-- channel: MessageInput, whose `onSend` is its `handleSend`, and MessageList, which it gives its
-- extra messages. The parts change together as the calls between them go.
pub mod Fetched
pub mod Steps
pub mod Once
pub mod Delivered
mod Tests
use concordia_chat_app.Prelude.{
  ℕ, Bool, true, false, not, ◌||◌, ◌&&◌, Option, none, some, List, [], ◌∷◌, String, ◌==◌,
}
use concordia_chat_app.Prelude.Tests.{is_empty, if◌then◌else◌}
use concordia_chat_app.Prelude.Text.{trim}
use concordia_chat_app.Http.{Reply}
use concordia_chat_app.Chat.{Channel, CurrentUser, View, Message, Frame, Channel, voice, text}
use concordia_chat_app.Chat
use concordia_chat_app.Composer
use concordia_chat_app.Composer.{Composer}
use concordia_chat_app.Timeline
use concordia_chat_app.Timeline.{Timeline, MessagesResponse, all_messages}

pub record Room : Type 0 where
  pub view : View
  pub composer : Composer
  pub timeline : Timeline

-- What the list shows.
abbrev pub displayed : Room → List Message
displayed r = all_messages r.timeline.messages r.view.extra_messages

-- `onSend` in the same turn: `handleSend` returns at once where the user is not known, and the
-- field's call of it then ends.
unfoldable pub on_send : String → ℕ → String → Room → Room
on_send content now iso r = elim r.view.current_user [
  | none ↦ record r { composer = Composer.send_ended r.composer }
  | some user ↦ record r { view = Chat.send content now iso r.view }
]

-- Enter or a click on the button: the field hands its text over, where it may.
unfoldable pub submit : ℕ → String → Room → Room
unfolding on_send
submit now iso r =
    if Composer.send_disabled r.composer
    then r
    else on_send (trim r.composer.text) now iso
        (record r { composer = Composer.handle_send r.composer })

-- The reply to the POST under way, which ends the field's call of `onSend` too.
unfoldable pub answer : Reply Message → Room → Room
answer reply r = elim r.view.sending [
  | [] ↦ r
  | p ∷ ps ↦ record r {
    view = Chat.settle p reply r.view;
    composer = Composer.send_ended r.composer;
  }
]

-- The events of the page. A frame carries the channel of the closure that receives it, as do
-- the replies to the first two requests.
pub data Event : Type 0 where
  typed : String → Event
  submitted : ℕ → String → Event
  answered : Reply Message → Event
  framed : String → Option Frame → Event
  informed : String → Reply (List Channel) → Reply CurrentUser → Event
  moved : String → Event
  opened : Reply MessagesResponse → Event
  scrolled : Event
  older : Reply MessagesResponse → Event
  delete_asked : String → Event
  deleted : String → Reply (Unit {0}) → Event

unfoldable pub step : Event → Room → Room
unfolding submit answer
step (typed value) r = record r { composer = Composer.handle_input value r.composer }
step (submitted now iso) r = submit now iso r
step (answered reply) r = answer reply r
step (framed ch f) r = record r { view = Chat.on_message ch f r.view }
step (informed ch c u) r = record r { view = Chat.load ch c u r.view }
step (moved ch) r = record r {
  view = Chat.navigate ch r.view;
  timeline = Timeline.start_load r.timeline;
}
step (opened reply) r = record r { timeline = Timeline.finish_load false reply r.timeline }
step scrolled r = record r { timeline = Timeline.start_more r.timeline }
step (older reply) r = record r { timeline = Timeline.end_more reply r.timeline }
step (delete_asked id) r = record r { timeline = Timeline.start_delete id r.timeline }
step (deleted id reply) r = record r { timeline = Timeline.finish_delete id reply r.timeline }

unfoldable pub run : List Event → Room → Room
run [] r = r
run (e ∷ es) r = run es (step e r)

-- ===== src/Room/Tests.antt =====
-- A text channel's page: its theorems at a concrete channel.
use concordia_chat_app.Prelude.{
  ◌≡◌, ◌≢◌, refl, sym, ap, subst, Bool, true, false, Option, none, some, List, [], ◌∷◌, ◌++◌,
  String, ◌==◌, eq_iff,
}
use concordia_chat_app.Prelude.Keyed.{IsUnique}
use concordia_chat_app.Prelude.Lists.{All, filter}
use concordia_chat_app.Prelude.Text.{decimal, trim}
use concordia_chat_app.Http.{Response, Reply}
use concordia_chat_app.Chat.{Message, CurrentUser, id_of, temp_id_at, send, settle, on_message}
use concordia_chat_app.Chat.Order.{echo_of, named}
use concordia_chat_app.Composer.{handle_input, handle_send, send_ended}
use concordia_chat_app.Timeline.{MessagesResponse, fetch_messages, finish_load, all_messages}
use concordia_chat_app.Room.{
  Room, Event, typed, submitted, answered, framed, opened, displayed, run, step,
}
use concordia_chat_app.Room.Fetched.{IsPage}
use concordia_chat_app.Room.Once.{FitsAll, displayed-IsUnique, displayed_real}
use concordia_chat_app.Room.Delivered.{delivered, send_failed}

abbrev user : CurrentUser
user = record { user_id = "u1"; username = "ada" }

abbrev text_of : String → Message
text_of id = record {
  message_id = id;
  channel_id = "c1";
  author_id = "u1";
  content = "hello";
  created_at = "t";
  username = none;
}

abbrev room : Room
room = record {
  view = record {
    channel_id = "c1";
    channel = none;
    current_user = some user;
    extra_messages = [];
    sending = [];
  };
  composer = record { text = ""; sending = false; uploading = false; calls = []; open_calls = 0 };
  timeline = record {
    messages = [];
    has_more = false;
    loading = true;
    loading_more = false;
    deleting_ids = [];
  };
}

abbrev is_real : String → Bool
is_real s = s == "m1"

abbrev created : Response Message
created = record { status = 201; json = some (text_of "m1") }

abbrev first_page : Reply MessagesResponse
first_page = some (record {
  status = 200;
  json = some (record { messages = text_of "m1" ∷ []; next_cursor = none; has_more = false });
})

-- The message is sent, its echo and the reply come, and the first page, which has it too.
abbrev events : List Event
events =
    typed "hello "
    ∷ submitted 7 "t"
    ∷ framed "c1" (some (echo_of (text_of "m1")))
    ∷ answered (some created)
    ∷ opened first_page
    ∷ []

abbrev names_real : Option Message → Bool
names_real none = true
names_real (some m) = is_real m.message_id

is_echo : (m : Message) → some (text_of "m1") ≡ some m → is_real m.message_id ≡ true
is_echo m h = sym (ap names_real h)

-- A page, if there is one, is of the service.
abbrev IsPageIf : Option MessagesResponse → Type 0
IsPageIf none = Unit
IsPageIf (some page) = IsPage is_real page

first_page-IsPage :
    (page : MessagesResponse) → fetch_messages first_page ≡ some page → IsPage is_real page
unfolding fetch_messages
first_page-IsPage page h = subst IsPageIf h (record { unique = (refl, tt); real_ids = (refl, tt) })

events-FitsAll : FitsAll is_real events room
unfolding temp_id_at decimal
events-FitsAll = (tt, (refl, (is_echo, (is_echo, (first_page-IsPage, tt)))))

displayed-IsUnique_example : IsUnique id_of (displayed (run events room))
displayed-IsUnique_example =
    displayed-IsUnique is_real events room (refl, refl, refl) events-FitsAll

displayed_real_example : All (λ m. is_real m.message_id ≡ true) (displayed (run events room))
unfolding run step handle_input handle_send send_ended trim send settle on_message finish_load
    fetch_messages temp_id_at decimal filter
displayed_real_example = displayed_real is_real events room (refl, refl, refl) events-FitsAll refl

is_other : (text_of "m1").message_id ≢ temp_id_at 7
unfolding temp_id_at decimal
is_other h = cc ((eq_iff "m1" "opt-7").1 h)

delivered_example :
    let sent : List Event = typed "hello " ∷ submitted 7 "t" ∷ [] in
    let echo : Event = framed "c1" (some (echo_of (text_of "m1"))) in
    let reply : Event = answered (some created) in
    let first = run (sent ++ echo ∷ reply ∷ []) room in
    let second = run (sent ++ reply ∷ echo ∷ []) room in
    (displayed first ≡ text_of "m1" ∷ [])
    × (displayed second ≡ named user (text_of "m1") ∷ [])
    × (first.composer ≡ second.composer)
    × (first.composer.text ≡ "")
    × (first.composer.sending ≡ false)
unfolding trim all_messages filter
delivered_example =
    delivered "hello " "t" 7 room user refl refl refl refl (text_of "m1") created refl refl refl
      is_other refl (refl, refl)

send_failed_example :
    let failed = run (typed "hello " ∷ submitted 7 "t" ∷ answered none ∷ []) room in
    (failed.view ≡ room.view)
    × (displayed failed ≡ displayed room)
    × (failed.composer.text ≡ "")
    × (failed.composer.sending ≡ false)
unfolding trim
send_failed_example = send_failed "hello " "t" 7 room user refl refl refl refl none refl tt

-- ===== src/Chat/Tests.antt =====
-- ChannelView.tsx: the theorems on its messages and its socket at concrete views.
use concordia_chat_app.Prelude.{
  ◌≤◌, ◌≡◌, ◌≢◌, refl, ap, sym, Bool, true, Option, none, some, List, [], ◌∷◌, ◌++◌, String, ◌==◌,
  eq_iff,
}
use concordia_chat_app.Prelude.Text.{decimal}
use concordia_chat_app.Http.{Response}
use concordia_chat_app.Chat.{
  Message, View, CurrentUser, Event, frame, submit, reply, temp_id_at, send, settle, on_message,
  run,
}
use concordia_chat_app.Chat.Delivery.{FitsAll}
use concordia_chat_app.Chat.Order.{sending_of, echo_of, named, send_race}
use concordia_chat_app.Chat.Socket
use concordia_chat_app.Chat.Socket.{Conn, Socket, Timer, on_close, fire, backoff, cleanup, switch}
use concordia_chat_app.Chat.Spec.{shown, spec_run, none_shown, run-shown}
use concordia_chat_app.Chat.Socket.Reconnect.{HasSocket, rounds, reconnects}
use concordia_chat_app.Chat.Socket.Quiet.{IsQuiet, cleanup-IsQuiet}
use concordia_chat_app.Chat.Socket.Stale.{stale_reconnect}
use concordia_chat_app.Prelude.Lists.{All, length}

abbrev user : CurrentUser
user = record { user_id = "u1"; username = "ada" }

abbrev view : View
view = record {
  channel_id = "c1";
  channel = none;
  current_user = some user;
  extra_messages = [];
  sending = [];
}

abbrev sent_message : Message
sent_message = record {
  message_id = "m1";
  channel_id = "c1";
  author_id = "u1";
  content = "hello";
  created_at = "t";
  username = none;
}

abbrev is_real : String → Bool
is_real s = s == "m1"

abbrev created : Response Message
created = record { status = 201; json = some sent_message }

-- The message is sent, its echo comes, and then the reply.
abbrev events : List Event
events =
    submit "hello" 7 "t"
    ∷ frame "c1" (some (echo_of sent_message))
    ∷ reply (sending_of 7 user) (some created)
    ∷ []

abbrev names_real : Option Message → Bool
names_real none = true
names_real (some m) = is_real m.message_id

is_echo : (m : Message) → some sent_message ≡ some m → is_real m.message_id ≡ true
is_echo m h = sym (ap names_real h)

events-FitsAll : FitsAll is_real events view
unfolding temp_id_at decimal
events-FitsAll = ((refl, refl), (is_echo, (is_echo, tt)))

is_other : sent_message.message_id ≢ temp_id_at 7
unfolding temp_id_at decimal
is_other h = cc ((eq_iff "m1" "opt-7").1 h)

send_race_example :
    ((settle
        (sending_of 7 user)
        (some created)
        (on_message "c1" (some (echo_of sent_message)) (send "hello" 7 "t" view))).extra_messages
      ≡ sent_message ∷ [])
    × ((on_message "c1"
          (some (echo_of sent_message))
          (settle (sending_of 7 user) (some created) (send "hello" 7 "t" view))).extra_messages
        ≡ named user sent_message ∷ [])
send_race_example =
    send_race view user "hello" "t" 7 sent_message created refl refl refl is_other refl (refl, refl)

-- The user has moved to the channel "c2", which shows a message of its own.
abbrev moved : View
moved = record view {
  channel_id = "c2";
  extra_messages = (record sent_message { message_id = "m2" }) ∷ [];
}

abbrev old_socket : Socket
old_socket = record { id = 4; channel_id = "c1" }

abbrev conn : Conn
conn = record {
  alive = true;
  attempts = 2;
  ws = some 4;
  timer = none;
  sockets = old_socket ∷ [];
  timers = [];
  sent = [];
  next = 5;
}

cleanup-IsQuiet_example : IsQuiet conn (Socket.run (Socket.closed old_socket ∷ []) (cleanup conn))
cleanup-IsQuiet_example = cleanup-IsQuiet (Socket.closed old_socket ∷ []) conn

stale_reconnect_example :
    let moved = switch "c2" (some "token") true conn in
    let closing = on_close old_socket moved in
    (moved.ws ≡ some 5)
    × (moved.sockets ≡ old_socket ∷ (record { id = 5; channel_id = "c2" }) ∷ [])
    × ((t : Timer) × (closing.timers ≡ t ∷ [])
        × (t.channel_id ≡ "c1")
        × ((fire t.id (some "token") true closing).ws ≡ some 7)
        × ((fire t.id (some "token") true closing).sockets
            ≡ closing.sockets ++ (record { id = 7; channel_id = "c1" }) ∷ []))
stale_reconnect_example = stale_reconnect old_socket "c2" (some "token") conn refl refl

run-shown_example : shown (run events view) ≡ spec_run events (some user) none_shown
run-shown_example = run-shown events view

-- A component with its first socket.
abbrev connected : Conn
connected = record {
  alive = true;
  attempts = 0;
  ws = some 4;
  timer = none;
  sockets = old_socket ∷ [];
  timers = [];
  sent = [];
  next = 5;
}

connected-HasSocket : HasSocket "c1" connected
connected-HasSocket = record {
  live = refl;
  socket = old_socket;
  one_socket = refl;
  current = refl;
  same = refl;
  no_timer = refl;
}

reconnects_example :
    let (last, delays) = rounds 2 (some "token") connected in
    HasSocket "c1" last
    × (last.attempts ≡ 2)
    × (length delays ≡ 2)
    × All (λ d. (1000 ≤ d) × (d ≤ 30000)) delays
reconnects_example = reconnects 2 "c1" (some "token") connected refl connected-HasSocket

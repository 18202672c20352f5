-- ===== src/Room/Steps.antt =====
-- A text channel's page: what a step does to the POST under way.
use concordia_chat_app.Prelude.{
  ℕ, ◌≡◌, refl, true, false, Option, none, some, List, [], ◌∷◌, String, arith,
}
use concordia_chat_app.Http.{Reply}
use concordia_chat_app.Chat.{
  Channel, CurrentUser, View, Message, Frame, Sending, id_of, temp_id_at, temp_of,
}
use concordia_chat_app.Chat
use concordia_chat_app.Composer
use concordia_chat_app.Composer.{Composer}
use concordia_chat_app.Room.{Room, answer}

pub answer-none : (reply : Reply Message) (r : Room) → r.view.sending ≡ [] → answer reply r ≡ r
unfolding answer
answer-none reply r e = ground arith

pub answer-one :
    (reply : Reply Message) (r : Room) (p : Sending)
    → r.view.sending ≡ p ∷ []
    → answer reply r
      ≡ record r { view = Chat.settle p reply r.view; composer = Composer.send_ended r.composer }
unfolding answer
answer-one reply r p e = ground arith

pub handle_send-sending :
    (c : Composer) → Composer.send_disabled c ≡ false → (Composer.handle_send c).sending ≡ true
unfolding Composer.handle_send
handle_send-sending c on = ground arith

pub send-sending :
    (content : String) (now : ℕ) (iso : String) (v : View) (user : Chat.CurrentUser)
    → v.current_user ≡ some user
    → v.sending ≡ []
    → (Chat.send content now iso v).sending
      ≡ (record { temp_id = temp_id_at now; user = user }) ∷ []
unfolding Chat.send
send-sending content now iso v user e none_open = ground arith

pub on_message-sending :
    (ch : String) (f : Option Frame) (v : View) → (Chat.on_message ch f v).sending ≡ v.sending
unfolding Chat.on_message
on_message-sending ch none v = refl
on_message-sending ch (some f) v = ground arith

pub load-sending :
    (ch : String) (c : Reply (List Channel)) (u : Reply CurrentUser) (v : View)
    → (Chat.load ch c u v).sending ≡ v.sending
unfolding Chat.load
load-sending ch none u v = refl
load-sending ch (some c) none v = refl
load-sending ch (some c) (some u) v = ground arith

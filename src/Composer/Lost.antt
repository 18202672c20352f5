-- ===== src/Composer/Lost.antt =====
-- MessageInput.tsx with ChannelView.tsx: a message sent before the user is known.
use concordia_chat_app.Prelude.{ℕ, ◌≡◌, refl, false, none, String, arith, ◌∷◌}
use concordia_chat_app.Prelude.Tests.{is_empty}
use concordia_chat_app.Prelude.Text.{trim}
use concordia_chat_app.Chat
use concordia_chat_app.Chat.{View}
use concordia_chat_app.Composer.{Composer, handle_send, send_ended}

-- As long as the user is not known, a message that is sent is lost: the field hands it over and is
-- emptied, the channel view makes neither an entry nor a request of it, and the field is then ready
-- for the next message as after a send that worked. The text is not blank and nothing is being sent.
pub lost_message :
    (c : Composer) (v : View) (now : ℕ) (iso : String)
    → v.current_user ≡ none
    → is_empty (trim c.text) ≡ false
    → c.sending ≡ false
    → let sent = handle_send c in
      (sent.calls ≡ trim c.text ∷ c.calls)
      × (Chat.send (trim c.text) now iso v ≡ v)
      × ((send_ended sent).text ≡ "")
      × ((send_ended sent).sending ≡ false)
unfolding handle_send send_ended Chat.send
lost_message c v now iso unknown full idle = (rw (full, idle), ground arith, rw (full, idle), refl)

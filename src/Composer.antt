-- ===== src/Composer.antt =====
-- apps/web-app/app/components/MessageInput.tsx: the field in which a message is typed. `calls` are
-- the contents that it has handed to `onSend`, the last first, and `open_calls` how many of those
-- have not come back.
pub mod Sending
pub mod Lost
mod Tests
use concordia_chat_app.Prelude.{
  ℕ, ◌+◌, ◌-◌, Bool, true, false, not, ◌&&◌, ◌||◌, Option, none, some, List, [], ◌∷◌, String, ◌==◌,
}
use concordia_chat_app.Prelude.Tests.{is_empty, if◌then◌else◌}
use concordia_chat_app.Prelude.Text.{◌&◌, trim}
use concordia_chat_app.Http.{Response, Reply, is_ok}

pub record Composer : Type 0 where
  pub text : String
  pub sending : Bool
  pub uploading : Bool
  pub calls : List String
  pub open_calls : ℕ

-- `handleSend` up to the call of `onSend`, and from its end, good or bad, on.
unfoldable pub handle_send : Composer → Composer
handle_send c = if is_empty (trim c.text) || c.sending then c else record c {
  sending = true;
  text = "";
  calls = trim c.text ∷ c.calls;
  open_calls = c.open_calls + 1;
}

unfoldable pub send_ended : Composer → Composer
send_ended c = record c { sending = false; open_calls = c.open_calls - 1 }

-- `handleKeyDown`: Enter sends, but not with Shift.
unfoldable pub handle_key_down : String → Bool → Composer → Composer
unfolding handle_send
handle_key_down key shift c = if key == "Enter" && not shift then handle_send c else c

unfoldable pub handle_input : String → Composer → Composer
handle_input value c = record c { text = value }

-- `handleFile` for a chosen file: the upload, and its reply, whose body has the file's address.
unfoldable pub start_upload : Composer → Composer
start_upload c = record c { uploading = true }

unfoldable pub append_url : String → String → String
append_url url prev = if is_empty prev then url else prev & " " & url

unfoldable pub finish_upload : Reply String → Composer → Composer
unfolding append_url
finish_upload none c = record c { uploading = false }
finish_upload (some r) c =
    if is_ok r
    then elim r.json [
      | none ↦ record c { uploading = false }
      | some url ↦ record c { text = append_url url c.text; uploading = false }
    ]
    else record c { uploading = false }

-- The button is disabled in these states.
abbrev pub send_disabled : Composer → Bool
send_disabled c = is_empty (trim c.text) || c.sending

-- `ended` is the end of a call of `onSend`, and comes only while one is open.
pub data Event : Type 0 where
  typed : String → Event
  key : String → Bool → Event
  clicked : Event
  ended : Event
  chosen : Event
  uploaded : Reply String → Event

unfoldable pub step : Event → Composer → Composer
unfolding handle_key_down handle_send send_ended handle_input start_upload finish_upload
step (typed value) c = handle_input value c
step (key k shift) c = handle_key_down k shift c
step clicked c = if send_disabled c then c else handle_send c
step ended c = if c.sending then send_ended c else c
step chosen c = start_upload c
step (uploaded r) c = finish_upload r c

unfoldable pub run : List Event → Composer → Composer
run [] c = c
run (e ∷ es) c = run es (step e c)

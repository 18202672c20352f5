-- ===== src/Voice/Screen.antt =====
-- VoiceChannelView.tsx: what the view draws, without styles. `leaving` is set and cleared within one
-- handler, so that no drawing sees it. `upper` is `toUpperCase`.
use concordia_chat_app.Prelude.{
  ℕ, ◌≡◌, ◌∙◌, Bool, true, false, Option, none, List, map, String, arith,
}
use concordia_chat_app.Prelude.Lists.{length}
use concordia_chat_app.Prelude.Tests.{truthy, if_either, if◌then◌else◌}
use concordia_chat_app.Prelude.Text.{slice}
use concordia_chat_app.Voice.{Participant, Voice}
use concordia_chat_app.Voice.Joining.{Joining, is_under_way}
use concordia_chat_app.Voice.Joining.Ends.{IsConsistent}
use concordia_chat_app.Voice.Visits.{Visit, visits}
use concordia_chat_app.Voice.Visits.Ends.{joined_rests, unmount-visits}

pub record Row : Type 0 where
  pub initial : String
  pub user_id : String

-- The button "Join Voice" with the error above it, or the list of participants with the button
-- "Leave Voice".
pub data Screen : Type 0 where
  outside : Option String → String → Bool → Screen
  inside : ℕ → List Row → Screen

module _ (upper : String → String) where
  unfoldable pub row : Participant → Row
  unfolding slice
  row p = record { initial = upper (slice 1 p.user_id); user_id = p.user_id }

  unfoldable pub screen : Voice → Screen
  unfolding row
  screen s =
      if s.joined
      then inside (length s.participants) (map row s.participants)
      else outside (if truthy s.error then s.error else none)
          (if s.joining then "Joining…" else "Join Voice") s.joining

  -- What a drawing tells of the socket and the microphone.
  abbrev pub IsTrue : Joining → Screen → Type 0
  IsTrue j (outside e text disabled) = (j.voice.has_ws ≡ false) × (disabled ≡ is_under_way j.stage)
  IsTrue j (inside n rows) =
      (j.voice.has_ws ≡ true) × (j.voice.has_stream ≡ true) × (is_under_way j.stage ≡ false)

  screen-IsTrue : (j : Joining) → IsConsistent j → IsTrue j (screen j.voice)
  unfolding screen
  screen-IsTrue j i =
      if_either (IsTrue j) j.voice.joined
        (λ on. (i.has_ws ∙ on, ground (arith, i.has_stream, on), joined_rests j i on))
        (λ off. (i.has_ws ∙ off, i.joining))

  -- After any run of visits the drawing tells the truth: it shows the participants only while the
  -- socket and the microphone are open and no join waits, and otherwise a button that is disabled
  -- exactly while a join waits.
  pub screen-visits :
      (vs : List Visit) (j : Joining)
      → IsConsistent j
      → IsTrue (visits vs j) (screen (visits vs j).voice)
  screen-visits vs j i = screen-IsTrue (visits vs j) (unmount-visits vs j i).0

-- ===== src/Composer/Sending.antt =====
-- MessageInput.tsx: the calls of `onSend`, over any run of events.
use concordia_chat_app.Prelude.{
  ◌≡◌, false, not, ◌&&◌, ◌||◌, none, some, List, [], ◌∷◌, String, ◌==◌, arith, inl, inr,
}
use concordia_chat_app.Prelude.Lists.{All}
use concordia_chat_app.Prelude.Tests.{is_empty, if_both, Bool-cases, Option-cases, if◌then◌else◌}
use concordia_chat_app.Prelude.Text.{trim, trim_idem}
use concordia_chat_app.Http.{Reply, is_ok}
use concordia_chat_app.Composer.{
  Composer, handle_send, finish_upload, Event, typed, key, clicked, ended, chosen, uploaded, step,
  run, send_disabled,
}

-- A content that may be sent: it is not empty, and has no white space at its ends.
abbrev pub IsContent : String → Type 0
IsContent s = (is_empty s ≡ false) × (trim s ≡ s)

pub record Inv (c : Composer) : Type 0 where
  pub counted : c.open_calls ≡ (if c.sending then 1 else 0)
  pub contents : All IsContent c.calls

handle_send-Inv : (c : Composer) → Inv c → Inv (handle_send c)
unfolding handle_send
handle_send-Inv c i = elim (Bool-cases (is_empty (trim c.text) || c.sending)) [
  | inl e ↦ rw e i
  | inr e ↦ rw e (record {
    counted = ground (arith, i.counted);
    contents = ((ground arith, trim_idem c.text), i.contents);
  })
]

finish_upload-Inv : (r : Reply String) (c : Composer) → Inv c → Inv (finish_upload r c)
unfolding finish_upload
finish_upload-Inv none c i = record { counted = i.counted; contents = i.contents }
finish_upload-Inv (some r) c i = elim (Option-cases r.json) [
  | inl e ↦ rw e (if_both Inv (is_ok r) idle idle)
  | inr (url, e) ↦
      rw e (if_both Inv (is_ok r) (record { counted = i.counted; contents = i.contents }) idle)
]
  where
    idle : Inv (record c { uploading = false })
    idle = record { counted = i.counted; contents = i.contents }

step-Inv : (e : Event) (c : Composer) → Inv c → Inv (step e c)
unfolding step
step-Inv (typed value) c i = record { counted = i.counted; contents = i.contents }
step-Inv (key k shift) c i = if_both Inv (k == "Enter" && not shift) (handle_send-Inv c i) i
step-Inv clicked c i = if_both Inv (send_disabled c) i (handle_send-Inv c i)
step-Inv ended c i =
    if_both Inv c.sending (record { counted = ground (arith, i.counted); contents = i.contents }) i
step-Inv chosen c i = record { counted = i.counted; contents = i.contents }
step-Inv (uploaded r) c i = finish_upload-Inv r c i

run-Inv : (es : List Event) (c : Composer) → Inv c → Inv (run es c)
unfolding run
run-Inv [] c i = i
run-Inv (e ∷ es) c i = run-Inv es (step e c) (step-Inv e c i)

-- However the user types, presses keys, clicks and uploads, and whenever a send ends: at most one
-- call of `onSend` is open, exactly while `sending` is set, and every content handed over is not
-- empty and has no white space at its ends. The field starts with no call.
pub run_sends_one :
    (es : List Event) (c : Composer)
    → c.calls ≡ []
    → c.open_calls ≡ 0
    → c.sending ≡ false
    → let d = run es c in (d.open_calls ≡ (if d.sending then 1 else 0)) × All IsContent d.calls
run_sends_one es c none_yet none_open idle =
    let i = run-Inv es c (record { counted = rw (idle, none_open); contents = rw none_yet tt }) in
    (i.counted, i.contents)

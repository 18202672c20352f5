-- ===== src/Voice/Asked.antt =====
-- VoiceChannelView.tsx: which connections have been given a remote description.
use concordia_chat_app.Prelude.{
  ◌≡◌, refl, ap, sym, subst, ◌∙◌, Bool, true, ◌&&◌, Option, none, some, List, [], ◌∷◌, String, ◌==◌,
  eq_refl, arith, inl, inr, ℕ,
}
use concordia_chat_app.Prelude.Lists.{any-append}
use concordia_chat_app.Prelude.Tests.{truthy, or_else, if_both, Option-cases, eqb}
use concordia_chat_app.Voice.{
  Voice, Peer, put, await_description, has_asked, remove_peer, make_peer, add_remote_candidate,
  flush_candidates, describe, on_described, is_described, Message, participant_joined,
  participant_left, offer, answer, ice_candidate, handle_message, Event, message, described, track,
  opened, closed, left, step, run,
}
use concordia_chat_app.Voice.Candidates.{keeps, keeps_all}
use concordia_chat_app.Voice.Connected.{IsPeer}

-- The description of the connection `n` to `k` has been asked for.
abbrev pub IsAsked : String → ℕ → Voice → Type 0
IsAsked k n s = has_asked k n s.asked ≡ true

pub await_description-here :
    (k : String) (n : ℕ) (s : Voice) → IsAsked k n (await_description k n s)
await_description-here k n s =
    any-append (λ (q : String × ℕ). q.0 == k && eqb q.1 n) s.asked ((k, n) ∷ [])
    ∙ ground (arith, eq_refl k)

await_description-IsAsked :
    (k uid : String) (n id : ℕ) (s : Voice)
    → IsAsked k n s
    → IsAsked k n (await_description uid id s)
await_description-IsAsked k uid n id s h =
    any-append (λ (q : String × ℕ). q.0 == k && eqb q.1 n) s.asked ((uid, id) ∷ []) ∙ rw h refl

flush_candidates-asked : (uid : String) (s : Voice) → (flush_candidates uid s).asked ≡ s.asked
unfolding flush_candidates
flush_candidates-asked uid s = elim (Option-cases (s.pending uid)) [
  | inl e ↦ rw (e, flush_candidates) refl
  | inr (buf, e) ↦ rw (e, flush_candidates) refl
]

describe-asked : (uid : String) (id : ℕ) (s : Voice) → (describe uid id s).asked ≡ s.asked
unfolding describe
describe-asked uid id s = elim (Option-cases (s.peers uid)) [
  | inl e ↦ rw (e, describe) refl
  | inr (p, e) ↦
      rw (e, describe)
        (if_both (λ (t : Voice). t.asked ≡ s.asked) (eqb p.id id)
          (flush_candidates-asked uid
            (record s { peers = put uid (some (record p { described = true })) s.peers }))
          refl)
]

handle_message-IsAsked :
    (k : String) (n : ℕ) (m : Message) (s : Voice)
    → IsAsked k n s
    → IsAsked k n (handle_message m s)
unfolding handle_message remove_peer make_peer add_remote_candidate
handle_message-IsAsked k n (participant_joined uid now) s h = if_both (IsAsked k n) (truthy uid) h h
handle_message-IsAsked k n (participant_left uid) s h = if_both (IsAsked k n) (truthy uid) h h
handle_message-IsAsked k n (offer uid) s h =
    if_both (IsAsked k n) (truthy uid) (called (s.peers (or_else uid ""))) h
  where
    called :
        (o : Option Peer)
        → IsAsked k n (elim o [
          | none ↦ await_description (or_else uid "") s.next (make_peer (or_else uid "") s)
          | some p ↦ await_description (or_else uid "") p.id s
        ])
    called none =
        await_description-IsAsked k (or_else uid "") n s.next (make_peer (or_else uid "") s) h
    called (some p) = await_description-IsAsked k (or_else uid "") n p.id s h
handle_message-IsAsked k n (answer uid) s h =
    if_both (IsAsked k n) (truthy uid) (called (s.peers (or_else uid ""))) h
  where
    called :
        (o : Option Peer)
        → IsAsked k n (elim o [ none ↦ s | some p ↦ await_description (or_else uid "") p.id s ])
    called none = h
    called (some p) = await_description-IsAsked k (or_else uid "") n p.id s h
handle_message-IsAsked k n (ice_candidate uid cand) s h =
    if_both (IsAsked k n) (truthy uid)
      (if_both (IsAsked k n) (is_described (s.peers (or_else uid ""))) h h) h

step-IsAsked :
    (k : String) (n : ℕ) (e : Event) (s : Voice)
    → keeps k e ≡ true
    → IsAsked k n s
    → IsAsked k n (step e s)
unfolding step on_described
step-IsAsked k n (message m) s c h = handle_message-IsAsked k n m s h
step-IsAsked k n (described uid id) s c h =
    if_both (IsAsked k n) (has_asked uid id s.asked)
      (ap (has_asked k n) (describe-asked uid id s) ∙ h) h
step-IsAsked k n (track uid) s c h = h
step-IsAsked k n (opened uids) s c h = absurd (cc c)
step-IsAsked k n closed s c h = absurd (cc c)
step-IsAsked k n left s c h = absurd (cc c)

pub run-IsAsked :
    (k : String) (n : ℕ) (es : List Event) (s : Voice)
    → keeps_all k es ≡ true
    → IsAsked k n s
    → IsAsked k n (run es s)
unfolding run
run-IsAsked k n [] s c h = h
run-IsAsked k n (e ∷ es) s c h =
    run-IsAsked k n es (step e s) (ground arith) (step-IsAsked k n e s (ground arith) h)

-- An answer of `k` asks for the description of the connection to it.
pub answer-IsAsked :
    (k : String) (n : ℕ) (d : Bool) (s : Voice)
    → truthy (some k) ≡ true
    → IsPeer n d (s.peers k)
    → IsAsked k n (handle_message (answer (some k)) s)
unfolding handle_message
answer-IsAsked k n d s named (p, e, i, h) =
    rw (named, e)
      (subst (λ j. IsAsked k n (await_description k j s)) (sym i) (await_description-here k n s))

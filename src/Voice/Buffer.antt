-- ===== src/Voice/Buffer.antt =====
-- VoiceChannelView.tsx: the buffers of ICE candidates, over any run of events.
use concordia_chat_app.Prelude.{
  ◌≡◌, refl, ap, sym, true, Option, none, some, List, [], ◌∷◌, String, ◌==◌, eq_iff, inl, inr, ℕ,
  subst,
}
use concordia_chat_app.Prelude.Tests.{truthy, or_else, if_both, Bool-cases, Option-cases, eqb}
use concordia_chat_app.Voice.{
  on_described, has_asked, await_description, Voice, Peer, put, is_described, remove_peer,
  make_peer, add_remote_candidate, flush_candidates, describe, Message, participant_joined,
  participant_left, offer, answer, ice_candidate, handle_message, do_cleanup, on_open, on_close,
  handle_leave, Event, message, described, track, opened, closed, left, step, run,
}

-- The buffer of a user whose connection has its description is empty.
abbrev pub Inv : Voice → Type 0
Inv s = (k : String) → is_described (s.peers k) ≡ true → s.pending k ≡ none

put-Inv-none :
    (uid : String) (s : Voice) (o : Option Peer)
    → Inv s
    → Inv (record s { peers = put uid o s.peers; pending = put uid none s.pending })
put-Inv-none uid s o i k h = elim (Bool-cases (k == uid)) [
  | inl e ↦ rw e refl
  | inr e ↦ rw e (i k (rw e at h))
]

make_peer-Inv : (uid : String) (s : Voice) → Inv s → Inv (make_peer uid s)
unfolding make_peer
make_peer-Inv uid s i k h = elim (Bool-cases (k == uid)) [
  | inl e ↦ absurd (cc (rw e at h))
  | inr e ↦ i k (rw e at h)
]

add_remote_candidate-Inv :
    (uid cand : String) (s : Voice) → Inv s → Inv (add_remote_candidate uid cand s)
unfolding add_remote_candidate
add_remote_candidate-Inv uid cand s i = elim (Bool-cases (is_described (s.peers uid))) [
  | inl d ↦ rw d (λ k h. elim (Bool-cases (k == uid)) [
    | inl e ↦ subst (λ j. s.pending j ≡ none) (sym ((eq_iff k uid).0 e)) (i uid d)
    | inr e ↦ i k (rw e at h)
  ])
  | inr d ↦ rw d (λ k h. elim (Bool-cases (k == uid)) [
    | inl e ↦ absurd (cc (ap (λ j. is_described (s.peers j)) ((eq_iff k uid).0 e)))
    | inr e ↦ rw e (i k h)
  ])
]

describe-Inv : (uid : String) (id : ℕ) (s : Voice) → Inv s → Inv (describe uid id s)
unfolding describe flush_candidates
describe-Inv uid id s i = elim (Option-cases (s.peers uid)) [
  | inl e ↦ rw (e, describe) i
  | inr (p, e) ↦ elim (Bool-cases (eqb p.id id)) [
    | inr other ↦ rw (e, describe) (rw other i)
    | inl same ↦ elim (Option-cases (s.pending uid)) [
      | inl empty ↦
          rw (e, describe)
            (rw (same, flush_candidates, empty)
              (λ k h. elim (Bool-cases (k == uid)) [
                | inl f ↦ subst (λ j. s.pending j ≡ none) (sym ((eq_iff k uid).0 f)) empty
                | inr f ↦ i k (rw f at h)
              ]))
      | inr (buf, full) ↦
          rw (e, describe)
            (rw (same, flush_candidates, full)
              (λ k h. elim (Bool-cases (k == uid)) [
                | inl f ↦ rw f refl
                | inr f ↦ rw f (i k (rw f at h))
              ]))
    ]
  ]
]

on_open-Inv : (uids : List String) (s : Voice) → Inv s → Inv (on_open uids s)
unfolding on_open
on_open-Inv [] s i = i
on_open-Inv (uid ∷ uids) s i = on_open-Inv uids (make_peer uid s) (make_peer-Inv uid s i)

handle_message-Inv : (m : Message) (s : Voice) → Inv s → Inv (handle_message m s)
unfolding handle_message remove_peer
handle_message-Inv (participant_joined uid now) s i = if_both Inv (truthy uid) i i
handle_message-Inv (participant_left uid) s i =
    if_both Inv (truthy uid) (put-Inv-none (or_else uid "") s none i) i
handle_message-Inv (offer uid) s i = if_both Inv (truthy uid) (called (s.peers (or_else uid ""))) i
  where
    called :
        (o : Option Peer)
        → Inv (elim o [
          | none ↦ await_description (or_else uid "") s.next (make_peer (or_else uid "") s)
          | some p ↦ await_description (or_else uid "") p.id s
        ])
    called none = make_peer-Inv (or_else uid "") s i
    called (some p) = i
handle_message-Inv (answer uid) s i = if_both Inv (truthy uid) (called (s.peers (or_else uid ""))) i
  where
    called :
        (o : Option Peer)
        → Inv (elim o [ none ↦ s | some p ↦ await_description (or_else uid "") p.id s ])
    called none = i
    called (some p) = i
handle_message-Inv (ice_candidate uid cand) s i =
    if_both Inv (truthy uid) (add_remote_candidate-Inv (or_else uid "") cand s i) i

pub step-Inv : (e : Event) (s : Voice) → Inv s → Inv (step e s)
unfolding step on_described on_close handle_leave do_cleanup
step-Inv (message m) s i = handle_message-Inv m s i
step-Inv (described uid id) s i = if_both Inv (has_asked uid id s.asked) (describe-Inv uid id s i) i
step-Inv (track uid) s i = i
step-Inv (opened uids) s i = on_open-Inv uids s i
step-Inv closed s i = if_both Inv s.joined_ref (λ k h. refl) i
step-Inv left s i = λ k h. refl

pub run-Inv : (es : List Event) (s : Voice) → Inv s → Inv (run es s)
unfolding run
run-Inv [] s i = i
run-Inv (e ∷ es) s i = run-Inv es (step e s) (step-Inv e s i)

-- No buffer is forgotten: after any events, in any order, the buffer of a user whose connection has
-- its remote description is empty. At the start no buffer holds anything.
pub run_flushes :
    (es : List Event) (s : Voice) (k : String)
    → ((j : String) → s.pending j ≡ none)
    → is_described ((run es s).peers k) ≡ true
    → (run es s).pending k ≡ none
run_flushes es s k start d = run-Inv es s (λ j h. start j) k d

-- ===== src/Voice/Candidates.antt =====
-- VoiceChannelView.tsx: an ICE candidate that arrives is handed over or waits. The source hands a
-- buffer over with an `await` after each candidate; here that is one step, so nothing is said of order.
use concordia_chat_app.Prelude.{
  ◌≡◌, refl, ap, sym, ◌∙◌, Bool, true, false, not, ◌&&◌, ◌||◌, Option, none, some, List, [], ◌∷◌,
  ◌++◌, String, ◌==◌, eq_iff, eq_refl, arith, inl, inr, ℕ, ◌+◌,
}
use mathlib.Core.List.{append_assoc, append-nil}
use concordia_chat_app.Prelude.Lists.{any, any-append, length, length-append}
use concordia_chat_app.Prelude.Tests.{
  if_both, truthy, or_else, Bool-cases, Option-cases, if◌then◌else◌, eqb,
}
use concordia_chat_app.Voice.{
  on_described, has_asked, await_description, Voice, Peer, put, is_described, with_candidates,
  remove_peer, make_peer, add_remote_candidate, flush_candidates, describe, Message,
  participant_joined, participant_left, offer, answer, ice_candidate, handle_message, Event,
  message, described, track, opened, closed, left, step, run,
}
use concordia_chat_app.Voice.Buffer.{Inv, step-Inv}

-- The candidates of a user that are handed over or wait in the buffer.
abbrev pub added : Option Peer → List String
added none = []
added (some p) = p.candidates

abbrev pub held : String → Voice → List String
held k s = added (s.peers k) ++ or_else (s.pending k) []

-- The candidates of the user `k` that an event brings.
abbrev pub brings : String → Event → List String
brings k (message (ice_candidate uid cand)) =
    if truthy uid && k == or_else uid "" then cand ∷ [] else []
brings k (message (participant_joined uid now)) = []
brings k (message (participant_left uid)) = []
brings k (message (offer uid)) = []
brings k (message (answer uid)) = []
brings k (described uid id) = []
brings k (track uid) = []
brings k (opened uids) = []
brings k closed = []
brings k left = []

abbrev pub arrived : String → List Event → List String
arrived k [] = []
arrived k (e ∷ es) = brings k e ++ arrived k es

-- The events that do not end the connection to `k`, and do not begin it anew.
abbrev pub keeps : String → Event → Bool
keeps k (message (participant_left uid)) = not (truthy uid && k == or_else uid "")
keeps k (message (participant_joined uid now)) = true
keeps k (message (offer uid)) = true
keeps k (message (answer uid)) = true
keeps k (message (ice_candidate uid cand)) = true
keeps k (described uid id) = true
keeps k (track uid) = true
keeps k (opened uids) = false
keeps k closed = false
keeps k left = false

abbrev pub keeps_all : String → List Event → Bool
keeps_all k [] = true
keeps_all k (e ∷ es) = keeps k e && keeps_all k es

added-with :
    (cs : List String) (o : Option Peer)
    → is_described o ≡ true
    → added (with_candidates cs o) ≡ added o ++ cs
added-with cs none h = absurd (cc h)
added-with cs (some p) h = refl

add_remote_candidate-held :
    (k uid cand : String) (s : Voice)
    → Inv s
    → held k (add_remote_candidate uid cand s) ≡ held k s ++ (if k == uid then cand ∷ [] else [])
unfolding add_remote_candidate
add_remote_candidate-held k uid cand s i = elim (Bool-cases (is_described (s.peers uid))) [
  | inl d ↦ rw d (elim (Bool-cases (k == uid)) [
    | inl e ↦
        let same : k ≡ uid = (eq_iff k uid).0 e in
        let empty : or_else (s.pending k) [] ≡ [] =
          ap (λ j. or_else (s.pending j) []) same ∙ ap (λ o. or_else o []) (i uid d) in
        let here : added (s.peers k) ≡ added (s.peers uid) = ap (λ j. added (s.peers j)) same in
        rw (e, empty, here)
          (rw
            (
              append-nil (added (with_candidates (cand ∷ []) (s.peers uid))),
              append-nil (added (s.peers uid)),
            )
            (added-with (cand ∷ []) (s.peers uid) d))
    | inr e ↦ rw (e, append-nil) refl
  ])
  | inr d ↦ rw d (elim (Bool-cases (k == uid)) [
    | inl e ↦
        let same : or_else (s.pending k) [] ≡ or_else (s.pending uid) [] =
          ap (λ j. or_else (s.pending j) []) ((eq_iff k uid).0 e) in
        rw (e, same)
          (sym (append_assoc (added (s.peers k)) (or_else (s.pending uid) []) (cand ∷ [])))
    | inr e ↦ rw (e, append-nil) refl
  ])
]

flush_candidates-held :
    (k uid : String) (p : Peer) (t : Voice)
    → t.peers uid ≡ some p
    → held k (flush_candidates uid t) ≡ held k t
unfolding flush_candidates
flush_candidates-held k uid p t e = elim (Option-cases (t.pending uid)) [
  | inl empty ↦ rw (empty, flush_candidates) refl
  | inr (buf, full) ↦
      rw (full, flush_candidates)
        (elim (Bool-cases (k == uid)) [
          | inl f ↦
              let same : k ≡ uid = (eq_iff k uid).0 f in
              let waits : t.pending k ≡ some buf = ap (λ j. t.pending j) same ∙ full in
              let here : t.peers k ≡ some p = ap (λ j. t.peers j) same ∙ e in
              rw (f, waits, here, e) (append-nil (p.candidates ++ buf))
          | inr f ↦ rw f refl
        ])
]

describe-held : (k uid : String) (id : ℕ) (s : Voice) → held k (describe uid id s) ≡ held k s
unfolding describe
describe-held k uid id s = elim (Option-cases (s.peers uid)) [
  | inl e ↦ rw (e, describe) refl
  | inr (p, e) ↦ elim (Bool-cases (eqb p.id id)) [
    | inr other ↦ rw (e, describe) (rw other refl)
    | inl same ↦
        rw (e, describe)
          (rw same (
            flush_candidates-held k uid (record p { described = true })
              (record s { peers = put uid (some (record p { described = true })) s.peers })
              (rw (eq_refl uid) refl)
            ∙ marked p e))
  ]
]
  where
    marked :
        (p : Peer)
        → s.peers uid ≡ some p
        → held k (record s { peers = put uid (some (record p { described = true })) s.peers })
          ≡ held k s
    marked p e = elim (Bool-cases (k == uid)) [
      | inl f ↦
          let here : s.peers k ≡ some p = ap (λ j. s.peers j) ((eq_iff k uid).0 f) ∙ e in
          rw (f, here) refl
      | inr f ↦ rw f refl
    ]

handle_message-held :
    (k : String) (m : Message) (s : Voice)
    → Inv s
    → keeps k (message m) ≡ true
    → held k (handle_message m s) ≡ held k s ++ brings k (message m)
unfolding handle_message remove_peer make_peer
handle_message-held k (participant_joined uid now) s i h = elim (Bool-cases (truthy uid)) [
  | inl e ↦ rw (e, append-nil) refl
  | inr e ↦ rw (e, append-nil) refl
]
handle_message-held k (participant_left uid) s i h = elim (Bool-cases (truthy uid)) [
  | inl e ↦ let other : k == or_else uid "" ≡ false = ground arith in rw (e, other, append-nil) refl
  | inr e ↦ rw (e, append-nil) refl
]
handle_message-held k (offer uid) s i h = elim (Bool-cases (truthy uid)) [
  | inr e ↦ rw (e, append-nil) refl
  | inl e ↦ rw (e, append-nil) (called (s.peers (or_else uid "")) refl)
]
  where
    called :
        (o : Option Peer)
        → s.peers (or_else uid "") ≡ o
        → held k (elim o [
          | none ↦ await_description (or_else uid "") s.next (make_peer (or_else uid "") s)
          | some p ↦ await_description (or_else uid "") p.id s
        ])
          ≡ held k s
    called (some p) e = refl
    called none e = elim (Bool-cases (k == or_else uid "")) [
      | inl f ↦
          let here : s.peers k ≡ none = ap (λ j. s.peers j) ((eq_iff k (or_else uid "")).0 f) ∙ e in
          rw (f, here) refl
      | inr f ↦ rw f refl
    ]
handle_message-held k (answer uid) s i h = elim (Bool-cases (truthy uid)) [
  | inr e ↦ rw (e, append-nil) refl
  | inl e ↦ rw (e, append-nil) (called (s.peers (or_else uid "")))
]
  where
    called :
        (o : Option Peer)
        → held k (elim o [ none ↦ s | some p ↦ await_description (or_else uid "") p.id s ])
          ≡ held k s
    called none = refl
    called (some p) = refl
handle_message-held k (ice_candidate uid cand) s i h = elim (Bool-cases (truthy uid)) [
  | inl e ↦ rw e (add_remote_candidate-held k (or_else uid "") cand s i)
  | inr e ↦ rw (e, append-nil) refl
]

step-held :
    (k : String) (e : Event) (s : Voice)
    → Inv s
    → keeps k e ≡ true
    → held k (step e s) ≡ held k s ++ brings k e
unfolding step on_described
step-held k (message m) s i h = handle_message-held k m s i h
step-held k (described uid id) s i h =
    rw append-nil (
      if_both (λ t. held k t ≡ held k s) (has_asked uid id s.asked) (describe-held k uid id s) refl)
step-held k (track uid) s i h = rw append-nil refl
step-held k (opened uids) s i h = absurd (cc h)
step-held k closed s i h = absurd (cc h)
step-held k left s i h = absurd (cc h)

pub run-held :
    (k : String) (es : List Event) (s : Voice)
    → Inv s
    → keeps_all k es ≡ true
    → held k (run es s) ≡ held k s ++ arrived k es
unfolding run
run-held k [] s i h = rw append-nil refl
run-held k (e ∷ es) s i h =
    run-held k es (step e s) (step-Inv e s i) (ground arith)
    ∙ ap (λ l. l ++ arrived k es) (step-held k e s i (ground arith))
    ∙ append_assoc (held k s) (brings k e) (arrived k es)

-- As long as the connection to `k` is neither ended nor begun anew, the candidates handed over and
-- those that wait are, in number, those at the start and those that arrived, and a candidate is
-- among the former exactly if it is among the latter, whenever the connection is made and
-- described. At the start no buffer holds anything.
pub run_keeps_candidates :
    (k cand : String) (es : List Event) (s : Voice)
    → ((j : String) → s.pending j ≡ none)
    → keeps_all k es ≡ true
    → (length (held k (run es s)) ≡ length (held k s) + length (arrived k es))
      × (any (λ c. c == cand) (held k (run es s))
          ≡ (any (λ c. c == cand) (held k s) || any (λ c. c == cand) (arrived k es)))
run_keeps_candidates k cand es s start h =
    rw (run-held k es s (λ j d. start j) h) (
      length-append (held k s) (arrived k es),
      any-append (λ c. c == cand) (held k s) (arrived k es),
    )

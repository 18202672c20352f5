-- ===== src/Voice/Connected.antt =====
-- VoiceChannelView.tsx: a connection between two users of a channel, from the offer on. The source
-- hands a buffer over with an `await` after each candidate, so nothing is said of order.
use concordia_chat_app.Prelude.{
  ◌≡◌, refl, ap, sym, ◌∙◌, Bool, true, false, not, ◌||◌, Option, none, some, List, [], ◌∷◌, ◌++◌,
  String, ◌==◌, eq_iff, eq_refl, arith, inl, inr, ℕ,
}
use concordia_chat_app.Prelude.Tests.{if_both, truthy, or_else, Bool-cases, Option-cases, eqb}
use concordia_chat_app.Voice.{
  on_described, has_asked, await_description, Voice, Peer, put, is_described, with_candidates,
  remove_peer, make_peer, add_remote_candidate, flush_candidates, describe, Message,
  participant_joined, participant_left, offer, answer, ice_candidate, handle_message, Event,
  message, described, track, opened, closed, left, step, run,
}
use concordia_chat_app.Voice.Candidates.{keeps, keeps_all}

-- A connection with the id `n`, which is described if `d` is set.
abbrev pub IsPeer : ℕ → Bool → Option Peer → Type 0
IsPeer n d o = (p : Peer) × (o ≡ some p) × (p.id ≡ n) × ((not d || p.described) ≡ true)

with_candidates-IsPeer :
    (n : ℕ) (d : Bool) (cs : List String) (o : Option Peer)
    → IsPeer n d o
    → IsPeer n d (with_candidates cs o)
with_candidates-IsPeer n d cs o (p, e, i, h) =
    (record p { candidates = p.candidates ++ cs }, rw e refl, i, h)

-- A change of the entry of one user in the map.
put-IsPeer :
    (n : ℕ) (d : Bool) (k uid : String) (v : Option Peer) (m : String → Option Peer)
    → IsPeer n d (m k)
    → (k ≡ uid → IsPeer n d v)
    → IsPeer n d (put uid v m k)
put-IsPeer n d k uid v m here there = elim (Bool-cases (k == uid)) [
  | inl e ↦ rw e (there ((eq_iff k uid).0 e))
  | inr e ↦ rw e here
]

add_remote_candidate-IsPeer :
    (n : ℕ) (d : Bool) (k uid cand : String) (s : Voice)
    → IsPeer n d (s.peers k)
    → IsPeer n d ((add_remote_candidate uid cand s).peers k)
unfolding add_remote_candidate
add_remote_candidate-IsPeer n d k uid cand s h = elim (Bool-cases (is_described (s.peers uid))) [
  | inr e ↦ rw e h
  | inl e ↦
      rw e (put-IsPeer n d k uid _ s.peers h (λ same. with_candidates-IsPeer n d _ _ (rw⁻¹ same h)))
]

flush_candidates-IsPeer :
    (n : ℕ) (d : Bool) (k uid : String) (s : Voice)
    → IsPeer n d (s.peers k)
    → IsPeer n d ((flush_candidates uid s).peers k)
unfolding flush_candidates
flush_candidates-IsPeer n d k uid s h = elim (Option-cases (s.pending uid)) [
  | inl e ↦ rw (e, flush_candidates) h
  | inr (buf, e) ↦
      rw (e, flush_candidates)
        (put-IsPeer n d k uid _ s.peers h (λ same. with_candidates-IsPeer n d _ _ (rw⁻¹ same h)))
]

abbrev id_or_zero : Option Peer → ℕ
id_or_zero none = 0
id_or_zero (some p) = p.id

-- The description of the connection `p`.
marked-IsPeer :
    (n : ℕ) (d : Bool) (p : Peer) (o : Option Peer)
    → o ≡ some p
    → IsPeer n d o
    → IsPeer n true (some (record p { described = true }))
marked-IsPeer n d p o e (q, f, i, h) =
    (record p { described = true }, refl, ap id_or_zero (sym e ∙ f) ∙ i, refl)

weaken : (n : ℕ) (d : Bool) (o : Option Peer) → IsPeer n true o → IsPeer n d o
weaken n d o (p, e, i, h) = (p, e, i, ground arith)

abbrev marked_in : String → Peer → Voice → Voice
marked_in uid p s = record s { peers = put uid (some (record p { described = true })) s.peers }

describe-IsPeer :
    (n : ℕ) (d : Bool) (k uid : String) (id : ℕ) (s : Voice)
    → IsPeer n d (s.peers k)
    → IsPeer n d ((describe uid id s).peers k)
unfolding describe
describe-IsPeer n d k uid id s h = elim (Option-cases (s.peers uid)) [
  | inl e ↦ rw (e, describe) h
  | inr (p, e) ↦ elim (Bool-cases (eqb p.id id)) [
    | inr other ↦ rw (e, describe) (rw other h)
    | inl same ↦
        rw (e, describe)
          (rw same (
            flush_candidates-IsPeer n d k uid (marked_in uid p s) (
              put-IsPeer n d k uid _ s.peers h
                (λ here. weaken n d _ (marked-IsPeer n d p (s.peers uid) e (rw⁻¹ here h))))))
  ]
]

-- The description of the connection that there is.
pub described-IsPeer :
    (n : ℕ) (k : String) (s : Voice)
    → IsPeer n false (s.peers k)
    → IsPeer n true ((describe k n s).peers k)
unfolding describe
described-IsPeer n k s h =
    let (p, e, i, any_state) = h in
    let same : eqb p.id n ≡ true = ground arith in
    rw (e, describe)
      (rw same (
        flush_candidates-IsPeer n true k k (marked_in k p s)
          (rw (eq_refl k) (marked-IsPeer n false p (s.peers k) e h))))

handle_message-IsPeer :
    (n : ℕ) (d : Bool) (k : String) (m : Message) (s : Voice)
    → keeps k (message m) ≡ true
    → IsPeer n d (s.peers k)
    → IsPeer n d ((handle_message m s).peers k)
unfolding handle_message remove_peer make_peer
handle_message-IsPeer n d k (participant_joined uid now) s c h = elim (Bool-cases (truthy uid)) [
  | inl e ↦ rw e h
  | inr e ↦ rw e h
]
handle_message-IsPeer n d k (participant_left uid) s c h = elim (Bool-cases (truthy uid)) [
  | inr e ↦ rw e h
  | inl e ↦ let other : k == or_else uid "" ≡ false = ground arith in rw (e, other) h
]
handle_message-IsPeer n d k (offer uid) s c h = elim (Bool-cases (truthy uid)) [
  | inr e ↦ rw e h
  | inl e ↦ rw e (called (s.peers (or_else uid "")) refl)
]
  where
    offered : Option Peer → Voice
    offered o = elim o [
      | none ↦ await_description (or_else uid "") s.next (make_peer (or_else uid "") s)
      | some p ↦ await_description (or_else uid "") p.id s
    ]

    called : (o : Option Peer) → s.peers (or_else uid "") ≡ o → IsPeer n d ((offered o).peers k)
    called (some p) e = h
    called none e =
        put-IsPeer n d k (or_else uid "") _ s.peers h
          (λ same. absurd (cc (sym (ap (λ j. s.peers j) same ∙ e) ∙ h.1)))
handle_message-IsPeer n d k (answer uid) s c h = elim (Bool-cases (truthy uid)) [
  | inr e ↦ rw e h
  | inl e ↦ rw e (called (s.peers (or_else uid "")))
]
  where
    called :
        (o : Option Peer)
        → IsPeer n d (
            (elim o as (λ x. Voice) [
              | none ↦ s
              | some p ↦ await_description (or_else uid "") p.id s
            ]).peers
              k)
    called none = h
    called (some p) = h
handle_message-IsPeer n d k (ice_candidate uid cand) s c h = elim (Bool-cases (truthy uid)) [
  | inr e ↦ rw e h
  | inl e ↦ rw e (add_remote_candidate-IsPeer n d k (or_else uid "") cand s h)
]

step-IsPeer :
    (n : ℕ) (d : Bool) (k : String) (e : Event) (s : Voice)
    → keeps k e ≡ true
    → IsPeer n d (s.peers k)
    → IsPeer n d ((step e s).peers k)
unfolding step on_described
step-IsPeer n d k (message m) s c h = handle_message-IsPeer n d k m s c h
step-IsPeer n d k (described uid id) s c h =
    if_both (λ (t : Voice). IsPeer n d (t.peers k)) (has_asked uid id s.asked)
      (describe-IsPeer n d k uid id s h) h
step-IsPeer n d k (track uid) s c h = h
step-IsPeer n d k (opened uids) s c h = absurd (cc c)
step-IsPeer n d k closed s c h = absurd (cc c)
step-IsPeer n d k left s c h = absurd (cc c)

pub run-IsPeer :
    (n : ℕ) (d : Bool) (k : String) (es : List Event) (s : Voice)
    → keeps_all k es ≡ true
    → IsPeer n d (s.peers k)
    → IsPeer n d ((run es s).peers k)
unfolding run
run-IsPeer n d k [] s c h = h
run-IsPeer n d k (e ∷ es) s c h =
    run-IsPeer n d k es (step e s) (ground arith) (step-IsPeer n d k e s (ground arith) h)

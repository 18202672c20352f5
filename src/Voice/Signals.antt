-- ===== src/Voice/Signals.antt =====
-- VoiceChannelView.tsx: what the component sends over its socket, and a call of two users.
use concordia_chat_app.Prelude.{
  ◌≡◌, refl, ap, sym, subst, ◌∙◌, Bool, true, false, not, Option, none, some, List, [], ◌∷◌, ◌++◌,
  String, ◌==◌, eq_refl, arith, ℕ, map,
}
use mathlib.Core.List.{append-nil}
use concordia_chat_app.Prelude.Lists.{any, length, filter}
use concordia_chat_app.Prelude.Tests.{truthy, or_else, if◌then◌else◌}
use concordia_chat_app.Voice.{
  on_described, await_description, Voice, Peer, Participant, user_of, is_described, make_peer,
  Message, participant_joined, participant_left, offer, answer, ice_candidate, handle_message,
  Event, message, described, opened, on_open, step, run,
}
use concordia_chat_app.Voice.Buffer.{Inv, run-Inv}
use concordia_chat_app.Voice.Candidates.{added, held, arrived, keeps_all, run-held}
use concordia_chat_app.Voice.Asked.{IsAsked, await_description-here, run-IsAsked, answer-IsAsked}
use concordia_chat_app.Voice.Connected.{IsPeer, described-IsPeer, run-IsPeer}

-- A message to the service, with its `target_user_id`; the SDP texts are left out.
pub data Signal : Type 0 where
  offer_to : String → Signal
  answer_to : String → Signal
  candidate_to : String → String → Signal

-- `existingUserIds`
unfoldable pub existing_user_ids : String → List Participant → List String
unfolding filter
existing_user_ids my parts = filter (λ u. not (u == my)) (map user_of parts)

-- `ws.onopen`, once the offers are made.
unfoldable pub offers : List String → List Signal
offers uids = map offer_to uids

-- `handleMessage` from the local description on.
unfoldable pub reply_of : Message → List Signal
reply_of (offer uid) = if truthy uid then answer_to (or_else uid "") ∷ [] else []
reply_of (participant_joined uid now) = []
reply_of (participant_left uid) = []
reply_of (answer uid) = []
reply_of (ice_candidate uid cand) = []

-- `pc.onicecandidate`; `ready` tells whether the socket is open.
unfoldable pub local_candidate : Bool → String → String → List Signal
local_candidate ready uid cand = if ready then candidate_to uid cand ∷ [] else []

-- The voice service hands a signal of one user to its target, stamped with that user.
pub record IsRelay (relay : String → Signal → Message) : Type 0 where
  pub relays_offer : (from target : String) → relay from (offer_to target) ≡ offer (some from)
  pub relays_answer : (from target : String) → relay from (answer_to target) ≡ answer (some from)

-- The connection to `k` is described, no candidate waits, and it has those candidates.
abbrev pub IsConnected : String → List String → String → Voice → Type 0
IsConnected k cands c s =
    (is_described (s.peers k) ≡ true)
    × (s.pending k ≡ none)
    × (length (added (s.peers k)) ≡ length cands)
    × (any (λ x. x == c) (added (s.peers k)) ≡ any (λ x. x == c) cands)

run-append : (xs ys : List Event) (s : Voice) → run (xs ++ ys) s ≡ run ys (run xs s)
unfolding run
run-append [] ys s = refl
run-append (x ∷ xs) ys s = run-append xs ys (step x s)

keeps_all-append :
    (k : String) (xs ys : List Event)
    → keeps_all k xs ≡ true
    → keeps_all k ys ≡ true
    → keeps_all k (xs ++ ys) ≡ true
keeps_all-append k [] ys h g = g
keeps_all-append k (x ∷ xs) ys h g = ground (arith, keeps_all-append k xs ys)

IsPeer-described : (n : ℕ) (o : Option Peer) → IsPeer n true o → is_described o ≡ true
IsPeer-described n o (p, e, i, h) = rw e h

connects :
    (n : ℕ) (k c : String) (es fs : List Event) (s : Voice)
    → Inv s
    → IsPeer n false (s.peers k)
    → held k s ≡ []
    → IsAsked k n (run es s)
    → keeps_all k es ≡ true
    → keeps_all k fs ≡ true
    → let all = es ++ described k n ∷ fs in IsConnected k (arrived k all) c (run all s)
unfolding run step on_described
connects n k c es fs s i peer empty asked h g =
    let all : List Event = es ++ described k n ∷ fs in
    let last : IsPeer n true ((run all s).peers k) = rw (run-append es (described k n ∷ fs) s) (
      run-IsPeer n true k fs _ g
        (rw asked (described-IsPeer n k (run es s) (run-IsPeer n false k es s h peer)))) in
    let is_set = IsPeer-described n _ last in
    let none_waits = run-Inv all s i k is_set in
    let has_all : added ((run all s).peers k) ≡ arrived k all =
      sym (append-nil (added ((run all s).peers k)))
      ∙ ap (λ o. added ((run all s).peers k) ++ or_else o []) (sym none_waits)
      ∙ run-held k all s i (keeps_all-append k es (described k n ∷ fs) h g)
      ∙ ap (λ l. l ++ arrived k all) empty in
    (is_set, none_waits, ap (λ l. length l) has_all, ap (λ l. any (λ x. x == c) l) has_all)

module _ (k c : String) (s : Voice) (waits : (j : String) → s.pending j ≡ none) where
  made-IsPeer : IsPeer s.next false ((make_peer k s).peers k)
  unfolding make_peer
  made-IsPeer =
      (record { id = s.next; described = false; candidates = [] }, rw (eq_refl k) refl, refl, refl)

  made-held : held k (make_peer k s) ≡ []
  unfolding make_peer
  made-held = rw (eq_refl k, waits k) refl

  made-Inv : Inv (make_peer k s)
  unfolding make_peer
  made-Inv j d = waits j

offered :
    (k : String) (s : Voice)
    → truthy (some k) ≡ true
    → s.peers k ≡ none
    → handle_message (offer (some k)) s ≡ await_description k s.next (make_peer k s)
unfolding handle_message
offered k s named alone = rw (named, alone)

module _ (relay : String → Signal → Message) (laws : IsRelay relay) (a b c : String)
    (named_a : truthy (some a) ≡ true) (named_b : truthy (some b) ≡ true) where
  -- What comes of the signals of one user at another.
  abbrev pub relayed : String → List Signal → List Event
  relayed from sigs = map (λ sig. message (relay from sig)) sigs

  -- The one to whom an offer is made, from the offer on.
  callee-IsConnected :
      (s : Voice) (es fs : List Event)
      → ((j : String) → s.pending j ≡ none)
      → s.peers b ≡ none
      → keeps_all b es ≡ true
      → keeps_all b fs ≡ true
      → let of_a = es ++ described b s.next ∷ fs in
        IsConnected b (arrived b of_a) c (run (message (offer (some b)) ∷ of_a) s)
  unfolding run step
  callee-IsConnected s es fs waits alone he hf =
      let begun = await_description b s.next (make_peer b s) in
      let of_a : List Event = es ++ described b s.next ∷ fs in
      subst (λ t. IsConnected b (arrived b of_a) c (run of_a t)) (sym (offered b s named_b alone))
        (connects s.next b c es fs begun (made-Inv b c s waits) (made-IsPeer b c s waits)
          (made-held b c s waits)
          (run-IsAsked b s.next es begun he (await_description-here b s.next (make_peer b s))) he
          hf)

  -- The one who makes an offer, with the answer to it.
  caller-IsConnected :
      (s : Voice) (gs hs ks : List Event)
      → ((j : String) → s.pending j ≡ none)
      → keeps_all a gs ≡ true
      → keeps_all a hs ≡ true
      → keeps_all a ks ≡ true
      → let of_b = (gs ++ message (answer (some a)) ∷ hs) ++ described a s.next ∷ ks in
        IsConnected a (arrived a of_b) c (run (opened (a ∷ []) ∷ of_b) s)
  unfolding run step on_open
  caller-IsConnected s gs hs ks waits hg hh hk =
      let begun = make_peer a s in
      let es : List Event = gs ++ message (answer (some a)) ∷ hs in
      let peer = run-IsPeer s.next false a gs begun hg (made-IsPeer a c s waits) in
      let asked : IsAsked a s.next (run es begun) =
        rw (run-append gs (message (answer (some a)) ∷ hs) begun) (
          run-IsAsked a s.next hs (handle_message (answer (some a)) (run gs begun)) hh
            (answer-IsAsked a s.next false (run gs begun) named_a peer)) in
      connects s.next a c es ks begun (made-Inv a c s waits) (made-IsPeer a c s waits)
        (made-held a c s waits) asked
        (keeps_all-append a gs (message (answer (some a)) ∷ hs) hg (ground arith)) hk

  replies : relayed a (reply_of (relay b (offer_to a))) ≡ message (answer (some a)) ∷ []
  unfolding reply_of
  replies = rw (laws.relays_offer b a) (rw named_b (rw (laws.relays_answer a b) refl))

  -- When `b` joins a channel in which `a` is, the offer that `b` makes and the answer that `a`
  -- makes to it, once the voice service has relayed them, give both a connection to the other
  -- whose remote description is set, with no candidate waiting and with all the candidates that
  -- arrived from the other, in number and by membership, and no others; so it is whatever else
  -- happens on either side, before and after the descriptions are set, that neither ends the
  -- connection nor begins one anew. On each side the promise of setRemoteDescription, which the
  -- handler of the offer or of the answer calls, resolves at some time afterwards. The voice
  -- service stamps what it relays with the sender, both ids are not empty, no buffer holds
  -- anything at the start, and `a` has no connection to `b`.
  pub call_connects :
      (sa sb : Voice) (es fs gs hs ks : List Event)
      → ((j : String) → sa.pending j ≡ none)
      → ((j : String) → sb.pending j ≡ none)
      → sa.peers b ≡ none
      → keeps_all b es ≡ true
      → keeps_all b fs ≡ true
      → keeps_all a gs ≡ true
      → keeps_all a hs ≡ true
      → keeps_all a ks ≡ true
      → let to_a = relayed b (offers (a ∷ [])) in
        let to_b = relayed a (reply_of (relay b (offer_to a))) in
        let of_a = es ++ described b sa.next ∷ fs in
        let of_b = (gs ++ (to_b ++ hs)) ++ described a sb.next ∷ ks in
        IsConnected b (arrived b of_a) c (run (to_a ++ of_a) sa)
        × IsConnected a (arrived a of_b) c (run (opened (a ∷ []) ∷ of_b) sb)
  unfolding offers
  call_connects sa sb es fs gs hs ks wait_a wait_b alone he hf hg hh hk =
      let of_a : List Event = es ++ described b sa.next ∷ fs in
      (
        subst (λ m. IsConnected b (arrived b of_a) c (run (message m ∷ of_a) sa))
            (sym (laws.relays_offer b a)) (callee-IsConnected sa es fs wait_a alone he hf),
        rw replies (caller-IsConnected sb gs hs ks wait_b hg hh hk),
      )

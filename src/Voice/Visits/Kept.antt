-- ===== src/Voice/Visits/Kept.antt =====
-- VoiceChannelView.tsx: what its handlers leave as it is.
use concordia_chat_app.Prelude.{
  ℕ, ◌≡◌, refl, inl, inr, true, Option, none, some, List, [], ◌∷◌, String,
}
use concordia_chat_app.Prelude.Tests.{if_both, truthy, or_else, eqb, Option-cases}
use concordia_chat_app.Voice.{
  on_described, has_asked, await_description, Voice, Peer, Message, participant_joined,
  participant_left, offer, answer, ice_candidate, add_remote_candidate, flush_candidates, describe,
  make_peer, remove_peer, put, is_described, handle_message, on_open,
}

-- The parts that only joining, leaving and the end of the socket change.
pub record Keeps (s t : Voice) : Type 0 where
  pub joined : t.joined ≡ s.joined
  pub joining : t.joining ≡ s.joining
  pub joined_ref : t.joined_ref ≡ s.joined_ref
  pub has_ws : t.has_ws ≡ s.has_ws
  pub has_stream : t.has_stream ≡ s.has_stream

stays : (s : Voice) → Keeps s s
stays s = record {
  joined = refl;
  joining = refl;
  joined_ref = refl;
  has_ws = refl;
  has_stream = refl;
}

pub on_open-Keeps : (uids : List String) (s : Voice) → Keeps s (on_open uids s)
unfolding on_open make_peer
on_open-Keeps [] s = stays s
on_open-Keeps (uid ∷ uids) s =
    let k = on_open-Keeps uids (make_peer uid s) in
    record {
      joined = k.joined;
      joining = k.joining;
      joined_ref = k.joined_ref;
      has_ws = k.has_ws;
      has_stream = k.has_stream;
    }

pub add_remote_candidate-Keeps :
    (uid cand : String) (s : Voice) → Keeps s (add_remote_candidate uid cand s)
unfolding add_remote_candidate
add_remote_candidate-Keeps uid cand s =
    if_both (Keeps s) (is_described (s.peers uid))
      (record {
        joined = refl;
        joining = refl;
        joined_ref = refl;
        has_ws = refl;
        has_stream = refl;
      })
      (record {
        joined = refl;
        joining = refl;
        joined_ref = refl;
        has_ws = refl;
        has_stream = refl;
      })

pub flush_candidates-Keeps : (uid : String) (s : Voice) → Keeps s (flush_candidates uid s)
unfolding flush_candidates
flush_candidates-Keeps uid s = elim (Option-cases (s.pending uid)) [
  | inl e ↦ rw (e, flush_candidates) (stays s)
  | inr (buf, e) ↦
      rw (e, flush_candidates)
        (record {
          joined = refl;
          joining = refl;
          joined_ref = refl;
          has_ws = refl;
          has_stream = refl;
        })
]

describe-Keeps : (uid : String) (id : ℕ) (s : Voice) → Keeps s (describe uid id s)
unfolding describe
describe-Keeps uid id s = elim (Option-cases (s.peers uid)) [
  | inl e ↦ rw (e, describe) (stays s)
  | inr (p, e) ↦ rw (e, describe) (if_both (Keeps s) (eqb p.id id) (flushed p) (stays s))
]
  where
    flushed :
        (p : Peer)
        → Keeps s (
            flush_candidates uid
              (record s { peers = put uid (some (record p { described = true })) s.peers }))
    flushed p =
        let k =
          flush_candidates-Keeps uid
            (record s { peers = put uid (some (record p { described = true })) s.peers }) in
        record {
          joined = k.joined;
          joining = k.joining;
          joined_ref = k.joined_ref;
          has_ws = k.has_ws;
          has_stream = k.has_stream;
        }

pub on_described-Keeps : (uid : String) (id : ℕ) (s : Voice) → Keeps s (on_described uid id s)
unfolding on_described
on_described-Keeps uid id s =
    if_both (Keeps s) (has_asked uid id s.asked) (describe-Keeps uid id s) (stays s)

pub handle_message-Keeps : (m : Message) (s : Voice) → Keeps s (handle_message m s)
unfolding handle_message remove_peer make_peer
handle_message-Keeps (participant_joined uid now) s =
    if_both (Keeps s) (truthy uid)
      (record {
        joined = refl;
        joining = refl;
        joined_ref = refl;
        has_ws = refl;
        has_stream = refl;
      })
      (stays s)
handle_message-Keeps (participant_left uid) s =
    if_both (Keeps s) (truthy uid)
      (record {
        joined = refl;
        joining = refl;
        joined_ref = refl;
        has_ws = refl;
        has_stream = refl;
      })
      (stays s)
handle_message-Keeps (offer uid) s =
    if_both (Keeps s) (truthy uid) (new (s.peers (or_else uid ""))) (stays s)
  where
    new :
        (o : Option Peer)
        → Keeps s (elim o [
          | none ↦ await_description (or_else uid "") s.next (make_peer (or_else uid "") s)
          | some p ↦ await_description (or_else uid "") p.id s
        ])
    new none = record {
      joined = refl;
      joining = refl;
      joined_ref = refl;
      has_ws = refl;
      has_stream = refl;
    }
    new (some p) = record {
      joined = refl;
      joining = refl;
      joined_ref = refl;
      has_ws = refl;
      has_stream = refl;
    }
handle_message-Keeps (answer uid) s =
    if_both (Keeps s) (truthy uid) (there (s.peers (or_else uid ""))) (stays s)
  where
    there :
        (o : Option Peer)
        → Keeps s (elim o [ none ↦ s | some p ↦ await_description (or_else uid "") p.id s ])
    there none = stays s
    there (some p) = record {
      joined = refl;
      joining = refl;
      joined_ref = refl;
      has_ws = refl;
      has_stream = refl;
    }
handle_message-Keeps (ice_candidate uid cand) s =
    if_both (Keeps s) (truthy uid) (add_remote_candidate-Keeps (or_else uid "") cand s) (stays s)

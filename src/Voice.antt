-- ===== src/Voice.antt =====
-- apps/web-app/app/components/VoiceChannelView.tsx: joining a voice channel, and the signalling that
-- sets up one peer connection to each participant. The maps of the source are functions here.
-- An event is one turn of the browser: a message up to its first `await`, or the moment when a
-- remote description has been set. The connections themselves and what is sent are left out.
pub mod Buffer
pub mod Candidates
pub mod Joining
pub mod Connected
pub mod Asked
pub mod Signals
pub mod Visits
pub mod Screen
mod Tests
use concordia_chat_app.Prelude.{
  ℕ, suc, ◌+◌, Bool, true, false, not, ◌&&◌, ◌||◌, Option, none, some, List, [], ◌∷◌, ◌++◌, String,
  ◌==◌,
}
use concordia_chat_app.Prelude.Keyed.{has, without}
use concordia_chat_app.Prelude.Tests.{eqb, truthy, or_else, is_empty, if◌then◌else◌}
use concordia_chat_app.Prelude.Lists.{any}

pub record Participant : Type 0 where
  pub user_id : String
  pub joined_at : String

abbrev pub user_of : Participant → String
user_of p = p.user_id

-- A peer connection: which one it is, whether its remote description is set, and the ICE candidates
-- handed to `addIceCandidate`, each a text.
pub record Peer : Type 0 where
  pub id : ℕ
  pub described : Bool
  pub candidates : List String

-- `asked` has the users and connections for which `setRemoteDescription` has been called.
pub record Voice : Type 0 where
  pub joined : Bool
  pub joining : Bool
  pub participants : List Participant
  pub error : Option String
  pub joined_ref : Bool
  pub has_ws : Bool
  pub has_stream : Bool
  pub peers : String → Option Peer
  pub pending : String → Option (List String)
  pub audio : String → Bool
  pub leave_calls : ℕ
  pub asked : List (String × ℕ)
  pub next : ℕ

-- `map.set(k, v)`, and with `none` `map.delete(k)`.
abbrev pub put : {V : Type 0} → String → V → (String → V) → String → V
put k v m j = if j == k then v else m j

unfoldable pub remove_peer : String → Voice → Voice
remove_peer uid s = record s {
  peers = put uid none s.peers;
  pending = put uid none s.pending;
  audio = put uid false s.audio;
}

unfoldable pub make_peer : String → Voice → Voice
make_peer uid s = record s {
  peers = put uid (some (record { id = s.next; described = false; candidates = [] })) s.peers;
  next = suc s.next;
}

-- `await pc.setRemoteDescription(...)`, up to the `await`.
abbrev pub await_description : String → ℕ → Voice → Voice
await_description uid id s = record s { asked = s.asked ++ (uid, id) ∷ [] }

abbrev pub has_asked : String → ℕ → List (String × ℕ) → Bool
has_asked uid id = any (λ (q : String × ℕ). q.0 == uid && eqb q.1 id)

-- `pc && pc.remoteDescription`
abbrev pub is_described : Option Peer → Bool
is_described none = false
is_described (some p) = p.described

abbrev pub with_candidates : List String → Option Peer → Option Peer
with_candidates cs none = none
with_candidates cs (some p) = some (record p { candidates = p.candidates ++ cs })

-- `addRemoteCandidate`
unfoldable pub add_remote_candidate : String → String → Voice → Voice
add_remote_candidate uid cand s =
    if is_described (s.peers uid)
    then record s { peers = put uid (with_candidates (cand ∷ []) (s.peers uid)) s.peers }
    else record s { pending = put uid (some (or_else (s.pending uid) [] ++ cand ∷ [])) s.pending }

-- `flushCandidates` of the connection that the map holds.
unfoldable pub flush_candidates : String → Voice → Voice
flush_candidates uid s = elim (s.pending uid) [
  | none ↦ s
  | some buf ↦ record s {
    pending = put uid none s.pending;
    peers = put uid (with_candidates buf (s.peers uid)) s.peers;
  }
]

-- `setRemoteDescription` of the connection `id` has resolved. A connection that is no longer in the
-- map is closed, and its promise rejects.
unfoldable pub describe : String → ℕ → Voice → Voice
unfolding flush_candidates
describe uid id s = elim (s.peers uid) [
  | none ↦ s
  | some p ↦
      if eqb p.id id
      then flush_candidates uid
          (record s { peers = put uid (some (record p { described = true })) s.peers })
      else s
]

-- It resolves for a connection only after it has been called for it.
unfoldable pub on_described : String → ℕ → Voice → Voice
unfolding describe
on_described uid id s = if has_asked uid id s.asked then describe uid id s else s

-- The messages of the socket, with the user that they name, and the time or the candidate.
pub data Message : Type 0 where
  participant_joined : Option String → String → Message
  participant_left : Option String → Message
  offer : Option String → Message
  answer : Option String → Message
  ice_candidate : Option String → String → Message

-- The updater for a participant who has joined.
unfoldable pub add_participant : String → String → List Participant → List Participant
add_participant uid now ps =
    if has user_of uid ps then ps else ps ++ (record { user_id = uid; joined_at = now }) ∷ []

-- `handleMessage` up to its first `await`; a user that is absent or empty does nothing.
unfoldable pub handle_message : Message → Voice → Voice
unfolding add_participant remove_peer make_peer add_remote_candidate
handle_message (participant_joined uid now) s =
    if truthy uid
    then record s { participants = add_participant (or_else uid "") now s.participants }
    else s
handle_message (participant_left uid) s =
    if truthy uid
    then remove_peer (or_else uid "")
        (record s { participants = without user_of (or_else uid "") s.participants })
    else s
handle_message (offer uid) s =
    if truthy uid
    then elim (s.peers (or_else uid "")) [
      | none ↦ await_description (or_else uid "") s.next (make_peer (or_else uid "") s)
      | some p ↦ await_description (or_else uid "") p.id s
    ]
    else s
handle_message (answer uid) s =
    if truthy uid
    then elim (s.peers (or_else uid "")) [
      | none ↦ s
      | some p ↦ await_description (or_else uid "") p.id s
    ]
    else s
handle_message (ice_candidate uid cand) s =
    if truthy uid then add_remote_candidate (or_else uid "") cand s else s

-- `doCleanup`
unfoldable pub do_cleanup : Bool → Voice → Voice
do_cleanup call_leave s = record s {
  leave_calls = if call_leave then suc s.leave_calls else s.leave_calls;
  has_ws = false;
  peers = λ k. none;
  pending = λ k. none;
  has_stream = false;
  audio = λ k. false;
  joined_ref = false;
}

-- `ws.onopen`, with the users that were in the channel.
unfoldable pub on_open : List String → Voice → Voice
unfolding make_peer
on_open [] s = s
on_open (uid ∷ uids) s = on_open uids (make_peer uid s)

-- `ws.onclose`
unfoldable pub on_close : Voice → Voice
unfolding do_cleanup
on_close s =
    if s.joined_ref then record (do_cleanup false s) { joined = false; participants = [] } else s

-- `handleLeave`
unfoldable pub handle_leave : Voice → Voice
unfolding do_cleanup
handle_leave s = record (do_cleanup true s) { joined = false; participants = [] }

pub data Event : Type 0 where
  message : Message → Event
  described : String → ℕ → Event
  track : String → Event
  opened : List String → Event
  closed : Event
  left : Event

unfoldable pub step : Event → Voice → Voice
step (message m) s = handle_message m s
step (described uid id) s = on_described uid id s
step (track uid) s = record s { audio = put uid true s.audio }
step (opened uids) s = on_open uids s
step closed s = on_close s
step left s = handle_leave s

unfoldable pub run : List Event → Voice → Voice
run [] s = s
run (e ∷ es) s = run es (step e s)

-- ===== src/Voice/Joining.antt =====
-- VoiceChannelView.tsx: `handleJoin`, which waits for the gateway, for the microphone, and again for
-- the gateway. A turn of the browser runs from one of these to the next.
pub mod Ends
use concordia_chat_app.Prelude.{Bool, true, false, not, Option, none, some, List, String}
use concordia_chat_app.Prelude.Tests.{truthy, eqb, if◌then◌else◌}
use concordia_chat_app.Http.{Reply, is_ok}
use concordia_chat_app.Voice.{Voice, Participant}

abbrev pub join_failed : Voice → Voice
join_failed s = record s {
  error = some "Failed to join voice channel";
  has_stream = false;
  joining = false;
}

-- `handleJoin` once the microphone is there: the socket, if there is a token and the constructor
-- returns.
unfoldable pub join_socket : Option String → Bool → Voice → Voice
join_socket token opens s =
    if not (truthy token)
    then join_failed s
    else if opens
    then record s { has_ws = true; joined_ref = true; joined = true; joining = false }
    else join_failed s

-- ... and with the reply to the request for the participants.
unfoldable pub join_participants : Reply (List Participant) → Option String → Bool → Voice → Voice
unfolding join_socket
join_participants none token opens s = join_failed s
join_participants (some r) token opens s =
    if is_ok r
    then elim r.json [
      | none ↦ join_failed s
      | some ps ↦ join_socket token opens (record s { participants = ps })
    ]
    else join_socket token opens s

-- What the handler waits for: nothing, the reply to the join, the microphone, the participants.
pub data Stage : Type 0 where
  idle : Stage
  asking : Stage
  mic : Stage
  listing : Stage

pub record Joining : Type 0 where
  pub stage : Stage
  pub voice : Voice

abbrev pub is_asking : Stage → Bool
is_asking asking = true
is_asking g = false

abbrev pub is_mic : Stage → Bool
is_mic mic = true
is_mic g = false

abbrev pub is_listing : Stage → Bool
is_listing listing = true
is_listing g = false

abbrev pub is_under_way : Stage → Bool
is_under_way idle = false
is_under_way g = true

-- `handleJoin` up to its first request.
unfoldable pub handle_join : Voice → Joining
handle_join s = record { stage = asking; voice = record s { joining = true; error = none } }

-- ... with the reply to the join, whose body is the user's own id.
unfoldable pub join_replied : Reply String → Voice → Joining
join_replied none s = record { stage = idle; voice = join_failed s }
join_replied (some r) s =
    if eqb r.status 403
    then record {
      stage = idle;
      voice = record s {
        error = some "You do not have permission to join this voice channel";
        joining = false;
      };
    }
    else if not (is_ok r)
    then record { stage = idle; voice = join_failed s }
    else elim r.json [
      | none ↦ record { stage = idle; voice = join_failed s }
      | some id ↦ record { stage = mic; voice = s }
    ]

-- ... with what `getUserMedia` answers.
unfoldable pub mic_replied : Bool → Voice → Joining
mic_replied granted s =
    if granted then record { stage = listing; voice = record s { has_stream = true } } else record {
      stage = idle;
      voice = record s { error = some "Microphone access denied"; joining = false };
    }

-- An answer to `handleJoin`; with the participants come the stored token and whether
-- `new WebSocket` returns.
pub data Answer : Type 0 where
  join_reply : Reply String → Answer
  mic_reply : Bool → Answer
  participants_reply : Reply (List Participant) → Option String → Bool → Answer

-- Only the answer that the handler waits for arrives.
unfoldable pub answer_join : Answer → Joining → Joining
unfolding join_replied mic_replied join_participants
answer_join (join_reply r) j = if is_asking j.stage then join_replied r j.voice else j
answer_join (mic_reply granted) j = if is_mic j.stage then mic_replied granted j.voice else j
answer_join (participants_reply parts token opens) j =
    if is_listing j.stage
    then record { stage = idle; voice = join_participants parts token opens j.voice }
    else j

-- ===== src/Voice/Visits.antt =====
-- VoiceChannelView.tsx: the view over any run of its buttons, of the answers to `handleJoin` and of
-- its socket. A button is clicked only where it is drawn and enabled, and a socket that `doCleanup`
-- has closed delivers no more than its close event.
pub mod Kept
pub mod Ends
use concordia_chat_app.Prelude.{true, not, ◌&&◌, List, [], ◌∷◌}
use concordia_chat_app.Prelude.Tests.{if◌then◌else◌}
use concordia_chat_app.Voice.{
  Voice, Event, message, described, track, opened, closed, left, do_cleanup, handle_leave, step,
}
use concordia_chat_app.Voice.Joining.{Joining, handle_join, Answer, answer_join}

-- A click on "Join Voice", an answer to its handler, an event of the channel, a click on "Leave
-- Voice".
pub data Visit : Type 0 where
  join_clicked : Visit
  answered : Answer → Visit
  happened : Event → Visit
  leave_clicked : Visit

-- An event of the channel, where its source is still there.
unfoldable pub hear : Event → Voice → Voice
unfolding step
hear closed s = step closed s
hear left s = s
hear e s = if s.has_ws then step e s else s

unfoldable pub visit : Visit → Joining → Joining
unfolding hear handle_leave handle_join answer_join
visit join_clicked j = if not j.voice.joined && not j.voice.joining then handle_join j.voice else j
visit (answered a) j = answer_join a j
visit (happened e) j = record j { voice = hear e j.voice }
visit leave_clicked j = if j.voice.joined then record j { voice = handle_leave j.voice } else j

unfoldable pub visits : List Visit → Joining → Joining
unfolding visit
visits [] j = j
visits (v ∷ vs) j = visits vs (visit v j)

-- The end of the component; `handleJoin` goes on when its answer comes.
unfoldable pub unmount : Joining → Joining
unfolding do_cleanup
unmount j = if j.voice.joined_ref then record j { voice = do_cleanup true j.voice } else j

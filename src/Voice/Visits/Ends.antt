-- ===== src/Voice/Visits/Ends.antt =====
-- VoiceChannelView.tsx: the microphone, the socket and the connections over any run of visits.
use concordia_chat_app.Prelude.{
  suc, ◌≡◌, refl, sym, ◌∙◌, inl, inr, Bool, true, false, not, ◌&&◌, Option, some, List, [], ◌∷◌,
  String, arith,
}
use concordia_chat_app.Prelude.Tests.{Bool-cases, if_known, if_either, truthy, if◌then◌else◌}
use concordia_chat_app.Http.{Response, is_ok}
use concordia_chat_app.Voice.{
  on_described, Voice, Participant, Event, message, described, track, opened, closed, left, put,
  handle_message, on_open, on_close, do_cleanup, handle_leave,
}
use concordia_chat_app.Voice.Joining.{
  listing, Joining, is_listing, is_under_way, join_participants, join_socket, participants_reply,
  answer_join,
}
use concordia_chat_app.Voice.Joining.Ends.{
  IsClear, IsConsistent, idle-is_listing, handle_join-IsConsistent, answer_join-IsConsistent,
}
use concordia_chat_app.Voice.Visits.{
  Visit, join_clicked, answered, happened, leave_clicked, hear, visit, visits, unmount,
}
use concordia_chat_app.Voice.Visits.Kept.{
  Keeps, handle_message-Keeps, on_described-Keeps, on_open-Keeps,
}

Keeps-IsConsistent :
    (j : Joining) (t : Voice)
    → Keeps j.voice t
    → j.voice.joined ≡ true
    → IsConsistent j
    → IsConsistent (record j { voice = t })
Keeps-IsConsistent j t k on i = record {
  joined_ref = k.joined_ref ∙ i.joined_ref ∙ sym k.joined;
  has_ws = k.has_ws ∙ i.has_ws ∙ sym k.joined;
  has_stream = rw (k.has_stream, k.joined) i.has_stream;
  joining = k.joining ∙ i.joining;
  out = λ w. k.joined ∙ i.out w;
  clear = λ off. absurd (ground (arith, k.joined));
}

-- Nothing is under way while the user is in.
pub joined_rests :
    (j : Joining) → IsConsistent j → j.voice.joined ≡ true → is_under_way j.stage ≡ false
joined_rests j i on = elim (Bool-cases (is_under_way j.stage)) [
  | inl w ↦ absurd (ground (arith, on, i.out w))
  | inr rests ↦ rests
]

-- The user is out after a close event or a click on "Leave Voice", and no join is under way then.
off-IsConsistent :
    (calls : Bool) (j : Joining)
    → j.voice.joined ≡ true
    → IsConsistent j
    → IsConsistent (record j {
      voice = record (do_cleanup calls j.voice) { joined = false; participants = [] };
    })
unfolding do_cleanup
off-IsConsistent calls j on i = record {
  joined_ref = refl;
  has_ws = refl;
  has_stream = sym (idle-is_listing j.stage (joined_rests j i on));
  joining = i.joining;
  out = λ w. refl;
  clear = λ off k. (refl, refl, refl);
}

heard :
    (j : Joining)
    → IsConsistent j
    → (t : Voice) → Keeps j.voice t
    → IsConsistent (record j { voice = if j.voice.has_ws then t else j.voice })
heard j i t k =
    if_known (λ s. IsConsistent (record j { voice = s })) j.voice.has_ws
      (λ on. Keeps-IsConsistent j t k (sym i.has_ws ∙ on) i) i

hear-IsConsistent :
    (e : Event) (j : Joining) → IsConsistent j → IsConsistent (record j { voice = hear e j.voice })
unfolding hear on_close
hear-IsConsistent closed j i =
    if_known (λ s. IsConsistent (record j { voice = s })) j.voice.joined_ref
      (λ on. off-IsConsistent false j (sym i.joined_ref ∙ on) i) i
hear-IsConsistent left j i = i
hear-IsConsistent (message m) j i =
    heard j i (handle_message m j.voice) (handle_message-Keeps m j.voice)
hear-IsConsistent (described uid id) j i =
    heard j i (on_described uid id j.voice) (on_described-Keeps uid id j.voice)
hear-IsConsistent (track uid) j i =
    heard j i (record j.voice { audio = put uid true j.voice.audio })
      (record {
        joined = refl;
        joining = refl;
        joined_ref = refl;
        has_ws = refl;
        has_stream = refl;
      })
hear-IsConsistent (opened uids) j i = heard j i (on_open uids j.voice) (on_open-Keeps uids j.voice)

visit-IsConsistent : (v : Visit) (j : Joining) → IsConsistent j → IsConsistent (visit v j)
unfolding visit handle_leave
visit-IsConsistent join_clicked j i =
    if_known IsConsistent (not j.voice.joined && not j.voice.joining)
      (λ out. handle_join-IsConsistent j (ground (arith, out)) (ground (arith, out)) i) i
visit-IsConsistent (answered a) j i = answer_join-IsConsistent a j i
visit-IsConsistent (happened e) j i = hear-IsConsistent e j i
visit-IsConsistent leave_clicked j i =
    if_known IsConsistent j.voice.joined (λ on. off-IsConsistent true j on i) i

visits-IsConsistent : (vs : List Visit) (j : Joining) → IsConsistent j → IsConsistent (visits vs j)
unfolding visits
visits-IsConsistent [] j i = i
visits-IsConsistent (v ∷ vs) j i = visits-IsConsistent vs (visit v j) (visit-IsConsistent v j i)

-- After the end of the component: no socket, no connection, and no microphone but for a handler that
-- has it already and waits for the participants; the service knows that the user is out.
pub record IsEnded (j k : Joining) : Type 0 where
  pub has_ws : k.voice.has_ws ≡ false
  pub has_stream : k.voice.has_stream ≡ is_listing j.stage
  pub clear : IsClear k.voice
  pub told :
      k.voice.leave_calls
      ≡ (if j.voice.joined then suc j.voice.leave_calls else j.voice.leave_calls)

unmount-IsEnded : (j : Joining) → IsConsistent j → IsEnded j (unmount j)
unfolding unmount do_cleanup
unmount-IsEnded j i =
    if_either (IsEnded j) j.voice.joined_ref (λ on. gone (sym i.joined_ref ∙ on))
      (λ off. stays (sym i.joined_ref ∙ off))
  where
    gone : j.voice.joined ≡ true → IsEnded j (record j { voice = do_cleanup true j.voice })
    gone on = record {
      has_ws = refl;
      has_stream = sym (idle-is_listing j.stage (joined_rests j i on));
      clear = λ k. (refl, refl, refl);
      told = ground (arith, on);
    }

    stays : j.voice.joined ≡ false → IsEnded j j
    stays off = record {
      has_ws = i.has_ws ∙ off;
      has_stream = ground (arith, i.has_stream, off);
      clear = i.clear off;
      told = ground (arith, off);
    }

-- A component that has ended while `handleJoin` waits for the participants: with good answers the
-- handler opens the socket, and the microphone stays open.
unmount-answer_join :
    (j : Joining) (r : Response (List Participant)) (ps : List Participant) (token : Option String)
    → IsConsistent j
    → j.stage ≡ listing
    → is_ok r ≡ true
    → r.json ≡ some ps
    → truthy token ≡ true
    → let k = answer_join (participants_reply (some r) token true) (unmount j) in
      (k.voice.has_ws ≡ true) × (k.voice.has_stream ≡ true)
unfolding answer_join join_participants join_socket unmount
unmount-answer_join j r ps token i e good body t =
    let off : j.voice.joined ≡ false = i.out (rw e refl) in
    let off_ref = i.joined_ref ∙ off in
    let streams = (unmount-IsEnded j i).has_stream in
    rw (off_ref, e, good, body, t) (refl, streams ∙ rw e refl)

-- Over any run of clicks, of answers to `handleJoin`, of messages and of close events, the socket
-- is open exactly while the view shows that the user has joined, the microphone then and while a
-- join waits for the participants, the button for joining is off exactly while a join waits, no
-- join waits while the user is in, and while the user is out there is no connection, buffer or
-- audio. When the component then ends, also while a join waits, no socket, connection, buffer or
-- audio is left, the microphone is open exactly if a join waits for the participants, and the
-- service has been told once more exactly if the user was in. The state at the start is one in
-- which the first part holds.
pub unmount-visits :
    (vs : List Visit) (j : Joining)
    → IsConsistent j
    → IsConsistent (visits vs j) × IsEnded (visits vs j) (unmount (visits vs j))
unmount-visits vs j i =
    let known = visits-IsConsistent vs j i in (known, unmount-IsEnded (visits vs j) known)

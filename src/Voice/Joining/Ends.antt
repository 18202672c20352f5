-- ===== src/Voice/Joining/Ends.antt =====
-- VoiceChannelView.tsx: the microphone and the socket at each turn of `handleJoin`.
use concordia_chat_app.Prelude.{
  ◌≡◌, refl, sym, ◌∙◌, Bool, true, false, not, ◌||◌, Option, none, some, List, String, arith,
}
use concordia_chat_app.Prelude.Tests.{if_both, if_known, truthy, eqb}
use concordia_chat_app.Http.{Reply, is_ok}
use concordia_chat_app.Voice.{Voice, Participant}
use concordia_chat_app.Voice.Joining.{
  Stage, idle, asking, mic, listing, Joining, is_asking, is_mic, is_listing, is_under_way,
  join_failed, join_socket, join_participants, handle_join, join_replied, mic_replied, Answer,
  join_reply, mic_reply, participants_reply, answer_join,
}

-- Nothing left of the connections.
abbrev pub IsClear : Voice → Type 0
IsClear s = (k : String) → (s.peers k ≡ none) × (s.pending k ≡ none) × (s.audio k ≡ false)

-- The socket is open exactly while the view shows that the user is in, the microphone then and while
-- the handler waits for the participants, and the button is off exactly while it waits.
pub record IsConsistent (j : Joining) : Type 0 where
  pub joined_ref : j.voice.joined_ref ≡ j.voice.joined
  pub has_ws : j.voice.has_ws ≡ j.voice.joined
  pub has_stream : j.voice.has_stream ≡ (j.voice.joined || is_listing j.stage)
  pub joining : j.voice.joining ≡ is_under_way j.stage
  pub out : is_under_way j.stage ≡ true → j.voice.joined ≡ false
  pub clear : j.voice.joined ≡ false → IsClear j.voice

-- Not in the channel, and no connection.
pub record IsOut (s : Voice) : Type 0 where
  pub joined : s.joined ≡ false
  pub joined_ref : s.joined_ref ≡ false
  pub has_ws : s.has_ws ≡ false
  pub clear : IsClear s

abbrev out_now : (j : Joining) → j.voice.joined ≡ false → IsConsistent j → IsOut j.voice
out_now j off i = record {
  joined = off;
  joined_ref = i.joined_ref ∙ off;
  has_ws = i.has_ws ∙ off;
  clear = i.clear off;
}

under_way-IsOut : (j : Joining) → is_under_way j.stage ≡ true → IsConsistent j → IsOut j.voice
under_way-IsOut j w i = out_now j (i.out w) i

asking-is_under_way :
    (g : Stage) → is_asking g ≡ true → (is_under_way g ≡ true) × (is_listing g ≡ false)
asking-is_under_way idle e = absurd (ground (arith, e))
asking-is_under_way asking e = (refl, refl)
asking-is_under_way mic e = (refl, refl)
asking-is_under_way listing e = absurd (ground (arith, e))

mic-is_under_way : (g : Stage) → is_mic g ≡ true → (is_under_way g ≡ true) × (is_listing g ≡ false)
mic-is_under_way idle e = absurd (ground (arith, e))
mic-is_under_way asking e = (refl, refl)
mic-is_under_way mic e = (refl, refl)
mic-is_under_way listing e = absurd (ground (arith, e))

listing-is_under_way : (g : Stage) → is_listing g ≡ true → is_under_way g ≡ true
listing-is_under_way idle e = absurd (ground (arith, e))
listing-is_under_way asking e = refl
listing-is_under_way mic e = refl
listing-is_under_way listing e = refl

pub idle-is_listing : (g : Stage) → is_under_way g ≡ false → is_listing g ≡ false
idle-is_listing idle e = refl
idle-is_listing asking e = refl
idle-is_listing mic e = refl
idle-is_listing listing e = e

-- Whatever `handleJoin` sets while the user is out.
out-IsConsistent :
    (g : Stage) (s : Voice) (streams waits : Bool) (e : Option String) (ps : List Participant)
    → IsOut s
    → streams ≡ is_listing g
    → waits ≡ is_under_way g
    → IsConsistent (record {
      stage = g;
      voice = record s { has_stream = streams; joining = waits; error = e; participants = ps };
    })
out-IsConsistent g s streams waits e ps o m w = record {
  joined_ref = o.joined_ref ∙ sym o.joined;
  has_ws = o.has_ws ∙ sym o.joined;
  has_stream = ground (arith, m, o.joined);
  joining = w;
  out = λ u. o.joined;
  clear = λ u. o.clear;
}

failed-IsConsistent :
    (s : Voice) → IsOut s → IsConsistent (record { stage = idle; voice = join_failed s })
failed-IsConsistent s o = out-IsConsistent idle s false false _ s.participants o refl refl

pub handle_join-IsConsistent :
    (j : Joining)
    → j.voice.joined ≡ false
    → j.voice.joining ≡ false
    → IsConsistent j
    → IsConsistent (handle_join j.voice)
unfolding handle_join
handle_join-IsConsistent j off rests i =
    let quiet = idle-is_listing j.stage (sym i.joining ∙ rests) in
    out-IsConsistent asking j.voice j.voice.has_stream true none j.voice.participants
      (out_now j off i) (ground (arith, i.has_stream, off, quiet)) refl

join_replied-IsConsistent :
    (reply : Reply String) (s : Voice)
    → IsOut s
    → s.has_stream ≡ false
    → s.joining ≡ true
    → IsConsistent (join_replied reply s)
unfolding join_replied
join_replied-IsConsistent none s o m w = failed-IsConsistent s o
join_replied-IsConsistent (some r) s o m w =
    if_both IsConsistent (eqb r.status 403)
      (out-IsConsistent idle s s.has_stream false _ s.participants o m refl)
      (if_both IsConsistent (not (is_ok r)) (failed-IsConsistent s o) (known r.json))
  where
    known :
        (id : Option String)
        → IsConsistent (elim id [
          | none ↦ record { stage = idle; voice = join_failed s }
          | some id ↦ record { stage = mic; voice = s }
        ])
    known none = failed-IsConsistent s o
    known (some id) = out-IsConsistent mic s s.has_stream s.joining s.error s.participants o m w

mic_replied-IsConsistent :
    (granted : Bool) (s : Voice)
    → IsOut s
    → s.has_stream ≡ false
    → s.joining ≡ true
    → IsConsistent (mic_replied granted s)
unfolding mic_replied
mic_replied-IsConsistent true s o m w =
    out-IsConsistent listing s true s.joining s.error s.participants o refl w
mic_replied-IsConsistent false s o m w =
    out-IsConsistent idle s s.has_stream false _ s.participants o m refl

join_socket-IsConsistent :
    (token : Option String) (opens : Bool) (ps : List Participant) (s : Voice)
    → IsOut s
    → s.has_stream ≡ true
    → IsConsistent
        (record { stage = idle; voice = join_socket token opens (record s { participants = ps }) })
unfolding join_socket
join_socket-IsConsistent token opens ps s o m =
    if_both (λ t. IsConsistent (record { stage = idle; voice = t })) (not (truthy token)) failed
      (if_both (λ t. IsConsistent (record { stage = idle; voice = t })) opens
        (record {
          joined_ref = refl;
          has_ws = refl;
          has_stream = m;
          joining = refl;
          out = λ u. absurd (ground (arith, u));
          clear = λ u. absurd (ground (arith, u));
        })
        failed)
  where
    failed :
        IsConsistent (record { stage = idle; voice = join_failed (record s { participants = ps }) })
    failed = out-IsConsistent idle s false false _ ps o refl refl

participants-IsConsistent :
    (parts : Reply (List Participant)) (token : Option String) (opens : Bool) (s : Voice)
    → IsOut s
    → s.has_stream ≡ true
    → IsConsistent (record { stage = idle; voice = join_participants parts token opens s })
unfolding join_participants
participants-IsConsistent none token opens s o m = failed-IsConsistent s o
participants-IsConsistent (some r) token opens s o m =
    if_both (λ t. IsConsistent (record { stage = idle; voice = t })) (is_ok r) (listed r.json)
      (join_socket-IsConsistent token opens s.participants s o m)
  where
    listed :
        (ps : Option (List Participant))
        → IsConsistent (record {
          stage = idle;
          voice = elim ps [
            | none ↦ join_failed s
            | some ps ↦ join_socket token opens (record s { participants = ps })
          ];
        })
    listed none = failed-IsConsistent s o
    listed (some ps) = join_socket-IsConsistent token opens ps s o m

-- What holds where the handler waits for an answer.
pub answer_join-IsConsistent :
    (a : Answer) (j : Joining) → IsConsistent j → IsConsistent (answer_join a j)
unfolding answer_join
answer_join-IsConsistent (join_reply r) j i =
    if_known IsConsistent (is_asking j.stage)
      (λ e.
        let (w, q) = asking-is_under_way j.stage e in
        join_replied-IsConsistent r j.voice (under_way-IsOut j w i)
          (ground (arith, i.has_stream, i.out w, q)) (i.joining ∙ w))
      i
answer_join-IsConsistent (mic_reply granted) j i =
    if_known IsConsistent (is_mic j.stage)
      (λ e.
        let (w, q) = mic-is_under_way j.stage e in
        mic_replied-IsConsistent granted j.voice (under_way-IsOut j w i)
          (ground (arith, i.has_stream, i.out w, q)) (i.joining ∙ w))
      i
answer_join-IsConsistent (participants_reply parts token opens) j i =
    if_known IsConsistent (is_listing j.stage)
      (λ e.
        let w = listing-is_under_way j.stage e in
        participants-IsConsistent parts token opens j.voice (under_way-IsOut j w i)
          (ground (arith, i.has_stream, i.out w, e)))
      i

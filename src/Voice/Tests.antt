-- ===== src/Voice/Tests.antt =====
-- VoiceChannelView.tsx: its theorems at a concrete channel.
use concordia_chat_app.Prelude.{◌≡◌, refl, true, false, none, some, List, [], ◌∷◌, String, ◌==◌}
use concordia_chat_app.Prelude.Lists.{length, any}
use concordia_chat_app.Http.{Response}
use concordia_chat_app.Voice.{
  Voice, Event, Message, handle_message, answer, opened, message, described, offer, ice_candidate,
  run,
}
use concordia_chat_app.Voice.Signals.{
  Signal, offer_to, answer_to, candidate_to, IsRelay, IsConnected, offers, reply_of, call_connects,
}
use concordia_chat_app.Voice.Candidates.{arrived, held, run_keeps_candidates}
use concordia_chat_app.Voice.Visits.{
  Visit, join_clicked, answered, happened, leave_clicked, visits, unmount,
}
use concordia_chat_app.Voice.Joining.{
  Joining, idle, listing, join_reply, mic_reply, participants_reply,
}
use concordia_chat_app.Voice.Joining.Ends.{IsConsistent}
use concordia_chat_app.Voice.Visits.Ends.{IsEnded, unmount-visits}

abbrev outside : Voice
outside = record {
  joined = false;
  joining = false;
  participants = [];
  error = none;
  joined_ref = false;
  has_ws = false;
  has_stream = false;
  peers = λ k. none;
  pending = λ k. none;
  audio = λ k. false;
  leave_calls = 0;
  asked = [];
  next = 0;
}

-- A candidate comes before the offer, and one before its description is set.
abbrev events : List Event
events =
    message (ice_candidate (some "u2") "x")
    ∷ message (offer (some "u2"))
    ∷ message (ice_candidate (some "u2") "y")
    ∷ described "u2" 0
    ∷ []

run_keeps_candidates_example :
    (length (held "u2" (run events outside)) ≡ 2)
    × (any (λ c. c == "y") (held "u2" (run events outside)) ≡ true)
run_keeps_candidates_example = run_keeps_candidates "u2" "y" events outside (λ j. refl) refl

abbrev admitted : Response String
admitted = record { status = 200; json = some "u1" }

abbrev closed : Joining
closed = record { stage = idle; voice = outside }

closed_out : IsConsistent closed
closed_out = record {
  joined_ref = refl;
  has_ws = refl;
  has_stream = refl;
  joining = refl;
  out = λ w. refl;
  clear = λ off k. (refl, refl, refl);
}

-- A join without a reply for the participants, a second click, which nothing answers, a join in which
-- a candidate comes, a click to leave, and a join that waits for the participants.
abbrev visit_twice : List Visit
visit_twice =
    join_clicked
    ∷ answered (join_reply (some admitted))
    ∷ answered (mic_reply true)
    ∷ answered (participants_reply none (some "token") true)
    ∷ join_clicked
    ∷ answered (join_reply (some admitted))
    ∷ join_clicked
    ∷ answered (mic_reply true)
    ∷ answered
        (participants_reply (some (record { status = 500; json = none })) (some "token") true)
    ∷ happened (message (ice_candidate (some "u2") "x"))
    ∷ leave_clicked
    ∷ join_clicked
    ∷ answered (join_reply (some admitted))
    ∷ answered (mic_reply true)
    ∷ []

visit_twice_waits :
    let j = visits visit_twice closed in
    (j.stage ≡ listing) × (j.voice.leave_calls ≡ 1) × (j.voice.has_stream ≡ true)
unfolding visits handle_message
visit_twice_waits = (refl, refl, refl)

unmount-visits_example :
    IsConsistent (visits visit_twice closed)
    × IsEnded (visits visit_twice closed) (unmount (visits visit_twice closed))
unmount-visits_example = unmount-visits visit_twice closed closed_out

-- The voice service as a function.
abbrev stamped : String → Signal → Message
stamped from (offer_to target) = offer (some from)
stamped from (answer_to target) = answer (some from)
stamped from (candidate_to target cand) = ice_candidate (some from) cand

stamped-IsRelay : IsRelay stamped
stamped-IsRelay = record { relays_offer = λ f t. refl; relays_answer = λ f t. refl }

-- "u2" joins while "u1" is there; candidates come before and after the descriptions.
call_connects_example :
    let of_1 : List Event = message (ice_candidate (some "u2") "x") ∷ described "u2" 0 ∷ [] in
    let of_2 : List Event =
      message (answer (some "u1"))
      ∷ described "u1" 0
      ∷ message (ice_candidate (some "u1") "y")
      ∷ [] in
    IsConnected "u2" (arrived "u2" of_1) "x" (run (message (offer (some "u2")) ∷ of_1) outside)
    × IsConnected "u1" (arrived "u1" of_2) "x" (run (opened ("u1" ∷ []) ∷ of_2) outside)
unfolding offers reply_of
call_connects_example =
    call_connects stamped stamped-IsRelay "u1" "u2" "x" refl refl outside outside
      (message (ice_candidate (some "u2") "x") ∷ []) [] [] []
      (message (ice_candidate (some "u1") "y") ∷ []) (λ j. refl) (λ j. refl) refl refl refl refl
      refl refl

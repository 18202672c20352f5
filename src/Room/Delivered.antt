-- ===== src/Room/Delivered.antt =====
-- A text channel's page: a message from the keys to the list, and what becomes of one that fails.
use concordia_chat_app.Prelude.{
  ℕ, ◌+◌, ◌≡◌, refl, sym, ◌∙◌, ap, Option, true, false, not, some, List, [], ◌∷◌, ◌++◌, String,
  arith, ◌≢◌,
}
use mathlib.Core.List.{append_assoc}
use concordia_chat_app.Prelude.Keyed.{has}
use concordia_chat_app.Prelude.Lists.{filter, filter-append}
use concordia_chat_app.Prelude.Tests.{is_empty}
use concordia_chat_app.Prelude.Text.{trim}
use concordia_chat_app.Http.{Response, Reply}
use concordia_chat_app.Chat.{View, CurrentUser, Frame, Message, id_of, temp_id_at}
use concordia_chat_app.Chat
use concordia_chat_app.Chat.Order.{
  Confirms, IsFailure, echo_of, named, sending_of, send_race, settle_failure,
}
use concordia_chat_app.Composer
use concordia_chat_app.Composer.{Composer}
use concordia_chat_app.Timeline.{all_messages}
use concordia_chat_app.Room.{
  Room, Event, typed, submitted, answered, framed, displayed, submit, on_send, answer, step, run,
}
use concordia_chat_app.Room.Steps.{answer-one, send-sending, on_message-sending}

all_messages-concat :
    (ms xs : List Message) (m : Message)
    → has id_of m.message_id ms ≡ false
    → all_messages ms (xs ++ m ∷ []) ≡ all_messages ms xs ++ m ∷ []
unfolding all_messages filter
all_messages-concat ms xs m fresh =
    ap (λ l. ms ++ l)
      (filter-append (λ x. not (has id_of x.message_id ms)) xs (m ∷ [])
        ∙ ap (λ l. filter (λ x. not (has id_of x.message_id ms)) xs ++ l) (rw (fresh, filter)))
    ∙ sym (append_assoc ms (filter (λ x. not (has id_of x.message_id ms)) xs) (m ∷ []))

-- The page with a text in its field, sent.
abbrev pub posted : String → ℕ → String → Room → Room
posted value now iso r = record r {
  view = Chat.send (trim value) now iso r.view;
  composer = record r.composer {
    text = "";
    sending = true;
    calls = trim value ∷ r.composer.calls;
    open_calls = r.composer.open_calls + 1;
  };
}

module _ (value iso : String) (now : ℕ) (r : Room) (user : CurrentUser)
    (full : is_empty (trim value) ≡ false) (idle : r.composer.sending ≡ false)
    (known : r.view.current_user ≡ some user) (no_post : r.view.sending ≡ []) where
  submit-typed : submit now iso (step (typed value) r) ≡ posted value now iso r
  unfolding submit step Composer.handle_input on_send Composer.handle_send
  submit-typed = ground arith

  -- The page after the reply, with a view `v`.
  abbrev after : View → Room
  after v = record r { view = v; composer = Composer.send_ended (posted value now iso r).composer }

  module _ (reply : Reply Message) where
    answer-posted :
        (v : View)
        → v.sending ≡ sending_of now user ∷ []
        → answer reply (record (posted value now iso r) { view = v })
          ≡ after (Chat.settle (sending_of now user) reply v)
    answer-posted v e = answer-one reply (record (posted value now iso r) { view = v }) _ e

    one_post : (Chat.send (trim value) now iso r.view).sending ≡ sending_of now user ∷ []
    one_post = send-sending (trim value) now iso r.view user known no_post

    run-answered :
        run (typed value ∷ submitted now iso ∷ answered reply ∷ []) r
        ≡ after (Chat.settle (sending_of now user) reply (Chat.send (trim value) now iso r.view))
    unfolding run step
    run-answered = ap (answer reply) submit-typed ∙ answer-posted _ one_post

    run-framed_answered :
        (ch : String) (f : Option Frame)
        → run (typed value ∷ submitted now iso ∷ framed ch f ∷ answered reply ∷ []) r
          ≡ after (
              Chat.settle
                (sending_of now user)
                reply
                (Chat.on_message ch f (Chat.send (trim value) now iso r.view)))
    unfolding run step
    run-framed_answered ch f =
        let sent : View = Chat.send (trim value) now iso r.view in
        ap (λ x. answer reply (step (framed ch f) x)) submit-typed
        ∙ answer-posted _ (on_message-sending ch f sent ∙ one_post)

    run-answered_framed :
        (ch : String) (f : Option Frame)
        → run (typed value ∷ submitted now iso ∷ answered reply ∷ framed ch f ∷ []) r
          ≡ after (
              Chat.on_message ch f
                (Chat.settle (sending_of now user) reply (Chat.send (trim value) now iso r.view)))
    unfolding run step Chat.settle
    run-answered_framed ch f =
        let sent : View = Chat.send (trim value) now iso r.view in
        ap (λ x. step (framed ch f) (answer reply x)) submit-typed
        ∙ ap (step (framed ch f)) (answer-posted _ one_post)

  -- A text that is typed and sent ends as the last message of the list, once and with its real id,
  -- and leaves the field empty and ready, whether the echo over the WebSocket or the reply to the
  -- POST comes first; only the user name of the message differs. The text is not blank, the user
  -- is known, no message is being sent, the ids are new and differ, the message is of this
  -- channel, and the reply has a good status and the message as its body.
  pub delivered :
      (m : Message) (resp : Response Message)
      → has id_of (temp_id_at now) r.view.extra_messages ≡ false
      → has id_of m.message_id r.view.extra_messages ≡ false
      → has id_of m.message_id r.timeline.messages ≡ false
      → m.message_id ≢ temp_id_at now
      → m.channel_id ≡ r.view.channel_id
      → Confirms resp m
      → let sent : List Event = typed value ∷ submitted now iso ∷ [] in
        let echo : Event = framed r.view.channel_id (some (echo_of m)) in
        let reply : Event = answered (some resp) in
        let first = run (sent ++ echo ∷ reply ∷ []) r in
        let second = run (sent ++ reply ∷ echo ∷ []) r in
        (displayed first ≡ displayed r ++ m ∷ [])
        × (displayed second ≡ displayed r ++ named user m ∷ [])
        × (first.composer ≡ second.composer)
        × (first.composer.text ≡ "")
        × (first.composer.sending ≡ false)
  unfolding Composer.send_ended
  delivered m resp no_temp no_extra not_fetched distinct here c =
      let (early, late) =
        send_race r.view user (trim value) iso now m resp known no_temp no_extra distinct here c in
      let f : Option Frame = some (echo_of m) in
      let shown = all_messages-concat r.timeline.messages r.view.extra_messages in
      rw (run-framed_answered (some resp) r.view.channel_id f) (
        rw (run-answered_framed (some resp) r.view.channel_id f) (
          ap (all_messages r.timeline.messages) early ∙ shown m not_fetched,
          ap (all_messages r.timeline.messages) late ∙ shown (named user m) not_fetched,
          refl,
          refl,
          refl,
        ))

  -- A text that is typed and sent and whose POST fails, by no answer, a bad status or a body that
  -- is no JSON, is gone: the list shows what it did before, and the field is empty and ready. The
  -- text is not blank, the user is known, no message is being sent, and the placeholder's id is
  -- new.
  pub send_failed :
      (reply : Reply Message)
      → has id_of (temp_id_at now) r.view.extra_messages ≡ false
      → IsFailure reply
      → let failed = run (typed value ∷ submitted now iso ∷ answered reply ∷ []) r in
        (failed.view ≡ r.view)
        × (displayed failed ≡ displayed r)
        × (failed.composer.text ≡ "")
        × (failed.composer.sending ≡ false)
  unfolding Composer.send_ended
  send_failed reply no_temp bad =
      let same =
        settle_failure r.view user (trim value) iso now reply known no_temp (rw no_post refl) bad in
      rw (run-answered reply)
        (same, ap (λ v. all_messages r.timeline.messages v.extra_messages) same, refl, refl)

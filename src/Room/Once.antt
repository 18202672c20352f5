-- ===== src/Room/Once.antt =====
-- A text channel's page: what the list shows, over any run of events.
use concordia_chat_app.Prelude.{
  ℕ, ◌≡◌, refl, ◌⊎◌, inl, inr, Bool, true, false, some, List, [], ◌∷◌, String, arith, eq_refl,
  reverse,
}
use concordia_chat_app.Prelude.Keyed.{IsUnique, IsApart}
use concordia_chat_app.Prelude.Lists.{filter, All, All-append, All-filter}
use concordia_chat_app.Prelude.Tests.{Bool-cases, Option-cases}
use concordia_chat_app.Http.{Reply}
use concordia_chat_app.Chat.{
  Channel, CurrentUser, View, Message, Frame, Sending, id_of, temp_id_at, temp_of,
}
use concordia_chat_app.Chat
use concordia_chat_app.Chat.Delivery.{
  start, Inv, IsRealFrame, IsRealReply, load-Inv, on_message-Inv, send-Inv, settle-Inv, All-real,
}
use concordia_chat_app.Composer
use concordia_chat_app.Composer.{Composer}
use concordia_chat_app.Timeline.{start_load, MessagesResponse, all_messages, fetch_messages}
use concordia_chat_app.Timeline.Merge.{all_messages_lem}
use concordia_chat_app.Room.{
  Room, Event, typed, submitted, answered, framed, informed, moved, opened, scrolled, older,
  delete_asked, deleted, displayed, on_send, submit, answer, step, run,
}
use concordia_chat_app.Room.Fetched.{
  IsPage, Fetched, finish_load-Fetched, start_more-Fetched, end_more-Fetched, start_delete-Fetched,
  finish_delete-Fetched,
}
use concordia_chat_app.Room.Steps.{
  answer-none, answer-one, handle_send-sending, send-sending, on_message-sending, load-sending,
}

-- The POSTs under way are those of the field's open call: one while `sending` is set, else none.
abbrev pub IsPaired : Room → Type 0
IsPaired r =
    (r.view.sending ≡ [])
    ⊎ ((p : Sending) × (r.view.sending ≡ p ∷ []) × (r.composer.sending ≡ true))

module _ (real : String → Bool) where
  -- What an event may bring. The pages are those of the service; a page of older messages has none of
  -- those in the list at the time when it comes.
  abbrev pub Fits : Event → Room → Type 0
  Fits (typed value) r = Unit
  Fits (submitted now iso) r = real (temp_id_at now) ≡ false
  Fits (answered reply) r = IsRealReply real reply
  Fits (framed ch f) r = IsRealFrame real f
  Fits (informed ch c u) r = Unit
  Fits (moved ch) r = Unit
  Fits (opened reply) r =
      (page : MessagesResponse) → fetch_messages reply ≡ some page → IsPage real page
  Fits scrolled r = Unit
  Fits (older reply) r =
      (page : MessagesResponse)
      → fetch_messages reply ≡ some page
      → IsPage real page × IsApart id_of (reverse page.messages) r.timeline.messages
  Fits (delete_asked id) r = Unit
  Fits (deleted id reply) r = Unit

  abbrev pub FitsAll : List Event → Room → Type 0
  FitsAll [] r = Unit
  FitsAll (e ∷ es) r = Fits e r × FitsAll es (step e r)

  pub record RoomInv (r : Room) : Type 0 where
    pub view : Inv real r.view
    pub fetched : Fetched real r.timeline
    pub paired : IsPaired r

  submit-Inv :
      (now : ℕ) (iso : String) (r : Room)
      → real (temp_id_at now) ≡ false
      → RoomInv r
      → RoomInv (submit now iso r)
  unfolding submit on_send
  submit-Inv now iso r h i = elim (Bool-cases (Composer.send_disabled r.composer)) [
    | inl off ↦ rw off i
    | inr on ↦ elim (Option-cases r.view.current_user) [
      | inl e ↦
          rw (on, e) (record { view = i.view; fetched = i.fetched; paired = inl (no_post on) })
      | inr (user, e) ↦
          rw (on, e)
            (record {
              view = send-Inv real _ now iso r.view (h, rw (no_post on) refl) i.view;
              fetched = i.fetched;
              paired = inr (
                (record { temp_id = temp_id_at now; user = user }),
                send-sending _ now iso r.view user e (no_post on),
                handle_send-sending r.composer on,
              );
            })
    ]
  ]
    where
      no_post : Composer.send_disabled r.composer ≡ false → r.view.sending ≡ []
      no_post on = elim i.paired [ inl e ↦ e | inr (p, e, s) ↦ absurd (ground arith) ]

  answer-Inv :
      (reply : Reply Message) (r : Room)
      → IsRealReply real reply
      → RoomInv r
      → RoomInv (answer reply r)
  unfolding Chat.settle filter
  answer-Inv reply r h i = elim i.paired [
    | inl e ↦ rw (answer-none reply r e) i
    | inr (p, e, s) ↦ rw (answer-one reply r p e) (record {
      view = settle-Inv real p reply r.view h i.view;
      fetched = i.fetched;
      paired = inl (ground (arith, eq_refl p.temp_id));
    })
  ]

  step-RoomInv : (e : Event) (r : Room) → Fits e r → RoomInv r → RoomInv (step e r)
  unfolding step Composer.handle_input Chat.navigate start_load
  step-RoomInv (typed value) r h i = record {
    view = i.view;
    fetched = i.fetched;
    paired = i.paired;
  }
  step-RoomInv (submitted now iso) r h i = submit-Inv now iso r h i
  step-RoomInv (answered reply) r h i = answer-Inv reply r h i
  step-RoomInv (framed ch f) r h i = record {
    view = on_message-Inv real ch f r.view h i.view;
    fetched = i.fetched;
    paired = rw (on_message-sending ch f r.view) i.paired;
  }
  step-RoomInv (informed ch c u) r h i = record {
    view = load-Inv real ch c u r.view i.view;
    fetched = i.fetched;
    paired = rw (load-sending ch c u r.view) i.paired;
  }
  step-RoomInv (moved ch) r h i = record {
    view = record { unique = tt; accounted = tt };
    fetched = record { unique = tt; real_ids = tt };
    paired = i.paired;
  }
  step-RoomInv (opened reply) r h i = record {
    view = i.view;
    fetched = finish_load-Fetched real reply r.timeline h i.fetched;
    paired = i.paired;
  }
  step-RoomInv scrolled r h i = record {
    view = i.view;
    fetched = start_more-Fetched real r.timeline i.fetched;
    paired = i.paired;
  }
  step-RoomInv (older reply) r h i = record {
    view = i.view;
    fetched = end_more-Fetched real reply r.timeline h i.fetched;
    paired = i.paired;
  }
  step-RoomInv (delete_asked id) r h i = record {
    view = i.view;
    fetched = start_delete-Fetched real id r.timeline i.fetched;
    paired = i.paired;
  }
  step-RoomInv (deleted id reply) r h i = record {
    view = i.view;
    fetched = finish_delete-Fetched real id reply r.timeline i.fetched;
    paired = i.paired;
  }

  run-RoomInv : (es : List Event) (r : Room) → FitsAll es r → RoomInv r → RoomInv (run es r)
  unfolding run
  run-RoomInv [] r h i = i
  run-RoomInv (e ∷ es) r h i = run-RoomInv es (step e r) h.1 (step-RoomInv e r h.0 i)

  -- The page as it is opened.
  abbrev pub IsFresh : Room → Type 0
  IsFresh r = (r.view.extra_messages ≡ []) × (r.view.sending ≡ []) × (r.timeline.messages ≡ [])

  fresh-RoomInv : (r : Room) → IsFresh r → RoomInv r
  fresh-RoomInv r (no_extra, no_post, no_page) = record {
    view = start real r.view no_extra;
    fetched = record { unique = rw no_page tt; real_ids = rw no_page tt };
    paired = inl no_post;
  }

  -- Whatever is typed, sent, answered, pushed, fetched, scrolled to and deleted on a channel's
  -- page, and to whatever channels it moves, in whatever order, also between a request and its
  -- reply, the list shows no message twice. The page is opened with nothing in it, the ids that
  -- the server issues (`real`) are not those of placeholders, a page of messages has no id twice,
  -- and an older page has none of those that the list holds when it comes.
  pub displayed-IsUnique :
      (es : List Event) (r : Room)
      → IsFresh r
      → FitsAll es r
      → IsUnique id_of (displayed (run es r))
  displayed-IsUnique es r f h =
      let i = run-RoomInv es r h (fresh-RoomInv r f) in
      (all_messages_lem _ _ "" i.fetched.unique i.view.unique).0

  -- After any events on a channel's page, also between a request for a page and its reply,
  -- whenever the field is ready for a message, every message that the list shows bears an id of
  -- the server's. The page is opened with nothing in it, the ids that the server issues (`real`)
  -- are not those of placeholders, a page of messages has no id twice, and an older page has none
  -- of those that the list holds when it comes.
  pub displayed_real :
      (es : List Event) (r : Room)
      → IsFresh r
      → FitsAll es r
      → (run es r).composer.sending ≡ false
      → All (λ m. real m.message_id ≡ true) (displayed (run es r))
  unfolding all_messages
  displayed_real es r f h ready =
      let i = run-RoomInv es r h (fresh-RoomInv r f) in
      let no_post : (run es r).view.sending ≡ [] = elim i.paired [
        | inl e ↦ e
        | inr (p, e, s) ↦ absurd (ground arith)
      ] in
      All-append _ (run es r).timeline.messages _ i.fetched.real_ids (
        All-filter _ _ (run es r).view.extra_messages
          (All-real real _ (rw no_post at i.view.accounted)))

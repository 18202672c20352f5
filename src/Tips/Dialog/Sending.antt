-- ===== src/Tips/Dialog/Sending.antt =====
-- SendTipModal.tsx: the requests that the form makes, over any run of events.
use concordia_chat_app.Prelude.{
  ℕ, ◌+◌, ◌≤◌, ◌≡◌, refl, inl, inr, Bool, true, false, not, ◌&&◌, ◌||◌, Option, none, some, List,
  [], ◌∷◌, String, ◌==◌, arith, eq_refl, eq_iff,
}
use concordia_chat_app.Prelude.Lists.{All, length}
use concordia_chat_app.Prelude.Tests.{
  eqb, truthy, or_else, is_empty, if_both, Bool-cases, Option-cases, if◌then◌else◌,
}
use concordia_chat_app.Prelude.Text.{trim, trim_idem}
use concordia_chat_app.Http.{Reply, is_ok}
use concordia_chat_app.Tips.Dialog.{
  Numbers, TipRequest, Dialog, ErrorBody, Event, Session, to_typed, amount_typed, currency_chosen,
  message_typed, cancelled, submitted, replied, opened, fresh, pre_filled, refusal, request_of,
  start_submit, finish_submit, submit, reply, edit, step, run,
}

module _ {F : Type 0} (num : Numbers F) (recipient user : Option String) where
  -- A request may be made: a recipient, who is not the user where the form knows the user, and is
  -- the one given if one is, and an amount.
  pub record IsGood (r : TipRequest F) : Type 0 where
    pub named : is_empty r.recipient_id ≡ false
    pub trimmed : trim r.recipient_id ≡ r.recipient_id
    pub other : (truthy user && r.recipient_id == or_else user "") ≡ false
    pub given : (not (pre_filled recipient) || r.recipient_id == trim (or_else recipient "")) ≡ true
    pub number : num.is_nan r.amount_cents ≡ false
    pub positive : num.at_most_zero r.amount_cents ≡ false

  abbrev pub under_way : Dialog F → ℕ
  under_way d = if d.submitting then 1 else 0

  abbrev pub waits : Session F → Bool
  waits s = elim s.asked [ none ↦ false | some d ↦ true ]

  pub record Inv (s : Session F) : Type 0 where
    pub good : All IsGood s.dialog.requests
    pub counted : length s.dialog.successes + under_way s.dialog ≤ length s.dialog.requests
    pub given : (not (pre_filled recipient) || s.dialog.to_id == or_else recipient "") ≡ true
    pub waiting : waits s ≡ s.dialog.submitting

  request-IsGood :
      (d : Dialog F)
      → refusal num user d ≡ none
      → (not (pre_filled recipient) || d.to_id == or_else recipient "") ≡ true
      → IsGood (request_of num d)
  unfolding refusal
  request-IsGood d h g = record {
    named = ground arith;
    trimmed = trim_idem d.to_id;
    other = ground arith;
    given =
        ground
          (arith, eq_iff d.to_id (or_else recipient ""), eq_refl (trim (or_else recipient "")));
    number = ground arith;
    positive = ground arith;
  }

  refused : String → Session F → Session F
  refused text s = edit (record s.dialog { error = some text }) s

  asked_by : Session F → Session F
  asked_by s = record {
    dialog = record s.dialog {
      submitting = true;
      error = none;
      requests = request_of num s.dialog ∷ s.dialog.requests;
    };
    asked = some s.dialog;
  }

  submit-busy : (s : Session F) → s.dialog.submitting ≡ true → submit num recipient user s ≡ s
  unfolding submit
  submit-busy s busy = ground arith

  submit-some :
      (text : String) (s : Session F)
      → s.dialog.submitting ≡ false
      → refusal num user s.dialog ≡ some text
      → submit num recipient user s ≡ refused text s
  unfolding submit start_submit edit refused
  submit-some text s idle h = ground arith

  submit-none :
      (s : Session F)
      → s.dialog.submitting ≡ false
      → refusal num user s.dialog ≡ none
      → submit num recipient user s ≡ asked_by s
  unfolding submit start_submit asked_by
  submit-none s idle h = ground arith

  submit-Inv : (s : Session F) → Inv s → Inv (submit num recipient user s)
  unfolding submit edit refused asked_by
  submit-Inv s i = elim (Bool-cases s.dialog.submitting) [
    | inl e ↦ rw (submit-busy s e) i
    | inr e ↦ elim (Option-cases (refusal num user s.dialog)) [
      | inl h ↦ rw (submit-none s e h) (record {
        good = (request-IsGood s.dialog h i.given, i.good);
        counted = ground (arith, i.counted);
        given = i.given;
        waiting = refl;
      })
      | inr (text, h) ↦
          rw (submit-some text s e h)
            (record { good = i.good; counted = i.counted; given = i.given; waiting = i.waiting })
    ]
  ]

  finish-Inv :
      (d : Dialog F) (r : Reply ErrorBody) (s : Session F)
      → s.dialog.submitting ≡ true
      → Inv s
      → Inv (record { dialog = finish_submit num d r s.dialog; asked = none })
  unfolding finish_submit
  finish-Inv d none s busy i = record {
    good = i.good;
    counted = ground (arith, i.counted);
    given = i.given;
    waiting = refl;
  }
  finish-Inv d (some r) s busy i =
      if_both (λ x. Inv (record { dialog = x; asked = none })) (is_ok r || eqb r.status 201)
        (record {
          good = i.good;
          counted = ground (arith, i.counted);
          given = i.given;
          waiting = refl;
        })
        (record {
          good = i.good;
          counted = ground (arith, i.counted);
          given = i.given;
          waiting = refl;
        })

  reply-Inv : (r : Reply ErrorBody) (s : Session F) → Inv s → Inv (reply num recipient user r s)
  unfolding reply
  reply-Inv r s i = elim (Option-cases s.asked) [
    | inl e ↦ rw (reply-none r s e) i
    | inr (d, e) ↦ rw (reply-some r d s e) (finish-Inv d r s (ground (arith, i.waiting)) i)
  ]
    where
      reply-none :
          (r : Reply ErrorBody) (s : Session F) → s.asked ≡ none → reply num recipient user r s ≡ s
      reply-none r s e = ground arith

      reply-some :
          (r : Reply ErrorBody) (d : Dialog F) (s : Session F)
          → s.asked ≡ some d
          → reply num recipient user r s
            ≡ record { dialog = finish_submit num d r s.dialog; asked = none }
      reply-some r d s e = ground arith

  step-Inv : (e : Event) (s : Session F) → Inv s → Inv (step num recipient user e s)
  unfolding step edit
  step-Inv (to_typed v) s i = elim (Bool-cases (pre_filled recipient)) [
    | inl e ↦ rw e i
    | inr e ↦
        rw e
          (record { good = i.good; counted = i.counted; given = ground arith; waiting = i.waiting })
  ]
  step-Inv (amount_typed v) s i = record {
    good = i.good;
    counted = i.counted;
    given = i.given;
    waiting = i.waiting;
  }
  step-Inv (currency_chosen v) s i = record {
    good = i.good;
    counted = i.counted;
    given = i.given;
    waiting = i.waiting;
  }
  step-Inv (message_typed v) s i = record {
    good = i.good;
    counted = i.counted;
    given = i.given;
    waiting = i.waiting;
  }
  step-Inv cancelled s i = record {
    good = i.good;
    counted = i.counted;
    given = i.given;
    waiting = i.waiting;
  }
  step-Inv submitted s i = submit-Inv s i
  step-Inv (replied r) s i = reply-Inv r s i

  run-Inv : (es : List Event) (s : Session F) → Inv s → Inv (run num recipient user es s)
  unfolding run
  run-Inv [] s i = i
  run-Inv (e ∷ es) s i = run-Inv es (step num recipient user e s) (step-Inv e s i)

  -- Whatever the user types, chooses and clicks in the form, and whatever the gateway answers:
  -- every request has a recipient without white space at its ends, who is the one that the form
  -- was opened for, if it was for one, and is not the user, if the form knows the user, and an
  -- amount that is a number above zero; and the successes shown and the request under way are no
  -- more than the requests made. The form knows the same user, or none, and is opened for the same
  -- recipient, or none, all the time.
  pub run_tips :
      (es : List Event)
      → let d = (run num recipient user es (fresh recipient)).dialog in
        All IsGood d.requests × (length d.successes + under_way d ≤ length d.requests)
  unfolding opened
  run_tips es =
      let i = run-Inv es (fresh recipient) (record {
        good = tt;
        counted = omega arith;
        given = ground (arith, eq_refl (or_else recipient ""));
        waiting = refl;
      }) in
      (i.good, i.counted)

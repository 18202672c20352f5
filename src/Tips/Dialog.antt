-- ===== src/Tips/Dialog.antt =====
-- apps/web-app/app/components/SendTipModal.tsx: the form that sends a tip. JavaScript's numbers,
-- which have no model here, are a parameter with the operations that the form uses.
pub mod Sending
pub mod Form
use concordia_chat_app.Prelude.{
  ℕ, ◌+◌, Bool, true, false, ◌&&◌, ◌||◌, Option, none, some, List, [], ◌∷◌, String, ◌==◌,
}
use concordia_chat_app.Prelude.Tests.{eqb, truthy, or_else, is_empty, if◌then◌else◌}
use concordia_chat_app.Prelude.Text.{◌&◌, trim, decimal}
use concordia_chat_app.Http.{Response, Reply, is_ok}

-- `parseFloat(s)`, `Math.round(x * 100)`, `isNaN(x)`, `x <= 0` and `(x / 100).toFixed(2)`.
pub record Numbers (F : Type 0) : Type 0 where
  pub parse_float : String → F
  pub round_hundredfold : F → F
  pub is_nan : F → Bool
  pub at_most_zero : F → Bool
  pub fixed_hundredth : F → String

pub record TipRequest (F : Type 0) : Type 0 where
  pub recipient_id : String
  pub amount_cents : F
  pub currency : String
  pub message : String

-- The form, with what it has told to its parent: the texts for `onSuccess` and how often `onClose`.
pub record Dialog (F : Type 0) : Type 0 where
  pub to_id : String
  pub amount : String
  pub currency : String
  pub message : String
  pub submitting : Bool
  pub error : Option String
  pub requests : List (TipRequest F)
  pub successes : List String
  pub closes : ℕ

-- The props `recipientId` and the initial state.
unfoldable pub opened : {F : Type 0} → Option String → Dialog F
opened recipient = record {
  to_id = or_else recipient "";
  amount = "";
  currency = "USD";
  message = "";
  submitting = false;
  error = none;
  requests = [];
  successes = [];
  closes = 0;
}

abbrev pub pre_filled : Option String → Bool
pre_filled recipient = truthy recipient

-- The body of a reply that is not good; `error` may be absent, and a body that is no JSON is empty.
pub record ErrorBody : Type 0 where
  pub error : Option String

module _ {F : Type 0} (num : Numbers F) where
  abbrev pub cents_of : Dialog F → F
  cents_of d = num.round_hundredfold (num.parse_float d.amount)

  -- The tests in front of the request, as the error that they set.
  unfoldable pub refusal : Option String → Dialog F → Option String
  refusal user d =
      if is_empty (trim d.to_id) || num.is_nan (cents_of d) || num.at_most_zero (cents_of d)
      then some "Please enter a valid recipient and amount."
      else if truthy user && trim d.to_id == or_else user ""
      then some "Cannot tip yourself"
      else none

  abbrev pub request_of : Dialog F → TipRequest F
  request_of d = record {
    recipient_id = trim d.to_id;
    amount_cents = cents_of d;
    currency = d.currency;
    message = d.message;
  }

  -- `handleSubmit` up to the request.
  unfoldable pub start_submit : Option String → Dialog F → Dialog F
  unfolding refusal
  start_submit user d = elim (refusal user d) [
    | some text ↦ record d { error = some text }
    | none ↦ record d { submitting = true; error = none; requests = request_of d ∷ d.requests }
  ]

  -- The text of the toast.
  abbrev pub toast_of : Dialog F → String
  toast_of d = "Tip of " & d.currency & " " & num.fixed_hundredth (cents_of d) & " sent!"

  -- `handleSubmit` from the reply on, with the form `asked` that its closure saw.
  unfoldable pub finish_submit : Dialog F → Reply ErrorBody → Dialog F → Dialog F
  finish_submit asked none d = record d { error = some "Failed to send tip"; submitting = false }
  finish_submit asked (some r) d =
      if is_ok r || eqb r.status 201
      then record d {
        successes = toast_of asked ∷ d.successes;
        closes = d.closes + 1;
        submitting = false;
      }
      else record d {
        error = some (
            or_else (elim r.json [ none ↦ none | some body ↦ body.error ])
              ("Error " & decimal r.status));
        submitting = false;
      }

-- What the user may do: type, choose a currency, cancel, and submit while the button is enabled.
pub data Event : Type 0 where
  to_typed : String → Event
  amount_typed : String → Event
  currency_chosen : String → Event
  message_typed : String → Event
  cancelled : Event
  submitted : Event
  replied : Reply ErrorBody → Event

-- The form, and the form that the closure under way saw.
pub record Session (F : Type 0) : Type 0 where
  pub dialog : Dialog F
  pub asked : Option (Dialog F)

abbrev pub fresh : {F : Type 0} → Option String → Session F
fresh recipient = record { dialog = opened recipient; asked = none }

unfoldable pub edit : {F : Type 0} → Dialog F → Session F → Session F
edit d s = record s { dialog = d }

module _ {F : Type 0} (num : Numbers F) (recipient user : Option String) where
  -- A submission whose button is enabled.
  unfoldable pub submit : Session F → Session F
  unfolding refusal start_submit
  submit s = if s.dialog.submitting then s else elim (refusal num user s.dialog) [
    | some text ↦ record s { dialog = start_submit num user s.dialog }
    | none ↦ record { dialog = start_submit num user s.dialog; asked = some s.dialog }
  ]

  unfoldable pub reply : Reply ErrorBody → Session F → Session F
  unfolding finish_submit
  reply r s = elim s.asked [
    | none ↦ s
    | some d ↦ record { dialog = finish_submit num d r s.dialog; asked = none }
  ]

  unfoldable pub step : Event → Session F → Session F
  unfolding submit reply edit
  step (to_typed v) s = if pre_filled recipient then s else edit (record s.dialog { to_id = v }) s
  step (amount_typed v) s = edit (record s.dialog { amount = v }) s
  step (currency_chosen v) s = edit (record s.dialog { currency = v }) s
  step (message_typed v) s = edit (record s.dialog { message = v }) s
  step cancelled s = edit (record s.dialog { closes = s.dialog.closes + 1 }) s
  step submitted s = submit s
  step (replied r) s = reply r s

  unfoldable pub run : List Event → Session F → Session F
  unfolding step
  run [] s = s
  run (e ∷ es) s = run es (step e s)

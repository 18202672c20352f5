-- ===== src/Tips/Dialog/Form.antt =====
-- SendTipModal.tsx: what the form draws, without styles.
use concordia_chat_app.Prelude.{ℕ, ◌≡◌, refl, Bool, true, Option, none, List, [], ◌∷◌, String}
use concordia_chat_app.Prelude.Tests.{truthy, or_else, if◌then◌else◌}
use concordia_chat_app.Tips.Dialog.{Dialog, Numbers, Session, pre_filled, submit}

-- The recipient: an input, or the name of the one that the form was opened for.
pub data Recipient : Type 0 where
  typed : String → Recipient
  fixed : String → Recipient

pub record Form : Type 0 where
  pub recipient : Recipient
  pub amount : String
  pub currency : String
  pub currencies : List String
  pub message : String
  pub max_length : ℕ
  pub failure : Option String
  pub text : String
  pub disabled : Bool

abbrev pub all_currencies : List String
all_currencies = "USD" ∷ "EUR" ∷ "GBP" ∷ []

-- `name` and `id` are the props `recipientName` and `recipientId`.
unfoldable pub form : {F : Type 0} → Option String → Option String → Dialog F → Form
form name id d = record {
  recipient = if pre_filled id then fixed (or_else name (or_else id "")) else typed d.to_id;
  amount = d.amount;
  currency = d.currency;
  currencies = all_currencies;
  message = d.message;
  max_length = 200;
  failure = if truthy d.error then d.error else none;
  text = if d.submitting then "Sending…" else "Send Tip";
  disabled = d.submitting;
}

-- A disabled button sends no second request.
pub submit-form :
    {F : Type 0} (num : Numbers F) (name id user : Option String) (s : Session F)
    → (form name id s.dialog).disabled ≡ true
    → submit num id user s ≡ s
unfolding form submit
submit-form num name id user s off = rw off refl

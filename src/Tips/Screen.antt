-- ===== src/Tips/Screen.antt =====
-- tips/page.tsx: what the page draws, without styles and icons. The format of dates is a parameter.
use concordia_chat_app.Prelude.{
  ℕ, ◌/◌, ◌%◌, ◌≡◌, refl, Bool, true, false, not, Option, none, some, List, [], ◌∷◌, map, String,
}
use concordia_chat_app.Prelude.Tests.{truthy, is_empty, if_both, if◌then◌else◌}
use concordia_chat_app.Prelude.Text.{◌&◌, decimal, slice}
use concordia_chat_app.Tips.{Tip, Direction, sent, received, TipsPage}
use concordia_chat_app.Tips.Session.{Session, has_rows, same_tab}

-- `(cents / 100).toFixed(2)` of a whole number of cents.
unfoldable pub fixed_hundredth : ℕ → String
unfolding decimal
fixed_hundredth cents =
    decimal (cents / 100) & "." & decimal (cents / 10 % 10) & decimal (cents % 10)

-- `formatAmount`
unfoldable pub format_amount : ℕ → String → String
unfolding fixed_hundredth
format_amount cents currency = currency & " " & fixed_hundredth cents

pub record Row : Type 0 where
  pub tip_id : String
  pub amount : String
  pub party : String
  pub date : String
  pub message : Option String

-- The button under the rows.
pub record More : Type 0 where
  pub text : String
  pub disabled : Bool

pub data Body : Type 0 where
  spinner : Body
  no_tips : String → Body
  rows : List Row → Option More → Body

pub record Tab : Type 0 where
  pub text : String
  pub is_active : Bool

pub record Screen : Type 0 where
  pub toast : Option String
  pub tabs : List Tab
  pub body : Body
  pub dialog : Bool

abbrev pub text_of : Direction → String
text_of sent = "sent"
text_of received = "received"

abbrev tabs : Direction → List Tab
tabs d =
    (record { text = text_of sent; is_active = same_tab d sent })
    ∷ (record { text = text_of received; is_active = same_tab d received })
    ∷ []

-- `to …` or `from …`, with the first eight characters of the id.
unfoldable pub party : Direction → Tip → String
unfolding slice
party sent t = "to " & slice 8 t.recipient_id & "…"
party received t = "from " & slice 8 t.sender_id & "…"

module _ (format_date : String → String) where
  unfoldable pub row : Direction → Tip → Row
  unfolding party format_amount
  row d t = record {
    tip_id = t.tip_id;
    amount = format_amount t.amount_cents t.currency;
    party = party d t;
    date = format_date t.created_at;
    message = if is_empty t.message then none else some t.message;
  }

  unfoldable pub body : TipsPage → Body
  unfolding row
  body p =
      if p.loading
      then spinner
      else if not (has_rows p.tips)
      then no_tips ("No " & text_of p.tab & " tips yet")
      else rows (map (row p.tab) p.tips) (
          if p.has_more
          then some (record {
            text = if p.loading_more then "Loading…" else "Load more";
            disabled = p.loading_more;
          })
          else none)

  unfoldable pub screen : Session → Screen
  unfolding body
  screen s = record {
    toast = if truthy s.toast then s.toast else none;
    tabs = tabs s.page.tab;
    body = body s.page;
    dialog = s.modal_open;
  }

-- No spinner, and no button that is disabled.
abbrev pub IsAtRest : Body → Type 0
IsAtRest spinner = ⊥
IsAtRest (no_tips text) = Unit
IsAtRest (rows list none) = Unit
IsAtRest (rows list (some more)) = more.disabled ≡ false

pub body-IsAtRest :
    (format_date : String → String) (p : TipsPage)
    → p.loading ≡ false
    → p.loading_more ≡ false
    → IsAtRest (body format_date p)
unfolding body
body-IsAtRest format_date p off off_more =
    rw (off, off_more) (if_both IsAtRest (not (has_rows p.tips)) tt (button p.has_more))
  where
    button :
        (more : Bool)
        → IsAtRest (
            rows
              (map (row format_date p.tab) p.tips)
              (if more then some (record { text = "Load more"; disabled = false }) else none))
    button true = refl
    button false = tt

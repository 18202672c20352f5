-- ===== src/Tips.antt =====
-- apps/web-app/app/app/tips/page.tsx: the pages of tips of the two tabs. Each request ends a step;
-- its reply is an argument of the next one.
pub mod Pages
pub mod Session
pub mod Screen
pub mod Dialog
mod Tests
use concordia_chat_app.Prelude.{
  ℕ, ◌+◌, Bool, true, false, not, ◌&&◌, ◌||◌, Option, none, some, List, [], ◌∷◌, ◌++◌, String,
}
use concordia_chat_app.Prelude.Lists.{length}
use concordia_chat_app.Prelude.Tests.{eqb, if◌then◌else◌}
use concordia_chat_app.Http.{Response, Reply, is_ok}

pub record Tip : Type 0 where
  pub tip_id : String
  pub sender_id : String
  pub recipient_id : String
  pub amount_cents : ℕ
  pub currency : String
  pub message : String
  pub created_at : String

pub data Direction : Type 0 where
  sent received : Direction

abbrev pub page_size : ℕ
page_size = 20

pub record TipsPage : Type 0 where
  pub tab : Direction
  pub tips : List Tip
  pub loading : Bool
  pub loading_more : Bool
  pub has_more : Bool
  pub offset : ℕ

-- `fetchTips` up to the request.
unfoldable pub start_fetch : Bool → TipsPage → TipsPage
start_fetch append s =
    if append then record s { loading_more = true } else record s { loading = true }

abbrev pub idle : TipsPage → TipsPage
idle s = record s { loading = false; loading_more = false }

-- `fetchTips` from the reply on, for the offset that was asked for.
unfoldable pub finish_fetch : ℕ → Bool → Reply (List Tip) → TipsPage → TipsPage
finish_fetch off append none s = idle s
finish_fetch off append (some r) s =
    if is_ok r
    then elim r.json [
      | none ↦ idle s
      | some page ↦ idle (record s {
        tips = if append then s.tips ++ page else page;
        has_more = eqb (length page) page_size;
        offset = off + length page;
      })
    ]
    else idle s

-- The effect that a change of `tab` runs, up to its request.
unfoldable pub open_tab : Direction → TipsPage → TipsPage
unfolding start_fetch
open_tab d s = start_fetch false (record s { tab = d; tips = []; offset = 0; has_more = false })

-- The button "Load more", which is shown if `hasMore` is set, with the reply to its request.
unfoldable pub load_more : Reply (List Tip) → TipsPage → TipsPage
unfolding start_fetch finish_fetch
load_more r s = if s.has_more then finish_fetch s.offset true r (start_fetch true s) else s

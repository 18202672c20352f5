-- ===== src/Tips/Session.antt =====
-- tips/page.tsx over any run of its buttons, of the replies to its requests and of its timers. What
-- it draws decides what can be clicked; SendTipModal is a part of its own, of which the page hears
-- that it is closed and that a tip was sent.
pub mod Settled
pub mod Listed
use concordia_chat_app.Prelude.{
  ℕ, zero, suc, Bool, true, false, not, ◌&&◌, ◌||◌, Option, none, some, List, [], ◌∷◌, ◌++◌, String,
}
use concordia_chat_app.Prelude.Lists.{get_elem?, remove_at}
use concordia_chat_app.Prelude.Tests.{if◌then◌else◌}
use concordia_chat_app.Http.{Response, Reply, is_ok}
use concordia_chat_app.Tips.{
  Tip, Direction, sent, received, TipsPage, start_fetch, finish_fetch, open_tab,
}

-- A call of `fetchTips` that waits for its reply.
pub record Fetch : Type 0 where
  pub direction : Direction
  pub offset : ℕ
  pub append : Bool

pub record Session : Type 0 where
  pub page : TipsPage
  pub fetches : List Fetch
  pub modal_open : Bool
  pub toast : Option String
  pub timers : ℕ
  pub user_id : Option String

abbrev pub same_tab : Direction → Direction → Bool
same_tab sent sent = true
same_tab received received = true
same_tab d e = false

abbrev pub has_rows : List Tip → Bool
has_rows [] = false
has_rows (t ∷ ts) = true

-- The button "Load more" is drawn and enabled.
abbrev pub offers_more : TipsPage → Bool
offers_more p = not p.loading && has_rows p.tips && p.has_more && not p.loading_more

-- The page when it has been drawn first, and its effects have run.
unfoldable pub start : Session
unfolding start_fetch
start = record {
  page = start_fetch false (record {
    tab = sent;
    tips = [];
    loading = true;
    loading_more = false;
    has_more = false;
    offset = 0;
  });
  fetches = (record { direction = sent; offset = 0; append = false }) ∷ [];
  modal_open = false;
  toast = none;
  timers = 0;
  user_id = none;
}

-- `fetchTips` up to its request.
unfoldable pub fetch_tips : Direction → ℕ → Bool → Session → Session
unfolding start_fetch
fetch_tips d off append s = record s {
  page = start_fetch append s.page;
  fetches = s.fetches ++ (record { direction = d; offset = off; append = append }) ∷ [];
}

-- A click on a tab, with the effect that follows a change of it.
unfoldable pub click_tab : Direction → Session → Session
unfolding open_tab
click_tab d s = if same_tab d s.page.tab then s else record s {
  page = open_tab d s.page;
  fetches = s.fetches ++ (record { direction = d; offset = 0; append = false }) ∷ [];
}

unfoldable pub click_more : Session → Session
unfolding fetch_tips
click_more s = if offers_more s.page then fetch_tips s.page.tab s.page.offset true s else s

-- The reply to one of the requests, counted from the oldest.
unfoldable pub on_reply : ℕ → Reply (List Tip) → Session → Session
unfolding finish_fetch get_elem? remove_at
on_reply i r s = elim (get_elem? s.fetches i) [
  | none ↦ s
  | some f ↦ record s {
    page = finish_fetch f.offset f.append r s.page;
    fetches = remove_at i s.fetches;
  }
]

abbrev pub show_toast : String → Session → Session
show_toast msg s = record s { toast = some msg; timers = suc s.timers }

-- `handleSuccess`, as the dialog saw it when its request was made, with the tab of that moment.
unfoldable pub handle_success : Direction → String → Session → Session
unfolding fetch_tips
handle_success sent msg s = fetch_tips sent 0 false (show_toast msg s)
handle_success received msg s = show_toast msg s

-- The timer of a toast.
unfoldable pub fire : Session → Session
fire s = elim s.timers [ zero ↦ s | suc n ↦ record s { toast = none; timers = n } ]

-- The reply to `/auth/me`.
unfoldable pub on_me : Reply String → Session → Session
on_me none s = s
on_me (some r) s =
    if is_ok r then elim r.json [ none ↦ s | some id ↦ record s { user_id = some id } ] else s

pub data Event : Type 0 where
  tab_clicked : Direction → Event
  more_clicked : Event
  replied : ℕ → Reply (List Tip) → Event
  send_clicked : Event
  closed : Event
  tip_sent : Direction → String → Event
  timer_fired : Event
  known : Reply String → Event

-- A tip that is sent closes the dialog that is open then.
unfoldable pub step : Event → Session → Session
unfolding click_tab click_more on_reply handle_success fire on_me
step (tab_clicked d) s = click_tab d s
step more_clicked s = click_more s
step (replied i r) s = on_reply i r s
step send_clicked s = record s { modal_open = true }
step closed s = record s { modal_open = false }
step (tip_sent d msg) s = record (handle_success d msg s) { modal_open = false }
step timer_fired s = fire s
step (known r) s = on_me r s

unfoldable pub run : List Event → Session → Session
unfolding step
run [] s = s
run (e ∷ es) s = run es (step e s)

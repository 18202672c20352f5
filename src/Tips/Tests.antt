-- ===== src/Tips/Tests.antt =====
-- tips/page.tsx: its theorems at concrete tips.
use concordia_chat_app.Prelude.{
  ◌+◌, ◌*◌, ◌/◌, ◌≤◌, ◌==◌, Option, none, inr, subst, ap, zero, suc, ℕ, ◌≡◌, refl, true, false,
  some, List, [], ◌∷◌, ◌++◌,
}
use concordia_chat_app.Prelude.Lists.{length, All, get_elem?}
use concordia_chat_app.Prelude.Tests.{eqb, if◌then◌else◌}
use concordia_chat_app.Prelude.Text.{decimal}
use concordia_chat_app.Tips.Dialog
use concordia_chat_app.Tips.Session
use concordia_chat_app.Tips.Dialog.{Numbers, submitted, amount_typed, fresh}
use concordia_chat_app.Tips.Dialog.Sending.{IsGood, under_way, run_tips}
use concordia_chat_app.Http.{Response}
use concordia_chat_app.Tips.{Tip, received, sent, TipsPage, finish_fetch, open_tab}
use concordia_chat_app.Tips.Session.{
  Fetch, start, run, replied, step, more_clicked, tab_clicked, tip_sent, send_clicked, timer_fired,
}
use concordia_chat_app.Tips.Session.Listed.{IsCalmRun, Shows, run_lists}
use concordia_chat_app.Tips.Screen.{IsAtRest, body}
use concordia_chat_app.Tips.Session.Settled.{all_replied, all_fired, run_settles}
use concordia_chat_app.Tips.Pages.{Answers, AnswersAll, load_all, tips_listed}

abbrev tip : Tip
tip = record {
  tip_id = "t1";
  sender_id = "u1";
  recipient_id = "u2";
  amount_cents = 500;
  currency = "USD";
  message = "";
  created_at = "t";
}

abbrev empty : TipsPage
empty = record {
  tab = sent;
  tips = [];
  loading = true;
  loading_more = false;
  has_more = false;
  offset = 0;
}

abbrev tips : ℕ → List Tip
tips zero = []
tips (suc n) = tip ∷ tips n

-- One tip more than a page holds.
abbrev all_tips : List Tip
all_tips = tips 21

abbrev answer : List Tip → Response (List Tip)
answer page = record { status = 200; json = some page }

first-Answers : Answers all_tips 0 (some (answer (tips 20)))
first-Answers = record {
  response = answer (tips 20);
  page = tips 20;
  before = [];
  after = tips 1;
  is_reply = refl;
  good = refl;
  body = refl;
  split = refl;
  position = refl;
  size = refl;
}

second-Answers : Answers all_tips 20 (some (answer (tips 1)))
second-Answers = record {
  response = answer (tips 1);
  page = tips 1;
  before = tips 20;
  after = [];
  is_reply = refl;
  good = refl;
  body = refl;
  split = refl;
  position = refl;
  size = refl;
}

second-AnswersAll :
    AnswersAll all_tips
      (some (answer (tips 1)) ∷ [])
      (finish_fetch 0 false (some (answer (tips 20))) (open_tab received empty))
unfolding finish_fetch
second-AnswersAll = (λ more. second-Answers, tt)

all_are_listed :
    let t =
      load_all all_tips
        (some (answer (tips 1)) ∷ [])
        (finish_fetch 0 false (some (answer (tips 20))) (open_tab received empty)) in
    ((rest : List Tip) × (t.tips ++ rest ≡ all_tips))
    × (length t.tips ≡ 21)
    × (t.offset ≡ length t.tips)
all_are_listed =
    tips_listed all_tips received (some (answer (tips 20))) (some (answer (tips 1)) ∷ []) empty
      first-Answers second-AnswersAll

-- Amounts as texts of digits, of which the empty one is no number.
abbrev digits : Numbers ℕ
digits = record {
  parse_float = λ s. if s == "5" then 5 else 0;
  round_hundredfold = λ n. n * 100;
  is_nan = λ n. false;
  at_most_zero = λ n. eqb n 0;
  fixed_hundredth = λ n. decimal (n / 100);
}

abbrev tipping : List Dialog.Event
tipping = submitted ∷ amount_typed "5" ∷ submitted ∷ submitted ∷ Dialog.replied none ∷ []

run_tips_example :
    let d = (Dialog.run digits (some "u2") (some "u1") tipping (fresh (some "u2"))).dialog in
    All (IsGood digits (some "u2") (some "u1")) d.requests
    × (length d.successes + under_way digits (some "u2") (some "u1") d ≤ length d.requests)
run_tips_example = run_tips digits (some "u2") (some "u1") tipping

abbrev offset_of : Option Fetch → ℕ
offset_of none = 0
offset_of (some f) = f.offset

-- Both pages of the sent tips, and then the other tab.
abbrev browsing : List Session.Event
browsing =
    replied 0 (some (answer (tips 20)))
    ∷ more_clicked
    ∷ replied 0 (some (answer (tips 1)))
    ∷ tab_clicked received
    ∷ []

browsing-IsCalmRun : IsCalmRun (λ d. all_tips) browsing start
unfolding start step get_elem?
browsing-IsCalmRun = (
  λ f e.
      inr
        (subst (λ n. Answers all_tips n (some (answer (tips 20)))) (ap offset_of e) first-Answers),
  (
    tt,
    (
      λ f e. inr (
          subst (λ n. Answers all_tips n (some (answer (tips 1)))) (ap offset_of e) second-Answers),
      (refl, tt),
    ),
  ),
)

run_lists_example : Shows (λ d. all_tips) (run browsing start).page
run_lists_example = run_lists (λ d. all_tips) browsing browsing-IsCalmRun

-- A tip is sent while more tips are loaded, and more are asked for before the list is fetched anew.
abbrev hurrying : List Session.Event
hurrying =
    replied 0 (some (answer (tips 20)))
    ∷ more_clicked
    ∷ send_clicked
    ∷ tip_sent sent "Tip sent!"
    ∷ replied 0 (some (answer (tips 20)))
    ∷ more_clicked
    ∷ []

run_settles_example :
    let s = run hurrying start in
    let t = run (all_replied (some (answer (tips 20)) ∷ some (answer (tips 20)) ∷ [])) s in
    (t.fetches ≡ [])
    × IsAtRest (body (λ date. date) t.page)
    × (Session.offers_more t.page ≡ t.page.has_more)
    × ((run (all_fired s.timers) s).toast ≡ none)
unfolding run start
run_settles_example =
    run_settles (λ date. date) hurrying (some (answer (tips 20)) ∷ some (answer (tips 20)) ∷ [])
      refl

-- Then the list is no more what the offset says: tips are missing between its two halves.
hurrying_leaves_gap :
    let t =
      run
        (all_replied (some (answer (tips 20)) ∷ some (answer (tips 20)) ∷ []))
        (run hurrying start) in
    (length t.page.tips ≡ 40) × (t.page.offset ≡ 60)
unfolding run start
hurrying_leaves_gap = (refl, refl)

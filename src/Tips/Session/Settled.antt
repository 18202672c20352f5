-- ===== src/Tips/Session/Settled.antt =====
-- tips/page.tsx: what every run keeps, and how the page comes to rest.
use concordia_chat_app.Prelude.{
  ℕ, zero, suc, ◌+◌, ◌≡◌, refl, ap, inl, inr, Bool, true, false, Option, none, some, List, [], ◌∷◌,
  ◌++◌, String, arith,
}
use concordia_chat_app.Prelude.Lists.{length, length-append, get_elem?, remove_at}
use concordia_chat_app.Prelude.Tests.{eqb, if_both, Bool-cases, Option-cases, if◌then◌else◌}
use concordia_chat_app.Http.{Reply, is_ok}
use concordia_chat_app.Tips.{
  Tip, Direction, sent, received, TipsPage, page_size, idle, start_fetch, finish_fetch, open_tab,
}
use concordia_chat_app.Tips.Screen.{IsAtRest, body, body-IsAtRest}
use concordia_chat_app.Tips.Session.{
  Fetch, Session, has_rows, offers_more, same_tab, start, fetch_tips, click_tab, click_more,
  on_reply, show_toast, handle_success, fire, on_me, Event, tab_clicked, more_clicked, replied,
  send_clicked, closed, tip_sent, timer_fired, known, step, run,
}

-- A page that waits for nothing is not loading, and there are more tips only under a row.
pub record IsTidy (p : TipsPage) (fs : List Fetch) : Type 0 where
  pub quiet : fs ≡ [] → (p.loading ≡ false) × (p.loading_more ≡ false)
  pub more : p.has_more ≡ true → has_rows p.tips ≡ true

-- ... and a toast has a timer.
pub record Holds (s : Session) : Type 0 where
  pub tidy : IsTidy s.page s.fetches
  pub timed : s.timers ≡ 0 → s.toast ≡ none

has_rows-append : (xs ys : List Tip) → has_rows ys ≡ true → has_rows (xs ++ ys) ≡ true
has_rows-append [] ys h = h
has_rows-append (x ∷ xs) ys h = refl

has_rows-length : (xs : List Tip) → eqb (length xs) page_size ≡ true → has_rows xs ≡ true
has_rows-length [] h = absurd (ground (arith, h))
has_rows-length (x ∷ xs) h = refl

-- A page with one more request under way.
waiting-IsTidy :
    (p : TipsPage) (fs : List Fetch) (f : Fetch)
    → (p.has_more ≡ true → has_rows p.tips ≡ true)
    → IsTidy p (fs ++ f ∷ [])
waiting-IsTidy p fs f more = record {
  quiet = λ e. absurd (omega (arith, ap length e, length-append fs (f ∷ [])));
  more = more;
}

finish_fetch-IsTidy :
    (off : ℕ) (append : Bool) (r : Reply (List Tip)) (p : TipsPage) (fs : List Fetch)
    → (p.has_more ≡ true → has_rows p.tips ≡ true)
    → IsTidy (finish_fetch off append r p) fs
unfolding finish_fetch
finish_fetch-IsTidy off append none p fs more = record { quiet = λ e. (refl, refl); more = more }
finish_fetch-IsTidy off append (some r) p fs more =
    if_both (λ q. IsTidy q fs) (is_ok r) (read r.json) left
  where
    left : IsTidy (idle p) fs
    left = record { quiet = λ e. (refl, refl); more = more }

    rows :
        (append : Bool) (page : List Tip)
        → has_rows page ≡ true
        → has_rows (if append then p.tips ++ page else page) ≡ true
    rows true page h = has_rows-append p.tips page h
    rows false page h = h

    read :
        (page : Option (List Tip))
        → IsTidy
            (elim page [
              | none ↦ idle p
              | some page ↦ idle (record p {
                tips = if append then p.tips ++ page else page;
                has_more = eqb (length page) page_size;
                offset = off + length page;
              })
            ])
            fs
    read none = left
    read (some page) = record {
      quiet = λ e. (refl, refl);
      more = λ h. rows append page (has_rows-length page h);
    }

fetch_tips-IsTidy :
    (d : Direction) (off : ℕ) (append : Bool) (s : Session)
    → (s.page.has_more ≡ true → has_rows s.page.tips ≡ true)
    → IsTidy (fetch_tips d off append s).page (fetch_tips d off append s).fetches
unfolding fetch_tips start_fetch
fetch_tips-IsTidy d off true s more = waiting-IsTidy _ s.fetches _ more
fetch_tips-IsTidy d off false s more = waiting-IsTidy _ s.fetches _ more

on_reply-Holds : (i : ℕ) (r : Reply (List Tip)) (s : Session) → Holds s → Holds (on_reply i r s)
unfolding on_reply
on_reply-Holds i r s h = elim (Option-cases (get_elem? s.fetches i)) [
  | inl e ↦ rw (e, on_reply) h
  | inr (f, e) ↦
      rw (e, on_reply)
        (record {
          tidy = finish_fetch-IsTidy f.offset f.append r s.page (remove_at i s.fetches) h.tidy.more;
          timed = h.timed;
        })
]

fire-Holds : (s : Session) → Holds s → Holds (fire s)
unfolding fire
fire-Holds s h = go s.timers
  where
    go : (n : ℕ) → Holds (elim n [ zero ↦ s | suc n ↦ record s { toast = none; timers = n } ])
    go zero = h
    go (suc n) = record { tidy = h.tidy; timed = λ e. refl }

on_me-Holds : (r : Reply String) (s : Session) → Holds s → Holds (on_me r s)
unfolding on_me
on_me-Holds none s h = h
on_me-Holds (some r) s h = if_both Holds (is_ok r) (read r.json) h
  where
    read :
        (id : Option String)
        → Holds (elim id [ none ↦ s | some id ↦ record s { user_id = some id } ])
    read none = h
    read (some id) = record { tidy = h.tidy; timed = h.timed }

step-Holds : (e : Event) (s : Session) → Holds s → Holds (step e s)
unfolding step click_tab click_more handle_success open_tab
step-Holds (tab_clicked d) s h = if_both Holds (same_tab d s.page.tab) h (record {
  tidy = waiting-IsTidy _ s.fetches _ (λ e. absurd (ground (arith, e)));
  timed = h.timed;
})
step-Holds more_clicked s h =
    if_both Holds (offers_more s.page)
      (record {
        tidy = fetch_tips-IsTidy s.page.tab s.page.offset true s h.tidy.more;
        timed = h.timed;
      })
      h
step-Holds (replied i r) s h = on_reply-Holds i r s h
step-Holds send_clicked s h = record { tidy = h.tidy; timed = h.timed }
step-Holds closed s h = record { tidy = h.tidy; timed = h.timed }
step-Holds (tip_sent sent msg) s h = record {
  tidy = fetch_tips-IsTidy sent 0 false (show_toast msg s) h.tidy.more;
  timed = λ e. absurd (omega arith);
}
step-Holds (tip_sent received msg) s h = record { tidy = h.tidy; timed = λ e. absurd (omega arith) }
step-Holds timer_fired s h = fire-Holds s h
step-Holds (known r) s h = on_me-Holds r s h

run-Holds : (es : List Event) (s : Session) → Holds s → Holds (run es s)
unfolding run
run-Holds [] s h = h
run-Holds (e ∷ es) s h = run-Holds es (step e s) (step-Holds e s h)

start-Holds : Holds start
unfolding start
start-Holds = record {
  tidy = waiting-IsTidy _ [] _ (λ e. absurd (ground (arith, e)));
  timed = λ e. refl;
}

-- At rest, the button for more tips stands there exactly if there are more.
rests-offers : {p : TipsPage} {fs : List Fetch} → IsTidy p fs → fs ≡ [] → offers_more p ≡ p.has_more
rests-offers {p} t e =
    let (off, off_more) = t.quiet e in
    elim (Bool-cases p.has_more) [
      | inl more ↦ ground (arith, off, off_more, more, t.more more)
      | inr over ↦ ground (arith, off, off_more, over)
    ]

-- The replies to all requests under way, the oldest first, and the end of some timers.
abbrev pub all_replied : List (Reply (List Tip)) → List Event
all_replied [] = []
all_replied (r ∷ rs) = replied 0 r ∷ all_replied rs

abbrev pub all_fired : ℕ → List Event
all_fired zero = []
all_fired (suc n) = timer_fired ∷ all_fired n

on_reply-fetches :
    (r : Reply (List Tip)) (s : Session) (f : Fetch) (fs : List Fetch)
    → s.fetches ≡ f ∷ fs
    → (on_reply 0 r s).fetches ≡ fs
unfolding on_reply get_elem? remove_at
on_reply-fetches r s f fs e = rw (e, on_reply) (rw e refl)

all_replied-fetches :
    (rs : List (Reply (List Tip))) (fs : List Fetch) (s : Session)
    → s.fetches ≡ fs
    → length rs ≡ length fs
    → (run (all_replied rs) s).fetches ≡ []
unfolding run step
all_replied-fetches [] [] s e h = e
all_replied-fetches [] (f ∷ fs) s e h = absurd (omega arith)
all_replied-fetches (r ∷ rs) [] s e h = absurd (omega arith)
all_replied-fetches (r ∷ rs) (f ∷ fs) s e h =
    all_replied-fetches rs fs (on_reply 0 r s) (on_reply-fetches r s f fs e) (omega arith)

fire-timers : (n : ℕ) (s : Session) → s.timers ≡ suc n → (fire s).timers ≡ n
unfolding fire
fire-timers n s e = rw (e, fire) refl

all_fired-toast :
    (n : ℕ) (s : Session) → s.timers ≡ n → Holds s → (run (all_fired n) s).toast ≡ none
unfolding run step
all_fired-toast zero s e h = h.timed e
all_fired-toast (suc n) s e h = all_fired-toast n (fire s) (fire-timers n s e) (fire-Holds s h)

-- After any run, whatever else is under way, the page comes to rest: once all requests under way
-- have their replies, the oldest first and good or bad, no request is left, the page draws no
-- spinner and no disabled button, and the button for more tips can be clicked exactly if there are
-- more; and once the timers of the toasts have fired, no toast is left. There are as many replies
-- as requests.
pub run_settles :
    (format_date : String → String) (es : List Event) (rs : List (Reply (List Tip)))
    → length rs ≡ length (run es start).fetches
    → let s = run es start in
      let t = run (all_replied rs) s in
      (t.fetches ≡ [])
      × IsAtRest (body format_date t.page)
      × (offers_more t.page ≡ t.page.has_more)
      × ((run (all_fired s.timers) s).toast ≡ none)
run_settles format_date es rs enough =
    let s = run es start in
    let h = run-Holds es start start-Holds in
    let k = run-Holds (all_replied rs) s h in
    let rests = all_replied-fetches rs s.fetches s refl enough in
    let (off, off_more) = k.tidy.quiet rests in
    (
      rests,
      body-IsAtRest format_date (run (all_replied rs) s).page off off_more,
      rests-offers k.tidy rests,
      all_fired-toast s.timers s refl h,
    )

-- ===== src/Tips/Pages.antt =====
-- tips/page.tsx: the pages of tips, and a reply of another tab.
use concordia_chat_app.Prelude.{
  ℕ, suc, ◌+◌, ◌*◌, ◌≡◌, refl, ap, sym, subst, ◌∙◌, Bool, true, false, some, List, [], ◌∷◌, ◌++◌,
  arith, min, inl, inr,
}
use mathlib.Core.List.{append_assoc}
use concordia_chat_app.Prelude.Lists.{length, length-append}
use concordia_chat_app.Prelude.Tests.{eqb, Bool-cases, if◌then◌else◌, if_false, if_true}
use concordia_chat_app.Http.{Response, Reply, is_ok}
use concordia_chat_app.Tips.{
  Tip, Direction, TipsPage, page_size, start_fetch, finish_fetch, open_tab, load_more, idle,
}

-- What the tips service answers to a request from an offset on: the next twenty of all tips.
pub record Answers (all : List Tip) (off : ℕ) (r : Reply (List Tip)) : Type 0 where
  pub response : Response (List Tip)
  pub page : List Tip
  pub before : List Tip
  pub after : List Tip
  pub is_reply : r ≡ some response
  pub good : is_ok response ≡ true
  pub body : response.json ≡ some page
  pub split : before ++ (page ++ after) ≡ all
  pub position : length before ≡ off
  pub size : length page ≡ min page_size (length page + length after)

-- The list is the first `20 * n` tips, or all of them; the offset is its length; and if the button
-- is gone, nothing is missing.
pub record Listed (all : List Tip) (n : ℕ) (s : TipsPage) : Type 0 where
  pub rest : List Tip
  pub split : s.tips ++ rest ≡ all
  pub size : length s.tips ≡ min (page_size * n) (length all)
  pub position : s.offset ≡ length s.tips
  pub more : s.has_more ≡ false → rest ≡ []

pub append_cancel :
    (xs ys us vs : List Tip) → xs ++ us ≡ ys ++ vs → length xs ≡ length ys → (xs ≡ ys) × (us ≡ vs)
append_cancel [] [] us vs e h = (refl, e)
append_cancel [] (y ∷ ys) us vs e h = absurd (omega arith)
append_cancel (x ∷ xs) [] us vs e h = absurd (omega arith)
append_cancel (x ∷ xs) (y ∷ ys) us vs e h =
    let (p, q) = append_cancel xs ys us vs (ground arith) (omega arith) in (ground arith, q)

pub nil_of_length : (xs : List Tip) → length xs ≡ 0 → xs ≡ []
nil_of_length [] h = refl
nil_of_length (x ∷ xs) h = absurd (omega arith)

pub finish_fetch-Answers :
    {all : List Tip} (off : ℕ) (append : Bool) (r : Reply (List Tip)) (s : TipsPage)
    → (a : Answers all off r)
    → finish_fetch off append r s
      ≡ idle (record s {
        tips = if append then s.tips ++ a.page else a.page;
        has_more = eqb (length a.page) page_size;
        offset = off + length a.page;
      })
unfolding finish_fetch
finish_fetch-Answers off append r s a = rw (a.is_reply) (rw (a.good, a.body))

module _ (all : List Tip) where
  pub after_nil :
      (off : ℕ) (r : Reply (List Tip)) (a : Answers all off r)
      → eqb (length a.page) page_size ≡ false
      → a.after ≡ []
  after_nil off r a short = nil_of_length a.after (ground (arith, a.size))

  open_tab-Listed :
      (d : Direction) (r : Reply (List Tip)) (s : TipsPage)
      → Answers all 0 r
      → Listed all 1 (finish_fetch 0 false r (open_tab d s))
  open_tab-Listed d r s a =
      let start : a.before ≡ [] = nil_of_length a.before a.position in
      let whole : a.page ++ a.after ≡ all =
        subst (λ b. b ++ (a.page ++ a.after) ≡ all) start a.split in
      rw (finish_fetch-Answers 0 false r (open_tab d s) a) (record {
        rest = a.after;
        split = whole;
        size = omega (arith, a.size, length-append a.page a.after, ap length whole);
        position = omega arith;
        more = after_nil 0 r a;
      })

  load_more-Listed :
      (n : ℕ) (r : Reply (List Tip)) (s : TipsPage)
      → Listed all n s
      → (s.has_more ≡ true → Answers all s.offset r)
      → Listed all (suc n) (load_more r s)
  unfolding load_more start_fetch
  load_more-Listed n r s l answers = elim (Bool-cases s.has_more) [
    | inr e ↦
        let gone : length l.rest ≡ 0 = ap length (l.more e) in
        subst (Listed all (suc n)) (sym (if_false s.has_more _ _ e)) (record {
          rest = l.rest;
          split = l.split;
          size = omega (arith, l.size, gone, length-append s.tips l.rest, ap length l.split);
          position = l.position;
          more = l.more;
        })
    | inl e ↦
        let a : Answers all s.offset r = answers e in
        let cut =
          append_cancel s.tips a.before l.rest (a.page ++ a.after) (l.split ∙ sym a.split)
            (omega (arith, l.position, a.position)) in
        subst (Listed all (suc n)) (sym (if_true s.has_more _ _ e)) (
          rw (finish_fetch-Answers s.offset true r (start_fetch true s) a) (record {
            rest = a.after;
            split =
                append_assoc s.tips a.page a.after ∙ ap (λ b. s.tips ++ b) (sym cut.1) ∙ l.split;
            size = omega (
              arith,
              l.size,
              a.size,
              length-append s.tips a.page,
              length-append s.tips l.rest,
              ap length l.split,
              ap length cut.1,
              length-append a.page a.after,
            );
            position = omega (arith, l.position, length-append s.tips a.page);
            more = after_nil s.offset r a;
          }))
  ]

  -- "Load more" is clicked as long as it is shown, with a reply each time.
  pub load_all : List (Reply (List Tip)) → TipsPage → TipsPage
  load_all [] s = s
  load_all (r ∷ rs) s = load_all rs (load_more r s)

  abbrev pub AnswersAll : List (Reply (List Tip)) → TipsPage → Type 0
  AnswersAll [] s = Unit
  AnswersAll (r ∷ rs) s =
      (s.has_more ≡ true → Answers all s.offset r) × AnswersAll rs (load_more r s)

  load_all-Listed :
      (n : ℕ) (rs : List (Reply (List Tip))) (s : TipsPage)
      → Listed all n s
      → AnswersAll rs s
      → Listed all (n + length rs) (load_all rs s)
  unfolding load_all
  load_all-Listed n [] s l a = subst (λ k. Listed all k s) (omega arith) l
  load_all-Listed n (r ∷ rs) s l a =
      subst (λ k. Listed all k (load_all rs (load_more r s))) (omega arith)
        (load_all-Listed (suc n) rs (load_more r s) (load_more-Listed n r s l (a.0)) (a.1))

  -- Opening a tab and clicking "Load more" through `n` replies lists the first `20 * (n + 1)` of
  -- the tips in order, or all of them; the offset of the next request is the number listed. Each
  -- reply answers the request made at that point, from the same list of tips.
  pub tips_listed :
      (d : Direction) (first : Reply (List Tip)) (rs : List (Reply (List Tip))) (s : TipsPage)
      → Answers all 0 first
      → AnswersAll rs (finish_fetch 0 false first (open_tab d s))
      → let t = load_all rs (finish_fetch 0 false first (open_tab d s)) in
        ((rest : List Tip) × (t.tips ++ rest ≡ all))
        × (length t.tips ≡ min (page_size * (1 + length rs)) (length all))
        × (t.offset ≡ length t.tips)
  tips_listed d first rs s a as_all =
      let l = load_all-Listed 1 rs _ (open_tab-Listed d first s a) as_all in
      ((l.rest, l.split), l.size, l.position)

-- When the good reply to the old tab's request comes after the reply to the new tab's, the new tab
-- lists the old tab's tips and is no longer loading.
pub stale_tab :
    (d : Direction) (new old : Response (List Tip)) (page : List Tip) (s : TipsPage)
    → is_ok old ≡ true
    → old.json ≡ some page
    → let t = finish_fetch 0 false (some old) (finish_fetch 0 false (some new) (open_tab d s)) in
      (t.tips ≡ page) × (t.loading ≡ false)
unfolding finish_fetch
stale_tab d new old page s good body = rw (good, body) (refl, refl)

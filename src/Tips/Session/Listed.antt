-- ===== src/Tips/Session/Listed.antt =====
-- tips/page.tsx: what the list holds in a run in which the user lets a load end before the next tab.
use concordia_chat_app.Prelude.{
  ℕ, zero, suc, ◌+◌, ◌≡◌, ◌⊎◌, refl, ap, sym, subst, ◌∙◌, inl, inr, Bool, true, false, Option, none,
  some, List, [], ◌∷◌, ◌++◌, String, arith,
}
use mathlib.Core.List.{append_assoc}
use concordia_chat_app.Prelude.Lists.{length, length-append, get_elem?, remove_at}
use concordia_chat_app.Prelude.Tests.{eqb, if_both, if_known, Option-cases, if◌then◌else◌}
use concordia_chat_app.Http.{Reply, is_ok}
use concordia_chat_app.Tips.{
  Tip, Direction, sent, TipsPage, page_size, idle, start_fetch, finish_fetch, open_tab,
}
use concordia_chat_app.Tips.Pages.{
  Answers, nil_of_length, append_cancel, finish_fetch-Answers, after_nil,
}
use concordia_chat_app.Tips.Session.{
  Fetch, Session, offers_more, same_tab, start, fetch_tips, click_tab, click_more, on_reply, fire,
  on_me, Event, tab_clicked, more_clicked, replied, send_clicked, closed, tip_sent, timer_fired,
  known, step, run,
}

-- The tips of a reply that is good and can be read.
abbrev pub tips_of : Reply (List Tip) → Option (List Tip)
tips_of none = none
tips_of (some r) = if is_ok r then r.json else none

finish_fetch-failed :
    (off : ℕ) (append : Bool) (r : Reply (List Tip)) (p : TipsPage)
    → tips_of r ≡ none
    → finish_fetch off append r p ≡ idle p
unfolding finish_fetch
finish_fetch-failed off append none p e = refl
finish_fetch-failed off append (some r) p e = go (is_ok r) r.json e
  where
    go :
        (good : Bool) (body : Option (List Tip))
        → (if good then body else none) ≡ none
        → (if good
            then elim body [
              | none ↦ idle p
              | some page ↦ idle (record p {
                tips = if append then p.tips ++ page else page;
                has_more = eqb (length page) page_size;
                offset = off + length page;
              })
            ]
            else idle p)
          ≡ idle p
    go true none e = refl
    go true (some page) e = absurd (ground (arith, e))
    go false body e = refl

module _ (all : Direction → List Tip) where
  -- The tips of a tab from its first one on, with the offset of the next; without more tips to come
  -- the list is whole, or empty as its first load has not come or has failed.
  pub record Shows (p : TipsPage) : Type 0 where
    pub rest : List Tip
    pub split : p.tips ++ rest ≡ all p.tab
    pub position : p.offset ≡ length p.tips
    pub more : p.has_more ≡ false → (p.tips ≡ []) ⊎ (rest ≡ [])

  -- At most one request is under way, and it is for what the page shows.
  data Waits (p : TipsPage) (fs : List Fetch) : Type 0 where
    nothing : fs ≡ [] → Waits p fs
    first :
        fs ≡ (record { direction = p.tab; offset = 0; append = false }) ∷ []
        → p.loading ≡ true
        → Waits p fs
    next :
        fs ≡ (record { direction = p.tab; offset = p.offset; append = true }) ∷ []
        → p.loading_more ≡ true
        → Waits p fs

  record Follows (p : TipsPage) (fs : List Fetch) : Type 0 where
    shows : Shows p
    waits : Waits p fs

  abbrev FollowsIn : Session → Type 0
  FollowsIn s = Follows s.page s.fetches

  -- The user opens a tab when nothing is under way, a reply fails or answers its request, and no tip
  -- is sent, which would change the lists of the service.
  abbrev pub IsCalm : Event → Session → Type 0
  IsCalm (tab_clicked d) s = s.fetches ≡ []
  IsCalm (replied i r) s =
      (f : Fetch)
      → get_elem? s.fetches i ≡ some f
      → (tips_of r ≡ none) ⊎ Answers (all f.direction) f.offset r
  IsCalm (tip_sent d msg) s = ⊥
  IsCalm e s = Unit

  abbrev pub IsCalmRun : List Event → Session → Type 0
  IsCalmRun [] s = Unit
  IsCalmRun (e ∷ es) s = IsCalm e s × IsCalmRun es (step e s)

  failed-Shows : (p : TipsPage) → Shows p → Shows (idle p)
  failed-Shows p h = record { rest = h.rest; split = h.split; position = h.position; more = h.more }

  first-Shows :
      (r : Reply (List Tip)) (p : TipsPage)
      → Shows p
      → (tips_of r ≡ none) ⊎ Answers (all p.tab) 0 r
      → Shows (finish_fetch 0 false r p)
  first-Shows r p h (inl e) = rw (finish_fetch-failed 0 false r p e) (failed-Shows p h)
  first-Shows r p h (inr a) = rw (finish_fetch-Answers 0 false r p a) (record {
    rest = a.after;
    split =
        subst (λ b. b ++ (a.page ++ a.after) ≡ all p.tab) (nil_of_length a.before a.position)
          a.split;
    position = omega arith;
    more = λ short. inr (after_nil (all p.tab) 0 r a short);
  })

  next-Shows :
      (r : Reply (List Tip)) (p : TipsPage)
      → Shows p
      → (tips_of r ≡ none) ⊎ Answers (all p.tab) p.offset r
      → Shows (finish_fetch p.offset true r p)
  next-Shows r p h (inl e) = rw (finish_fetch-failed p.offset true r p e) (failed-Shows p h)
  next-Shows r p h (inr a) =
      let cut =
        append_cancel p.tips a.before h.rest (a.page ++ a.after) (h.split ∙ sym a.split)
          (omega (arith, h.position, a.position)) in
      rw (finish_fetch-Answers p.offset true r p a) (record {
        rest = a.after;
        split = append_assoc p.tips a.page a.after ∙ ap (λ b. p.tips ++ b) (sym cut.1) ∙ h.split;
        position = omega (arith, h.position, length-append p.tips a.page);
        more = λ short. inr (after_nil (all p.tab) p.offset r a short);
      })

  -- One request under way: the reply to it, which is the first of the list.
  one :
      (i : ℕ) (f g : Fetch) (fs : List Fetch)
      → fs ≡ g ∷ []
      → get_elem? fs i ≡ some f
      → (f ≡ g) × (remove_at i fs ≡ [])
  unfolding get_elem? remove_at
  one i f g fs e h = rw e (go i (subst (λ l. get_elem? l i ≡ some f) e h))
    where
      go : (i : ℕ) → get_elem? (g ∷ []) i ≡ some f → (f ≡ g) × (remove_at i (g ∷ []) ≡ [])
      go zero h = (ground (arith, h), refl)
      go (suc i) h = absurd (ground (arith, h))

  none_here : (i : ℕ) (f : Fetch) → get_elem? [] i ≡ some f → ⊥
  unfolding get_elem?
  none_here i f e = absurd (ground (arith, e))

  on_reply-Follows :
      (i : ℕ) (r : Reply (List Tip)) (s : Session)
      → IsCalm (replied i r) s
      → FollowsIn s
      → FollowsIn (on_reply i r s)
  unfolding on_reply
  on_reply-Follows i r s calm h = elim (Option-cases (get_elem? s.fetches i)) [
    | inl e ↦ rw (e, on_reply) h
    | inr (f, e) ↦ rw (e, on_reply) (got f (calm f e) e h.waits)
  ]
    where
      got :
          (f : Fetch)
          → (tips_of r ≡ none) ⊎ Answers (all f.direction) f.offset r
          → get_elem? s.fetches i ≡ some f
          → Waits s.page s.fetches
          → Follows (finish_fetch f.offset f.append r s.page) (remove_at i s.fetches)
      got f a e (nothing x) = absurd (none_here i f (subst (λ l. get_elem? l i ≡ some f) x e))
      got f a e (first x l) =
          let (same, rests) = one i f _ s.fetches x e in
          rw (same, rests)
            (record {
              shows =
                  first-Shows r s.page h.shows
                    (subst (λ k. (tips_of r ≡ none) ⊎ Answers (all k.direction) k.offset r) same a);
              waits = nothing refl;
            })
      got f a e (next x l) =
          let (same, rests) = one i f _ s.fetches x e in
          rw (same, rests)
            (record {
              shows =
                  next-Shows r s.page h.shows
                    (subst (λ k. (tips_of r ≡ none) ⊎ Answers (all k.direction) k.offset r) same a);
              waits = nothing refl;
            })

  tab_clicked-Follows :
      (d : Direction) (s : Session) → s.fetches ≡ [] → FollowsIn s → FollowsIn (click_tab d s)
  unfolding click_tab open_tab start_fetch
  tab_clicked-Follows d s calm h = if_both FollowsIn (same_tab d s.page.tab) h (record {
    shows = record { rest = all d; split = refl; position = refl; more = λ e. inl refl };
    waits = first (rw calm refl) refl;
  })

  click_more-Follows : (s : Session) → FollowsIn s → FollowsIn (click_more s)
  unfolding click_more fetch_tips start_fetch
  click_more-Follows s h = if_known FollowsIn (offers_more s.page) (λ e. asks e h.waits) h
    where
      asks :
          offers_more s.page ≡ true
          → Waits s.page s.fetches
          → Follows (start_fetch true s.page) (
              s.fetches
              ++ (record { direction = s.page.tab; offset = s.page.offset; append = true }) ∷ [])
      asks e (nothing x) = record {
        shows = record {
          rest = h.shows.rest;
          split = h.shows.split;
          position = h.shows.position;
          more = h.shows.more;
        };
        waits = next (rw x refl) refl;
      }
      asks e (first x l) = absurd (ground (arith, e, l))
      asks e (next x l) = absurd (ground (arith, e, l))

  fire-Follows : (s : Session) → FollowsIn s → FollowsIn (fire s)
  unfolding fire
  fire-Follows s h = go s.timers
    where
      go : (n : ℕ) → FollowsIn (elim n [ zero ↦ s | suc n ↦ record s { toast = none; timers = n } ])
      go zero = h
      go (suc n) = h

  on_me-Follows : (r : Reply String) (s : Session) → FollowsIn s → FollowsIn (on_me r s)
  unfolding on_me
  on_me-Follows none s h = h
  on_me-Follows (some r) s h = if_both FollowsIn (is_ok r) (read r.json) h
    where
      read :
          (id : Option String)
          → FollowsIn (elim id [ none ↦ s | some id ↦ record s { user_id = some id } ])
      read none = h
      read (some id) = h

  step-Follows : (e : Event) (s : Session) → IsCalm e s → FollowsIn s → FollowsIn (step e s)
  unfolding step fire on_me
  step-Follows (tab_clicked d) s calm h = tab_clicked-Follows d s calm h
  step-Follows more_clicked s calm h = click_more-Follows s h
  step-Follows (replied i r) s calm h = on_reply-Follows i r s calm h
  step-Follows send_clicked s calm h = h
  step-Follows closed s calm h = h
  step-Follows (tip_sent d msg) s calm h = absurd calm
  step-Follows timer_fired s calm h = fire-Follows s h
  step-Follows (known r) s calm h = on_me-Follows r s h

  run-Follows :
      (es : List Event) (s : Session) → IsCalmRun es s → FollowsIn s → FollowsIn (run es s)
  unfolding run
  run-Follows [] s calm h = h
  run-Follows (e ∷ es) s calm h = run-Follows es (step e s) calm.1 (step-Follows e s calm.0 h)

  start-Follows : FollowsIn start
  unfolding start start_fetch
  start-Follows = record {
    shows = record { rest = all sent; split = refl; position = refl; more = λ e. inl refl };
    waits = first refl refl;
  }

  -- However the user goes from tab to tab, loads more, and opens and closes the dialogue, the list
  -- holds the tips of its tab from the first one on and in order, and the offset of the next
  -- request is their number; where no more are offered, the list is whole or still empty. The
  -- lists of the service do not change, so that no tip is sent, a tab is opened when no load is
  -- under way, and each reply fails or answers its request.
  pub run_lists : (es : List Event) → IsCalmRun es start → Shows (run es start).page
  run_lists es calm = (run-Follows es start calm start-Follows).shows

-- ===== src/Timeline/Pages.antt =====
-- MessageList.tsx: the pages that infinite scrolling fetches.
pub mod Ids
use concordia_chat_app.Prelude.{
  eq_iff, Option, ℕ, suc, ◌+◌, ◌*◌, ◌<◌, ◌≡◌, refl, ap, sym, subst, ◌∙◌, Bool, not, none, some,
  List, [], ◌∷◌, ◌++◌, String, arith, true, false, inl, inr, reverse, min,
}
use mathlib.Core.List.{append_assoc}
use native.Mathlib.Nat.{add-zero}
use concordia_chat_app.Prelude.Lists.{length, length-append, length-reverse, All}
use concordia_chat_app.Prelude.Tests.{if_false, Bool-cases, is_empty}
use concordia_chat_app.Http.{Reply}
use concordia_chat_app.Chat.{id_of, Message}
use concordia_chat_app.Timeline.Pages.Ids.{before_id}
use concordia_chat_app.Timeline.{
  Timeline, MessagesResponse, fetch_messages, start_load, finish_load, oldest, cursor, finish_more,
  start_more, end_more,
}
use concordia_chat_app.Prelude.Keyed.{has, IsUnique}

abbrev pub null : List Message → Bool
null [] = true
null (m ∷ ms) = false

abbrev pub page_size : ℕ
page_size = 50

-- What the chat service answers to a request for the messages before a point, `older` being all of
-- those, oldest first: the last fifty of them, newest first, and whether there are more.
pub record IsPage (older : List Message) (page : MessagesResponse) : Type 0 where
  pub rest : List Message
  pub split : rest ++ reverse page.messages ≡ older
  pub size : length page.messages ≡ min page_size (length older)
  pub more : page.has_more ≡ not (null rest)

pub record Answers (older : List Message) (r : Reply MessagesResponse) : Type 0 where
  pub page : MessagesResponse
  pub fetched : fetch_messages r ≡ some page
  pub is_page : IsPage older page

-- The sentinel comes into view again and again, and the reply to the request that this makes, if it
-- makes one, comes before the next time.
pub scroll : List (Reply MessagesResponse) → Timeline → Timeline
scroll [] s = s
scroll (r ∷ rs) s = scroll rs (end_more r (start_more s))

-- The list holds the last `50 * n` messages of the history, or all of them, and knows which.
pub record Window (history : List Message) (n : ℕ) (s : Timeline) : Type 0 where
  pub rest : List Message
  pub split : rest ++ s.messages ≡ history
  pub size : length s.messages ≡ min (page_size * n) (length history)
  pub more : s.has_more ≡ not (null rest)
  pub idle : s.loading_more ≡ false
  pub ready : s.loading ≡ false

-- The reply answers a request for the messages before the one with the id.
pub record AnswersBefore (history : List Message) (id : String) (r : Reply MessagesResponse)
    : Type 0 where
  pub older : List Message
  pub point : Message
  pub later : List Message
  pub split : older ++ point ∷ later ≡ history
  pub named : point.message_id ≡ id
  pub answers : Answers older r

-- It answers the request, if one is made.
abbrev pub AnswersAsk : List Message → Option String → Reply MessagesResponse → Type 0
AnswersAsk history none r = Unit
AnswersAsk history (some id) r = AnswersBefore history id r

-- Each reply answers the request that the list then makes, with the id that it asks for.
abbrev pub AnswersAll : List (Reply MessagesResponse) → List Message → Timeline → Type 0
AnswersAll [] history s = Unit
AnswersAll (r ∷ rs) history s =
    AnswersAsk history (cursor s) r × AnswersAll rs history (end_more r (start_more s))

oldest-some :
    (rest xs : List Message)
    → All (λ m. is_empty m.message_id ≡ false) (rest ++ xs)
    → 0 < length xs
    → (x : Message) × (later : List Message) × (xs ≡ x ∷ later) × (oldest xs ≡ some x.message_id)
unfolding oldest
oldest-some [] [] a h = absurd (omega arith)
oldest-some [] (x ∷ xs) a h = (x, xs, refl, rw (a.0) refl)
oldest-some (r ∷ rest) xs a h = oldest-some rest xs (a.1) h

end_more-idle :
    (r : Reply MessagesResponse) (s : Timeline) → s.loading_more ≡ false → end_more r s ≡ s
unfolding end_more
end_more-idle r s h = if_false s.loading_more _ _ h

rest_pos : (xs : List Message) → not (null xs) ≡ true → 0 < length xs
rest_pos [] h = cc
rest_pos (x ∷ xs) h = omega arith

rest_none : (xs : List Message) → not (null xs) ≡ false → length xs ≡ 0
rest_none [] h = refl
rest_none (x ∷ xs) h = cc

load-Window :
    (history : List Message) (r : Reply MessagesResponse) (s : Timeline)
    → s.loading_more ≡ false
    → Answers history r
    → Window history 1 (finish_load false r (start_load s))
unfolding finish_load start_load
load-Window history r s idle a =
    rw (a.fetched, finish_load)
      (record {
        rest = a.is_page.rest;
        split = a.is_page.split;
        size = omega (arith, length-reverse a.page.messages, a.is_page.size);
        more = a.is_page.more;
        idle = idle;
        ready = refl;
      })

module _ (history : List Message) (named : All (λ m. is_empty m.message_id ≡ false) history)
    (unique : IsUnique id_of history) where
  split-length :
      (xs ys : List Message) → xs ++ ys ≡ history → length xs + length ys ≡ length history
  split-length xs ys e = omega (arith, length-append xs ys, ap length e)

  finish_more-Window :
      (n : ℕ) (r : Reply MessagesResponse) (s : Timeline) (w : Window history (suc n) s)
      → Answers w.rest r
      → Window history (suc (suc n)) (finish_more r (record s { loading_more = true }))
  unfolding finish_more
  finish_more-Window n r s w a =
      rw (a.fetched, finish_more)
        (record {
          rest = a.is_page.rest;
          split =
              sym (append_assoc a.is_page.rest (reverse a.page.messages) s.messages)
              ∙ ap (λ l. l ++ s.messages) a.is_page.split
              ∙ w.split;
          size = omega (
            arith,
            length-append (reverse a.page.messages) s.messages,
            length-reverse a.page.messages,
            a.is_page.size,
            w.size,
            split-length (w.rest) s.messages w.split,
          );
          more = a.is_page.more;
          idle = refl;
          ready = w.ready;
        })

  -- The messages before the oldest that is shown.
  asked-Answers :
      (rest xs : List Message) (x : Message) (later : List Message) (r : Reply MessagesResponse)
      → rest ++ xs ≡ history
      → xs ≡ x ∷ later
      → AnswersBefore history x.message_id r
      → Answers rest r
  asked-Answers rest xs x later r split first b =
      let whole : rest ++ x ∷ later ≡ history = rw⁻¹ first split in
      subst (λ l. Answers l r)
        (before_id b.older rest b.point x b.later later (rw whole unique) (b.split ∙ sym whole)
          b.named)
        b.answers

  more-Window :
      (n : ℕ) (r : Reply MessagesResponse) (s : Timeline) (w : Window history (suc n) s)
      → AnswersAsk history (cursor s) r
      → Window history (suc (suc n)) (end_more r (start_more s))
  unfolding start_more end_more cursor
  more-Window n r s w a = elim (Bool-cases s.has_more) [
    | inl e ↦
        let (x, later, first, found) =
          oldest-some w.rest s.messages (rw (w.split) named) (some_shown e) in
        let asks : cursor s ≡ some x.message_id = rw (e, w.idle, w.ready) found in
        let answered : AnswersBefore history x.message_id r =
          subst (λ o. AnswersAsk history o r) asks a in
        rw (asks, start_more)
          (finish_more-Window n r s w
            (asked-Answers w.rest s.messages x later r w.split first answered))
    | inr e ↦
        let asks : cursor s ≡ none = rw e refl in
        let still : start_more s ≡ s = rw (asks, start_more) refl in
        let same : end_more r (start_more s) ≡ s =
          ap (end_more r) still ∙ end_more-idle r s w.idle in
        rw same (record {
          rest = w.rest;
          split = w.split;
          size = all_shown e;
          more = w.more;
          idle = w.idle;
          ready = w.ready;
        })
  ]
    where
      some_shown : s.has_more ≡ true → 0 < length s.messages
      some_shown e =
          omega (
            arith,
            w.size,
            split-length w.rest s.messages w.split,
            rest_pos w.rest (sym w.more ∙ e),
          )

      all_shown :
          s.has_more ≡ false → length s.messages ≡ min (page_size * suc (suc n)) (length history)
      all_shown e =
          omega (
            arith,
            w.size,
            split-length w.rest s.messages w.split,
            rest_none w.rest (sym w.more ∙ e),
          )

  scroll-Window :
      (n : ℕ) (rs : List (Reply MessagesResponse)) (s : Timeline)
      → Window history (suc n) s
      → AnswersAll rs history s
      → Window history (suc n + length rs) (scroll rs s)
  unfolding scroll
  scroll-Window n [] s w a = rw (add-zero (suc n)) w
  scroll-Window n (r ∷ rs) s w a =
      let next =
        scroll-Window (suc n) rs (end_more r (start_more s)) (more-Window n r s w a.0) a.1 in
      subst (λ k. Window history k (scroll rs (end_more r (start_more s)))) (omega arith) next

-- Opening a channel and scrolling up through `n` pages shows the last `50 * (n + 1)` messages of
-- its history, in order, or all of them if it has no more, and then the list knows that. Each
-- reply answers the request that the list makes at that point, which is for the messages before
-- the one with the id that it names, and comes before anything else happens; the channel is not
-- left meanwhile, no page is being fetched at the start, and the messages have ids that are not
-- empty, none twice.
pub load_and_scroll :
    (history : List Message) (first : Reply MessagesResponse) (rs : List (Reply MessagesResponse))
    (s : Timeline)
    → All (λ m. is_empty m.message_id ≡ false) history
    → IsUnique id_of history
    → s.loading_more ≡ false
    → Answers history first
    → AnswersAll rs history (finish_load false first (start_load s))
    → let t = scroll rs (finish_load false first (start_load s)) in
      (length t.messages ≡ min (page_size * (length rs + 1)) (length history))
      × ((rest : List Message) × (rest ++ t.messages ≡ history) × (t.has_more ≡ not (null rest)))
load_and_scroll history first rs s named unique idle a as_all =
    let w = scroll-Window history named unique 0 rs _ (load-Window history first s idle a) as_all in
    (omega (arith, w.size), (w.rest, w.split, w.more))

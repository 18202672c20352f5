-- ===== src/Timeline/Board/Acts.antt =====
-- MessageList.tsx: what the buttons of the rows start, over any run of events.
use concordia_chat_app.Prelude.{
  ℕ, zero, suc, ◌≡◌, refl, ap, subst, inl, inr, Bool, true, false, not, ◌&&◌, Option, none, some,
  List, [], ◌∷◌, ◌++◌, map, String, ◌==◌, arith, eq_iff,
}
use concordia_chat_app.Prelude.Keyed.{
  has, without, IsUnique, IsUnique-concat, IsUnique-filter, without-fresh,
}
use concordia_chat_app.Prelude.Lists.{All, any, filter, get_elem?}
use concordia_chat_app.Prelude.Tests.{is_some, if_both, Bool-cases, Option-cases}
use concordia_chat_app.Http.{Reply}
use concordia_chat_app.Chat.{Message}
use concordia_chat_app.Timeline.{
  Timeline, MessagesResponse, start_load, start_delete, finish_delete, finish_load, finish_more,
  start_more, end_more, fetch_messages, cursor, all_messages,
}
use concordia_chat_app.Timeline
use concordia_chat_app.Timeline.Board.{
  display_name, Recipient, Props, Act, deletion, tip, Board, Row, Event, is_own, row, screen,
  delete_row, tip_row, on_row, remove_first, end_delete, delete_clicked, deleted, tip_clicked,
  tip_closed, tip_succeeded, toast_over, moved, opened, scrolled, older, step, run,
}

-- A deletion of a message of the user, or a tip to another.
abbrev pub IsAllowed : Act → Type 0
IsAllowed (deletion user m) = is_own user m ≡ true
IsAllowed (tip user m) = is_own user m ≡ false

-- The message of the latest tip.
abbrev pub last_tip : List Act → Option Message
last_tip [] = none
last_tip (deletion user m ∷ acts) = last_tip acts
last_tip (tip user m ∷ acts) = some m

-- An open tip dialogue is for the author of the message.
abbrev pub IsFor : Option Message → Option Recipient → Type 0
IsFor m none = Unit
IsFor none (some r) = ⊥
IsFor (some m) (some r) = (r.id ≡ m.author_id) × (r.name ≡ display_name m)

abbrev pub same : String → String
same id = id

pub record Inv (s : Board) : Type 0 where
  pub allowed : All IsAllowed s.acts
  pub addressed : IsFor (last_tip s.acts) s.tipping_user
  pub marked : s.deletes ≡ s.timeline.deleting_ids
  pub unique : IsUnique same s.deletes

-- A row as the list draws it.
record IsRow (props : Props) (deleting : List String) (r : Row) : Type 0 where
  own : r.is_own ≡ is_own props.current_user_id r.message
  busy : r.is_deleting ≡ has same r.message.message_id deleting

get_elem?-row :
    (props : Props) (deleting : List String) (ms : List (Message × Bool)) (i : ℕ) (r : Row)
    → get_elem? (map (row props deleting) ms) i ≡ some r
    → IsRow props deleting r
unfolding get_elem? row
get_elem?-row props deleting [] i r h = absurd (cc h)
get_elem?-row props deleting (m ∷ ms) zero r h =
    let e : row props deleting m ≡ r = cc h in
    subst (IsRow props deleting) e (record { own = refl; busy = refl })
get_elem?-row props deleting (m ∷ ms) (suc i) r h = get_elem?-row props deleting ms i r h

remove_first-without :
    (id : String) (ds : List String) → IsUnique same ds → remove_first id ds ≡ without same id ds
unfolding remove_first filter
remove_first-without id [] u = refl
remove_first-without id (d ∷ ds) u = elim (Bool-cases (d == id)) [
  | inl e ↦
      let gone : has same id ds ≡ false = ground (arith, eq_iff d id, u.0) in
      ground (arith, without-fresh same id ds gone)
  | inr e ↦ rw e (ground (arith, remove_first-without id ds u.1))
]

row_at :
    (time_of : String → Option ℕ) (props : Props) (s : Board) (i : ℕ) (r : Row)
    → get_elem? (screen time_of props s).rows i ≡ some r
    → IsRow props s.timeline.deleting_ids r
unfolding screen get_elem?
row_at time_of props s i r h = elim (Bool-cases s.timeline.loading) [
  | inl e ↦ absurd (ground (arith, h))
  | inr e ↦
      let all = all_messages s.timeline.messages props.extra_messages in
      get_elem?-row props s.timeline.deleting_ids (Timeline.rows time_of none all) i r
        (ground (arith, h))
]

on_row-Inv :
    (time_of : String → Option ℕ) (act : Props → Row → Board → Board) (i : ℕ) (props : Props)
    (s : Board)
    → ((r : Row) → IsRow props s.timeline.deleting_ids r → Inv (act props r s))
    → Inv s
    → Inv (on_row time_of act i props s)
unfolding on_row
on_row-Inv time_of act i props s k inv =
    elim (Option-cases (get_elem? (screen time_of props s).rows i)) [
      | inl e ↦ rw (e, on_row) inv
      | inr (r, e) ↦ rw (e, on_row) (k r (row_at time_of props s i r e))
    ]

delete_row-Inv :
    (props : Props) (s : Board) (r : Row)
    → IsRow props s.timeline.deleting_ids r
    → Inv s
    → Inv (delete_row props r s)
unfolding delete_row start_delete
delete_row-Inv props s r is_row inv = elim (Bool-cases (r.is_own && not r.is_deleting)) [
  | inr e ↦ rw (e, delete_row) inv
  | inl e ↦
      let free : has same r.message.message_id s.timeline.deleting_ids ≡ false =
        ground (arith, is_row.busy) in
      rw (e, delete_row)
        (record {
          allowed = (ground (arith, is_row.own), inv.allowed);
          addressed = inv.addressed;
          marked = rw free (ap (λ ds. ds ++ r.message.message_id ∷ []) inv.marked);
          unique =
              IsUnique-concat same s.deletes r.message.message_id inv.unique (rw inv.marked free);
        })
]

tip_row-Inv :
    (props : Props) (s : Board) (r : Row)
    → IsRow props s.timeline.deleting_ids r
    → Inv s
    → Inv (tip_row props r s)
unfolding tip_row display_name
tip_row-Inv props s r is_row inv = elim (Bool-cases r.is_own) [
  | inl e ↦ rw (e, tip_row) inv
  | inr e ↦
      rw (e, tip_row)
        (record {
          allowed = (ground (arith, is_row.own), inv.allowed);
          addressed = (refl, refl);
          marked = inv.marked;
          unique = inv.unique;
        })
]

end_delete-Inv : (id : String) (r : Reply (Unit {0})) (s : Board) → Inv s → Inv (end_delete id r s)
unfolding end_delete finish_delete
end_delete-Inv id r s inv =
    if_both Inv (any (λ d. d == id) s.deletes)
      (record {
        allowed = inv.allowed;
        addressed = inv.addressed;
        marked =
            rw (remove_first-without id s.deletes inv.unique) (ap (without same id) inv.marked);
        unique =
            rw (remove_first-without id s.deletes inv.unique)
              (IsUnique-filter same (λ d. not (d == id)) s.deletes inv.unique);
      })
      inv

-- Loading changes no mark.
finish_more-deleting_ids :
    (r : Reply MessagesResponse) (t : Timeline) → (finish_more r t).deleting_ids ≡ t.deleting_ids
unfolding finish_more
finish_more-deleting_ids r t = elim (Option-cases (fetch_messages r)) [
  | inl e ↦ rw (e, finish_more) refl
  | inr (page, e) ↦ rw (e, finish_more) refl
]

finish_load-deleting_ids :
    (cancelled : Bool) (r : Reply MessagesResponse) (t : Timeline)
    → (finish_load cancelled r t).deleting_ids ≡ t.deleting_ids
unfolding finish_load
finish_load-deleting_ids true r t = refl
finish_load-deleting_ids false r t = elim (Option-cases (fetch_messages r)) [
  | inl e ↦ rw (e, finish_load) refl
  | inr (page, e) ↦ rw (e, finish_load) refl
]

start_more-deleting_ids : (t : Timeline) → (start_more t).deleting_ids ≡ t.deleting_ids
unfolding start_more
start_more-deleting_ids t = elim (Option-cases (cursor t)) [
  | inl e ↦ rw (e, start_more) refl
  | inr (id, e) ↦ rw (e, start_more) refl
]

end_more-deleting_ids :
    (r : Reply MessagesResponse) (t : Timeline) → (end_more r t).deleting_ids ≡ t.deleting_ids
unfolding end_more
end_more-deleting_ids r t =
    if_both (λ (u : Timeline). u.deleting_ids ≡ t.deleting_ids) t.loading_more
      (finish_more-deleting_ids r t) refl

loaded-Inv :
    (t : Timeline) (s : Board)
    → t.deleting_ids ≡ s.timeline.deleting_ids
    → Inv s
    → Inv (record s { timeline = t })
loaded-Inv t s e inv = record {
  allowed = inv.allowed;
  addressed = inv.addressed;
  marked = rw e inv.marked;
  unique = inv.unique;
}

step-Inv :
    (time_of : String → Option ℕ) (props : Props) (e : Event) (s : Board)
    → Inv s
    → Inv (step time_of props e s)
unfolding step start_load
step-Inv time_of props (delete_clicked i) s inv =
    on_row-Inv time_of delete_row i props s (λ r k. delete_row-Inv props s r k inv) inv
step-Inv time_of props (deleted id r) s inv = end_delete-Inv id r s inv
step-Inv time_of props (tip_clicked i) s inv =
    on_row-Inv time_of tip_row i props s (λ r k. tip_row-Inv props s r k inv) inv
step-Inv time_of props tip_closed s inv = record {
  allowed = inv.allowed;
  addressed = tt;
  marked = inv.marked;
  unique = inv.unique;
}
step-Inv time_of props (tip_succeeded text) s inv =
    if_both Inv (is_some s.tipping_user)
      (record { allowed = inv.allowed; addressed = tt; marked = inv.marked; unique = inv.unique })
      inv
step-Inv time_of props toast_over s inv = record {
  allowed = inv.allowed;
  addressed = inv.addressed;
  marked = inv.marked;
  unique = inv.unique;
}
step-Inv time_of props moved s inv = loaded-Inv (start_load s.timeline) s refl inv
step-Inv time_of props (opened cancelled r) s inv =
    loaded-Inv (finish_load cancelled r s.timeline) s
      (finish_load-deleting_ids cancelled r s.timeline) inv
step-Inv time_of props scrolled s inv =
    loaded-Inv (start_more s.timeline) s (start_more-deleting_ids s.timeline) inv
step-Inv time_of props (older r) s inv =
    loaded-Inv (end_more r s.timeline) s (end_more-deleting_ids r s.timeline) inv

run-Inv :
    (time_of : String → Option ℕ) (es : List (Props × Event)) (s : Board)
    → Inv s
    → Inv (run time_of es s)
unfolding run
run-Inv time_of [] s inv = inv
run-Inv time_of ((props, e) ∷ es) s inv =
    run-Inv time_of es (step time_of props e s) (step-Inv time_of props e s inv)

-- From a state with no requests under way, nothing marked and no tip dialogue open, over any run
-- of clicks, replies, pages and changes of the channel and of the properties: each message that a
-- click deletes is one of the user at that time, and each message for which it opens a tip is not;
-- a tip dialogue that is open is for the author of the message last clicked for a tip, under the
-- name that its row shows; no two requests to delete one message are under way at a time; and the
-- messages with such a request are exactly those that the list marks.
pub run_acts :
    (time_of : String → Option ℕ) (es : List (Props × Event)) (s : Board)
    → s.acts ≡ []
    → s.tipping_user ≡ none
    → s.deletes ≡ []
    → s.timeline.deleting_ids ≡ []
    → let t = run time_of es s in
      All IsAllowed t.acts
      × IsFor (last_tip t.acts) t.tipping_user
      × IsUnique same t.deletes
      × (t.deletes ≡ t.timeline.deleting_ids)
run_acts time_of es s no_acts closed no_deletes none_marked =
    let inv = run-Inv time_of es s start in (inv.allowed, inv.addressed, inv.unique, inv.marked)
  where
    start : Inv s
    start = record {
      allowed = rw no_acts tt;
      addressed = rw closed tt;
      marked = rw (no_deletes, none_marked) refl;
      unique = rw no_deletes tt;
    }

-- ===== src/Servers/Session/Turns.antt =====
-- ServerSidebar.tsx: what each event of the sidebar keeps.
use concordia_chat_app.Prelude.{
  ℕ, zero, suc, ◌+◌, ◌≡◌, ◌⊎◌, refl, ap, inl, inr, Bool, false, not, ◌&&◌, ◌||◌, List, [], ◌∷◌,
  arith,
}
use concordia_chat_app.Prelude.Keyed.{IsUnique}
use concordia_chat_app.Prelude.Lists.{length}
use concordia_chat_app.Prelude.Tests.{if◌then◌else◌, Bool-cases, is_empty}
use concordia_chat_app.Prelude.Text.{trim}
use concordia_chat_app.Http.{Reply}
use concordia_chat_app.Servers.{
  Server, Sidebar, Attempt, nothing, settled, asks, id_of, close_modal, push, start_fetch,
  finish_fetch, start_create, start_join,
}
use concordia_chat_app.Servers.Join.{IsUniqueReply}
use concordia_chat_app.Servers.Session.{
  Session, Event, create_shown, join_shown, submit_create, on_created, submit_join, on_joined,
  on_details, on_list, on_fetched, is_in, is_refused, step, created, listed, fetched,
}
use concordia_chat_app.Servers.Session.Ends.{
  IsNew, IsLike, IsAttempt, finish_fetch-IsLike, finish_create-IsCreateOver, finish_join-IsJoinOver,
  finish_details-IsJoinOver, start_join-IsAttempt,
}

-- What the replies of an event are to satisfy.
abbrev pub Fits : Event → Session → Type 0
Fits (created r) s = IsNew r s.sidebar.servers
Fits (listed r) s = IsUniqueReply r
Fits (fetched r) s = IsUniqueReply r
Fits e s = Unit

abbrev pub FitsAll : List Event → Session → Type 0
FitsAll [] s = Unit
FitsAll (e ∷ es) s = Fits e s × FitsAll es (step e s)

abbrev pub one_if : Bool → ℕ
one_if b = if b then 1 else 0

abbrev pub joins : Session → ℕ
joins s = length s.joins_asked + length s.details_asked + length s.lists_asked

pub record Inv (s : Session) : Type 0 where
  pub one_create : s.creates ≡ one_if s.sidebar.creating
  pub one_join : joins s ≡ one_if s.sidebar.joining
  pub distinct : IsUnique id_of s.sidebar.servers

abbrev pub with_sidebar : Sidebar → Session → Session
with_sidebar t s = record s { sidebar = t }

pub like-Inv : (t : Sidebar) (s : Session) → IsLike s.sidebar t → Inv s → Inv (with_sidebar t s)
like-Inv t s k i = record {
  one_create = ground (arith, k.creating, i.one_create);
  one_join = ground (arith, k.joining, i.one_join);
  distinct = k.distinct i.distinct;
}

pub submit_create-Inv : (s : Session) → Inv s → Inv (submit_create s)
unfolding submit_create start_create
submit_create-Inv s i =
    elim (Bool-cases
      (create_shown s.sidebar && not (s.sidebar.creating || is_empty (trim s.sidebar.new_name)))) [
        | inr e ↦ rw (e, submit_create) i
        | inl e ↦
            let idle : s.sidebar.creating ≡ false = ground (arith, e) in
            let full : is_empty (trim s.sidebar.new_name) ≡ false = ground (arith, e) in
            rw (e, submit_create)
              (rw full (record {
                one_create = ground (arith, i.one_create);
                one_join = i.one_join;
                distinct = i.distinct;
              }))
      ]

pub on_created-Inv :
    (r : Reply Server) (s : Session) → IsNew r s.sidebar.servers → Inv s → Inv (on_created r s)
unfolding on_created
on_created-Inv r s n i = elim (zero-or-suc s.creates) [
  | inl e ↦ rw (e, on_created) i
  | inr (k, e) ↦
      let o = finish_create-IsCreateOver r s.sidebar n in
      rw (e, on_created)
        (record {
          one_create = ground (arith, o.over, i.one_create, e);
          one_join = ground (arith, o.joining, i.one_join);
          distinct = o.distinct i.distinct;
        })
]
  where
    zero-or-suc : (k : ℕ) → (k ≡ 0) ⊎ ((j : ℕ) × (k ≡ suc j))
    zero-or-suc zero = inl refl
    zero-or-suc (suc j) = inr (j, refl)

attempt-Inv :
    (a : Attempt) (s : Session)
    → s.sidebar.joining ≡ false
    → IsAttempt s.sidebar a
    → Inv s
    → Inv (elim a [
      | nothing ↦ s
      | settled t ↦ record s { sidebar = t }
      | asks id t ↦ record s { sidebar = t; joins_asked = id ∷ s.joins_asked }
    ])
attempt-Inv nothing s idle k i = i
attempt-Inv (settled t) s idle k i = like-Inv t s k i
attempt-Inv (asks id t) s idle k i = rw k (record {
  one_create = i.one_create;
  one_join = ground (arith, i.one_join, idle);
  distinct = i.distinct;
})

pub submit_join-Inv : (s : Session) → Inv s → Inv (submit_join s)
unfolding submit_join
submit_join-Inv s i =
    elim (Bool-cases
      (join_shown s.sidebar && not (s.sidebar.joining || is_empty (trim s.sidebar.join_id)))) [
        | inr e ↦ rw (e, submit_join) i
        | inl e ↦
            rw (e, submit_join)
              (attempt-Inv (start_join s.sidebar) s (ground (arith, e))
                (start_join-IsAttempt s.sidebar) i)
      ]

List-cases : {A : Type 0} (xs : List A) → (xs ≡ []) ⊎ ((y : A) × ((ys : List A) × (xs ≡ y ∷ ys)))
List-cases [] = inl refl
List-cases (y ∷ ys) = inr (y, (ys, refl))

pub on_joined-Inv : (r : Reply (Unit {0})) (s : Session) → Inv s → Inv (on_joined r s)
unfolding on_joined
on_joined-Inv r s i = elim (List-cases s.joins_asked) [
  | inl e ↦ rw (e, on_joined) i
  | inr (id, (rest, e)) ↦ elim (Bool-cases (is_in r)) [
    | inl t ↦
        rw (e, on_joined)
          (rw t (record {
            one_create = i.one_create;
            one_join = ground (arith, i.one_join, ap length e);
            distinct = i.distinct;
          }))
    | inr f ↦
        let o = finish_join-IsJoinOver id r s.sidebar f in
        rw (e, on_joined)
          (rw f (record {
            one_create = ground (arith, o.creating, i.one_create);
            one_join = ground (arith, o.over, i.one_join, ap length e);
            distinct = o.distinct i.distinct;
          }))
  ]
]

pub on_details-Inv : (r : Reply Server) (s : Session) → Inv s → Inv (on_details r s)
unfolding on_details start_fetch
on_details-Inv r s i = elim (List-cases s.details_asked) [
  | inl e ↦ rw (e, on_details) i
  | inr (id, (rest, e)) ↦ elim (Bool-cases (is_refused r)) [
    | inl t ↦
        rw (e, on_details)
          (rw t (record {
            one_create = i.one_create;
            one_join = ground (arith, i.one_join, ap length e);
            distinct = i.distinct;
          }))
    | inr f ↦
        let o = finish_details-IsJoinOver id r s.sidebar f in
        rw (e, on_details)
          (rw f (record {
            one_create = ground (arith, o.creating, i.one_create);
            one_join = ground (arith, o.over, i.one_join, ap length e);
            distinct = o.distinct i.distinct;
          }))
  ]
]

pub on_list-Inv :
    (r : Reply (List Server)) (s : Session) → IsUniqueReply r → Inv s → Inv (on_list r s)
unfolding on_list close_modal push
on_list-Inv r s u i = elim (List-cases s.lists_asked) [
  | inl e ↦ rw (e, on_list) i
  | inr (id, (rest, e)) ↦
      let k = finish_fetch-IsLike r s.sidebar u in
      rw (e, on_list)
        (record {
          one_create = ground (arith, k.creating, i.one_create);
          one_join = ground (arith, i.one_join, ap length e);
          distinct = k.distinct i.distinct;
        })
]

pub on_fetched-Inv :
    (r : Reply (List Server)) (s : Session) → IsUniqueReply r → Inv s → Inv (on_fetched r s)
unfolding on_fetched
on_fetched-Inv r s u i = go s.fetches
  where
    go :
        (n : ℕ)
        → Inv (elim n [
          | zero ↦ s
          | suc n ↦ record s { sidebar = finish_fetch r s.sidebar; fetches = n }
        ])
    go zero = i
    go (suc n) =
        let k = finish_fetch-IsLike r s.sidebar u in
        record {
          one_create = ground (arith, k.creating, i.one_create);
          one_join = ground (arith, k.joining, i.one_join);
          distinct = k.distinct i.distinct;
        }

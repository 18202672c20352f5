-- ===== src/Prelude/Keyed.antt =====
-- Lists whose entries are told apart by a text: messages, servers, channels, participants, peers.
-- The sources write `xs.some((x) => x.id === k)`, `xs.filter((x) => x.id !== k)` and
-- `xs.map((x) => (x.id === k ? y : x))`.
use Prim.Native.String.{String}
use mathlib.Core.Path.{◌≡◌, refl}
use mathlib.Core.Logic.{inl, inr}
use mathlib.Core.Bool.{Bool, true, false, not, ◌&&◌, ◌||◌}
use mathlib.Core.List.{List, [], ◌∷◌, ◌++◌, map, reverse, reverse-cons}
use native.Mathlib.Omega.{arith}
use text.Mathlib.Text.{◌==◌}
use text.Mathlib.TextEquality.{eq_iff}
use concordia_chat_app.Prelude.Tests.{if◌then◌else◌, Bool-cases}
use concordia_chat_app.Prelude.Lists.{any, filter, any-append, filter-append}

module _ {ℓ} {A : Type ℓ} (key : A → String) where
  abbrev pub has : String → List A → Bool
  has k = any (λ x. key x == k)

  abbrev pub without : String → List A → List A
  without k = filter (λ x. not (key x == k))

  abbrev pub replace : String → A → List A → List A
  replace k y = map (λ x. if key x == k then y else x)

  -- No two entries have one key.
  abbrev pub IsUnique : List A → Type 0
  IsUnique [] = Unit
  IsUnique (x ∷ xs) = (has (key x) xs ≡ false) × IsUnique xs

module _ {ℓ} {A : Type ℓ} (key : A → String) where
  pub has-append :
      (k : String) (xs ys : List A) → has key k (xs ++ ys) ≡ (has key k xs || has key k ys)
  has-append k xs ys = any-append (λ x. key x == k) xs ys

  pub has-without :
      (j k : String) (xs : List A) → has key j (without key k xs) ≡ (has key j xs && not (j == k))
  unfolding filter
  has-without j k [] = refl
  has-without j k (x ∷ xs) =
      ground (arith, eq_iff (key x) j, eq_iff (key x) k, eq_iff j k, has-without j k xs)

  pub without-fresh : (k : String) (xs : List A) → has key k xs ≡ false → without key k xs ≡ xs
  unfolding filter
  without-fresh k [] h = refl
  without-fresh k (x ∷ xs) h = ground (arith, without-fresh k xs)

  pub without-append :
      (k : String) (xs ys : List A)
      → without key k (xs ++ ys) ≡ without key k xs ++ without key k ys
  without-append k xs ys = filter-append (λ x. not (key x == k)) xs ys

  pub replace-fresh :
      (k : String) (y : A) (xs : List A) → has key k xs ≡ false → replace key k y xs ≡ xs
  replace-fresh k y [] h = refl
  replace-fresh k y (x ∷ xs) h = ground (arith, replace-fresh k y xs)

  pub has-replace :
      (j k : String) (y : A) (xs : List A)
      → has key j (replace key k y xs)
        ≡ (has key j (without key k xs) || (has key k xs && (key y == j)))
  unfolding filter
  has-replace j k y [] = refl
  has-replace j k y (x ∷ xs) = ground (arith, eq_iff (key x) k, has-replace j k y xs)

  pub has-filter :
      (p : A → Bool) (k : String) (xs : List A)
      → has key k xs ≡ false
      → has key k (filter p xs) ≡ false
  unfolding filter
  has-filter p k [] h = refl
  has-filter p k (x ∷ xs) h = ground (arith, has-filter p k xs)

  pub IsUnique-filter : (p : A → Bool) (xs : List A) → IsUnique key xs → IsUnique key (filter p xs)
  unfolding filter
  IsUnique-filter p [] u = tt
  IsUnique-filter p (x ∷ xs) u =
      elim (p x) as (λ b. IsUnique key (elim b [ true ↦ x ∷ filter p xs | false ↦ filter p xs ])) [
        | true ↦ (has-filter p (key x) xs u.0, IsUnique-filter p xs u.1)
        | false ↦ IsUnique-filter p xs u.1
      ]

  -- An entry under a new key may be added at the end.
  pub IsUnique-concat :
      (xs : List A) (y : A)
      → IsUnique key xs
      → has key (key y) xs ≡ false
      → IsUnique key (xs ++ y ∷ [])
  IsUnique-concat [] y u h = (refl, tt)
  IsUnique-concat (x ∷ xs) y u h = (
    ground (arith, has-append (key x) xs (y ∷ []), eq_iff (key x) (key y), eq_iff (key y) (key x)),
    IsUnique-concat xs y u.1 (ground arith),
  )

  -- Two lists with no key in common.
  abbrev pub IsApart : List A → List A → Type 0
  IsApart [] ys = Unit
  IsApart (x ∷ xs) ys = (has key (key x) ys ≡ false) × IsApart xs ys

  pub IsUnique-append :
      (xs ys : List A) → IsUnique key xs → IsUnique key ys → IsApart xs ys → IsUnique key (xs ++ ys)
  IsUnique-append [] ys u v a = v
  IsUnique-append (x ∷ xs) ys u v a =
      (ground (arith, has-append (key x) xs ys), IsUnique-append xs ys u.1 v a.1)

  -- Replacing an entry keeps the keys distinct if the new key is not in use.
  pub IsUnique-replace :
      (k : String) (y : A) (xs : List A)
      → IsUnique key xs
      → has key (key y) xs ≡ false
      → IsUnique key (replace key k y xs)
  IsUnique-replace k y [] u h = tt
  IsUnique-replace k y (x ∷ xs) u h = elim (Bool-cases (key x == k)) [
    | inl e ↦ rw e (
        let gone : has key k xs ≡ false = ground (arith, eq_iff (key x) k) in
        rw (replace-fresh k y xs gone) (ground arith, u.1))
    | inr e ↦ rw e (
      ground (
        arith,
        has-replace (key x) k y xs,
        has-without (key x) k xs,
        eq_iff (key y) (key x),
        eq_iff (key x) (key y),
      ),
      IsUnique-replace k y xs u.1 (ground arith),
    )
  ]

  pub has-reverse : (k : String) (xs : List A) → has key k (reverse xs) ≡ has key k xs
  has-reverse k [] = refl
  has-reverse k (x ∷ xs) =
      rw (reverse-cons x xs) (ground (arith, has-append k (reverse xs) (x ∷ []), has-reverse k xs))

  pub IsUnique-reverse : (xs : List A) → IsUnique key xs → IsUnique key (reverse xs)
  IsUnique-reverse [] u = tt
  IsUnique-reverse (x ∷ xs) u = rw (reverse-cons x xs) (
      IsUnique-concat (reverse xs) x (IsUnique-reverse xs u.1)
        (ground (arith, has-reverse (key x) xs)))

-- ===== src/Prelude/Text.antt =====
-- JavaScript strings: `trim` and template literals of numbers. A text is a sequence
-- of code points; `code_units` gives the UTF-16 units that `length` and `charCodeAt` speak of.
use Prim.Native.Char.{code}
use Prim.Native.Nat.{ℕ, zero, suc, ◌+◌, ◌-◌, ◌/◌, ◌%◌}
use Prim.Native.String
use Prim.Native.String.{String, []}
use mathlib.Core.Bool.{Bool, true, false, ◌&&◌, ◌||◌}
use mathlib.Core.Logic.{inl, inr}
use mathlib.Core.List
use mathlib.Core.List.{List}
use mathlib.Core.Path.{◌≡◌, refl}
use mathlib.Core.Option.{some}
use native.Mathlib.Omega.{arith}
use text.Mathlib.TextLemmas.{cons-append}
use concordia_chat_app.Prelude.Tests.{
  truthy, ltb, leb, eqb, is_empty, if_both, Bool-cases, if◌then◌else◌,
}

infixr 65 ◌&◌
-- Concatenation of texts.
abbrev pub ◌&◌ : String → String → String
s & t = String.◌++◌ s t

-- `xs.join(sep)`
unfoldable pub join : String → List String → String
join sep List.[] = ""
join sep (List.◌∷◌ x List.[]) = x
join sep (List.◌∷◌ x (List.◌∷◌ y ys)) = x & sep & join sep (List.◌∷◌ y ys)

-- White space and line terminators, which `trim` takes away.
pub is_space : ℕ → Bool
is_space c =
    (leb 9 c && leb c 13)
    || eqb c 32
    || eqb c 0xa0
    || eqb c 0x1680
    || (leb 0x2000 c && leb c 0x200a)
    || eqb c 0x2028
    || eqb c 0x2029
    || eqb c 0x202f
    || eqb c 0x205f
    || eqb c 0x3000
    || eqb c 0xfeff

unfoldable pub trim_start : String → String
trim_start [] = []
trim_start (String.◌∷◌ c s) = elim (is_space (code c)) [
  | true ↦ trim_start s
  | false ↦ String.◌∷◌ c s
]

unfoldable pub trim_end : String → String
trim_end [] = []
trim_end (String.◌∷◌ c s) =
    let rest = trim_end s in if is_empty rest && is_space (code c) then [] else String.◌∷◌ c rest

-- `s.trim()`
unfoldable pub trim : String → String
unfolding trim_start trim_end is_space
trim s = trim_end (trim_start s)

trim_end_idem : (s : String) → trim_end (trim_end s) ≡ trim_end s
unfolding trim_end
trim_end_idem [] = refl
trim_end_idem (String.◌∷◌ c s) = ground (arith, trim_end_idem s)

-- The UTF-16 code units of a code point.
abbrev pub units : ℕ → List ℕ
units c =
    if ltb c 0x10000
    then List.◌∷◌ c List.[]
    else List.◌∷◌ (0xd800 + (c - 0x10000) / 0x400)
        (List.◌∷◌ (0xdc00 + (c - 0x10000) % 0x400) List.[])

unfoldable pub code_units : String → List ℕ
code_units [] = List.[]
code_units (String.◌∷◌ c s) = List.◌++◌ (units (code c)) (code_units s)

abbrev digit : ℕ → String
digit zero = "0"
digit (suc zero) = "1"
digit (suc (suc zero)) = "2"
digit (suc (suc (suc zero))) = "3"
digit (suc (suc (suc (suc zero)))) = "4"
digit (suc (suc (suc (suc (suc zero))))) = "5"
digit (suc (suc (suc (suc (suc (suc zero)))))) = "6"
digit (suc (suc (suc (suc (suc (suc (suc zero))))))) = "7"
digit (suc (suc (suc (suc (suc (suc (suc (suc zero)))))))) = "8"
digit _ = "9"

decimal_fuel : ℕ → ℕ → String
decimal_fuel zero n = ""
decimal_fuel (suc f) n =
    let rest = decimal_fuel f (n / 10) in if ltb n 10 then digit n else rest & digit (n % 10)

-- `${n}` of a natural number.
unfoldable pub decimal : ℕ → String
unfolding decimal_fuel
decimal n = decimal_fuel (suc n) n

-- No white space in front.
abbrev IsBare : String → Type 0
IsBare [] = Unit
IsBare (String.◌∷◌ c s) = is_space (code c) ≡ false

trim_start-IsBare : (s : String) → IsBare (trim_start s)
unfolding trim_start
trim_start-IsBare [] = tt
trim_start-IsBare (String.◌∷◌ c s) = elim (Bool-cases (is_space (code c))) [
  | inl e ↦ rw (e, trim_start) (trim_start-IsBare s)
  | inr e ↦ rw (e, trim_start) e
]

trim_start_of_IsBare : (s : String) → IsBare s → trim_start s ≡ s
unfolding trim_start
trim_start_of_IsBare [] b = refl
trim_start_of_IsBare (String.◌∷◌ c s) b = rw (b, trim_start)

trim_end-IsBare : (s : String) → IsBare s → IsBare (trim_end s)
unfolding trim_end
trim_end-IsBare [] b = tt
trim_end-IsBare (String.◌∷◌ c s) b =
    if_both IsBare (is_empty (trim_end s) && is_space (code c)) tt b

-- `trim` once is `trim` twice.
pub trim_idem : (s : String) → trim (trim s) ≡ trim s
unfolding trim
trim_idem s =
    rw
      (trim_start_of_IsBare (trim_end (trim_start s))
        (trim_end-IsBare (trim_start s) (trim_start-IsBare s)))
      (trim_end_idem (trim_start s))

-- A text that begins with one that is not empty is truthy.
pub truthy_append : (s t : String) → is_empty s ≡ false → truthy (some (s & t)) ≡ true
truthy_append [] t h = absurd (cc h)
truthy_append (String.◌∷◌ c s) t h = rw (cons-append c s t) refl

-- `id.slice(0, n)` of a text whose characters are one code unit each, as those of an id are.
unfoldable pub slice : ℕ → String → String
slice zero s = ""
slice (suc n) String.[] = ""
slice (suc n) (String.◌∷◌ c s) = String.◌∷◌ c (slice n s)

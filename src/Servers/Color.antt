-- ===== src/Servers/Color.antt =====
-- ServerSidebar.tsx, `serverColor`: a colour by the hash of the id. `| 0` keeps the low 32 bits as
-- a signed number; here a hash is its bit pattern, below 2 ^ 32. No product leaves the range in
-- which the numbers of JavaScript are exact: it stays below 2 ^ 31 * 31 + 2 ^ 16.
use concordia_chat_app.Prelude.{
  ℕ, zero, suc, ◌+◌, ◌-◌, ◌*◌, ◌/◌, ◌%◌, ◌^◌, ◌≤◌, ◌<◌, ◌≡◌, refl, sym, ap, ◌∙◌, Option, some, List,
  [], ◌∷◌, String, arith,
}
use native.Mathlib.Nat.{add-mul, mul_assoc, add-mul-mod_self_left, div-add-mod, pow-succ', zero-mul}
use concordia_chat_app.Prelude.Lists.{length, get_elem?}
use concordia_chat_app.Prelude.Tests.{ltb, if◌then◌else◌}
use concordia_chat_app.Prelude.Text.{code_units}

abbrev pub colors : List String
colors =
    "#6366f1" ∷ "#22c55e" ∷ "#eab308" ∷ "#ef4444" ∷ "#3b82f6" ∷ "#ec4899" ∷ "#14b8a6" ∷ "#f97316"
    ∷ []

-- The loop: `hash = (hash * 31 + id.charCodeAt(i)) | 0`.
unfoldable pub hash_from : ℕ → List ℕ → ℕ
hash_from hash [] = hash
hash_from hash (c ∷ cs) = hash_from ((hash * 31 + c) % 2 ^ 32) cs

-- `Math.abs` of the signed number with the bit pattern.
unfoldable pub abs_int32 : ℕ → ℕ
abs_int32 hash = if ltb hash (2 ^ 31) then hash else 2 ^ 32 - hash

-- `serverColor`; `none` would be `undefined`.
unfoldable pub server_color : String → Option String
unfolding hash_from abs_int32 code_units get_elem?
server_color id = get_elem? colors (abs_int32 (hash_from 0 (code_units id)) % length colors)

-- The hash without a limit: the code units are the digits to the base 31 of a number.
abbrev pub poly : List ℕ → ℕ
poly [] = 0
poly (c ∷ cs) = c * 31 ^ length cs + poly cs

hash_from-lt : (hash : ℕ) (cs : List ℕ) → hash < 2 ^ 32 → hash_from hash cs < 2 ^ 32
unfolding hash_from
hash_from-lt hash [] h = h
hash_from-lt hash (c ∷ cs) h = hash_from-lt ((hash * 31 + c) % 2 ^ 32) cs (omega arith)

-- `m * q + r` times `b`, with the multiples of `m` put last.
expand : (m q r b c : ℕ) → r * b + c + m * (q * b) ≡ (m * q + r) * b + c
expand m q r b c = omega (arith, add-mul (m * q) r b, mul_assoc m q b)

wrap-mul : (a b c m : ℕ) → (a % m * b + c) % m ≡ (a * b + c) % m
wrap-mul a b c m =
    sym (add-mul-mod_self_left (a % m * b + c) m (a / m * b))
    ∙ ap (λ x. x % m) (expand m (a / m) (a % m) b c ∙ ap (λ (x : ℕ). x * b + c) (div-add-mod a m))

regroup : (h c b q : ℕ) → (h * 31 + c) * b + q ≡ h * (31 * b) + (c * b + q)
regroup h c b q = omega (arith, add-mul (h * 31) c b, mul_assoc h 31 b)

hash_from-poly :
    (hash : ℕ) (cs : List ℕ)
    → hash < 2 ^ 32
    → hash_from hash cs ≡ (hash * 31 ^ length cs + poly cs) % 2 ^ 32
unfolding hash_from
hash_from-poly hash [] h = omega arith
hash_from-poly hash (c ∷ cs) h =
    hash_from-poly ((hash * 31 + c) % 2 ^ 32) cs (omega arith)
    ∙ wrap-mul (hash * 31 + c) (31 ^ length cs) (poly cs) (2 ^ 32)
    ∙ ap (λ x. x % 2 ^ 32)
        (regroup hash c (31 ^ length cs) (poly cs)
          ∙ ap (λ (x : ℕ). hash * x + (c * 31 ^ length cs + poly cs))
              (sym (pow-succ' 31 (length cs))))

get_elem?-some :
    (xs : List String) (i : ℕ) → i < length xs → (c : String) × (get_elem? xs i ≡ some c)
unfolding get_elem?
get_elem?-some [] i h = absurd (omega arith)
get_elem?-some (x ∷ xs) zero h = (x, refl)
get_elem?-some (x ∷ xs) (suc i) h = get_elem?-some xs i (omega arith)

-- For any id the hash is the number of which the code units are the digits to the base 31, without
-- all but its low 32 bits; its absolute value as a signed number is at most 2 ^ 31, and the server
-- has the colour of the palette with the remainder of that by eight as its index.
pub server_color-some :
    (id : String)
    → let hash = poly (code_units id) % 2 ^ 32 in
      (hash_from 0 (code_units id) ≡ hash)
      × (abs_int32 hash ≤ 2 ^ 31)
      × ((c : String) × (server_color id ≡ some c)
          × (get_elem? colors (abs_int32 hash % 8) ≡ some c))
unfolding server_color
server_color-some id =
    let p = poly (code_units id) in
    let hashed : hash_from 0 (code_units id) ≡ p % 2 ^ 32 =
      hash_from-poly 0 (code_units id) (omega arith)
      ∙ ap (λ x. x % 2 ^ 32) (start (31 ^ length (code_units id)) p) in
    let (c, found) = get_elem?-some colors (abs_int32 (p % 2 ^ 32) % 8) (omega arith) in
    (
      hashed,
      abs_le (p % 2 ^ 32) (omega arith),
      (c, ap (λ (x : ℕ). get_elem? colors (abs_int32 x % 8)) hashed ∙ found, found),
    )
  where
    start : (x q : ℕ) → 0 * x + q ≡ q
    start x q = omega (arith, zero-mul x)

    abs_le : (h : ℕ) → h < 2 ^ 32 → abs_int32 h ≤ 2 ^ 31
    abs_le h s = ground arith

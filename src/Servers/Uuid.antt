-- ===== src/Servers/Uuid.antt =====
-- ServerSidebar.tsx, `UUID_RE`: the test of a server's id before it becomes part of an address.
use Prim.Native.Char.{code}
use concordia_chat_app.Prelude.{
  ℕ, zero, suc, ◌≡◌, refl, Bool, true, false, ◌&&◌, ◌||◌, List, [], ◌∷◌, String, arith,
}
use concordia_chat_app.Prelude.Lists.{length, All}
use concordia_chat_app.Prelude.Tests.{leb, eqb}

-- `[0-9a-f]` without regard to case.
unfoldable pub is_hex : ℕ → Bool
is_hex c = (leb b'0' c && leb c b'9') || (leb b'a' c && leb c b'f') || (leb b'A' c && leb c b'F')

abbrev pub dash : ℕ
dash = b'-'

-- A place of the pattern: a hexadecimal digit, or a dash.
pub data Place : Type 0 where
  hex hyphen : Place

abbrev pub replicate : ℕ → List Place → List Place
replicate zero ps = ps
replicate (suc n) ps = hex ∷ replicate n ps

-- /^[0-9a-f]{8}-[0-9a-f]{4}-[0-9a-f]{4}-[0-9a-f]{4}-[0-9a-f]{12}$/i
abbrev pub pattern_of_uuid : List Place
pattern_of_uuid =
    replicate 8 (
      hyphen ∷ replicate 4 (hyphen ∷ replicate 4 (hyphen ∷ replicate 4 (hyphen ∷ replicate 12 []))))

abbrev pub fits : Place → ℕ → Bool
fits hex c = is_hex c
fits hyphen c = eqb c dash

unfoldable pub matches : List Place → String → Bool
matches [] String.[] = true
matches [] (String.◌∷◌ c s) = false
matches (p ∷ ps) String.[] = false
matches (p ∷ ps) (String.◌∷◌ c s) = fits p (code c) && matches ps s

-- `UUID_RE.test(id)`
unfoldable pub is_uuid : String → Bool
unfolding matches is_hex
is_uuid id = matches pattern_of_uuid id

abbrev pub codes : String → List ℕ
codes String.[] = []
codes (String.◌∷◌ c s) = code c ∷ codes s

-- Only hexadecimal digits and dashes.
abbrev pub IsPlain : ℕ → Type 0
IsPlain c = (is_hex c || eqb c dash) ≡ true

matches-IsPlain :
    (ps : List Place) (s : String)
    → matches ps s ≡ true
    → (length (codes s) ≡ length ps) × All IsPlain (codes s)
unfolding matches
matches-IsPlain [] String.[] h = (refl, tt)
matches-IsPlain [] (String.◌∷◌ c s) h = cc
matches-IsPlain (p ∷ ps) String.[] h = cc
matches-IsPlain (hex ∷ ps) (String.◌∷◌ c s) h =
    let rest = matches-IsPlain ps s (ground arith) in
    (omega (arith, rest.0), (ground arith, rest.1))
matches-IsPlain (hyphen ∷ ps) (String.◌∷◌ c s) h =
    let rest = matches-IsPlain ps s (ground arith) in
    (omega (arith, rest.0), (ground arith, rest.1))

-- An id that passes the test has 36 characters, each a hexadecimal digit or a dash.
pub is_uuid-IsPlain :
    (id : String) → is_uuid id ≡ true → (length (codes id) ≡ 36) × All IsPlain (codes id)
unfolding is_uuid
is_uuid-IsPlain id h = matches-IsPlain pattern_of_uuid id h

-- ===== src/Servers/Active.antt =====
-- ServerSidebar.tsx, `activeServerId`, and the addresses that the sidebars push to the router.
use Prim.Native.Char.{code}
use text.Mathlib.TextLemmas.{nil-append, cons-append, append-nil}
use concordia_chat_app.Prelude.{
  ◌≡◌, refl, ap, sym, ◌∙◌, Bool, true, false, Option, none, some, String, arith,
}
use concordia_chat_app.Prelude.Lists.{All, length}
use concordia_chat_app.Prelude.Tests.{eqb, is_empty, if◌then◌else◌}
use concordia_chat_app.Prelude.Text.{◌&◌}
use concordia_chat_app.Servers.{path_of}
use concordia_chat_app.Servers.Uuid.{is_uuid, is_hex, codes, IsPlain, is_uuid-IsPlain}

-- What follows a prefix.
unfoldable pub strip : String → String → Option String
strip String.[] s = some s
strip (String.◌∷◌ p ps) String.[] = none
strip (String.◌∷◌ p ps) (String.◌∷◌ c s) =
    let rest = strip ps s in if eqb (code p) (code c) then rest else none

-- `[^/]*`
unfoldable pub segment : String → String
segment String.[] = ""
segment (String.◌∷◌ c s) =
    let rest = segment s in if eqb (code c) b'/' then "" else String.◌∷◌ c rest

-- `pathname.match(/^\/servers\/([^/]+)/)`, and its group.
unfoldable pub active_server_id : String → Option String
unfolding strip segment
active_server_id pathname = elim (strip "/servers/" pathname) [
  | none ↦ none
  | some rest ↦ if is_empty (segment rest) then none else some (segment rest)
]

-- What is left of a text after its first segment.
unfoldable pub after_segment : String → String
after_segment String.[] = ""
after_segment (String.◌∷◌ c s) =
    let rest = after_segment s in if eqb (code c) b'/' then String.◌∷◌ c s else rest

-- `pathname.match(/^\/servers\/[^/]+\/channels\/([^/]+)/)`, and its group.
unfoldable pub active_channel_id : String → Option String
unfolding strip segment after_segment
active_channel_id pathname = elim (strip "/servers/" pathname) [
  | none ↦ none
  | some rest ↦
      if is_empty (segment rest) then none else elim (strip "/channels/" (after_segment rest)) [
        | none ↦ none
        | some tail ↦ if is_empty (segment tail) then none else some (segment tail)
      ]
]

-- The address of a channel.
abbrev pub channel_path : String → String → String
channel_path id ch = "/servers/" & id & "/channels/" & ch

strip-append : (p t : String) → strip p (p & t) ≡ some t
unfolding strip
strip-append String.[] t = rw (nil-append t) refl
strip-append (String.◌∷◌ c p) t = rw (cons-append c p t) (ground (arith, strip-append p t))

-- The end of a segment.
abbrev ends : String → Bool
ends String.[] = true
ends (String.◌∷◌ c s) = eqb (code c) b'/'

segment-ends : (t : String) → ends t ≡ true → segment t ≡ ""
unfolding segment
segment-ends String.[] e = refl
segment-ends (String.◌∷◌ c t) e = rw (e, segment)

segment-append : (s t : String) → All IsPlain (codes s) → ends t ≡ true → segment (s & t) ≡ s
unfolding segment is_hex
segment-append String.[] t a e = rw (nil-append t) (segment-ends t e)
segment-append (String.◌∷◌ c s) t a e =
    rw (cons-append c s t) (ground (arith, segment-append s t a.1 e))

after_segment-ends : (t : String) → ends t ≡ true → after_segment t ≡ t
unfolding after_segment
after_segment-ends String.[] e = refl
after_segment-ends (String.◌∷◌ c t) e = rw (e, after_segment)

after_segment-append :
    (s t : String) → All IsPlain (codes s) → ends t ≡ true → after_segment (s & t) ≡ t
unfolding after_segment is_hex
after_segment-append String.[] t a e = rw (nil-append t) (after_segment-ends t e)
after_segment-append (String.◌∷◌ c s) t a e =
    rw (cons-append c s t) (ground (arith, after_segment-append s t a.1 e))

-- An id that passes the test is not empty.
is_uuid-full : (id : String) → is_uuid id ≡ true → is_empty id ≡ false
is_uuid-full id u = full id (is_uuid-IsPlain id u).0
  where
    full : (s : String) → length (codes s) ≡ 36 → is_empty s ≡ false
    full String.[] h = absurd (omega (arith, h))
    full (String.◌∷◌ c s) h = refl

active-prefix :
    (id t : String)
    → is_uuid id ≡ true
    → ends t ≡ true
    → active_server_id ("/servers/" & (id & t)) ≡ some id
unfolding active_server_id
active-prefix id t u e =
    let plain = is_uuid-IsPlain id u in
    rw (strip-append "/servers/" (id & t), active_server_id)
      (rw (segment-append id t plain.1 e, is_uuid-full id u) refl)

ends-append : (s t : String) → is_empty s ≡ false → ends s ≡ true → ends (s & t) ≡ true
ends-append String.[] t h e = absurd (cc h)
ends-append (String.◌∷◌ c s) t h e = rw (cons-append c s t) e

segment-plain : (s : String) → All IsPlain (codes s) → segment s ≡ s
segment-plain s a = ap segment (sym (append-nil s)) ∙ segment-append s "" a refl

active_channel_id-channel_path :
    (id ch : String)
    → is_uuid id ≡ true
    → is_uuid ch ≡ true
    → active_channel_id (channel_path id ch) ≡ some ch
unfolding active_channel_id
active_channel_id-channel_path id ch u v =
    let plain = is_uuid-IsPlain id u in
    let slash = ends-append "/channels/" ch refl refl in
    let tail : segment ch ≡ ch = segment-plain ch (is_uuid-IsPlain ch v).1 in
    rw (strip-append "/servers/" (id & "/channels/" & ch), active_channel_id)
      (rw (segment-append id ("/channels/" & ch) plain.1 slash, is_uuid-full id u)
        (rw (after_segment-append id ("/channels/" & ch) plain.1 slash)
          (rw (strip-append "/channels/" ch) (rw (tail, is_uuid-full ch v) refl))))

-- For ids that pass the test of ids, the address of a server and the address of each of its
-- channels are those at which the server sidebar marks that server as the active one, and at the
-- latter the channel sidebar marks that channel.
pub active_server_id-path_of :
    (id ch : String)
    → is_uuid id ≡ true
    → is_uuid ch ≡ true
    → (active_server_id (path_of id) ≡ some id)
      × (active_server_id (channel_path id ch) ≡ some id)
      × (active_channel_id (channel_path id ch) ≡ some ch)
active_server_id-path_of id ch u v = (
  ap (λ t. active_server_id ("/servers/" & t)) (sym (append-nil id)) ∙ active-prefix id "" u refl,
  active-prefix id ("/channels/" & ch) u (ends-append "/channels/" ch refl refl),
  active_channel_id-channel_path id ch u v,
)

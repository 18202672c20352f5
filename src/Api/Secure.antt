-- ===== src/Api/Secure.antt =====
-- api.ts, `getWebSocketUrl`: when the address of a WebSocket is a secure one.
use Prim.Native.Char.{code}
use text.Mathlib.TextLemmas.{append_assoc, nil-append, cons-append}
use concordia_chat_app.Prelude.{
  ℕ, ◌≡◌, ◌⊎◌, refl, ap, sym, ◌∙◌, inl, inr, Bool, true, false, ◌||◌, Option, none, some, List, [],
  ◌∷◌, ◌++◌, String, ◌==◌, arith,
}
use concordia_chat_app.Prelude.Tests.{
  is_some, truthy, Bool-cases, Option-cases, if◌then◌else◌, if_both,
}
use concordia_chat_app.Prelude.Text.{◌&◌}
use concordia_chat_app.Api.{
  Page, matches_letter, strip_prefix, http_letters, is_absolute, web_socket_base,
  get_web_socket_url,
}

abbrev wss_letters : List ℕ
wss_letters = b'w' ∷ b's' ∷ b's' ∷ b':' ∷ []

-- A socket whose traffic is encrypted.
abbrev pub is_wss : String → Bool
is_wss url = is_some (strip_prefix wss_letters url)

-- The requests of `apiFetch` are encrypted: the gateway's address says so, or, where it has no
-- scheme, the page's.
abbrev pub is_secure : String → Page → Bool
is_secure gateway page =
    if is_absolute gateway
    then is_some (strip_prefix (http_letters ++ b's' ∷ b':' ∷ []) gateway)
    else page.protocol == "https:"

-- A letter of the text differs from the prefix.
abbrev fails : List ℕ → String → Bool
fails [] s = false
fails (p ∷ ps) String.[] = false
fails (p ∷ ps) (String.◌∷◌ c s) = elim (matches_letter p (code c)) [
  | true ↦ fails ps s
  | false ↦ true
]

strip_prefix-append :
    (ps : List ℕ) (s r t : String)
    → strip_prefix ps s ≡ some r
    → strip_prefix ps (s & t) ≡ some (r & t)
unfolding strip_prefix
strip_prefix-append [] s r t h = cc h
strip_prefix-append (p ∷ ps) String.[] r t h = absurd (cc h)
strip_prefix-append (p ∷ ps) (String.◌∷◌ c s) r t h =
    rw (cons-append c s t) (ground (arith, h, strip_prefix-append ps s r t))

strip_prefix-fails :
    (ps : List ℕ) (s t : String) → fails ps s ≡ true → is_some (strip_prefix ps (s & t)) ≡ false
unfolding strip_prefix
strip_prefix-fails [] s t h = absurd (cc h)
strip_prefix-fails (p ∷ ps) String.[] t h = absurd (cc h)
strip_prefix-fails (p ∷ ps) (String.◌∷◌ c s) t h =
    rw (cons-append c s t) (ground (arith, h, strip_prefix-fails ps s t))

strip_prefix-++ :
    (ps qs : List ℕ) (s : String)
    → strip_prefix (ps ++ qs) s
      ≡ elim (strip_prefix ps s) [ none ↦ none | some r ↦ strip_prefix qs r ]
unfolding strip_prefix
strip_prefix-++ [] qs s = refl
strip_prefix-++ (p ∷ ps) qs String.[] = refl
strip_prefix-++ (p ∷ ps) qs (String.◌∷◌ c s) = ground (arith, strip_prefix-++ ps qs s)

colon-fails :
    (rest : String)
    → is_some (strip_prefix (b':' ∷ []) rest) ≡ true
    → fails (b's' ∷ b':' ∷ []) rest ≡ true
unfolding strip_prefix
colon-fails String.[] h = absurd (cc h)
colon-fails (String.◌∷◌ c s) h = ground (arith, h)

-- After "http" comes ":" or "s:".
colon-or-s :
    (rest t : String)
    → (is_some (strip_prefix (b':' ∷ []) rest) || is_some (strip_prefix (b's' ∷ b':' ∷ []) rest))
      ≡ true
    → is_some (strip_prefix (b's' ∷ b':' ∷ []) (rest & t))
      ≡ is_some (strip_prefix (b's' ∷ b':' ∷ []) rest)
colon-or-s rest t h = elim (Option-cases (strip_prefix (b's' ∷ b':' ∷ []) rest)) [
  | inl n ↦
      let colon : is_some (strip_prefix (b':' ∷ []) rest) ≡ true = ground (arith, h, n) in
      rw n (strip_prefix-fails (b's' ∷ b':' ∷ []) rest t (colon-fails rest colon))
  | inr (r, e) ↦ rw (e, strip_prefix-append (b's' ∷ b':' ∷ []) rest r t e) refl
]

-- The scheme decides, whatever follows it.
is_wss-scheme :
    (secure : Bool) (t : String) → is_wss ((if secure then "wss:" else "ws:") & t) ≡ secure
unfolding strip_prefix
is_wss-scheme true t = ap is_some (strip_prefix-append wss_letters "wss:" "" t refl)
is_wss-scheme false t = strip_prefix-fails wss_letters "ws:" t refl

is_wss-ws :
    (rest t : String)
    → (is_some (strip_prefix (b':' ∷ []) rest) || is_some (strip_prefix (b's' ∷ b':' ∷ []) rest))
      ≡ true
    → is_wss (("ws" & rest) & t) ≡ is_some (strip_prefix (b's' ∷ b':' ∷ []) rest)
unfolding strip_prefix
is_wss-ws rest t h = rw (append_assoc "ws" rest t) (
    rw (strip_prefix-++ (b'w' ∷ b's' ∷ []) (b's' ∷ b':' ∷ []) ("ws" & (rest & t))) (
      rw (strip_prefix-append (b'w' ∷ b's' ∷ []) "ws" "" (rest & t) refl)
        (rw (nil-append (rest & t)) (colon-or-s rest t h))))

-- What `is_absolute` tests, by what follows "http".
scheme-none :
    (gateway : String) → strip_prefix http_letters gateway ≡ none → is_absolute gateway ≡ false
unfolding is_absolute
scheme-none gateway n =
    rw
      (
        strip_prefix-++ http_letters (b':' ∷ []) gateway,
        strip_prefix-++ http_letters (b's' ∷ b':' ∷ []) gateway,
      )
      (rw n refl)

scheme-some :
    (gateway rest : String)
    → strip_prefix http_letters gateway ≡ some rest
    → is_absolute gateway
      ≡ (is_some (strip_prefix (b':' ∷ []) rest) || is_some (strip_prefix (b's' ∷ b':' ∷ []) rest))
unfolding is_absolute
scheme-some gateway rest e =
    rw
      (
        strip_prefix-++ http_letters (b':' ∷ []) gateway,
        strip_prefix-++ http_letters (b's' ∷ b':' ∷ []) gateway,
      )
      (rw e refl)

is_wss-base :
    (gateway tail : String) (page : Page)
    → is_wss (web_socket_base gateway (some page) & tail) ≡ is_secure gateway page
unfolding web_socket_base
is_wss-base gateway tail page = elim (Bool-cases (is_absolute gateway)) [
  | inr e ↦ rw e (
      rw
        (append_assoc (if page.protocol == "https:" then "wss:" else "ws:")
          ("//" & page.host & gateway) tail)
        (is_wss-scheme (page.protocol == "https:") (("//" & page.host & gateway) & tail)))
  | inl e ↦ rw e (absolute e (Option-cases (strip_prefix http_letters gateway)))
]
  where
    absolute :
        is_absolute gateway ≡ true
        → ((strip_prefix http_letters gateway ≡ none)
            ⊎ ((rest : String) × (strip_prefix http_letters gateway ≡ some rest)))
        → is_wss (
            (elim (strip_prefix http_letters gateway) [ none ↦ gateway | some rest ↦ "ws" & rest ])
            & tail)
          ≡ is_some (strip_prefix (http_letters ++ b's' ∷ b':' ∷ []) gateway)
    absolute e (inl n) = absurd (cc (scheme-none gateway n, e))
    absolute e (inr (rest, r)) = rw r (
        is_wss-ws rest tail (sym (scheme-some gateway rest r) ∙ e)
        ∙ sym (rw (strip_prefix-++ http_letters (b's' ∷ b':' ∷ []) gateway) (rw r refl)))

-- In a browser the address of a WebSocket, whatever its path and token, is a secure one exactly if
-- the requests of apiFetch are: the configured gateway has the scheme https, in letters of either
-- case, or it has neither scheme of HTTP and the page was loaded over https.
pub is_wss-get_web_socket_url :
    (gateway path : String) (page : Page) (token : Option String)
    → is_wss (get_web_socket_url gateway (some page) token path) ≡ is_secure gateway page
unfolding get_web_socket_url
is_wss-get_web_socket_url gateway path page token =
    if_both (λ url. is_wss url ≡ is_secure gateway page) (truthy token)
      (rw (append_assoc (web_socket_base gateway (some page)) path _) (is_wss-base gateway _ page))
      (is_wss-base gateway path page)

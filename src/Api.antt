-- ===== src/Api.antt =====
-- apps/web-app/app/lib/api.ts: requests to the gateway, with the access token added and renewed.
-- The gateway is a parameter: `serve` gives the reply to a request after those already made, so it
-- may answer differently each time. `access_token_of` reads the field of the refresh reply's body.
pub mod Session
pub mod Secure
mod Tests
use Prim.Native.Char.{code}
use concordia_chat_app.Prelude.{
  ℕ, ◌+◌, Bool, true, false, not, ◌&&◌, ◌||◌, Option, none, some, List, [], ◌∷◌, ◌++◌, String, ◌==◌,
}
use concordia_chat_app.Prelude.Tests.{eqb, leb, truthy, is_some, or_else, if◌then◌else◌}
use concordia_chat_app.Prelude.Text.{◌&◌}
use concordia_chat_app.Http.{Response, Reply, is_ok}

-- A request as the gateway sees it; of the headers, those that the sources set, and of a body the
-- fields of the object that is serialised.
pub record Request : Type 0 where
  pub url : String
  pub method : String
  pub authorization : Option String
  pub content_type : Option String
  pub body : Option (List (String × String))

-- The browser: the two tokens of `localStorage`, the last address assigned to
-- `window.location.href`, and the requests made.
pub record World : Type 0 where
  pub access_token : Option String
  pub refresh_token : Option String
  pub location : Option String
  pub log : List Request

-- `path.replace(/^\/+/, '')`
unfoldable pub strip_slashes : String → String
strip_slashes String.[] = String.[]
strip_slashes (String.◌∷◌ c s) = elim (eqb (code c) b'/') [
  | true ↦ strip_slashes s
  | false ↦ String.◌∷◌ c s
]

-- The texts of `window.location` that the WebSocket address is built from.
pub record Page : Type 0 where
  pub protocol : String
  pub host : String

-- A letter of a pattern that ignores case.
abbrev pub matches_letter : ℕ → ℕ → Bool
matches_letter p c = eqb c p || (leb 65 c && leb c 90 && eqb (c + 32) p)

-- What follows a prefix, given by its lower-case letters.
unfoldable pub strip_prefix : List ℕ → String → Option String
strip_prefix [] s = some s
strip_prefix (p ∷ ps) String.[] = none
strip_prefix (p ∷ ps) (String.◌∷◌ c s) = elim (matches_letter p (code c)) [
  | true ↦ strip_prefix ps s
  | false ↦ none
]

abbrev pub http_letters : List ℕ
http_letters = b'h' ∷ b't' ∷ b't' ∷ b'p' ∷ []

-- `/^https?:/i.test(gateway)`
unfoldable pub is_absolute : String → Bool
unfolding strip_prefix
is_absolute gateway =
    is_some (strip_prefix (http_letters ++ b':' ∷ []) gateway)
    || is_some (strip_prefix (http_letters ++ b's' ∷ b':' ∷ []) gateway)

-- The base of the WebSocket address; `none` is the absence of a window.
unfoldable pub web_socket_base : String → Option Page → String
unfolding is_absolute
web_socket_base gateway page =
    if is_absolute gateway
    then (elim (strip_prefix http_letters gateway) [ none ↦ gateway | some rest ↦ "ws" & rest ])
    else elim page [
      | none ↦ gateway
      | some p ↦ (if p.protocol == "https:" then "wss:" else "ws:") & "//" & p.host & gateway
    ]

-- `getWebSocketUrl`
unfoldable pub get_web_socket_url : String → Option Page → Option String → String → String
unfolding web_socket_base
get_web_socket_url gateway page token path =
    let url : String = web_socket_base gateway page & path in
    elim page [
      | none ↦ url
      | some p ↦ if truthy token then url & "?token=" & or_else token "" else url
    ]

-- `localStorage.setItem` turns a missing value into the text "undefined".
abbrev pub stored : Option String → String
stored token = or_else token "undefined"

unfoldable pub refresh_request : String → String → Request
refresh_request gateway refresh_token = record {
  url = gateway & "/auth/refresh";
  method = "POST";
  authorization = none;
  content_type = some "application/json";
  body = some (("refresh_token", refresh_token) ∷ []);
}

-- The first request: the stored token, unless the caller gave an authorization.
unfoldable pub first_request : String → Bool → String → Request → World → Request
unfolding strip_slashes
first_request gateway browser path init w = record init {
  url = gateway & "/" & strip_slashes path;
  authorization =
      if browser && truthy w.access_token && not (is_some init.authorization)
      then some ("Bearer " & or_else w.access_token "")
      else init.authorization;
}

module _ {A : Type 0} (serve : List Request → Request → Reply A)
    (access_token_of : A → Option String) (gateway : String) where
  -- One call of `fetch`.
  abbrev pub fetch : Request → World → Reply A × World
  fetch req w = (serve w.log req, record w { log = w.log ++ req ∷ [] })

  -- The retry with the new token; a failure keeps the first response.
  unfoldable pub retry : Request → Response A → Option String → World → Reply A × World
  retry req res token w =
      let renewed : World = record w { access_token = some (stored token) } in
      let (again, w') =
        fetch (record req { authorization = some ("Bearer " & stored token) }) renewed in
      elim again [ none ↦ (some res, w') | some r ↦ (some r, w') ]

  -- What a reply to the refresh request leads to; a body `null`, which throws as one that cannot be
  -- read does, is absent.
  unfoldable pub refreshed : Request → Response A → Reply A → World → Reply A × World
  unfolding retry
  refreshed req res none w = (some res, w)
  refreshed req res (some r) w =
      if is_ok r
      then elim r.json [ none ↦ (some res, w) | some a ↦ retry req res (access_token_of a) w ]
      else (
        some res,
        record w { access_token = none; refresh_token = none; location = some "/login" },
      )

  -- The part of `apiFetch` after the first response, in a browser.
  unfoldable pub after_response : Request → Reply A → World → Reply A × World
  unfolding refreshed refresh_request
  after_response req none w = (none, w)
  after_response req (some res) w =
      if eqb res.status 401 && truthy w.refresh_token
      then (let (answer, w') = fetch (refresh_request gateway (or_else w.refresh_token "")) w in
          refreshed req res answer w')
      else (some res, w)

  -- `apiFetch`; `browser` is `typeof window !== 'undefined'`.
  unfoldable pub api_fetch : Bool → String → Request → World → Reply A × World
  unfolding after_response first_request
  api_fetch browser path init w =
      let req : Request = first_request gateway browser path init w in
      let (res, w') = fetch req w in if browser then after_response req res w' else (res, w')

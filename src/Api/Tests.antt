-- ===== src/Api/Tests.antt =====
-- api.ts: the theorems on its requests at a gateway that refuses the first token.
use concordia_chat_app.Prelude.{◌≤◌, ◌≡◌, refl, true, none, some, List, [], ◌∷◌, String}
use concordia_chat_app.Prelude.Lists.{length}
use concordia_chat_app.Http.{Reply}
use concordia_chat_app.Api.{Request, World, Page, api_fetch, get_web_socket_url, strip_prefix}
use concordia_chat_app.Api.Secure.{is_wss, is_secure, is_wss-get_web_socket_url}
use concordia_chat_app.Api.Session.{Leaves, api_fetch-Leaves, api_fetch_requests}

-- The gateway answers 401 to the first request, and gives a new token to the second.
abbrev serve : List Request → Request → Reply String
serve [] req = some (record { status = 401; json = none })
serve (r ∷ rs) req = some (record { status = 200; json = some "new" })

abbrev plain : Request
plain = record { url = ""; method = "GET"; authorization = none; content_type = none; body = none }

abbrev world : World
world = record {
  access_token = some "old";
  refresh_token = some "refresh";
  location = none;
  log = [];
}

api_fetch-Leaves_example :
    let out = api_fetch serve some "/api/v1" true "/users/me" plain world in
    Leaves serve some "/api/v1" world out.0 out.1
api_fetch-Leaves_example = api_fetch-Leaves serve some "/api/v1" true "/users/me" plain world

api_fetch_requests_example :
    length (api_fetch serve some "/api/v1" true "/users/me" plain world).1.log ≤ 3
api_fetch_requests_example = api_fetch_requests serve some "/api/v1" true "/users/me" plain world

abbrev local_page : Page
local_page = record { protocol = "https:"; host = "chat.local" }

is_wss-get_web_socket_url_example :
    is_wss (get_web_socket_url "HTTP://gateway/api" (some local_page) (some "t") "/ws")
    ≡ is_secure "HTTP://gateway/api" local_page
is_wss-get_web_socket_url_example =
    is_wss-get_web_socket_url "HTTP://gateway/api" "/ws" local_page (some "t")

local_page_is_secure : is_wss (get_web_socket_url "/api" (some local_page) none "/ws") ≡ true
unfolding get_web_socket_url strip_prefix
local_page_is_secure = refl

-- ===== src/Auth/Carried.antt =====
-- actions/auth.ts with lib/api.ts and layout.tsx: what the rest of the application does with the
-- session that a log-in opens and a log-out ends.
use concordia_chat_app.Prelude.{
  ◌≡◌, refl, true, false, not, ◌&&◌, ◌||◌, Option, none, some, List, [], ◌∷◌, ◌++◌, String, arith,
}
use concordia_chat_app.Prelude.Tests.{or_else, is_empty, truthy}
use concordia_chat_app.Prelude.Text.{◌&◌}
use concordia_chat_app.Http.{Response, Reply, is_ok}
use concordia_chat_app.Api.{
  Request, World, Page, first_request, web_socket_base, get_web_socket_url,
}
use concordia_chat_app.Shell.{strip_slash, Shell, is_auth_page, connects}
use concordia_chat_app.Auth.{
  AuthBody, trimmed, login_request, login_action, logged_in, logout_action, logout_request,
}
use concordia_chat_app.Auth.Registration.{login_action-done}

-- Every request, socket address and shell carries the token `t`.
pub record Carries (gateway t : String) (w : World) : Type 0 where
  pub requests :
      (path : String) (init : Request)
      → init.authorization ≡ none
      → (first_request gateway true path init w).authorization ≡ some ("Bearer " & t)
  pub sockets :
      (page : Page) (path : String)
      → get_web_socket_url gateway (some page) w.access_token path
        ≡ (web_socket_base gateway (some page) & path) & "?token=" & t
  pub shell :
      (pathname : Option String) (s : Shell)
      → connects pathname w.access_token s ≡ (not (is_auth_page pathname) && s.mounted)
  pub auth_pages :
      (s : Shell)
      → (connects (some "/login") w.access_token s ≡ false)
        × (connects (some "/login/") w.access_token s ≡ false)
        × (connects (some "/register") w.access_token s ≡ false)
        × (connects (some "/register/") w.access_token s ≡ false)

-- None of them carries anything.
pub record CarriesNothing (gateway : String) (w : World) : Type 0 where
  pub requests :
      (path : String) (init : Request)
      → (first_request gateway true path init w).authorization ≡ init.authorization
  pub sockets :
      (page : Page) (path : String)
      → get_web_socket_url gateway (some page) w.access_token path
        ≡ web_socket_base gateway (some page) & path
  pub shell : (pathname : Option String) (s : Shell) → connects pathname w.access_token s ≡ false

truthy_full : (t : String) → is_empty t ≡ false → truthy (some t) ≡ true
truthy_full String.[] e = absurd (cc e)
truthy_full (String.◌∷◌ c s) e = refl

stored-Carries :
    (gateway t : String) (w : World)
    → is_empty t ≡ false
    → w.access_token ≡ some t
    → Carries gateway t w
unfolding first_request get_web_socket_url connects is_auth_page strip_slash
stored-Carries gateway t w full e = record {
  requests = λ path init bare. rw (e, bare) (rw (truthy_full t full) refl);
  sockets = λ page path. rw e (rw (truthy_full t full) refl);
  shell = λ pathname s. rw e (rw (truthy_full t full) (ground arith));
  auth_pages = λ s. (refl, refl, refl, refl);
}

absent-CarriesNothing :
    (gateway : String) (w : World) → w.access_token ≡ none → CarriesNothing gateway w
unfolding first_request get_web_socket_url connects
absent-CarriesNothing gateway w e = record {
  requests = λ path init. rw e refl;
  sockets = λ page path. rw e refl;
  shell = λ pathname s. rw e (ground arith);
}

-- After a log-in that the gateway takes, with a token that is not empty, each request that has no
-- authorization of its own carries that token, each WebSocket address ends in it, and the mounted
-- shell connects at every address but those of log-in and registration; after a log-out that
-- follows, requests and WebSocket addresses carry nothing, the shell connects nowhere, the refresh
-- token is gone too, and the gateway has been told by one request with the token. The fields are
-- filled.
pub session_carried :
    (serve : List Request → Request → Reply AuthBody) (gateway : String)
    (email password : Option String) (w : World) (r : Response AuthBody) (b : AuthBody) (t : String)
    → (is_empty (trimmed email) || is_empty (or_else password "")) ≡ false
    → serve w.log (login_request gateway (trimmed email) (or_else password "")) ≡ some r
    → is_ok r ≡ true
    → r.json ≡ some b
    → b.access_token ≡ some t
    → is_empty t ≡ false
    → let inside = (login_action serve gateway true email password w).1 in
      let outside = logout_action gateway true inside in
      Carries gateway t inside
      × CarriesNothing gateway outside
      × (outside.refresh_token ≡ none)
      × (outside.log ≡ inside.log ++ logout_request gateway t ∷ [])
unfolding logout_action logged_in
session_carried serve gateway email password w r b t full answer good body token some_token =
    let done = login_action-done serve gateway email password w r b full answer good body in
    rw done (
      stored-Carries gateway t _ some_token (rw token refl),
      absent-CarriesNothing gateway _ refl,
      refl,
      rw token (rw (truthy_full t some_token) refl),
    )

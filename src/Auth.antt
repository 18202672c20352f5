-- ===== src/Auth.antt =====
-- apps/web-app/app/actions/auth.ts: logging in, registering and logging out; the state of the
-- browser and the requests are those of `Api`. The gateway is a parameter, as there.
pub mod Actions
pub mod Registration
pub mod Register
pub mod Carried
pub mod Login
mod Tests
use concordia_chat_app.Prelude.{
  Bool, true, false, not, ◌&&◌, ◌||◌, Option, none, some, List, [], ◌∷◌, ◌++◌, String,
}
use concordia_chat_app.Prelude.Tests.{or_else, truthy, is_empty, if◌then◌else◌}
use concordia_chat_app.Prelude.Text.{◌&◌, trim}
use concordia_chat_app.Http.{Response, Reply, is_ok}
use concordia_chat_app.Api.{Request, World, stored}

-- The fields that the actions read of a reply's body, each of which may be absent.
pub record AuthBody : Type 0 where
  pub access_token : Option String
  pub refresh_token : Option String
  pub error : Option String

-- How an action ends: with no state, with an error text, or by a throw.
pub data AuthState : Type 0 where
  undefined : AuthState
  error : String → AuthState
  throws : AuthState

-- `body.error ?? text`, where the body is `{}` if it is no JSON.
abbrev pub error_of : Response AuthBody → String → String
error_of r text = elim r.json [ none ↦ text | some b ↦ or_else b.error text ]

-- `(formData.get(key) ?? '')`, trimmed or not.
abbrev pub trimmed : Option String → String
trimmed field = elim field [ none ↦ "" | some s ↦ trim s ]

abbrev pub post : String → List (String × String) → Request
post url fields = record {
  url = url;
  method = "POST";
  authorization = none;
  content_type = some "application/json";
  body = some fields;
}

unfoldable pub login_request : String → String → String → Request
login_request gateway email password =
    post (gateway & "/auth/login") (("email", email) ∷ ("password", password) ∷ [])

unfoldable pub register_request : String → String → String → String → Request
register_request gateway username email password =
    post (gateway & "/auth/register")
      (("username", username) ∷ ("email", email) ∷ ("password", password) ∷ [])

-- The end of `loginAction`, once the tokens are read.
unfoldable pub logged_in : Bool → AuthBody → World → World
logged_in browser b w =
    if browser
    then record w {
      access_token = some (stored b.access_token);
      refresh_token = some (stored b.refresh_token);
      location = some "/";
    }
    else w

unfoldable pub login_reply : Bool → Reply AuthBody → World → AuthState × World
unfolding logged_in
login_reply browser none w = (error "Could not reach the server. Please try again.", w)
login_reply browser (some r) w =
    if not (is_ok r)
    then (error (error_of r "Invalid email or password."), w)
    else elim r.json [ none ↦ (throws, w) | some b ↦ (undefined, logged_in browser b w) ]

unfoldable pub register_reply : Bool → Reply AuthBody → World → AuthState × World
register_reply browser none w = (error "Could not reach the server. Please try again.", w)
register_reply browser (some r) w =
    if not (is_ok r)
    then (error (error_of r "Registration failed. Please try again."), w)
    else (undefined, if browser then record w { location = some "/login" } else w)

module _ (serve : List Request → Request → Reply AuthBody) (gateway : String) (browser : Bool) where
  -- `loginAction`
  unfoldable pub login_action : Option String → Option String → World → AuthState × World
  unfolding login_request login_reply
  login_action email_field password_field w =
      let email : String = trimmed email_field in
      let password : String = or_else password_field "" in
      let req : Request = login_request gateway email password in
      if is_empty email || is_empty password
      then (error "Email and password are required.", w)
      else login_reply browser (serve w.log req) (record w { log = w.log ++ req ∷ [] })

  -- `registerAction`
  unfoldable pub register_action :
      Option String → Option String → Option String → World → AuthState × World
  unfolding register_request register_reply
  register_action username_field email_field password_field w =
      let username : String = trimmed username_field in
      let email : String = trimmed email_field in
      let password : String = or_else password_field "" in
      let req : Request = register_request gateway username email password in
      if is_empty username || is_empty email || is_empty password
      then (error "All fields are required.", w)
      else register_reply browser (serve w.log req) (record w { log = w.log ++ req ∷ [] })

-- `logoutAction`; the reply to its request is not looked at.
abbrev pub logout_request : String → String → Request
logout_request gateway token = record {
  url = gateway & "/auth/logout";
  method = "DELETE";
  authorization = some ("Bearer " & token);
  content_type = none;
  body = none;
}

unfoldable pub logout_action : String → Bool → World → World
logout_action gateway browser w = if not browser then w else record w {
  access_token = none;
  refresh_token = none;
  location = some "/login";
  log =
      if truthy w.access_token
      then w.log ++ logout_request gateway (or_else w.access_token "") ∷ []
      else w.log;
}

-- ===== src/Auth/Tests.antt =====
-- actions/auth.ts and register/page.tsx: their theorems at concrete forms.
use concordia_chat_app.Prelude.{◌≡◌, refl, true, none, some, List, [], ◌∷◌, ◌++◌}
use concordia_chat_app.Prelude.Text.{code_units, trim}
use concordia_chat_app.Http.{Response, Reply}
use concordia_chat_app.Api.{Request, World, stored}
use concordia_chat_app.Auth.{
  trimmed, AuthBody, undefined, register_action, register_reply, login_action, login_request,
  logout_action, logout_request,
}
use concordia_chat_app.Auth.Actions.{LoginEnds, login_action-LoginEnds}
use concordia_chat_app.Auth.Carried.{Carries, CarriesNothing, session_carried}
use concordia_chat_app.Auth.Login
use concordia_chat_app.Auth.Login.Runs
use concordia_chat_app.Auth.Login.Runs.{run_logs_in}
use concordia_chat_app.Auth.Registration.{IsOpen, register_then_login}
use concordia_chat_app.Auth.Register.Signup
use concordia_chat_app.Auth.Register.Signup.{Signup, Adds, did, ended, run_signs_up}
use concordia_chat_app.Auth.Register.{
  two, Page, Event, Field, IsValid, one, typed, continued, submitted, errors_of, has_at, on_event,
  continue, set, run, run_submits-IsValid,
}

abbrev serve : List Request → Request → Reply AuthBody
serve past req = some (record {
  status = 200;
  json = some (record { access_token = some "a"; refresh_token = some "r"; error = none });
})

abbrev world : World
world = record { access_token = some "old"; refresh_token = none; location = none; log = [] }

log_in-LoginEnds :
    let out = login_action serve "/api/v1" true (some "ada@x.org") (some "secret") world in
    LoginEnds serve "/api/v1" (some "ada@x.org") (some "secret") world out.0 out.1
log_in-LoginEnds = login_action-LoginEnds serve "/api/v1" (some "ada@x.org") (some "secret") world

session_carried_example :
    let inside = (login_action serve "/api/v1" true (some "ada@x.org") (some "secret") world).1 in
    let outside = logout_action "/api/v1" true inside in
    Carries "/api/v1" "a" inside
    × CarriesNothing "/api/v1" outside
    × (outside.refresh_token ≡ none)
    × (outside.log ≡ inside.log ++ logout_request "/api/v1" "a" ∷ [])
unfolding trim
session_carried_example =
    session_carried serve "/api/v1" (some "ada@x.org") (some "secret") world
      (record {
        status = 200;
        json = some (record { access_token = some "a"; refresh_token = some "r"; error = none });
      })
      (record { access_token = some "a"; refresh_token = some "r"; error = none }) "a" refl refl
      refl refl refl refl

abbrev empty_page : Page
empty_page = record {
  step = one;
  form = record { username = ""; email = ""; password = ""; confirm = "" };
  errors = record { username = none; email = none; password = none; confirm = none };
  server_error = none;
  status = "online";
}

abbrev events : List Event
events =
    typed Field.username "ada"
    ∷ typed Field.email "ada@x.org"
    ∷ typed Field.password "password"
    ∷ typed Field.confirm "password"
    ∷ continued
    ∷ submitted
    ∷ []

second_step-IsValid : IsValid (run events empty_page).form
unfolding run on_event continue errors_of has_at code_units set
second_step-IsValid = run_submits-IsValid events empty_page refl refl

serve-IsOpen : IsOpen serve "/api/v1"
serve-IsOpen = record {
  lets_in = λ past u e p r taken good. (
    record {
      status = 200;
      json = some (record { access_token = some "a"; refresh_token = some "r"; error = none });
    },
    record { access_token = some "a"; refresh_token = some "r"; error = none },
    refl,
    refl,
    refl,
  );
}

register_then_login_example :
    let (state, there) =
      register_action serve "/api/v1" true (some "ada") (some "ada@x.org") (some "secret") world in
    let (end_state, home) =
      login_action serve "/api/v1" true (some "ada@x.org") (some "secret") there in
    (state ≡ undefined)
    × (there.location ≡ some "/login")
    × (there.access_token ≡ some "old")
    × (there.refresh_token ≡ none)
    × (end_state ≡ undefined)
    × (home.location ≡ some "/")
    × ((answer : Response AuthBody) × (b : AuthBody) × (serve there.log
            (login_request "/api/v1" (trimmed (some "ada@x.org")) "secret")
          ≡ some answer)
        × (answer.json ≡ some b)
        × (home.access_token ≡ some (stored b.access_token))
        × (home.refresh_token ≡ some (stored b.refresh_token)))
unfolding trim register_action register_reply
register_then_login_example =
    register_then_login serve "/api/v1" (some "ada") (some "ada@x.org") (some "secret") world
      (record {
        status = 200;
        json = some (record { access_token = some "a"; refresh_token = some "r"; error = none });
      })
      refl refl refl serve-IsOpen

abbrev signup : Signup
signup = record { page = empty_page; pending = none; world = world }

-- The account is created, and the button is clicked again while the action is under way.
abbrev signing_up : List Signup.Event
signing_up =
    did (typed Field.username "ada")
    ∷ did (typed Field.email "ada@x.org")
    ∷ did (typed Field.password "password")
    ∷ did (typed Field.confirm "password")
    ∷ did continued
    ∷ did submitted
    ∷ did submitted
    ∷ ended
    ∷ []

run_signs_up_example :
    let s = Signup.run serve "/api/v1" signing_up signup in
    (s.page.step ≡ two → IsValid s.page.form) × Adds serve "/api/v1" world s.world
run_signs_up_example = run_signs_up serve "/api/v1" signing_up signup refl refl

-- A name of white space passes the validation, and the action refuses it in the second step, which
-- has no field for it.
blank_name_is_refused :
    let events : List Signup.Event =
      did (typed Field.username " ")
      ∷ did (typed Field.email "ada@x.org")
      ∷ did (typed Field.password "password")
      ∷ did (typed Field.confirm "password")
      ∷ did continued
      ∷ did submitted
      ∷ ended
      ∷ [] in
    let s = Signup.run serve "/api/v1" events signup in
    (s.page.step ≡ two)
    × (s.page.server_error ≡ some "All fields are required.")
    × (s.world.log ≡ [])
unfolding Signup.run on_event continue errors_of has_at code_units set trim register_action
blank_name_is_refused = (refl, refl, refl)

-- A log-in that a second click does not disturb, and one with an empty password.
abbrev logging_in : List Login.Event
logging_in =
    Login.submitted (record { email = "ada@x.org"; password = "" })
    ∷ Login.submitted (record { email = "ada@x.org"; password = "secret" })
    ∷ Login.submitted (record { email = "eve@x.org"; password = "secret" })
    ∷ Login.ended
    ∷ []

abbrev login : Login.Login
login = record { state = undefined; pending = none; world = world }

logging_in_once :
    let w = (Login.run has_at serve "/api/v1" logging_in login).world in
    (w.log ≡ login_request "/api/v1" "ada@x.org" "secret" ∷ []) × (w.location ≡ some "/")
unfolding Login.run has_at trim login_action
logging_in_once = (refl, refl)

run_logs_in_example :
    Runs.Adds has_at serve "/api/v1" world (Login.run has_at serve "/api/v1" logging_in login).world
run_logs_in_example = run_logs_in has_at serve "/api/v1" logging_in login refl

-- ===== src/Auth/Login.antt =====
-- apps/web-app/app/login/page.tsx with `loginAction`: the form, the action under way and the browser.
-- The action is run when it ends; nothing else on the page touches the browser. `is_email` is the
-- browser's test of a field for an address.
pub mod Runs
use concordia_chat_app.Prelude.{
  ◌≡◌, ◌⊎◌, refl, ap, sym, subst, ◌∙◌, inl, inr, Bool, true, false, not, ◌||◌, Option, none, some,
  List, [], ◌∷◌, ◌++◌, String, arith,
}
use mathlib.Core.List.{append_assoc, append-nil}
use concordia_chat_app.Prelude.Lists.{All, All-append}
use concordia_chat_app.Prelude.Tests.{is_empty, is_some, if_either, Option-cases, if◌then◌else◌}
use concordia_chat_app.Prelude.Text.{trim}
use concordia_chat_app.Http.{Response, Reply, is_ok}
use concordia_chat_app.Api.{Request, World, stored}
use concordia_chat_app.Auth.{
  AuthBody, AuthState, undefined, error, throws, login_request, login_action,
}
use concordia_chat_app.Auth.Actions.{LoginEnds, blank, failed, done, login_action-LoginEnds}

pub record Fields : Type 0 where
  pub email : String
  pub password : String

-- The state of the action, the fields that the call under way was given, and the browser.
pub record Login : Type 0 where
  pub state : AuthState
  pub pending : Option Fields
  pub world : World

pub data Event : Type 0 where
  submitted : Fields → Event
  ended : Event

-- What the page draws: the error, and the button with its text.
pub record Screen : Type 0 where
  pub failure : Option String
  pub text : String
  pub disabled : Bool

unfoldable pub screen : Login → Screen
screen s = record {
  failure = elim s.state [
    | undefined ↦ none
    | error text ↦ if is_empty text then none else some text
    | throws ↦ none
  ];
  text = if is_some s.pending then "Signing in…" else "Sign in";
  disabled = is_some s.pending;
}

module _ (is_email : String → Bool) where
  -- "Sign in": both fields are required, and the button is disabled while the action is under way.
  unfoldable pub submit : Fields → Login → Login
  unfolding screen
  submit f s =
      if (screen s).disabled || is_empty f.email || not (is_email f.email) || is_empty f.password
      then s
      else record s { pending = some f }

  module _ (serve : List Request → Request → Reply AuthBody) (gateway : String) where
    unfoldable pub end_action : Login → Login
    unfolding login_action
    end_action s = elim s.pending [
      | none ↦ s
      | some f ↦
          let (state, after) =
            login_action serve gateway true (some f.email) (some f.password) s.world in
          record { state = state; pending = none; world = after }
    ]

    unfoldable pub step : Event → Login → Login
    unfolding submit end_action
    step (submitted f) s = submit f s
    step ended s = end_action s

    unfoldable pub run : List Event → Login → Login
    unfolding step
    run [] s = s
    run (e ∷ es) s = run es (step e s)

-- ===== src/Auth/Register/Screen.antt =====
-- register/page.tsx: what the page draws in its two steps, without styles. `upper` is `toUpperCase`.
use concordia_chat_app.Prelude.{
  Bool, true, false, Option, none, some, List, [], ◌∷◌, map, String, ◌==◌,
}
use concordia_chat_app.Prelude.Lists.{find?}
use concordia_chat_app.Prelude.Tests.{truthy, is_empty, is_some, if◌then◌else◌}
use concordia_chat_app.Auth.Register.{Page, one, two}
use concordia_chat_app.Auth.Register.Signup.{Signup}

pub record StatusOption : Type 0 where
  pub value : String
  pub label : String
  pub color : String

abbrev pub status_options : List StatusOption
status_options =
    (record { value = "online"; label = "Online"; color = "#22c55e" })
    ∷ (record { value = "away"; label = "Away"; color = "#eab308" })
    ∷ (record { value = "dnd"; label = "Do Not Disturb"; color = "#ef4444" })
    ∷ (record { value = "offline"; label = "Invisible"; color = "#71717a" })
    ∷ []

-- An input of the first step, with the error under it.
pub record Input : Type 0 where
  pub label : String
  pub type : String
  pub placeholder : String
  pub value : String
  pub failure : Option String

pub record Choice : Type 0 where
  pub option : StatusOption
  pub is_chosen : Bool

pub record Button : Type 0 where
  pub text : String
  pub disabled : Bool

-- The second step: the avatar with its dot, the name, the choices, the error and the button.
pub record Presence : Type 0 where
  pub initial : String
  pub dot : Option String
  pub name : String
  pub choices : List Choice
  pub failure : Option String
  pub create : Button

pub data Screen : Type 0 where
  account : List Input → Screen
  presence : Presence → Screen

abbrev shown : Option String → Option String
shown text = if truthy text then text else none

unfoldable pub inputs : Page → List Input
inputs p =
    (record {
      label = "Username";
      type = "text";
      placeholder = "cooluser";
      value = p.form.username;
      failure = shown p.errors.username;
    })
    ∷ (record {
      label = "Email";
      type = "email";
      placeholder = "you@example.com";
      value = p.form.email;
      failure = shown p.errors.email;
    })
    ∷ (record {
      label = "Password";
      type = "password";
      placeholder = "••••••••";
      value = p.form.password;
      failure = shown p.errors.password;
    })
    ∷ (record {
      label = "Confirm Password";
      type = "password";
      placeholder = "••••••••";
      value = p.form.confirm;
      failure = shown p.errors.confirm;
    })
    ∷ []

abbrev or_text : String → String → String
or_text s d = if is_empty s then d else s

-- `username[0] || 'U'`, for a first character of one code unit.
abbrev initial_of : String → String
initial_of String.[] = "U"
initial_of (String.◌∷◌ c s) = String.◌∷◌ c ""

module _ (upper : String → String) where
  unfoldable pub presence_of : Signup → Presence
  unfolding find?
  presence_of s = record {
    initial = upper (initial_of s.page.form.username);
    dot = elim (find? (λ (o : StatusOption). o.value == s.page.status) status_options) [
      | none ↦ none
      | some o ↦ some o.color
    ];
    name = or_text s.page.form.username "Username";
    choices = map (λ o. record { option = o; is_chosen = s.page.status == o.value }) status_options;
    failure = shown s.page.server_error;
    create =
        if is_some s.pending
        then record { text = "Creating account…"; disabled = true }
        else record { text = "Create Account"; disabled = false };
  }

  unfoldable pub screen : Signup → Screen
  unfolding inputs presence_of
  screen s = elim s.page.step [ one ↦ account (inputs s.page) | two ↦ presence (presence_of s) ]

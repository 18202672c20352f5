-- ===== src/Auth/Register.antt =====
-- apps/web-app/app/register/page.tsx: the two steps of the registration form. An event is what the
-- page lets the user do in the step that it shows.
pub mod Signup
pub mod Screen
use Prim.Native.Char.{code}
use concordia_chat_app.Prelude.{
  ◌≤◌, ◌≡◌, refl, Bool, true, false, not, ◌||◌, Option, none, some, List, [], ◌∷◌, String, ◌==◌,
  eq_iff, arith, inl, inr,
}
use concordia_chat_app.Prelude.Lists.{length}
use concordia_chat_app.Prelude.Tests.{
  ltb, eqb, is_empty, is_some, if_both, Bool-cases, if◌then◌else◌,
}
use concordia_chat_app.Prelude.Text.{code_units}
use concordia_chat_app.Auth.{AuthState, undefined, error, throws}

pub record FormFields : Type 0 where
  pub username : String
  pub email : String
  pub password : String
  pub confirm : String

pub record FormErrors : Type 0 where
  pub username : Option String
  pub email : Option String
  pub password : Option String
  pub confirm : Option String

pub data Step : Type 0 where
  one two : Step

pub record Page : Type 0 where
  pub step : Step
  pub form : FormFields
  pub errors : FormErrors
  pub server_error : Option String
  pub status : String

pub data Field : Type 0 where
  username email password confirm : Field

-- `s.includes('@')`
unfoldable pub has_at : String → Bool
has_at String.[] = false
has_at (String.◌∷◌ c s) = eqb (code c) b'@' || has_at s

abbrev pub when : Bool → String → Option String
when b text = if b then some text else none

unfoldable pub set : Field → String → FormFields → FormFields
set username v f = record f { username = v }
set email v f = record f { email = v }
set password v f = record f { password = v }
set confirm v f = record f { confirm = v }

-- The errors that `validateStep1` collects.
unfoldable pub errors_of : FormFields → FormErrors
unfolding has_at code_units
errors_of f = record {
  username = when (is_empty f.username) "Username is required.";
  email = when (not (has_at f.email)) "Valid email required.";
  password =
      when (ltb (length (code_units f.password)) 8) "Password must be at least 8 characters.";
  confirm = when (not (f.password == f.confirm)) "Passwords do not match.";
}

-- `Object.keys(e).length === 0`
abbrev pub no_errors : FormErrors → Bool
no_errors e = not (is_some e.username || is_some e.email || is_some e.password || is_some e.confirm)

-- The button "Continue": `validateStep1`, and the second step if it passes.
unfoldable pub continue : Page → Page
unfolding errors_of
continue p =
    let checked : Page = record p { errors = errors_of p.form } in
    if no_errors (errors_of p.form) then record checked { step = two } else checked

-- The fields that `handleCreateAccount` sends: name, email and password.
abbrev pub submission : Page → String × String × String
submission p = (p.form.username, p.form.email, p.form.password)

-- `handleCreateAccount` up to the action, and from its result on.
unfoldable pub start_create : Page → Page
start_create p = record p { server_error = none }

unfoldable pub finish_create : AuthState → Page → Page
finish_create undefined p = p
finish_create throws p = p
finish_create (error text) p = if is_empty text then p else record p { server_error = some text }

pub data Event : Type 0 where
  typed : Field → String → Event
  continued : Event
  chosen : String → Event
  submitted : Event
  answered : AuthState → Event
  back : Event

-- `step === 1 ? … : …`
abbrev pub by_step : Step → Page → Page → Page
by_step one p q = p
by_step two p q = q

-- The page after an event; a control that the step does not show does nothing.
unfoldable pub on_event : Event → Page → Page
unfolding set continue start_create finish_create
on_event (typed k v) p = by_step p.step (record p { form = set k v p.form }) p
on_event continued p = by_step p.step (continue p) p
on_event (chosen s) p = by_step p.step p (record p { status = s })
on_event submitted p = by_step p.step p (start_create p)
on_event (answered a) p = finish_create a p
on_event back p = by_step p.step p (record p { step = one })

unfoldable pub run : List Event → Page → Page
run [] p = p
run (e ∷ es) p = run es (on_event e p)

-- What the second step may count on.
pub record IsValid (f : FormFields) : Type 0 where
  pub username : is_empty f.username ≡ false
  pub email : has_at f.email ≡ true
  pub password : 8 ≤ length (code_units f.password)
  pub confirm : f.confirm ≡ f.password

errors_of-IsValid : (f : FormFields) → no_errors (errors_of f) ≡ true → IsValid f
unfolding errors_of
errors_of-IsValid f h = record {
  username = ground arith;
  email = ground arith;
  password = ground arith;
  confirm = ground (arith, eq_iff f.password f.confirm);
}

-- The second step is shown for a valid form only.
abbrev pub Inv : Page → Type 0
Inv p = p.step ≡ two → IsValid p.form

continue-Inv : (p : Page) → Inv p → Inv (continue p)
unfolding continue
continue-Inv p i = elim (Bool-cases (no_errors (errors_of p.form))) [
  | inl good ↦ rw good (λ shown. errors_of-IsValid p.form good)
  | inr bad ↦ rw bad i
]

pub finish_create-Inv : (a : AuthState) (p : Page) → Inv p → Inv (finish_create a p)
unfolding finish_create
finish_create-Inv undefined p i = i
finish_create-Inv throws p i = i
finish_create-Inv (error text) p i = if_both Inv (is_empty text) i i

by_step-Inv : (s : Step) (p q : Page) → Inv p → (s ≡ two → Inv q) → Inv (by_step s p q)
by_step-Inv one p q i j = i
by_step-Inv two p q i j = j refl

typed-Inv :
    (s : Step) (k : Field) (v : String) (p : Page)
    → p.step ≡ s
    → Inv p
    → Inv (by_step s (record p { form = set k v p.form }) p)
typed-Inv one k v p e i = λ shown. cc
typed-Inv two k v p e i = i

pub on_event-Inv : (e : Event) (p : Page) → Inv p → Inv (on_event e p)
unfolding on_event start_create
on_event-Inv (typed k v) p i = typed-Inv p.step k v p refl i
on_event-Inv continued p i = by_step-Inv p.step (continue p) p (continue-Inv p i) (λ e. i)
on_event-Inv (chosen s) p i = by_step-Inv p.step p _ i (λ e. i)
on_event-Inv submitted p i = by_step-Inv p.step p _ i (λ e. i)
on_event-Inv (answered a) p i = finish_create-Inv a p i
on_event-Inv back p i = by_step-Inv p.step p (record p { step = one }) i (λ e shown. cc)

-- However the user types, goes on and back, and whatever the server answers: when the second step
-- is shown, the name is not empty, the email has an "@", the password has at least eight units and
-- is the same as its confirmation. The page starts in its first step.
pub run_submits-IsValid :
    (es : List Event) (p : Page) → p.step ≡ one → (run es p).step ≡ two → IsValid (run es p).form
unfolding run
run_submits-IsValid es p start = run_from es p (λ shown. cc)
  where
    run_from : (es : List Event) (p : Page) → Inv p → Inv (run es p)
    run_from [] p i = i
    run_from (e ∷ es) p i = run_from es (on_event e p) (on_event-Inv e p i)

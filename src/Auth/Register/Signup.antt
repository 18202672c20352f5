-- ===== src/Auth/Register/Signup.antt =====
-- register/page.tsx with `registerAction`: the page, the transition under way and the browser. The
-- action is run when its transition ends; nothing else on the page touches the browser.
use concordia_chat_app.Prelude.{
  ◌≡◌, ◌⊎◌, refl, ap, sym, subst, ◌∙◌, inl, inr, true, false, ◌||◌, Option, none, some, List, [],
  ◌∷◌, ◌++◌, String, arith,
}
use mathlib.Core.List.{append_assoc, append-nil}
use concordia_chat_app.Prelude.Lists.{All, All-append}
use concordia_chat_app.Prelude.Tests.{
  is_empty, is_some, if_both, Bool-cases, Option-cases, if◌then◌else◌,
}
use concordia_chat_app.Prelude.Text.{trim}
use concordia_chat_app.Http.{Response, Reply, is_ok}
use concordia_chat_app.Api.{Request, World}
use concordia_chat_app.Auth.{AuthBody, register_request, register_reply, register_action}
use concordia_chat_app.Auth.Register
use concordia_chat_app.Auth.Register.{
  FormFields, Page, IsValid, Inv, one, two, start_create, finish_create, on_event, on_event-Inv,
  finish_create-Inv,
}

-- The page, and the fields that the action under way was given.
pub record Signup : Type 0 where
  pub page : Page
  pub pending : Option FormFields
  pub world : World

-- The button "Create Account", which is disabled while the transition is under way.
unfoldable pub create_account : Signup → Signup
unfolding start_create
create_account s = elim s.page.step [
  | one ↦ s
  | two ↦
      if is_some s.pending
      then s
      else record s { page = start_create s.page; pending = some s.page.form }
]

pub data Event : Type 0 where
  did : Register.Event → Event
  ended : Event

module _ (serve : List Request → Request → Reply AuthBody) (gateway : String) where
  -- The end of the transition.
  unfoldable pub end_transition : Signup → Signup
  unfolding register_action finish_create
  end_transition s = elim s.pending [
    | none ↦ s
    | some f ↦
        let (state, after) =
          register_action serve gateway true (some f.username) (some f.email) (some f.password)
            s.world in
        record { page = finish_create state s.page; pending = none; world = after }
  ]

  unfoldable pub step : Event → Signup → Signup
  unfolding create_account end_transition on_event
  step (did Register.submitted) s = create_account s
  step (did (Register.answered a)) s = s
  step (did e) s = record s { page = on_event e s.page }
  step ended s = end_transition s

  unfoldable pub run : List Event → Signup → Signup
  unfolding step
  run [] s = s
  run (e ∷ es) s = run es (step e s)

  -- A request of the action for fields that have passed the validation, none of which is blank.
  pub record IsRegistration (req : Request) : Type 0 where
    pub form : FormFields
    pub valid : IsValid form
    pub named : is_empty (trim form.username) ≡ false
    pub is_request :
        req ≡ register_request gateway (trim form.username) (trim form.email) form.password

  -- A registration that the gateway has taken.
  pub record IsTaken : Type 0 where
    pub past : List Request
    pub request : Request
    pub registration : IsRegistration request
    pub response : Response AuthBody
    pub answer : serve past request ≡ some response
    pub good : is_ok response ≡ true

  -- What the page has done to the browser: it has sent registrations, and it has left for the log-in
  -- only after one was taken; the tokens are as they were.
  pub record Adds (v w : World) : Type 0 where
    pub requests : List Request
    pub log : w.log ≡ v.log ++ requests
    pub registrations : All IsRegistration requests
    pub access_token : w.access_token ≡ v.access_token
    pub refresh_token : w.refresh_token ≡ v.refresh_token
    pub location : (w.location ≡ v.location) ⊎ ((w.location ≡ some "/login") × IsTaken)

  none_added : (w : World) → Adds w w
  none_added w = record {
    requests = [];
    log = sym (append-nil w.log);
    registrations = tt;
    access_token = refl;
    refresh_token = refl;
    location = inl refl;
  }

  one_added :
      (v w : World) (req : Request) (loc : Option String)
      → Adds v w
      → IsRegistration req
      → (loc ≡ v.location) ⊎ ((loc ≡ some "/login") × IsTaken)
      → Adds v (record w { log = w.log ++ req ∷ []; location = loc })
  one_added v w req loc a i l = record {
    requests = a.requests ++ req ∷ [];
    log = ap (λ p. p ++ req ∷ []) a.log ∙ append_assoc v.log a.requests (req ∷ []);
    registrations = All-append IsRegistration a.requests (req ∷ []) a.registrations (i, tt);
    access_token = a.access_token;
    refresh_token = a.refresh_token;
    location = l;
  }

  -- The reply to the registration `req`.
  register_reply-Adds :
      (v w : World) (req : Request) (reply : Reply AuthBody)
      → Adds v w
      → IsRegistration req
      → serve w.log req ≡ reply
      → Adds v (register_reply true reply (record w { log = w.log ++ req ∷ [] })).1
  unfolding register_reply
  register_reply-Adds v w req none a i e = one_added v w req w.location a i a.location
  register_reply-Adds v w req (some r) a i e = elim (Bool-cases (is_ok r)) [
    | inl good ↦ rw good (
        one_added v w req (some "/login") a i (
          inr (
            refl,
            record {
              past = w.log;
              request = req;
              registration = i;
              response = r;
              answer = e;
              good = good;
            },
          )))
    | inr bad ↦ rw bad (one_added v w req w.location a i a.location)
  ]

  register_action-Adds :
      (v w : World) (f : FormFields)
      → IsValid f
      → Adds v w
      → Adds v
          (register_action serve gateway true
            (some f.username)
            (some f.email)
            (some f.password)
            w).1
  unfolding register_action
  register_action-Adds v w f valid a =
      elim (Bool-cases
        (is_empty (trim f.username) || is_empty (trim f.email) || is_empty f.password)) [
          | inl blank ↦ rw blank a
          | inr full ↦ rw full (
              register_reply-Adds v w
                (register_request gateway (trim f.username) (trim f.email) f.password) _ a
                (record {
                  form = f;
                  valid = valid;
                  named = ground (arith, full);
                  is_request = refl;
                })
                refl)
        ]

  -- What every run keeps.
  record Holds (v : World) (s : Signup) : Type 0 where
    shown : Inv s.page
    sent : (f : FormFields) → s.pending ≡ some f → IsValid f
    adds : Adds v s.world

  create_account-Holds : (v : World) (s : Signup) → Holds v s → Holds v (create_account s)
  unfolding create_account start_create
  create_account-Holds v s h = go s.page.step refl
    where
      go :
          (g : Register.Step)
          → s.page.step ≡ g
          → Holds v (elim g [
            | one ↦ s
            | two ↦
                if is_some s.pending
                then s
                else record s { page = start_create s.page; pending = some s.page.form }
          ])
      go one e = h
      go two e = if_both (Holds v) (is_some s.pending) h (record {
        shown = h.shown;
        sent = λ f same. subst IsValid (ground (arith, same)) (h.shown e);
        adds = h.adds;
      })

  end_transition-Holds : (v : World) (s : Signup) → Holds v s → Holds v (end_transition s)
  unfolding end_transition
  end_transition-Holds v s h = elim (Option-cases s.pending) [
    | inl e ↦ rw (e, end_transition) h
    | inr (f, e) ↦
        rw (e, end_transition)
          (record {
            shown = finish_create-Inv _ s.page h.shown;
            sent = λ g e. absurd (ground (arith, e));
            adds = register_action-Adds v s.world f (h.sent f e) h.adds;
          })
  ]

  did-Holds :
      (v : World) (e : Register.Event) (s : Signup)
      → Holds v s
      → Holds v (record s { page = on_event e s.page })
  did-Holds v e s h = record { shown = on_event-Inv e s.page h.shown; sent = h.sent; adds = h.adds }

  step-Holds : (v : World) (e : Event) (s : Signup) → Holds v s → Holds v (step e s)
  unfolding step
  step-Holds v (did Register.submitted) s h = create_account-Holds v s h
  step-Holds v (did (Register.answered a)) s h = h
  step-Holds v (did (Register.typed k text)) s h = did-Holds v (Register.typed k text) s h
  step-Holds v (did Register.continued) s h = did-Holds v Register.continued s h
  step-Holds v (did (Register.chosen c)) s h = did-Holds v (Register.chosen c) s h
  step-Holds v (did Register.back) s h = did-Holds v Register.back s h
  step-Holds v ended s h = end_transition-Holds v s h

  run-Holds : (v : World) (es : List Event) (s : Signup) → Holds v s → Holds v (run es s)
  unfolding run
  run-Holds v [] s h = h
  run-Holds v (e ∷ es) s h = run-Holds v es (step e s) (step-Holds v e s h)

  -- However the user types, goes on and back, chooses and clicks "Create Account", and whatever
  -- the gateway answers: when the second step is shown, the form on it has passed the validation
  -- (a name, an email with an "@", a password of at least eight units that is the same as its
  -- confirmation); the page has sent nothing but registrations of forms that had passed it, with
  -- the name and the email trimmed and the name not blank; the tokens are as they were; and the
  -- address is as it was, or it is the log-in page and the gateway has taken such a registration.
  -- The page starts in its first step with no action under way.
  pub run_signs_up :
      (es : List Event) (s : Signup)
      → s.page.step ≡ one
      → s.pending ≡ none
      → ((run es s).page.step ≡ two → IsValid (run es s).page.form) × Adds s.world (run es s).world
  run_signs_up es s start idle =
      let h = run-Holds s.world es s (record {
        shown = λ shown. absurd (ground (arith, start, shown));
        sent = λ f e. absurd (ground (arith, idle, e));
        adds = none_added s.world;
      }) in
      (h.shown, h.adds)

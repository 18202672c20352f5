-- ===== src/Auth/Login/Runs.antt =====
-- login/page.tsx: what any run of the page has done to the browser.
use concordia_chat_app.Prelude.{
  ◌≡◌, ◌⊎◌, refl, ap, sym, subst, ◌∙◌, inl, inr, Bool, true, false, not, ◌||◌, none, some, List, [],
  ◌∷◌, ◌++◌, String, arith,
}
use mathlib.Core.List.{append_assoc, append-nil}
use concordia_chat_app.Prelude.Lists.{All, All-append}
use concordia_chat_app.Prelude.Tests.{is_empty, if_either, Option-cases}
use concordia_chat_app.Prelude.Text.{trim}
use concordia_chat_app.Http.{Response, Reply, is_ok}
use concordia_chat_app.Api.{Request, World, stored}
use concordia_chat_app.Auth.{AuthBody, AuthState, login_request}
use concordia_chat_app.Auth.Actions.{LoginEnds, blank, failed, done, login_action-LoginEnds}
use concordia_chat_app.Auth.Login.{
  Fields, Login, Event, submitted, ended, screen, submit, end_action, step, run,
}

module _ (is_email : String → Bool) (serve : List Request → Request → Reply AuthBody)
    (gateway : String) where
  pub record IsLogin (req : Request) : Type 0 where
    pub fields : Fields
    pub address : is_email fields.email ≡ true
    pub named : is_empty (trim fields.email) ≡ false
    pub secret : is_empty fields.password ≡ false
    pub is_request : req ≡ login_request gateway (trim fields.email) fields.password

  -- The browser holds the tokens of an answer to a log-in, and is at the start page.
  pub record IsInside (w : World) : Type 0 where
    pub past : List Request
    pub request : Request
    pub login : IsLogin request
    pub response : Response AuthBody
    pub body : AuthBody
    pub answer : serve past request ≡ some response
    pub good : is_ok response ≡ true
    pub has_body : response.json ≡ some body
    pub access_token : w.access_token ≡ some (stored body.access_token)
    pub refresh_token : w.refresh_token ≡ some (stored body.refresh_token)
    pub location : w.location ≡ some "/"

  pub record IsSame (v w : World) : Type 0 where
    pub access_token : w.access_token ≡ v.access_token
    pub refresh_token : w.refresh_token ≡ v.refresh_token
    pub location : w.location ≡ v.location

  -- What the page has done to the browser.
  pub record Adds (v w : World) : Type 0 where
    pub requests : List Request
    pub log : w.log ≡ v.log ++ requests
    pub logins : All IsLogin requests
    pub session : IsSame v w ⊎ IsInside w

  none_added : (w : World) → Adds w w
  none_added w = record {
    requests = [];
    log = sym (append-nil w.log);
    logins = tt;
    session = inl (record { access_token = refl; refresh_token = refl; location = refl });
  }

  abbrev request_of : Fields → Request
  request_of f = login_request gateway (trim f.email) f.password

  login_of :
      (f : Fields)
      → is_email f.email ≡ true
      → (is_empty (trim f.email) || is_empty f.password) ≡ false
      → IsLogin (request_of f)
  login_of f address full = record {
    fields = f;
    address = address;
    named = ground (arith, full);
    secret = ground (arith, full);
    is_request = refl;
  }

  one_more :
      (v w : World) (f : Fields) (a : Adds v w)
      → w.log ++ request_of f ∷ [] ≡ v.log ++ (a.requests ++ request_of f ∷ [])
  one_more v w f a =
      ap (λ p. p ++ request_of f ∷ []) a.log ∙ append_assoc v.log a.requests (request_of f ∷ [])

  kept :
      {v : World} (w : World) (req : Request)
      → IsSame v w ⊎ IsInside w
      → IsSame v (record w { log = w.log ++ req ∷ [] })
        ⊎ IsInside (record w { log = w.log ++ req ∷ [] })
  kept w req (inl i) = inl (record {
    access_token = i.access_token;
    refresh_token = i.refresh_token;
    location = i.location;
  })
  kept w req (inr i) = inr (record {
    past = i.past;
    request = i.request;
    login = i.login;
    response = i.response;
    body = i.body;
    answer = i.answer;
    good = i.good;
    has_body = i.has_body;
    access_token = i.access_token;
    refresh_token = i.refresh_token;
    location = i.location;
  })

  LoginEnds-Adds :
      (v w : World) (f : Fields) (state : AuthState) (w' : World)
      → is_email f.email ≡ true
      → Adds v w
      → LoginEnds serve gateway (some f.email) (some f.password) w state w'
      → Adds v w'
  LoginEnds-Adds v w f state w' address a (blank text e) = a
  LoginEnds-Adds v w f state w' address a (failed _ _ full bad e) = subst (Adds v) (sym e) (record {
    requests = a.requests ++ request_of f ∷ [];
    log = one_more v w f a;
    logins =
        All-append IsLogin a.requests (request_of f ∷ []) a.logins (login_of f address full, tt);
    session = kept w (request_of f) a.session;
  })
  LoginEnds-Adds v w f state w' address a (done _ r b full answer good body e) =
      subst (Adds v) (sym e) (record {
        requests = a.requests ++ request_of f ∷ [];
        log = one_more v w f a;
        logins =
            All-append IsLogin a.requests (request_of f ∷ []) a.logins
              (login_of f address full, tt);
        session = inr (record {
          past = w.log;
          request = request_of f;
          login = login_of f address full;
          response = r;
          body = b;
          answer = answer;
          good = good;
          has_body = body;
          access_token = refl;
          refresh_token = refl;
          location = refl;
        });
      })

  -- What every run keeps.
  record Holds (v : World) (s : Login) : Type 0 where
    sent : (f : Fields) → s.pending ≡ some f → is_email f.email ≡ true
    adds : Adds v s.world

  end_action-Holds :
      (v : World) (s : Login) → Holds v s → Holds v (end_action is_email serve gateway s)
  unfolding end_action
  end_action-Holds v s h = elim (Option-cases s.pending) [
    | inl e ↦ rw (e, end_action) h
    | inr (f, e) ↦
        rw (e, end_action)
          (record {
            sent = λ g same. absurd (ground (arith, same));
            adds =
                LoginEnds-Adds v s.world f _ _ (h.sent f e) h.adds
                  (login_action-LoginEnds serve gateway (some f.email) (some f.password) s.world);
          })
  ]

  submit-Holds : (v : World) (f : Fields) (s : Login) → Holds v s → Holds v (submit is_email f s)
  unfolding submit
  submit-Holds v f s h =
      if_either (Holds v)
        ((screen s).disabled || is_empty f.email || not (is_email f.email) || is_empty f.password)
        (λ e. h)
        (λ good. record {
          sent = λ g same.
              let e : f ≡ g = ground (arith, same) in
              subst (λ (k : Fields). is_email k.email ≡ true) e (ground (arith, good));
          adds = h.adds;
        })

  step-Holds :
      (v : World) (e : Event) (s : Login) → Holds v s → Holds v (step is_email serve gateway e s)
  unfolding step
  step-Holds v (submitted f) s h = submit-Holds v f s h
  step-Holds v ended s h = end_action-Holds v s h

  run-Holds :
      (v : World) (es : List Event) (s : Login)
      → Holds v s
      → Holds v (run is_email serve gateway es s)
  unfolding run
  run-Holds v [] s h = h
  run-Holds v (e ∷ es) s h = run-Holds v es (step is_email serve gateway e s) (step-Holds v e s h)

  -- However often the form is submitted, and whatever the gateway answers: the page has sent
  -- nothing but log-ins, with the email trimmed, neither field empty and the email one that the
  -- browser takes for an address; and either both tokens and the address are as they were, or the
  -- address is the start page and both tokens are those of a good answer of the gateway to such a
  -- log-in. No action is under way at the start.
  pub run_logs_in :
      (es : List Event) (s : Login)
      → s.pending ≡ none
      → Adds s.world (run is_email serve gateway es s).world
  run_logs_in es s idle =
      (run-Holds s.world es s
        (record { sent = λ f e. absurd (ground (arith, idle, e)); adds = none_added s.world })).adds

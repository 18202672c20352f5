-- ===== src/Auth/Registration.antt =====
-- actions/auth.ts: registering, and logging in with what was registered.
use concordia_chat_app.Prelude.{
  ◌≡◌, refl, true, false, ◌||◌, Option, some, List, [], ◌∷◌, ◌++◌, String, arith,
}
use concordia_chat_app.Prelude.Tests.{or_else, is_empty}
use concordia_chat_app.Http.{Response, Reply, is_ok}
use concordia_chat_app.Api.{Request, World, stored}
use concordia_chat_app.Auth.{
  AuthBody, undefined, trimmed, login_request, register_request, login_reply, register_reply,
  logged_in, login_action, register_action,
}

-- A log-in that the gateway takes.
pub login_action-done :
    (serve : List Request → Request → Reply AuthBody) (gateway : String)
    (email password : Option String) (w : World) (s : Response AuthBody) (b : AuthBody)
    → (is_empty (trimmed email) || is_empty (or_else password "")) ≡ false
    → serve w.log (login_request gateway (trimmed email) (or_else password "")) ≡ some s
    → is_ok s ≡ true
    → s.json ≡ some b
    → login_action serve gateway true email password w ≡ (
      undefined,
      logged_in true b (record w {
        log = w.log ++ login_request gateway (trimmed email) (or_else password "") ∷ [];
      }),
    )
unfolding login_action login_reply
login_action-done serve gateway email password w s b full answer fine body =
    rw (full, answer, fine, body)

module _ (serve : List Request → Request → Reply AuthBody) (gateway : String) where
  -- A user whose registration the gateway has taken is let in with the email and the password of it.
  pub record IsOpen : Type 0 where
    pub lets_in :
        (past : List Request) (username email password : String) (r : Response AuthBody)
        → serve past (register_request gateway username email password) ≡ some r
        → is_ok r ≡ true
        → (s : Response AuthBody) × (b : AuthBody) × (serve
              (past ++ register_request gateway username email password ∷ [])
              (login_request gateway email password)
            ≡ some s)
          × (is_ok s ≡ true)
          × (s.json ≡ some b)

  -- The browser after a registration that was taken.
  abbrev registered : String → String → String → World → World
  registered username email password w = record w {
    location = some "/login";
    log = w.log ++ register_request gateway username email password ∷ [];
  }

  module _ (username email password : Option String) (w : World) (r : Response AuthBody)
      (full : (is_empty (trimmed username)
          || is_empty (trimmed email)
          || is_empty (or_else password ""))
        ≡ false)
      (taken : serve w.log
          (register_request gateway (trimmed username) (trimmed email) (or_else password ""))
        ≡ some r)
      (good : is_ok r ≡ true) where
    register_action-registered :
        register_action serve gateway true username email password w
        ≡ (undefined, registered (trimmed username) (trimmed email) (or_else password "") w)
    unfolding register_action register_reply
    register_action-registered = rw (full, taken, good) refl

    -- Who registers and is taken can log in by typing the same email and password: the
    -- registration ends without an error at the login page with the session as it was, and the
    -- log-in, which the gateway answers, ends without an error at the start page with the two
    -- tokens of that answer stored. No field is empty, and the gateway lets in a user whose
    -- registration it has just taken, with the email and the password that were sent with it.
    pub register_then_login :
        IsOpen
        → let (state, there) = register_action serve gateway true username email password w in
          let (end_state, home) = login_action serve gateway true email password there in
          (state ≡ undefined)
          × (there.location ≡ some "/login")
          × (there.access_token ≡ w.access_token)
          × (there.refresh_token ≡ w.refresh_token)
          × (end_state ≡ undefined)
          × (home.location ≡ some "/")
          × ((answer : Response AuthBody) × (b : AuthBody) × (serve there.log
                  (login_request gateway (trimmed email) (or_else password ""))
                ≡ some answer)
              × (answer.json ≡ some b)
              × (home.access_token ≡ some (stored b.access_token))
              × (home.refresh_token ≡ some (stored b.refresh_token)))
    unfolding logged_in
    register_then_login gate =
        let mail : String = trimmed email in
        let word : String = or_else password "" in
        let (s, b, answer, fine, body) =
          gate.lets_in w.log (trimmed username) mail word r taken good in
        let there : World = registered (trimmed username) mail word w in
        rw register_action-registered (
          rw
            (login_action-done serve gateway email password there s b (ground arith) answer fine
              body)
            (refl, refl, refl, refl, refl, refl, (s, b, answer, body, refl, refl)))

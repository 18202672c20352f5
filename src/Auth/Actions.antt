-- ===== src/Auth/Actions.antt =====
-- actions/auth.ts: what logging in and out does to the session.
use concordia_chat_app.Prelude.{
  ◌≡◌, refl, true, false, ◌||◌, Option, none, some, List, [], ◌∷◌, ◌++◌, String, inl, inr,
}
use concordia_chat_app.Prelude.Tests.{or_else, is_empty, Bool-cases, Option-cases}
use concordia_chat_app.Http.{Response, Reply, is_ok}
use concordia_chat_app.Api.{Request, World, stored}
use concordia_chat_app.Auth.{
  AuthBody, AuthState, undefined, error, trimmed, login_request, login_reply, login_action,
}

module _ (serve : List Request → Request → Reply AuthBody) (gateway : String) where
  -- How a log-in in a browser ends: refused before any request, as the email (trimmed) or the
  -- password is empty; failed after one request, with the session as it was; or done, with the two
  -- tokens of the gateway's answer stored and the browser sent to the start page.
  pub data LoginEnds (email password : Option String) (w : World) : AuthState → World → Type 0 where
    blank :
        (text : String)
        → (is_empty (trimmed email) || is_empty (or_else password "")) ≡ true
        → LoginEnds email password w (error text) w
    failed :
        (state : AuthState) (w' : World)
        → (is_empty (trimmed email) || is_empty (or_else password "")) ≡ false
        → (state ≡ undefined → ⊥)
        → w' ≡ record w {
          log = w.log ++ login_request gateway (trimmed email) (or_else password "") ∷ [];
        }
        → LoginEnds email password w state w'
    done :
        (w' : World) (r : Response AuthBody) (b : AuthBody)
        → (is_empty (trimmed email) || is_empty (or_else password "")) ≡ false
        → serve w.log (login_request gateway (trimmed email) (or_else password "")) ≡ some r
        → is_ok r ≡ true
        → r.json ≡ some b
        → w' ≡ record w {
          access_token = some (stored b.access_token);
          refresh_token = some (stored b.refresh_token);
          location = some "/";
          log = w.log ++ login_request gateway (trimmed email) (or_else password "") ∷ [];
        }
        → LoginEnds email password w undefined w'

  login_reply-LoginEnds :
      (email password : Option String) (w : World) (reply : Reply AuthBody)
      → (is_empty (trimmed email) || is_empty (or_else password "")) ≡ false
      → serve w.log (login_request gateway (trimmed email) (or_else password "")) ≡ reply
      → let out = login_reply true reply (record w {
        log = w.log ++ login_request gateway (trimmed email) (or_else password "") ∷ [];
      }) in
        LoginEnds email password w out.0 out.1
  unfolding login_reply
  login_reply-LoginEnds email password w none full e = failed _ _ full (λ h. cc) refl
  login_reply-LoginEnds email password w (some r) full e = elim (Bool-cases (is_ok r)) [
    | inl good ↦ elim (Option-cases r.json) [
      | inl bad ↦ rw (good, bad) (failed _ _ full (λ h. cc) refl)
      | inr (b, body) ↦ rw (good, body) (done _ r b full e good body refl)
    ]
    | inr refused ↦ rw refused (failed _ _ full (λ h. cc) refl)
  ]

  -- Whatever the form holds and the gateway answers, a log-in in a browser ends in one of three
  -- ways: with an error and neither a request nor a change, with an error after one request and an
  -- unchanged session, or with the two tokens of the answer stored and the browser at the start
  -- page.
  pub login_action-LoginEnds :
      (email password : Option String) (w : World)
      → let out = login_action serve gateway true email password w in
        LoginEnds email password w out.0 out.1
  unfolding login_action
  login_action-LoginEnds email password w =
      elim (Bool-cases (is_empty (trimmed email) || is_empty (or_else password ""))) [
        | inl e ↦ rw (e, login_action) (blank _ e)
        | inr e ↦ rw (e, login_action) (login_reply-LoginEnds email password w _ e refl)
      ]

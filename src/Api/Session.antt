-- ===== src/Api/Session.antt =====
-- api.ts, `apiFetch`: what a request may do to the session, and how many requests it makes.
use concordia_chat_app.Prelude.{
  ℕ, ◌+◌, ◌≤◌, ◌≡◌, refl, sym, ◌∙◌, Bool, true, false, ◌&&◌, Option, none, some, List, [], ◌∷◌,
  ◌++◌, String, arith, inl, inr,
}
use concordia_chat_app.Prelude.Lists.{length, length-append}
use concordia_chat_app.Prelude.Tests.{eqb, if_both, truthy, or_else, Bool-cases, Option-cases}
use concordia_chat_app.Prelude.Text.{◌&◌}
use concordia_chat_app.Http.{Response, Reply, is_ok}
use concordia_chat_app.Api.{
  Request, World, stored, refresh_request, retry, refreshed, after_response, first_request,
  api_fetch,
}

truthy-some : (o : Option String) → truthy o ≡ true → o ≡ some (or_else o "")
truthy-some none h = cc
truthy-some (some s) h = refl

is_401 : (n : ℕ) → eqb n 401 ≡ true → n ≡ 401
is_401 n h = ground arith

and_right : (a b : Bool) → (a && b) ≡ true → b ≡ true
and_right a b h = ground arith

and_left : (a b : Bool) → (a && b) ≡ true → a ≡ true
and_left a b h = ground arith

module _ {A : Type 0} (serve : List Request → Request → Reply A)
    (access_token_of : A → Option String) (gateway : String) where
  -- The ways in which a request leaves the session: as it was; with the access token that the
  -- gateway gave in answer to the stored refresh token; or closed, with both tokens gone and the
  -- browser sent to the login page, after the gateway has refused that refresh token.
  pub data Leaves (w : World) : Reply A → World → Type 0 where
    kept :
        (res : Reply A) (w' : World)
        → w'.access_token ≡ w.access_token
        → w'.refresh_token ≡ w.refresh_token
        → w'.location ≡ w.location
        → Leaves w res w'
    renewed :
        (res : Reply A) (w' : World) (past : List Request) (token : String) (r : Response A) (a : A)
        → w.refresh_token ≡ some token
        → serve past (refresh_request gateway token) ≡ some r
        → is_ok r ≡ true
        → r.json ≡ some a
        → w'.access_token ≡ some (stored (access_token_of a))
        → w'.refresh_token ≡ w.refresh_token
        → w'.location ≡ w.location
        → Leaves w res w'
    ended :
        (res : Response A) (w' : World) (past : List Request) (token : String) (r : Response A)
        → w.refresh_token ≡ some token
        → serve past (refresh_request gateway token) ≡ some r
        → is_ok r ≡ false
        → res.status ≡ 401
        → w'.access_token ≡ none
        → w'.refresh_token ≡ none
        → w'.location ≡ some "/login"
        → Leaves w (some res) w'

  -- The tokens and the address are those of another state.
  pub record Same (v w : World) : Type 0 where
    pub access : w.access_token ≡ v.access_token
    pub refresh : w.refresh_token ≡ v.refresh_token
    pub place : w.location ≡ v.location

  retry_session :
      (req : Request) (res : Response A) (token : Option String) (w : World)
      → let w' = (retry serve access_token_of gateway req res token w).1 in
        (w'.access_token ≡ some (stored token))
        × (w'.refresh_token ≡ w.refresh_token)
        × (w'.location ≡ w.location)
  unfolding retry
  retry_session req res token w = ground arith

  refreshed-Leaves :
      (req : Request) (res : Response A) (past : List Request) (token : String) (v w : World)
      (answer : Reply A)
      → res.status ≡ 401
      → v.refresh_token ≡ some token
      → Same v w
      → serve past (refresh_request gateway token) ≡ answer
      → let out = refreshed serve access_token_of gateway req res answer w in Leaves v out.0 out.1
  unfolding refreshed
  refreshed-Leaves req res past token v w none h t s e = kept _ _ s.access s.refresh s.place
  refreshed-Leaves req res past token v w (some r) h t s e = elim (Bool-cases (is_ok r)) [
    | inl good ↦ elim (Option-cases r.json) [
      | inl bad ↦ rw (good, bad) (kept _ _ s.access s.refresh s.place)
      | inr (a, body) ↦
          let (x, y, z) = retry_session req res (access_token_of a) w in
          rw (good, body) (renewed _ _ past token r a t e good body x (y ∙ s.refresh) (z ∙ s.place))
    ]
    | inr refused ↦ rw refused (ended res _ past token r t e refused h refl refl refl)
  ]

  after_response-Leaves :
      (req : Request) (res : Reply A) (v w : World)
      → Same v w
      → let out = after_response serve access_token_of gateway req res w in Leaves v out.0 out.1
  unfolding after_response
  after_response-Leaves req none v w s = kept _ _ s.access s.refresh s.place
  after_response-Leaves req (some res) v w s =
      elim (Bool-cases (eqb res.status 401 && truthy w.refresh_token)) [
        | inl e ↦
            let held = truthy-some w.refresh_token (and_right _ _ e) in
            rw e (
              refreshed-Leaves req res w.log _ v
                (record w {
                  log = w.log ++ refresh_request gateway (or_else w.refresh_token "") ∷ [];
                })
                _ (is_401 res.status (and_left _ _ e)) (sym s.refresh ∙ held)
                (record { access = s.access; refresh = s.refresh; place = s.place }) refl)
        | inr e ↦ rw e (kept _ _ s.access s.refresh s.place)
      ]

  -- Every request, to any path, leaves the session in one of three ways, whatever the gateway
  -- answers and when: as it was; with the access token that the gateway gave in answer to the
  -- stored refresh token; or closed, after the gateway has refused that refresh token.
  pub api_fetch-Leaves :
      (browser : Bool) (path : String) (init : Request) (w : World)
      → let out = api_fetch serve access_token_of gateway browser path init w in
        Leaves w out.0 out.1
  unfolding api_fetch
  api_fetch-Leaves true path init w =
      let req : Request = first_request gateway true path init w in
      after_response-Leaves req (serve w.log req) w (record w { log = w.log ++ req ∷ [] })
        (record { access = refl; refresh = refl; place = refl })
  api_fetch-Leaves false path init w = kept _ _ refl refl refl

  retry-length :
      (req : Request) (res : Response A) (token : Option String) (w : World)
      → length (retry serve access_token_of gateway req res token w).1.log ≡ length w.log + 1
  unfolding retry
  retry-length req res token w = ground (
    arith,
    length-append w.log (record req { authorization = some ("Bearer " & stored token) } ∷ []),
  )

  refreshed-length :
      (req : Request) (res : Response A) (answer : Reply A) (w : World)
      → length (refreshed serve access_token_of gateway req res answer w).1.log ≤ length w.log + 1
  unfolding refreshed
  refreshed-length req res none w = omega arith
  refreshed-length req res (some r) w = elim (Option-cases r.json) [
    | inl e ↦ rw e (
        if_both (λ (o : Reply A × World). length o.1.log ≤ length w.log + 1) (is_ok r) (omega arith)
          (omega arith))
    | inr (a, e) ↦ rw e (
        if_both (λ (o : Reply A × World). length o.1.log ≤ length w.log + 1) (is_ok r)
          (omega (arith, retry-length req res (access_token_of a) w)) (omega arith))
  ]

  after_response-length :
      (req : Request) (res : Reply A) (w : World)
      → length (after_response serve access_token_of gateway req res w).1.log ≤ length w.log + 2
  unfolding after_response
  after_response-length req none w = omega arith
  after_response-length req (some res) w =
      let asked : World = record w {
        log = w.log ++ refresh_request gateway (or_else w.refresh_token "") ∷ [];
      } in
      let answer = serve w.log (refresh_request gateway (or_else w.refresh_token "")) in
      if_both (λ (o : Reply A × World). length o.1.log ≤ length w.log + 2)
        (eqb res.status 401 && truthy w.refresh_token)
        (omega (
          arith,
          refreshed-length req res answer asked,
          length-append w.log (refresh_request gateway (or_else w.refresh_token "") ∷ []),
        ))
        (omega arith)

  -- One call makes at most three requests, whatever the gateway answers.
  pub api_fetch_requests :
      (browser : Bool) (path : String) (init : Request) (w : World)
      → length (api_fetch serve access_token_of gateway browser path init w).1.log
        ≤ length w.log + 3
  unfolding api_fetch
  api_fetch_requests true path init w =
      let req = first_request gateway true path init w in
      let made : World = record w { log = w.log ++ req ∷ [] } in
      omega
        (arith, length-append w.log (req ∷ []), after_response-length req (serve w.log req) made)
  api_fetch_requests false path init w =
      let req = first_request gateway false path init w in
      omega (arith, length-append w.log (req ∷ []))

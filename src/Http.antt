-- ===== src/Http.antt =====
-- What the components see of `fetch`: a response with its status and its body. The browser and the
-- services behind the gateway are not part of these sources: a reply is an argument of each step.
use concordia_chat_app.Prelude.{ℕ, Bool, ◌&&◌, Option}
use concordia_chat_app.Prelude.Tests.{leb}

-- `json` is what `res.json()` gives, and `none` if it rejects.
pub record Response (A : Type 0) : Type 0 where
  pub status : ℕ
  pub json : Option A

-- `res.ok`: the status is in the range 200 to 299.
abbrev pub is_ok : {A : Type 0} → Response A → Bool
is_ok r = leb 200 r.status && leb r.status 299

-- `none` is a rejected promise: the request did not reach the server.
abbrev pub Reply : Type 0 → Type 0
Reply A = Option (Response A)

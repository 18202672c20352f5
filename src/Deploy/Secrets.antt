-- ===== src/Deploy/Secrets.antt =====
-- infra/cdk/bin/concordia.ts: the secrets of a deployment, kept in a file between deployments, and
-- the settings with their defaults. The random texts are an argument.
use concordia_chat_app.Prelude.{
  arith, inl, inr, ap, ◌≡◌, refl, Bool, true, false, not, ◌||◌, Option, none, some, String,
}
use concordia_chat_app.Prelude.Tests.{Bool-cases, truthy, or_else, if◌then◌else◌}

-- The type `Secrets`, and what the file holds of it.
pub record Secrets : Type 0 where
  pub db_password : String
  pub jwt_secret : String
  pub audit_writer_password : String
  pub audit_reader_password : String

pub record Stored : Type 0 where
  pub db_password : Option String
  pub jwt_secret : Option String
  pub audit_writer_password : Option String
  pub audit_reader_password : Option String

abbrev pub nothing_stored : Stored
nothing_stored = record {
  db_password = none;
  jwt_secret = none;
  audit_writer_password = none;
  audit_reader_password = none;
}

-- The body of the loop, for one key: `if (!secrets[k]) secrets[k] = v`.
unfoldable pub fill : String → Option String → String
fill v old = if truthy old then or_else old "" else v

-- The loop over the keys.
unfoldable pub fill_all : Secrets → Stored → Secrets
unfolding fill
fill_all new old = record {
  db_password = fill new.db_password old.db_password;
  jwt_secret = fill new.jwt_secret old.jwt_secret;
  audit_writer_password = fill new.audit_writer_password old.audit_writer_password;
  audit_reader_password = fill new.audit_reader_password old.audit_reader_password;
}

-- `secretsChanged` after the loop.
unfoldable pub secrets_changed : Stored → Bool
secrets_changed old =
    not (truthy old.db_password)
    || not (truthy old.jwt_secret)
    || not (truthy old.audit_writer_password)
    || not (truthy old.audit_reader_password)

abbrev pub to_file : Secrets → Stored
to_file s = record {
  db_password = some s.db_password;
  jwt_secret = some s.jwt_secret;
  audit_writer_password = some s.audit_writer_password;
  audit_reader_password = some s.audit_reader_password;
}

-- The secrets that a deployment uses, and the file after it.
unfoldable pub deploy : Secrets → Option Stored → Secrets × Option Stored
unfolding fill_all secrets_changed
deploy new file =
    let old : Stored = or_else file nothing_stored in
    let used : Secrets = fill_all new old in
    (used, if secrets_changed old then some (to_file used) else file)

-- No secret is empty.
pub record IsFull (s : Secrets) : Type 0 where
  pub db_password : truthy (some s.db_password) ≡ true
  pub jwt_secret : truthy (some s.jwt_secret) ≡ true
  pub audit_writer_password : truthy (some s.audit_writer_password) ≡ true
  pub audit_reader_password : truthy (some s.audit_reader_password) ≡ true

fill-full :
    (v : String) (old : Option String) → truthy (some v) ≡ true → truthy (some (fill v old)) ≡ true
unfolding fill
fill-full v none h = h
fill-full v (some String.[]) h = h
fill-full v (some (String.◌∷◌ c s)) h = refl

fill-old : (v w : String) → truthy (some w) ≡ true → fill v (some w) ≡ w
unfolding fill
fill-old v w h = rw h

fill_all-IsFull : (new : Secrets) (old : Stored) → IsFull new → IsFull (fill_all new old)
unfolding fill_all
fill_all-IsFull new old f = record {
  db_password = fill-full new.db_password old.db_password f.db_password;
  jwt_secret = fill-full new.jwt_secret old.jwt_secret f.jwt_secret;
  audit_writer_password =
      fill-full new.audit_writer_password old.audit_writer_password f.audit_writer_password;
  audit_reader_password =
      fill-full new.audit_reader_password old.audit_reader_password f.audit_reader_password;
}

fill_all-old : (new used : Secrets) → IsFull used → fill_all new (to_file used) ≡ used
unfolding fill_all
fill_all-old new used f = rw (
  fill-old new.db_password used.db_password f.db_password,
  fill-old new.jwt_secret used.jwt_secret f.jwt_secret,
  fill-old new.audit_writer_password used.audit_writer_password f.audit_writer_password,
  fill-old new.audit_reader_password used.audit_reader_password f.audit_reader_password,
)

settled : (used : Secrets) → IsFull used → secrets_changed (to_file used) ≡ false
unfolding secrets_changed
settled used f = rw (f.db_password, f.jwt_secret, f.audit_writer_password, f.audit_reader_password)

fill-held : (v w : String) (old : Option String) → truthy old ≡ true → fill v old ≡ fill w old
unfolding fill
fill-held v w old h = rw h refl

fill_all-held :
    (first second : Secrets) (old : Stored)
    → secrets_changed old ≡ false
    → fill_all second old ≡ fill_all first old
unfolding fill_all secrets_changed
fill_all-held first second old h =
    rw
      (
        fill-held second.db_password first.db_password old.db_password (ground arith),
        fill-held second.jwt_secret first.jwt_secret old.jwt_secret (ground arith),
        fill-held second.audit_writer_password first.audit_writer_password old.audit_writer_password
            (ground arith),
        fill-held second.audit_reader_password first.audit_reader_password old.audit_reader_password
            (ground arith),
      )
      refl

-- A deployment leaves a file from which the next one uses the same secrets, whatever new ones it
-- would make, and which that one does not change; and no secret used is empty. The new secrets are
-- not empty; those that the file has may be absent or empty.
pub deploy_stable :
    (first second : Secrets) (file : Option Stored)
    → IsFull first
    → let (used, after) = deploy first file in IsFull used × (deploy second after ≡ (used, after))
unfolding deploy
deploy_stable first second none f =
    let used : Secrets = fill_all first nothing_stored in
    let full : IsFull used = fill_all-IsFull first nothing_stored f in
    (full, rw (settled used full, fill_all-old second used full) refl)
deploy_stable first second (some old) f =
    let used : Secrets = fill_all first old in
    let full : IsFull used = fill_all-IsFull first old f in
    elim (Bool-cases (secrets_changed old)) [
      | inl e ↦ rw e (full, rw (settled used full, fill_all-old second used full) refl)
      | inr e ↦ rw e (full, rw e (ap (λ u. (u, some old)) (fill_all-held first second old e)))
    ]

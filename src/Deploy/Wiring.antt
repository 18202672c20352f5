-- ===== src/Deploy/Wiring.antt =====
-- cluster-construct.ts: the references between the objects of the cluster.
use Prim.Native.Char.{code}
use Prim.Native.String
use concordia_chat_app.Prelude.{
  ℕ, ◌≡◌, refl, inl, inr, Bool, true, false, ◌&&◌, ◌||◌, none, some, List, [], ◌∷◌, String, ◌==◌,
  arith,
}
use concordia_chat_app.Prelude.Lists.{any, every}
use concordia_chat_app.Prelude.Keyed.{IsUnique}
use concordia_chat_app.Prelude.Tests.{ltb, eqb, truthy, Bool-cases, if◌then◌else◌}
use concordia_chat_app.Prelude.Text.{decimal}
use concordia_chat_app.Deploy.{EnvVar, value, secret_ref, Deployment, Service, ServicePort, Volume}
use concordia_chat_app.Deploy.Workloads.{Props, Images, app_secret, gateway_env}
use concordia_chat_app.Deploy.Jobs.{Object, secret, job, stateful_set, deployed, served, workloads}

abbrev env_of : Object → List EnvVar
env_of (secret name keys) = []
env_of (job j) = j.env
env_of (stateful_set s) = s.env
env_of (deployed d) = d.env
env_of (served s) = []

abbrev volumes_of : Object → List Volume
volumes_of (secret name keys) = []
volumes_of (job j) = []
volumes_of (stateful_set s) = []
volumes_of (deployed d) = d.volumes
volumes_of (served s) = []

abbrev pub is_secret : String → Object → Bool
is_secret name (secret n keys) = n == name
is_secret name (job j) = false
is_secret name (stateful_set s) = false
is_secret name (deployed d) = false
is_secret name (served s) = false

abbrev holds_key : String → Object → Bool
holds_key key (secret n keys) = n == "concordia-secrets" && any (λ k. k == key) keys
holds_key key (job j) = false
holds_key key (stateful_set s) = false
holds_key key (deployed d) = false
holds_key key (served s) = false

-- The object opens these ports to a selector.
abbrev opens : Service → Object → Bool
opens s (secret n keys) = false
opens s (job j) = false
opens s (stateful_set t) =
    t.label == s.selector && every (λ (p : ServicePort). any (eqb p.target_port) t.ports) s.ports
opens s (deployed d) =
    d.name == s.selector && every (λ (p : ServicePort). any (eqb p.target_port) d.ports) s.ports
opens s (served t) = false

abbrev pub is_backed : List Object → Object → Bool
is_backed os (secret n keys) = true
is_backed os (job j) = true
is_backed os (stateful_set t) = true
is_backed os (deployed d) = true
is_backed os (served s) = any (opens s) os

-- The probes ask a port that the container opens, and the liveness probe starts after the
-- readiness probe.
abbrev is_probed : Deployment → Bool
is_probed d = elim d.readiness [
  | none ↦ false
  | some r ↦ elim d.liveness [
    | none ↦ false
    | some l ↦ any (eqb r.port) d.ports && eqb l.port r.port && ltb r.initial_delay l.initial_delay
  ]
]

abbrev pub is_probed_object : Object → Bool
is_probed_object (secret n keys) = true
is_probed_object (job j) = true
is_probed_object (stateful_set t) = true
is_probed_object (deployed d) = d.name == "reverse-proxy" || is_probed d
is_probed_object (served s) = true

-- What names an object: its kind and its name.
abbrev pub name_of : Object → String
name_of (secret n keys) = String.◌++◌ "secret/" n
name_of (job j) = String.◌++◌ "job/" j.name
name_of (stateful_set t) = String.◌++◌ "statefulset/" t.name
name_of (deployed d) = String.◌++◌ "deployment/" d.name
name_of (served s) = String.◌++◌ "service/" s.name

-- `http://host:port/path`, `host:port` or `host`: what stands before and after the colon in front of the
-- port.
abbrev upto : ℕ → String → String
upto c String.[] = ""
upto c (String.◌∷◌ d s) = let rest = upto c s in if eqb (code d) c then "" else String.◌∷◌ d rest

abbrev after : ℕ → String → String
after c String.[] = ""
after c (String.◌∷◌ d s) = let rest = after c s in if eqb (code d) c then s else rest

-- The parts of an address, a colon being 58 and a slash 47.
abbrev authority : String → String
authority s = if upto 58 s == "http" then upto 47 (after 47 (after 47 s)) else s

abbrev reaches : String → Object → Bool
reaches s (secret n keys) = false
reaches s (job j) = false
reaches s (stateful_set t) = false
reaches s (deployed d) = false
reaches s (served t) =
    t.name == upto 58 (authority s)
    && (after 58 (authority s) == ""
        || any (λ (p : ServicePort). decimal p.port == after 58 (authority s)) t.ports)

-- The variables whose values are made from the properties of the stack: addresses outside of the
-- cluster, names and limits.
abbrev given : List String
given =
    "KAFKA" ∷ "PGHOST" ∷ "PGUSER" ∷ "AUDIT_WRITER_PASSWORD" ∷ "AUDIT_READER_PASSWORD"
    ∷ "SPRING_DATASOURCE_URL" ∷ "SPRING_KAFKA_BOOTSTRAP_SERVERS" ∷ "KAFKA_BROKERS" ∷ "REDIS_ADDR"
    ∷ "CHAT_CACHE_REDIS_ADDR" ∷ "GATEWAY_WS_BACKPLANE" ∷ "ALLOWED_ORIGINS" ∷ "API_RATE_LIMIT"
    ∷ "API_RATE_BURST" ∷ []

-- The variables with a fixed value that is no address: ports, switches, sizes and names.
abbrev settings : List String
settings =
    "PGPORT" ∷ "PGDATABASE" ∷ "PGSSLMODE" ∷ "CASSANDRA_CLUSTER_NAME" ∷ "MAX_HEAP_SIZE"
    ∷ "HEAP_NEWSIZE" ∷ "SERVER_PORT" ∷ "GATEWAY_PORT" ∷ "TLS_ENABLED" ∷ "GRPC_PORT"
    ∷ "PRESENCE_PORT" ∷ "AUDIT_PORT" ∷ "AUDIT_TOPIC" ∷ "CHAT_PORT" ∷ "CASSANDRA_KEYSPACE"
    ∷ "CHAT_CACHE_ENABLED" ∷ "CHAT_CACHE_TTL_SECONDS" ∷ "VOICE_PORT" ∷ "SECURITY_SECURE_CHANNEL"
    ∷ []

-- Any other variable with a value holds the name of a service, with one of its ports if with any.
abbrev pub resolves : List Object → EnvVar → Bool
resolves os v = elim v.source [
  | secret_ref key ↦ true
  | value s ↦ any (λ n. n == v.name) given || any (λ n. n == v.name) settings || any (reaches s) os
]

abbrev pub is_known : List Object → EnvVar → Bool
is_known os v = elim v.source [ value s ↦ true | secret_ref key ↦ any (holds_key key) os ]

-- Every variable of every object.
abbrev pub every_var : (EnvVar → Bool) → List Object → Bool
every_var p os = every (λ o. every p (env_of o)) os

abbrev pub every_volume : (Volume → Bool) → List Object → Bool
every_volume p os = every (λ o. every p (volumes_of o)) os

-- For any properties and images: each secret value that a variable of a workload or a job refers
-- to is a key of the secret that is deployed with it, and each secret that a volume mounts is
-- deployed too.
pub secrets_are_known :
    (p : Props) (i : Images)
    → let os = workloads p i in
      (every_var (is_known os) os ≡ true)
      × (every_volume (λ v. any (is_secret v.secret_name) os) os ≡ true)
unfolding workloads app_secret gateway_env
secrets_are_known p i = elim (Bool-cases (truthy p.app_origin)) [
  | inl e ↦ (rw e refl, refl)
  | inr e ↦ (rw e refl, refl)
]

-- For any properties and images: each service selects a workload that opens every port to which it
-- leads; each variable with a value holds the name of a service, with one of the ports of that
-- service where it has a port, unless it is one of those listed as settings or as made from the
-- properties of the stack; every deployment but the reverse proxy is probed on a port that it
-- opens, with the liveness probe after the readiness probe; and no two objects of a kind have one
-- name.
pub cluster_is_wired :
    (p : Props) (i : Images)
    → let os = workloads p i in
      (every (is_backed os) os ≡ true)
      × (every_var (resolves os) os ≡ true)
      × (every is_probed_object os ≡ true)
      × IsUnique name_of os
unfolding workloads gateway_env decimal
cluster_is_wired p i = elim (Bool-cases (truthy p.app_origin)) [
  | inl e ↦ (refl, rw e refl, refl, distinct)
  | inr e ↦ (refl, rw e refl, refl, distinct)
]
  where
    distinct : IsUnique name_of (workloads p i)
    distinct = ground arith

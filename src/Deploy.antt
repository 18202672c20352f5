-- ===== src/Deploy.antt =====
-- infra/cdk/lib/cluster-construct.ts: the Kubernetes objects of the cluster. The cloud libraries
-- are not part of these sources; what is modelled is the data that is handed to them.
pub mod Workloads
pub mod Jobs
pub mod Wiring
pub mod Order
pub mod Secrets
pub mod Stack
pub mod Redeploy
mod Tests
use concordia_chat_app.Prelude.{ℕ, ◌+◌, Option, none, some, List, [], ◌∷◌, String}
use concordia_chat_app.Prelude.Tests.{or_else, truthy, if◌then◌else◌}

-- The value of an environment variable: a text, or a key of the secret `concordia-secrets`.
pub data Source : Type 0 where
  value : String → Source
  secret_ref : String → Source

pub record EnvVar : Type 0 where
  pub name : String
  pub source : Source

pub record Probe : Type 0 where
  pub path : String
  pub port : ℕ
  pub initial_delay : ℕ
  pub period : ℕ
  pub failure_threshold : ℕ

pub record Resources : Type 0 where
  pub memory : String
  pub cpu : String

-- A volume that mounts a secret.
pub record Volume : Type 0 where
  pub name : String
  pub mount_path : String
  pub secret_name : String

-- The last argument of the function `deployment`.
pub record Extra : Type 0 where
  pub health_path : Option String
  pub startup_delay : Option ℕ
  pub volumes : List Volume
  pub ports : Option (List ℕ)
  pub replicas : Option ℕ
  pub resources : Option Resources

abbrev pub no_extra : Extra
no_extra = record {
  health_path = none;
  startup_delay = none;
  volumes = [];
  ports = none;
  replicas = none;
  resources = none;
}

pub record Deployment : Type 0 where
  pub name : String
  pub image : String
  pub ports : List ℕ
  pub env : List EnvVar
  pub replicas : ℕ
  pub readiness : Option Probe
  pub liveness : Option Probe
  pub volumes : List Volume
  pub resources : Option Resources

abbrev pub readiness_of : ℕ → Extra → Option Probe
readiness_of port extra =
    if truthy extra.health_path
    then some (record {
      path = or_else extra.health_path "";
      port = port;
      initial_delay = or_else extra.startup_delay 10;
      period = 10;
      failure_threshold = 30;
    })
    else none

abbrev pub liveness_of : ℕ → Extra → Option Probe
liveness_of port extra =
    if truthy extra.health_path
    then some (record {
      path = or_else extra.health_path "";
      port = port;
      initial_delay = or_else extra.startup_delay 10 + 30;
      period = 15;
      failure_threshold = 6;
    })
    else none

-- `deployment`
unfoldable pub deployment : String → String → ℕ → List EnvVar → Extra → Deployment
deployment name image port env extra = record {
  name = name;
  image = image;
  ports = or_else extra.ports (port ∷ []);
  env = env;
  replicas = or_else extra.replicas 1;
  readiness = readiness_of port extra;
  liveness = liveness_of port extra;
  volumes = extra.volumes;
  resources = extra.resources;
}

-- A port of a service, with the port of the pods that it leads to.
pub record ServicePort : Type 0 where
  pub port : ℕ
  pub target_port : ℕ

pub record Service : Type 0 where
  pub name : String
  pub type : String
  pub selector : String
  pub ports : List ServicePort

-- `service`; the annotations are left out.
unfoldable pub service : String → ℕ → ℕ → Option String → Option (List ServicePort) → Service
service name port target_port type ports = record {
  name = name;
  type = or_else type "ClusterIP";
  selector = name;
  ports = or_else ports ((record { port = port; target_port = target_port }) ∷ []);
}

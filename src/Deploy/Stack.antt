-- ===== src/Deploy/Stack.antt =====
-- infra/cdk/bin/concordia.ts, lib/concordia-stack.ts, lib/network-construct.ts, lib/data-construct.ts
-- and the nodes and images of lib/cluster-construct.ts: from the settings to the whole stack. What the
-- cloud answers for an object (its address, the address of a built image) is an argument. Backups,
-- removal policies and the placement in subnets are left out.
use concordia_chat_app.Prelude.{ℕ, Bool, Option, none, some, List, [], ◌∷◌, String, ◌==◌}
use concordia_chat_app.Prelude.Tests.{or_else, if◌then◌else◌}
use concordia_chat_app.Prelude.Text.{◌&◌}
use concordia_chat_app.Deploy.Workloads.{Props, Images}
use concordia_chat_app.Deploy.Jobs.{Object, workloads}
use concordia_chat_app.Deploy.Secrets.{Secrets}

-- What `-c` gives on the command line.
pub record Context : Type 0 where
  pub arch : Option String
  pub app_origin : Option String
  pub api_rate_limit : Option String
  pub api_rate_burst : Option String
  pub gateway_replicas : Option ℕ
  pub auth_replicas : Option ℕ

pub record Subnet : Type 0 where
  pub name : String
  pub type : String
  pub cidr_mask : ℕ

pub record Vpc : Type 0 where
  pub max_azs : ℕ
  pub nat_gateways : ℕ
  pub subnets : List Subnet

unfoldable pub network : Vpc
network = record {
  max_azs = 2;
  nat_gateways = 1;
  subnets =
      (record { name = "public"; type = "PUBLIC"; cidr_mask = 24 })
      ∷ (record { name = "private"; type = "PRIVATE_WITH_EGRESS"; cidr_mask = 24 })
      ∷ [];
}

-- The database, with the port that its security group opens to the VPC.
pub record Postgres : Type 0 where
  pub database_name : String
  pub username : String
  pub password : String
  pub port : ℕ
  pub allocated_storage : ℕ
  pub max_allocated_storage : ℕ

pub record Redis : Type 0 where
  pub engine : String
  pub node_type : String
  pub nodes : ℕ
  pub port : ℕ

pub record Kafka : Type 0 where
  pub cluster_name : String
  pub version : String
  pub broker_nodes : ℕ
  pub instance_type : String
  pub volume_size : ℕ
  pub client_broker : String
  pub port : ℕ

pub record Data : Type 0 where
  pub postgres : Postgres
  pub redis : Redis
  pub cache_redis : Redis
  pub kafka : Kafka

abbrev small_redis : Redis
small_redis = record { engine = "redis"; node_type = "cache.t3.micro"; nodes = 1; port = 6379 }

-- `DataConstruct`
unfoldable pub data_of : String → String → Data
data_of username password = record {
  postgres = record {
    database_name = "auth_db";
    username = username;
    password = password;
    port = 5432;
    allocated_storage = 20;
    max_allocated_storage = 50;
  };
  redis = small_redis;
  cache_redis = small_redis;
  kafka = record {
    cluster_name = "concordia";
    version = "3.6.0";
    broker_nodes = 2;
    instance_type = "kafka.t3.small";
    volume_size = 20;
    client_broker = "PLAINTEXT";
    port = 9092;
  };
}

-- The attributes of the data objects that the cloud fills in.
pub record Attributes : Type 0 where
  pub db_hostname : String
  pub redis_address : String
  pub redis_port : String
  pub cache_address : String
  pub cache_port : String
  pub bootstrap_brokers : String

-- The properties that reach `ClusterConstruct`, with the defaults of the settings.
unfoldable pub props_of : Context → Secrets → Attributes → Props
props_of c s a = record {
  app_origin = c.app_origin;
  api_rate_limit = or_else c.api_rate_limit "100000000";
  api_rate_burst = or_else c.api_rate_burst "10000000";
  gateway_replicas = or_else c.gateway_replicas 2;
  auth_replicas = or_else c.auth_replicas 3;
  db_endpoint = a.db_hostname;
  db_username = "concordia";
  db_password = s.db_password;
  jwt_secret = s.jwt_secret;
  audit_writer_password = s.audit_writer_password;
  audit_reader_password = s.audit_reader_password;
  redis_endpoint = a.redis_address & ":" & a.redis_port;
  cache_redis_endpoint = a.cache_address & ":" & a.cache_port;
  kafka_bootstrap = a.bootstrap_brokers;
}

-- `isArm` of the architecture.
abbrev pub is_arm : Context → Bool
is_arm c = or_else c.arch "arm64" == "arm64"

pub record NodeGroup : Type 0 where
  pub instance_type : String
  pub ami_type : String
  pub min_size : ℕ
  pub max_size : ℕ
  pub desired_size : ℕ

unfoldable pub nodes : Context → NodeGroup
nodes c = record {
  instance_type = if is_arm c then "t4g.medium" else "t3.medium";
  ami_type = if is_arm c then "AL2023_ARM_64_STANDARD" else "AL2023_X86_64_STANDARD";
  min_size = 2;
  max_size = 4;
  desired_size = 3;
}

-- An image to build: the directory, from the root of the repository, the file if it is named, and the
-- platform.
pub record ImageAsset : Type 0 where
  pub id : String
  pub directory : String
  pub file : Option String
  pub platform : String

abbrev pub platform : Context → String
platform c = if is_arm c then "LINUX_ARM64" else "LINUX_AMD64"

unfoldable pub assets : Context → List ImageAsset
assets c =
    (record {
      id = "GatewayImage";
      directory = "";
      file = some "services/gateway/Dockerfile";
      platform = platform c;
    })
    ∷ (record {
      id = "AuthImage";
      directory = "";
      file = some "services/auth/Dockerfile";
      platform = platform c;
    })
    ∷ (record {
      id = "WebImage";
      directory = "apps/web-app";
      file = some "Dockerfile.prod";
      platform = platform c;
    })
    ∷ (record {
      id = "ProxyImage";
      directory = "services/reverse-proxy";
      file = none;
      platform = platform c;
    })
    ∷ (record {
      id = "ServersImage";
      directory = "";
      file = some "services/servers/Dockerfile";
      platform = platform c;
    })
    ∷ (record {
      id = "PresenceImage";
      directory = "services/presence";
      file = none;
      platform = platform c;
    })
    ∷ (record {
      id = "AuditImage";
      directory = "";
      file = some "services/audit/Dockerfile";
      platform = platform c;
    })
    ∷ (record {
      id = "VoiceImage";
      directory = "";
      file = some "services/voice/Dockerfile";
      platform = platform c;
    })
    ∷ (record {
      id = "ChatImage";
      directory = "";
      file = some "services/chat/Dockerfile";
      platform = platform c;
    })
    ∷ []

pub record Stack : Type 0 where
  pub vpc : Vpc
  pub data_layer : Data
  pub node_group : NodeGroup
  pub images : List ImageAsset
  pub objects : List Object

-- `ConcordiaStack`
unfoldable pub stack : Context → Secrets → Attributes → Images → Stack
unfolding network data_of props_of nodes assets workloads
stack c s a i = record {
  vpc = network;
  data_layer = data_of (props_of c s a).db_username (props_of c s a).db_password;
  node_group = nodes c;
  images = assets c;
  objects = workloads (props_of c s a) i;
}

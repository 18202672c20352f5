-- ===== src/Deploy/Jobs.antt =====
-- cluster-construct.ts: the jobs that prepare Kafka, the databases and Cassandra, Cassandra itself,
-- and the list of all objects. The tags that are the same in all objects of a kind are left out.
use concordia_chat_app.Prelude.{ℕ, some, none, List, [], ◌∷◌, String, map}
use concordia_chat_app.Prelude.Text.{◌&◌, join}
use concordia_chat_app.Deploy.{EnvVar, Deployment, Service, Resources, service}
use concordia_chat_app.Deploy.Workloads.{
  Props, Images, text, from_secret, app_secret, auth_deployment, servers_deployment,
  presence_deployment, audit_deployment, voice_deployment, chat_deployment, gateway_deployment,
  web_deployment, proxy_deployment, port_to,
}

-- A job with one container, which runs `bash -c` with one argument.
pub record Job : Type 0 where
  pub name : String
  pub backoff_limit : ℕ
  pub image : String
  pub script : String
  pub env : List EnvVar

unfoldable pub kafka_topics : List String
kafka_topics = "user-registered" ∷ "message-created" ∷ "mention" ∷ "audit.events" ∷ []

abbrev pub create_topic : String → String
create_topic t =
    "kafka-topics.sh --bootstrap-server \"$KAFKA\" --create --if-not-exists --topic " & t
    & " --partitions 1 --replication-factor 2"

unfoldable pub kafka_topic_init : Props → Job
unfolding kafka_topics
kafka_topic_init p = record {
  name = "kafka-topic-init";
  backoff_limit = 20;
  image = "bitnamilegacy/kafka:3.8";
  script = join " && " (map create_topic kafka_topics) & " && echo \"topics ready\"";
  env = text "KAFKA" p.kafka_bootstrap ∷ [];
}

-- `dbInitScript`, before its lines are joined.
unfoldable pub db_init_lines : List String
db_init_lines =
    "set -e" ∷ "for db in servers_db audit; do"
    ∷ "  psql -tc \"SELECT 1 FROM pg_database WHERE datname='$db'\" | grep -q 1 || psql -c \"CREATE DATABASE $db\""
    ∷ "done"
    ∷ "psql -d audit -c \"CREATE ROLE audit_writer LOGIN PASSWORD '$AUDIT_WRITER_PASSWORD'\" || true"
    ∷ "psql -d audit -c \"ALTER ROLE audit_writer LOGIN PASSWORD '$AUDIT_WRITER_PASSWORD'\""
    ∷ "psql -d audit -c \"CREATE ROLE audit_reader LOGIN PASSWORD '$AUDIT_READER_PASSWORD'\" || true"
    ∷ "psql -d audit -c \"ALTER ROLE audit_reader LOGIN PASSWORD '$AUDIT_READER_PASSWORD'\""
    ∷ "psql -d audit -v ON_ERROR_STOP=1 <<'SQL'" ∷ "CREATE TABLE IF NOT EXISTS audit_events ("
    ∷ "  seq BIGSERIAL PRIMARY KEY," ∷ "  event_id UUID NOT NULL UNIQUE,"
    ∷ "  event_type TEXT NOT NULL," ∷ "  timestamp TEXT NOT NULL," ∷ "  actor JSONB NOT NULL,"
    ∷ "  resource JSONB," ∷ "  outcome TEXT NOT NULL," ∷ "  metadata JSONB," ∷ "  prev_hash TEXT,"
    ∷ "  hash TEXT NOT NULL," ∷ "  received_at TIMESTAMPTZ NOT NULL DEFAULT now()" ∷ ");"
    ∷ "CREATE INDEX IF NOT EXISTS idx_audit_type ON audit_events (event_type);"
    ∷ "CREATE INDEX IF NOT EXISTS idx_audit_actor ON audit_events ((actor->>'user_id'));"
    ∷ "CREATE INDEX IF NOT EXISTS idx_audit_ts ON audit_events (timestamp);"
    ∷ "GRANT USAGE ON SCHEMA public TO audit_writer;"
    ∷ "GRANT INSERT, SELECT ON audit_events TO audit_writer;"
    ∷ "GRANT USAGE, SELECT ON SEQUENCE audit_events_seq_seq TO audit_writer;"
    ∷ "GRANT USAGE ON SCHEMA public TO audit_reader;"
    ∷ "GRANT SELECT ON audit_events TO audit_reader;" ∷ "SQL" ∷ "echo \"db-init done\"" ∷ []

unfoldable pub db_init : Props → Job
unfolding db_init_lines
db_init p = record {
  name = "db-init";
  backoff_limit = 20;
  image = "postgres:16";
  script = join "\n" db_init_lines;
  env =
      text "PGHOST" p.db_endpoint
      ∷ text "PGPORT" "5432"
      ∷ text "PGUSER" p.db_username
      ∷ from_secret "PGPASSWORD" "DB_PASSWORD"
      ∷ text "PGDATABASE" "auth_db"
      ∷ text "PGSSLMODE" "require"
      ∷ text "AUDIT_WRITER_PASSWORD" p.audit_writer_password
      ∷ text "AUDIT_READER_PASSWORD" p.audit_reader_password
      ∷ [];
}

-- A claim of storage, and the path at which the container mounts it.
pub record Claim : Type 0 where
  pub name : String
  pub storage_class : String
  pub storage : String
  pub mount_path : String

-- A probe that runs `bash -c` with one argument.
pub record ExecProbe : Type 0 where
  pub script : String
  pub initial_delay : ℕ
  pub period : ℕ
  pub timeout : ℕ
  pub failure_threshold : ℕ

pub record StatefulSet : Type 0 where
  pub name : String
  pub service_name : String
  pub replicas : ℕ
  pub label : String
  pub image : String
  pub ports : List ℕ
  pub env : List EnvVar
  pub resources : Resources
  pub grace_period : ℕ
  pub readiness : ExecProbe
  pub claim : Claim

unfoldable pub cassandra_stateful_set : StatefulSet
cassandra_stateful_set = record {
  name = "cassandra";
  service_name = "cassandra";
  replicas = 1;
  label = "cassandra";
  image = "cassandra:4";
  ports = 9042 ∷ [];
  env =
      text "CASSANDRA_CLUSTER_NAME" "concordia"
      ∷ text "MAX_HEAP_SIZE" "1024M"
      ∷ text "HEAP_NEWSIZE" "200M"
      ∷ [];
  resources = record { memory = "1Gi"; cpu = "250m" };
  grace_period = 120;
  readiness = record {
    script = "cqlsh -e 'describe cluster'";
    initial_delay = 60;
    period = 15;
    timeout = 10;
    failure_threshold = 30;
  };
  claim = record {
    name = "data";
    storage_class = "gp3";
    storage = "10Gi";
    mount_path = "/var/lib/cassandra";
  };
}

-- The headless service; it has no address of its own, which its type says here.
unfoldable pub cassandra_service : Service
cassandra_service = record {
  name = "cassandra";
  type = "None";
  selector = "cassandra";
  ports = port_to 9042 ∷ [];
}

unfoldable pub cassandra_init : Job
cassandra_init = record {
  name = "cassandra-init";
  backoff_limit = 30;
  image = "cassandra:4";
  script =
      "cqlsh cassandra -e \"CREATE KEYSPACE IF NOT EXISTS discord_chat WITH replication = {'class':'SimpleStrategy','replication_factor':1};\" && echo keyspace-ready";
  env = [];
}

-- The arguments of `addManifest('Workloads', …)`. The two secrets are given by name and keys.
pub data Object : Type 0 where
  secret : String → List String → Object
  job : Job → Object
  stateful_set : StatefulSet → Object
  deployed : Deployment → Object
  served : Service → Object

unfoldable pub workloads : Props → Images → List Object
unfolding app_secret kafka_topic_init db_init cassandra_stateful_set cassandra_service
    cassandra_init auth_deployment servers_deployment presence_deployment audit_deployment
    voice_deployment chat_deployment gateway_deployment web_deployment proxy_deployment service
workloads p i =
    secret "concordia-secrets" (map (λ (s : String × String). s.0) (app_secret p))
    ∷ secret "tls-certs" ("server.crt" ∷ "server.key" ∷ [])
    ∷ job (kafka_topic_init p)
    ∷ job (db_init p)
    ∷ stateful_set cassandra_stateful_set
    ∷ served cassandra_service
    ∷ job cassandra_init
    ∷ deployed (auth_deployment p i)
    ∷ served (service "auth" 8081 8081 none none)
    ∷ deployed (servers_deployment p i)
    ∷ served (service "servers" 8082 8082 none (some (port_to 8082 ∷ port_to 50051 ∷ [])))
    ∷ deployed (presence_deployment p i)
    ∷ served (service "presence" 8086 8086 none none)
    ∷ deployed (audit_deployment p i)
    ∷ served (service "audit" 8087 8087 none none)
    ∷ deployed (voice_deployment p i)
    ∷ served (service "voice" 8084 8084 none none)
    ∷ deployed (chat_deployment p i)
    ∷ served (service "chat" 8083 8083 none none)
    ∷ deployed (gateway_deployment p i)
    ∷ served (service "gateway" 8080 8080 none none)
    ∷ deployed (web_deployment i)
    ∷ served (service "web-app" 3000 3000 none none)
    ∷ deployed (proxy_deployment p i)
    ∷ served (
        service "reverse-proxy" 443 443 (some "LoadBalancer")
          (some (port_to 80 ∷ port_to 443 ∷ [])))
    ∷ []

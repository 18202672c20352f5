-- ===== src/Deploy/Workloads.antt =====
-- cluster-construct.ts: the workloads, with the properties of the stack as `Props` and the image
-- addresses, which the cloud library computes, as `Images`.
use concordia_chat_app.Prelude.{ℕ, Option, some, List, [], ◌∷◌, ◌++◌, String}
use concordia_chat_app.Prelude.Tests.{ltb, truthy, or_else, if◌then◌else◌}
use concordia_chat_app.Prelude.Text.{◌&◌}
use concordia_chat_app.Deploy.{
  EnvVar, value, secret_ref, Extra, no_extra, Resources, Deployment, deployment, ServicePort,
}

pub record Props : Type 0 where
  pub app_origin : Option String
  pub api_rate_limit : String
  pub api_rate_burst : String
  pub gateway_replicas : ℕ
  pub auth_replicas : ℕ
  pub db_endpoint : String
  pub db_username : String
  pub db_password : String
  pub jwt_secret : String
  pub audit_writer_password : String
  pub audit_reader_password : String
  pub redis_endpoint : String
  pub cache_redis_endpoint : String
  pub kafka_bootstrap : String

pub record Images : Type 0 where
  pub auth : String
  pub gateway : String
  pub web : String
  pub proxy : String
  pub servers : String
  pub presence : String
  pub audit : String
  pub voice : String
  pub chat : String

abbrev pub text : String → String → EnvVar
text name v = record { name = name; source = value v }

abbrev pub from_secret : String → String → EnvVar
from_secret name key = record { name = name; source = secret_ref key }

abbrev pub small_jvm : Resources
small_jvm = record { memory = "768Mi"; cpu = "250m" }

abbrev pub health : String → ℕ → Extra
health path delay = record no_extra { health_path = some path; startup_delay = some delay }

-- `appSecret.stringData`
unfoldable pub app_secret : Props → List (String × String)
app_secret p =
    ("JWT_SECRET", p.jwt_secret)
    ∷ ("DB_USERNAME", p.db_username)
    ∷ ("DB_PASSWORD", p.db_password)
    ∷ (
      "AUDIT_DB_WRITER_URL",
      "postgres://audit_writer:" & p.audit_writer_password & "@" & p.db_endpoint
          & ":5432/audit?sslmode=require",
    )
    ∷ (
      "AUDIT_DB_READER_URL",
      "postgres://audit_reader:" & p.audit_reader_password & "@" & p.db_endpoint
          & ":5432/audit?sslmode=require",
    )
    ∷ []

unfoldable pub auth_deployment : Props → Images → Deployment
unfolding deployment
auth_deployment p i =
    deployment "auth" i.auth 8081
      (text "SERVER_PORT" "8081"
        ∷ text "SPRING_DATASOURCE_URL" ("jdbc:postgresql://" & p.db_endpoint & ":5432/auth_db")
        ∷ from_secret "SPRING_DATASOURCE_USERNAME" "DB_USERNAME"
        ∷ from_secret "SPRING_DATASOURCE_PASSWORD" "DB_PASSWORD"
        ∷ from_secret "JWT_SECRET" "JWT_SECRET"
        ∷ text "SPRING_KAFKA_BOOTSTRAP_SERVERS" p.kafka_bootstrap
        ∷ [])
      (record (health "/health" 60) { replicas = some p.auth_replicas; resources = some small_jvm })

-- `gatewayEnv`, with the origin pushed where there is one.
unfoldable pub gateway_env : Props → List EnvVar
gateway_env p =
    let env : List EnvVar =
      text "GATEWAY_PORT" "8080"
      ∷ from_secret "JWT_SECRET" "JWT_SECRET"
      ∷ text "TLS_ENABLED" "false"
      ∷ text "AUTH_URL" "http://auth:8081"
      ∷ text "KAFKA_BROKERS" p.kafka_bootstrap
      ∷ text "REDIS_ADDR" p.redis_endpoint
      ∷ text "GATEWAY_WS_BACKPLANE" (if ltb 1 p.gateway_replicas then "true" else "false")
      ∷ [] in
    if truthy p.app_origin
    then env ++ text "ALLOWED_ORIGINS" (or_else p.app_origin "") ∷ []
    else env

unfoldable pub gateway_deployment : Props → Images → Deployment
unfolding deployment gateway_env
gateway_deployment p i =
    deployment "gateway" i.gateway 8080 (gateway_env p)
      (record (health "/health" 10) { replicas = some p.gateway_replicas })

unfoldable pub web_deployment : Images → Deployment
unfolding deployment
web_deployment i =
    deployment "web-app" i.web 3000 []
      (record (health "/" 5) { resources = some (record { memory = "512Mi"; cpu = "100m" }) })

unfoldable pub servers_deployment : Props → Images → Deployment
unfolding deployment
servers_deployment p i =
    deployment "servers" i.servers 8082
      (text "SERVER_PORT" "8082"
        ∷ text "GRPC_PORT" "50051"
        ∷ text "SPRING_DATASOURCE_URL" ("jdbc:postgresql://" & p.db_endpoint & ":5432/servers_db")
        ∷ from_secret "SPRING_DATASOURCE_USERNAME" "DB_USERNAME"
        ∷ from_secret "SPRING_DATASOURCE_PASSWORD" "DB_PASSWORD"
        ∷ from_secret "JWT_SECRET" "JWT_SECRET"
        ∷ text "SPRING_KAFKA_BOOTSTRAP_SERVERS" p.kafka_bootstrap
        ∷ [])
      (record (health "/health" 60) {
        ports = some (8082 ∷ 50051 ∷ []);
        resources = some small_jvm;
      })

unfoldable pub presence_deployment : Props → Images → Deployment
unfolding deployment
presence_deployment p i =
    deployment "presence" i.presence 8086
      (text "PRESENCE_PORT" "8086"
        ∷ text "REDIS_ADDR" p.redis_endpoint
        ∷ from_secret "JWT_SECRET" "JWT_SECRET"
        ∷ [])
      (health "/health" 10)

unfoldable pub audit_deployment : Props → Images → Deployment
unfolding deployment
audit_deployment p i =
    deployment "audit" i.audit 8087
      (text "AUDIT_PORT" "8087"
        ∷ text "KAFKA_BROKERS" p.kafka_bootstrap
        ∷ text "AUDIT_TOPIC" "audit.events"
        ∷ from_secret "AUDIT_DB_WRITER_URL" "AUDIT_DB_WRITER_URL"
        ∷ from_secret "AUDIT_DB_READER_URL" "AUDIT_DB_READER_URL"
        ∷ from_secret "JWT_SECRET" "JWT_SECRET"
        ∷ [])
      (health "/health" 20)

unfoldable pub chat_deployment : Props → Images → Deployment
unfolding deployment
chat_deployment p i =
    deployment "chat" i.chat 8083
      (text "CHAT_PORT" "8083"
        ∷ text "CASSANDRA_HOST" "cassandra"
        ∷ text "CASSANDRA_KEYSPACE" "discord_chat"
        ∷ text "KAFKA_BROKERS" p.kafka_bootstrap
        ∷ text "SERVERS_GRPC_ADDR" "http://servers:50051"
        ∷ text "SERVERS_HTTP_ADDR" "http://servers:8082"
        ∷ text "PRESENCE_HTTP_ADDR" "http://presence:8086"
        ∷ text "GATEWAY_INTERNAL_PUSH_URL" "http://gateway:8080/internal/push"
        ∷ from_secret "JWT_SECRET" "JWT_SECRET"
        ∷ text "CHAT_CACHE_ENABLED" "true"
        ∷ text "CHAT_CACHE_REDIS_ADDR" ("redis://" & p.cache_redis_endpoint)
        ∷ text "CHAT_CACHE_TTL_SECONDS" "5"
        ∷ [])
      (health "/health" 20)

unfoldable pub voice_deployment : Props → Images → Deployment
unfolding deployment
voice_deployment p i =
    deployment "voice" i.voice 8084
      (text "VOICE_PORT" "8084"
        ∷ text "REDIS_ADDR" ("redis://" & p.redis_endpoint)
        ∷ text "GRPC_ADDR" "servers:50051"
        ∷ text "KAFKA_BROKERS" p.kafka_bootstrap
        ∷ from_secret "JWT_SECRET" "JWT_SECRET"
        ∷ [])
      (health "/health" 15)

unfoldable pub proxy_deployment : Props → Images → Deployment
unfolding deployment
proxy_deployment p i =
    deployment "reverse-proxy" i.proxy 443
      (text "SECURITY_SECURE_CHANNEL" "true"
        ∷ text "API_RATE_LIMIT" p.api_rate_limit
        ∷ text "API_RATE_BURST" p.api_rate_burst
        ∷ [])
      (record no_extra {
        ports = some (80 ∷ 443 ∷ 8088 ∷ []);
        volumes =
            (record { name = "certs"; mount_path = "/certs"; secret_name = "tls-certs" }) ∷ [];
      })

abbrev pub port_to : ℕ → ServicePort
port_to n = record { port = n; target_port = n }

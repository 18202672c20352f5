-- ===== src/Deploy/Tests.antt =====
-- cluster-construct.ts and bin/concordia.ts: their theorems at a concrete stack.
use concordia_chat_app.Prelude.{◌≡◌, refl, true, none, some, List, [], ◌∷◌}
use concordia_chat_app.Prelude.Lists.{any, every}
use concordia_chat_app.Prelude.Keyed.{IsUnique}
use concordia_chat_app.Deploy.Order.{
  Part, namespace, nodegroup, ebs_csi_addon, storage_class, nlb_hostname, follows, dependencies,
}
use concordia_chat_app.Deploy.Workloads.{Props, Images, app_secret}
use concordia_chat_app.Deploy.Jobs.{Object, workloads}
use concordia_chat_app.Deploy.Wiring.{
  every_var, every_volume, is_known, is_secret, is_backed, resolves, is_probed_object, name_of,
  secrets_are_known, cluster_is_wired,
}
use concordia_chat_app.Deploy.Stack.{Context, Attributes, stack, props_of}
use concordia_chat_app.Deploy.Redeploy.{value_of, is_runnable, redeploy}
use concordia_chat_app.Deploy.Secrets.{Secrets, Stored, IsFull, nothing_stored, deploy}

abbrev props : Props
props = record {
  app_origin = some "https://chat.example";
  api_rate_limit = "100000000";
  api_rate_burst = "10000000";
  gateway_replicas = 2;
  auth_replicas = 3;
  db_endpoint = "db";
  db_username = "concordia";
  db_password = "p";
  jwt_secret = "j";
  audit_writer_password = "w";
  audit_reader_password = "r";
  redis_endpoint = "redis:6379";
  cache_redis_endpoint = "cache:6379";
  kafka_bootstrap = "kafka:9092";
}

abbrev images : Images
images = record {
  auth = "a";
  gateway = "g";
  web = "w";
  proxy = "p";
  servers = "s";
  presence = "pr";
  audit = "au";
  voice = "v";
  chat = "c";
}

abbrev objects : List Object
objects = workloads props images

secrets_are_known_example :
    (every_var (is_known objects) objects ≡ true)
    × (every_volume (λ v. any (is_secret v.secret_name) objects) objects ≡ true)
secrets_are_known_example = secrets_are_known props images

cluster_is_wired_example :
    (every (is_backed objects) objects ≡ true)
    × (every_var (resolves objects) objects ≡ true)
    × (every is_probed_object objects ≡ true)
    × IsUnique name_of objects
cluster_is_wired_example = cluster_is_wired props images

abbrev made : Secrets
made = record {
  db_password = "a";
  jwt_secret = "b";
  audit_writer_password = "c";
  audit_reader_password = "d";
}

abbrev made_later : Secrets
made_later = record {
  db_password = "e";
  jwt_secret = "f";
  audit_writer_password = "g";
  audit_reader_password = "h";
}

-- A file of an older version, without the passwords of the audit database.
abbrev file : Stored
file = record nothing_stored { db_password = some "old"; jwt_secret = some "jwt" }

made-IsFull : IsFull made
made-IsFull = record {
  db_password = refl;
  jwt_secret = refl;
  audit_writer_password = refl;
  audit_reader_password = refl;
}

abbrev context : Context
context = record {
  arch = some "amd64";
  app_origin = none;
  api_rate_limit = none;
  api_rate_burst = some "20";
  gateway_replicas = none;
  auth_replicas = some 1;
}

abbrev attributes : Attributes
attributes = record {
  db_hostname = "db";
  redis_address = "redis";
  redis_port = "6379";
  cache_address = "cache";
  cache_port = "6379";
  bootstrap_brokers = "kafka:9092";
}

redeploy_example :
    let (used, after) = deploy made (some file) in
    let (used_again, after_again) = deploy made_later after in
    let s = stack context used attributes images in
    IsFull used
    × (stack context used_again attributes images ≡ s)
    × (after_again ≡ after)
    × (value_of "DB_USERNAME" (app_secret (props_of context used attributes))
        ≡ some s.data_layer.postgres.username)
    × (value_of "DB_PASSWORD" (app_secret (props_of context used attributes))
        ≡ some s.data_layer.postgres.password)
    × (every (is_runnable s.node_group) s.images ≡ true)
redeploy_example = redeploy context made made_later (some file) attributes images made-IsFull

-- An order that the dependencies allow.
creation_follows :
    follows []
      (namespace ∷ nodegroup ∷ ebs_csi_addon ∷ storage_class ∷ Part.workloads ∷ nlb_hostname ∷ [])
    ≡ true
unfolding follows dependencies
creation_follows = refl

-- ===== src/Deploy/Redeploy.antt =====
-- The stack of infra/cdk: one deployment after another, and what its layers share.
use concordia_chat_app.Prelude.{
  ◌≡◌, refl, ap, Bool, true, Option, none, some, List, [], ◌∷◌, String, ◌==◌, inl, inr,
}
use concordia_chat_app.Prelude.Lists.{every}
use concordia_chat_app.Prelude.Tests.{Bool-cases, if◌then◌else◌}
use concordia_chat_app.Deploy.Workloads.{Images, app_secret}
use concordia_chat_app.Deploy.Secrets.{Secrets, Stored, IsFull, deploy, deploy_stable}
use concordia_chat_app.Deploy.Stack.{
  Context, Attributes, NodeGroup, ImageAsset, props_of, network, data_of, nodes, assets, stack,
  is_arm,
}

-- The value of a key of a secret.
abbrev pub value_of : String → List (String × String) → Option String
value_of key [] = none
value_of key (p ∷ ps) = let rest = value_of key ps in if p.0 == key then some p.1 else rest

-- The platform of the images that nodes with this system run.
abbrev pub runs : String → String
runs ami = if ami == "AL2023_ARM_64_STANDARD" then "LINUX_ARM64" else "LINUX_AMD64"

abbrev pub is_runnable : NodeGroup → ImageAsset → Bool
is_runnable n i = i.platform == runs n.ami_type

-- Whatever the settings and the file of secrets are, a deployment uses no empty secret, and the
-- next one, whatever new secrets it would make, builds the same stack and leaves the file as it
-- is; the user and the password in the secret of the cluster are those that the database is made
-- with; and every image is built for the platform that the system of the nodes runs. The new
-- secrets are not empty; those that the file has may be absent or empty.
pub redeploy :
    (c : Context) (first second : Secrets) (file : Option Stored) (a : Attributes) (i : Images)
    → IsFull first
    → let (used, after) = deploy first file in
      let (used_again, after_again) = deploy second after in
      let s = stack c used a i in
      IsFull used
      × (stack c used_again a i ≡ s)
      × (after_again ≡ after)
      × (value_of "DB_USERNAME" (app_secret (props_of c used a))
          ≡ some s.data_layer.postgres.username)
      × (value_of "DB_PASSWORD" (app_secret (props_of c used a))
          ≡ some s.data_layer.postgres.password)
      × (every (is_runnable s.node_group) s.images ≡ true)
unfolding stack props_of network data_of nodes assets app_secret
redeploy c first second file a i f =
    let (full, same) = deploy_stable first second file f in
    (
      full,
      ap (λ (x : Secrets × Option Stored). stack c x.0 a i) same,
      ap (λ (x : Secrets × Option Stored). x.1) same,
      refl,
      refl,
      runnable,
    )
  where
    runnable : every (is_runnable (nodes c)) (assets c) ≡ true
    runnable = elim (Bool-cases (is_arm c)) [ inl e ↦ rw e refl | inr e ↦ rw e refl ]

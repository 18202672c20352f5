-- ===== src/Deploy/Order.antt =====
-- cluster-construct.ts: the parts of the cluster that wait for one another, the storage class and the
-- outputs. The cloud library creates a part after those that it depends on.
use concordia_chat_app.Prelude.{
  ℕ, ◌≡◌, refl, Bool, true, ◌&&◌, ◌||◌, List, [], ◌∷◌, ◌++◌, String, arith,
}
use concordia_chat_app.Prelude.Lists.{any, every}
use concordia_chat_app.Prelude.Tests.{eqb}
use concordia_chat_app.Prelude.Text.{◌&◌}

-- The node group, the add-on for volumes, the storage class, the namespace, the workloads, and the
-- host name of the load balancer.
pub data Part : Type 0 where
  nodegroup ebs_csi_addon storage_class namespace workloads nlb_hostname : Part

abbrev pub index : Part → ℕ
index nodegroup = 0
index ebs_csi_addon = 1
index storage_class = 2
index namespace = 3
index workloads = 4
index nlb_hostname = 5

-- The calls of `addDependency`.
unfoldable pub dependencies : Part → List Part
dependencies nodegroup = []
dependencies ebs_csi_addon = nodegroup ∷ []
dependencies storage_class = ebs_csi_addon ∷ []
dependencies namespace = []
dependencies workloads = namespace ∷ storage_class ∷ []
dependencies nlb_hostname = workloads ∷ []

pub record StorageClass : Type 0 where
  pub name : String
  pub is_default : Bool
  pub provisioner : String
  pub binding_mode : String
  pub type : String

abbrev pub gp3 : StorageClass
gp3 = record {
  name = "gp3";
  is_default = true;
  provisioner = "ebs.csi.aws.com";
  binding_mode = "WaitForFirstConsumer";
  type = "gp3";
}

-- The outputs of the stack.
unfoldable pub app_url : String → String
app_url hostname = "https://" & hostname

unfoldable pub kubeconfig_command : String → String → String
kubeconfig_command cluster region =
    "aws eks update-kubeconfig --name " & cluster & " --region " & region

abbrev pub is_in : Part → List Part → Bool
is_in p xs = any (λ q. eqb (index p) (index q)) xs

-- An order in which each part comes after those that it depends on; `done` is there already.
unfoldable pub follows : List Part → List Part → Bool
unfolding dependencies
follows done [] = true
follows done (p ∷ ps) = every (λ d. is_in d done) (dependencies p) && follows (p ∷ done) ps

-- What is there has all that it depends on.
record IsClosed (done : List Part) : Type 0 where
  addon : is_in ebs_csi_addon done ≡ true → is_in nodegroup done ≡ true
  class : is_in storage_class done ≡ true → is_in ebs_csi_addon done ≡ true

more-IsClosed :
    (p : Part) (done : List Part)
    → every (λ d. is_in d done) (dependencies p) ≡ true
    → IsClosed done
    → IsClosed (p ∷ done)
unfolding dependencies
more-IsClosed nodegroup done h c = record { addon = λ e. refl; class = c.class }
more-IsClosed ebs_csi_addon done h c = record { addon = λ e. ground (arith, h); class = λ e. refl }
more-IsClosed storage_class done h c = record { addon = c.addon; class = λ e. ground (arith, h) }
more-IsClosed namespace done h c = record { addon = c.addon; class = c.class }
more-IsClosed workloads done h c = record { addon = c.addon; class = c.class }
more-IsClosed nlb_hostname done h c = record { addon = c.addon; class = c.class }

-- A part of the first list, or one that is there already.
abbrev is_before : Part → List Part → List Part → Bool
is_before k xs done = is_in k xs || is_in k done

step_before :
    (k p : Part) (xs done : List Part)
    → is_before k xs (p ∷ done) ≡ true
    → is_before k (p ∷ xs) done ≡ true
step_before k p xs done h = ground (arith, h)

all_before :
    (done xs ys : List Part)
    → IsClosed done
    → follows done (xs ++ workloads ∷ ys) ≡ true
    → (is_before namespace xs done ≡ true)
      × (is_before storage_class xs done ≡ true)
      × (is_before ebs_csi_addon xs done ≡ true)
      × (is_before nodegroup xs done ≡ true)
unfolding follows dependencies
all_before done [] ys c h =
    let n : is_in namespace done ≡ true = ground (arith, h) in
    let s : is_in storage_class done ≡ true = ground (arith, h) in
    (n, s, c.class s, c.addon (c.class s))
all_before done (p ∷ xs) ys c h =
    let now : every (λ d. is_in d done) (dependencies p) ≡ true = ground (arith, h) in
    let later : follows (p ∷ done) (xs ++ workloads ∷ ys) ≡ true = ground (arith, h) in
    let (n, s, e, g) = all_before (p ∷ done) xs ys (more-IsClosed p done now c) later in
    (
      step_before namespace p xs done n,
      step_before storage_class p xs done s,
      step_before ebs_csi_addon p xs done e,
      step_before nodegroup p xs done g,
    )

-- In every order that the dependencies allow, the workloads come after the namespace and the storage
-- class, and so after the add-on that provides its volumes and the nodes that the add-on runs on.
pub workloads_last :
    (xs ys : List Part)
    → follows [] (xs ++ workloads ∷ ys) ≡ true
    → (is_in namespace xs ≡ true)
      × (is_in storage_class xs ≡ true)
      × (is_in ebs_csi_addon xs ≡ true)
      × (is_in nodegroup xs ≡ true)
workloads_last xs ys h =
    let (n, s, e, g) = all_before [] xs ys (record { addon = λ e. e; class = λ e. e }) h in
    (ground (arith, n), ground (arith, s), ground (arith, e), ground (arith, g))

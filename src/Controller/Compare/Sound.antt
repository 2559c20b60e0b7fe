-- ===== src/Controller/Compare/Sound.antt =====
-- What two Deployments have in common when the reconciler finds them equal
-- (internal/controller/kubenova_controller.go).
use kube_nova_operator.Controller.Compare.{
  compare_env_vars, compare_int32_ptr, compare_volume_mounts, compare_volumes, containers_equal,
  deployment_spec_equal, env_map, is_marked, mount_map, same_path, volume_map,
}
use kube_nova_operator.Controller.Compare.Refl.{env_map-HasDistinctKeys}
use kube_nova_operator.Kube.Workload.{
  Container, DeploymentSpec, EnvVar, Quantity, Volume, VolumeMount,
}
use kube_nova_operator.Prelude.{
  Bool, List, Option, String, [], all, any, ap, arith, eq_iff, eq_refl, false, inr, length, none,
  refl, some, true, ◌&&◌, ◌==◌, ◌∷◌, ◌≡◌, ◌⊎◌,
}
use kube_nova_operator.Prelude.Int.{int_eq_iff, ℤ}
use kube_nova_operator.Prelude.MapLaws.{maps_equal-lookup}
use kube_nova_operator.Prelude.Maps.{Map, insert, lookup, lookup-insert}

compare_int32_ptr_sound : (a b : Option ℤ) → compare_int32_ptr a b ≡ true → a ≡ b
unfolding compare_int32_ptr
compare_int32_ptr_sound none none h = refl
compare_int32_ptr_sound (some a) (some b) h = ap some ((int_eq_iff a b).0 h)
compare_int32_ptr_sound none (some b) h = absurd (ground arith)
compare_int32_ptr_sound (some a) none h = absurd (ground arith)

compare_env_vars_sound :
    (a b : List EnvVar)
    → compare_env_vars a b ≡ true
    → (k : String) → lookup k (env_map a []) ≡ lookup k (env_map b [])
unfolding compare_env_vars
compare_env_vars_sound a b h =
    maps_equal-lookup (λ s t. s == t) (λ s t e. ground (arith, eq_iff s t)) (env_map a [])
      (env_map b []) (env_map-HasDistinctKeys a [] tt) (env_map-HasDistinctKeys b [] tt)
      (ground arith)

-- A mount of this name at this path is in the list.
abbrev pub has_mount : List VolumeMount → String → String → Bool
has_mount a name path = any (λ m. m.name == name && m.mount_path == path) a

lookup-mount_map :
    (a : List VolumeMount) (m : Map VolumeMount) (k : String) (vm : VolumeMount)
    → lookup k (mount_map a m) ≡ some vm
    → (has_mount a k vm.mount_path ≡ true) ⊎ (lookup k m ≡ some vm)
unfolding mount_map
lookup-mount_map [] m k vm h = inr h
lookup-mount_map (x ∷ a) m k vm h = ground (
  arith,
  lookup-mount_map a (insert x.name x m) k vm h,
  lookup-insert x.name k x m,
  eq_refl vm.mount_path,
)

abbrev pub has_volume : List Volume → String → Bool
has_volume a name = any (λ v. v.name == name) a

lookup-volume_map :
    (a : List Volume) (m : Map Bool) (k : String) (b : Bool)
    → lookup k (volume_map a m) ≡ some b
    → (has_volume a k ≡ true) ⊎ (lookup k m ≡ some b)
unfolding volume_map
lookup-volume_map [] m k b h = inr h
lookup-volume_map (x ∷ a) m k b h =
    ground (arith, lookup-volume_map a (insert x.name true m) k b h, lookup-insert x.name k true m)

mounted :
    (a : List VolumeMount) (vm : VolumeMount) (o : Option VolumeMount)
    → lookup vm.name (mount_map a []) ≡ o
    → same_path vm o ≡ true
    → has_mount a vm.name vm.mount_path ≡ true
mounted a vm none e h = absurd (ground arith)
mounted a vm (some x) e h =
    ground (arith, lookup-mount_map a [] vm.name x e, eq_iff x.mount_path vm.mount_path)

all_mounted :
    (a b : List VolumeMount)
    → all (λ vm. same_path vm (lookup vm.name (mount_map a []))) b ≡ true
    → all (λ vm. has_mount a vm.name vm.mount_path) b ≡ true
all_mounted a [] h = refl
all_mounted a (vm ∷ b) h =
    ground (arith, mounted a vm (lookup vm.name (mount_map a [])) refl, all_mounted a b)

marked :
    (a : List Volume) (k : String) (o : Option Bool)
    → lookup k (volume_map a []) ≡ o
    → elim o [ none ↦ false | some b ↦ b ] ≡ true
    → has_volume a k ≡ true
marked a k none e h = absurd (ground arith)
marked a k (some b) e h = ground (arith, lookup-volume_map a [] k b e)

volumes_are_found :
    (a b : List Volume)
    → all (λ v. is_marked (volume_map a []) v.name) b ≡ true
    → all (λ v. has_volume a v.name) b ≡ true
volumes_are_found a [] h = refl
volumes_are_found a (v ∷ b) h =
    ground (arith, marked a v.name (lookup v.name (volume_map a [])) refl, volumes_are_found a b)

-- What two first containers have in common.
pub record SameContainer (a b : Container) : Type 0 where
  pub image : a.image ≡ b.image
  pub env : (k : String) → lookup k (env_map a.env []) ≡ lookup k (env_map b.env [])
  pub mounts : all (λ vm. has_mount a.volume_mounts vm.name vm.mount_path) b.volume_mounts ≡ true
  pub mount_count : length a.volume_mounts ≡ length b.volume_mounts

abbrev pub SameFirst : List Container → List Container → Type 0
SameFirst (a ∷ _) (b ∷ _) = SameContainer a b
SameFirst [] _ = Unit
SameFirst (_ ∷ _) [] = Unit

-- What two specifications have in common.
pub record SameSpec (a b : DeploymentSpec) : Type 0 where
  pub replicas : a.replicas ≡ b.replicas
  pub count : length a.template.spec.containers ≡ length b.template.spec.containers
  pub first : SameFirst a.template.spec.containers b.template.spec.containers
  pub volumes : all (λ v. has_volume a.template.spec.volumes v.name) b.template.spec.volumes ≡ true
  pub account : a.template.spec.service_account_name ≡ b.template.spec.service_account_name

containers_equal_sound :
    (q : Quantity → Quantity → Bool) (ks ls : List Container)
    → containers_equal q ks ls ≡ true
    → SameFirst ks ls
unfolding containers_equal compare_volume_mounts
containers_equal_sound q [] ls h = tt
containers_equal_sound q (a ∷ ks) [] h = tt
containers_equal_sound q (a ∷ ks) (b ∷ ls) h = record {
  image = ground (arith, eq_iff a.image b.image);
  env = compare_env_vars_sound a.env b.env (ground arith);
  mounts = ground (arith, all_mounted a.volume_mounts b.volume_mounts);
  mount_count = ground arith;
}

-- A Deployment that is found equal to the one that is wanted has its replicas, its service account, as
-- many containers, and a volume of each wanted name, and its first container has the wanted image, the
-- same variables with non-empty literal values, as many mounts, and each wanted mount at its path.
-- Nothing is said of the sources of the volumes.
pub deployment_spec_equal_sound :
    (q : Quantity → Quantity → Bool) (existing desired : DeploymentSpec)
    → deployment_spec_equal q existing desired ≡ true
    → SameSpec existing desired
unfolding deployment_spec_equal compare_volumes
deployment_spec_equal_sound q existing desired h =
    let e = existing.template.spec in
    let d = desired.template.spec in
    record {
      replicas = compare_int32_ptr_sound existing.replicas desired.replicas (ground arith);
      count = ground arith;
      first = containers_equal_sound q e.containers d.containers (ground arith);
      volumes = ground (arith, volumes_are_found e.volumes d.volumes);
      account = ground (arith, eq_iff e.service_account_name d.service_account_name);
    }

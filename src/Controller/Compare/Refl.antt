-- ===== src/Controller/Compare/Refl.antt =====
-- When the reconciler finds a Deployment equal to itself, so that a second pass writes nothing
-- (internal/controller/kubenova_controller.go).
use kube_nova_operator.Controller.Compare.{
  compare_env_vars, compare_int32_ptr, compare_resource_requirements, compare_volume_mounts,
  compare_volumes, containers_equal, deployment_spec_equal, env_map, is_marked, mount_map,
  quantities_equal, same_path, volume_map,
}
use kube_nova_operator.Kube.Workload.{
  Container, DeploymentSpec, EnvVar, Quantity, ResourceRequirements, Volume, VolumeMount,
}
use kube_nova_operator.Prelude.{
  All, Bool, List, Option, String, [], all, arith, eq_refl, none, refl, some, true, ◌==◌, ◌∙◌, ◌∷◌,
  ◌≡◌, ◌≢◌,
}
use kube_nova_operator.Prelude.Int.{int_eq_iff, ℤ}
use kube_nova_operator.Prelude.MapLaws.{HasDistinctKeys, insert-HasDistinctKeys, maps_equal_refl}
use kube_nova_operator.Prelude.Maps.{
  Map, insert, lookup, lookup-insert, lookup-insert_ne, lookup-insert_self,
}

pub compare_int32_ptr_refl : (a : Option ℤ) → compare_int32_ptr a a ≡ true
unfolding compare_int32_ptr
compare_int32_ptr_refl none = refl
compare_int32_ptr_refl (some a) = (int_eq_iff a a).1 refl

pub env_map-HasDistinctKeys :
    (es : List EnvVar) (m : Map String) → HasDistinctKeys m → HasDistinctKeys (env_map es m)
unfolding env_map
env_map-HasDistinctKeys [] m h = h
env_map-HasDistinctKeys (e ∷ es) m h =
    env_map-HasDistinctKeys es _ (ground (arith, insert-HasDistinctKeys e.name e.value m h))

pub compare_env_vars_refl : (a : List EnvVar) → compare_env_vars a a ≡ true
unfolding compare_env_vars
compare_env_vars_refl a =
    rw (maps_equal_refl (λ s t. s == t) eq_refl (env_map a []) (env_map-HasDistinctKeys a [] tt))
      (ground arith)

-- No mount of the list has this name.
abbrev pub IsFresh : String → List VolumeMount → Type 0
IsFresh k = All (λ vm. vm.name ≢ k)

abbrev pub HasDistinctMounts : List VolumeMount → Type 0
HasDistinctMounts [] = Unit
HasDistinctMounts (vm ∷ vms) = IsFresh vm.name vms × HasDistinctMounts vms

lookup-mount_map_fresh :
    (a : List VolumeMount) (m : Map VolumeMount) (k : String)
    → IsFresh k a
    → lookup k (mount_map a m) ≡ lookup k m
unfolding mount_map
lookup-mount_map_fresh [] m k h = refl
lookup-mount_map_fresh (vm ∷ vms) m k h =
    lookup-mount_map_fresh vms (insert vm.name vm m) k h.1 ∙ lookup-insert_ne vm.name k vm m h.0

mount_map_finds :
    (a : List VolumeMount) (m : Map VolumeMount)
    → HasDistinctMounts a
    → All (λ vm. lookup vm.name (mount_map a m) ≡ some vm) a
unfolding mount_map
mount_map_finds [] m h = tt
mount_map_finds (vm ∷ vms) m h = (
  lookup-mount_map_fresh vms (insert vm.name vm m) vm.name h.0 ∙ lookup-insert_self vm.name vm m,
  mount_map_finds vms (insert vm.name vm m) h.1,
)

found_same_path :
    (a : List VolumeMount) (m : Map VolumeMount)
    → All (λ vm. lookup vm.name m ≡ some vm) a
    → all (λ vm. same_path vm (lookup vm.name m)) a ≡ true
found_same_path [] m h = refl
found_same_path (vm ∷ vms) m h = rw (h.0, eq_refl vm.mount_path) (found_same_path vms m h.1)

pub compare_volume_mounts_refl :
    (a : List VolumeMount) → HasDistinctMounts a → compare_volume_mounts a a ≡ true
unfolding compare_volume_mounts
compare_volume_mounts_refl a h =
    rw (found_same_path a (mount_map a []) (mount_map_finds a [] h)) (ground arith)

lookup-volume_map :
    (a : List Volume) (m : Map Bool) (k : String)
    → lookup k m ≡ some true
    → lookup k (volume_map a m) ≡ some true
unfolding volume_map
lookup-volume_map [] m k h = h
lookup-volume_map (v ∷ vs) m k h =
    lookup-volume_map vs (insert v.name true m) k (ground (arith, lookup-insert v.name k true m))

volumes_are_found :
    (a : List Volume) (m : Map Bool) → All (λ v. lookup v.name (volume_map a m) ≡ some true) a
unfolding volume_map
volumes_are_found [] m = tt
volumes_are_found (v ∷ vs) m = (
  lookup-volume_map vs (insert v.name true m) v.name (lookup-insert_self v.name true m),
  volumes_are_found vs (insert v.name true m),
)

found_is_marked :
    (a : List Volume) (m : Map Bool)
    → All (λ v. lookup v.name m ≡ some true) a
    → all (λ v. is_marked m v.name) a ≡ true
found_is_marked [] m h = refl
found_is_marked (v ∷ vs) m h = ground (arith, found_is_marked vs m h.1)

pub compare_volumes_refl : (a : List Volume) → compare_volumes a a ≡ true
unfolding compare_volumes
compare_volumes_refl a =
    rw (found_is_marked a (volume_map a []) (volumes_are_found a [])) (ground arith)

abbrev pub HasDistinctQuantities : Option (Map Quantity) → Type 0
HasDistinctQuantities none = Unit
HasDistinctQuantities (some m) = HasDistinctKeys m

-- What the comparison asks of a container to accept it.
pub record IsComparable (k : Container) : Type 0 where
  pub mounts : HasDistinctMounts k.volume_mounts
  pub requests : HasDistinctQuantities k.resources.requests
  pub limits : HasDistinctQuantities k.resources.limits

abbrev pub FirstIsComparable : List Container → Type 0
FirstIsComparable [] = Unit
FirstIsComparable (k ∷ _) = IsComparable k

module _ (q : Quantity → Quantity → Bool) (q_refl : (x : Quantity) → q x x ≡ true) where
  quantities_equal_refl :
      (a : Option (Map Quantity)) → HasDistinctQuantities a → quantities_equal q a a ≡ true
  quantities_equal_refl none h = refl
  quantities_equal_refl (some m) h = maps_equal_refl q q_refl m h

  pub compare_resource_requirements_refl :
      (r : ResourceRequirements)
      → HasDistinctQuantities r.requests
      → HasDistinctQuantities r.limits
      → compare_resource_requirements q r r ≡ true
  unfolding compare_resource_requirements
  compare_resource_requirements_refl r h k =
      rw (quantities_equal_refl r.requests h) (quantities_equal_refl r.limits k)

  containers_equal_refl :
      (ks : List Container) → FirstIsComparable ks → containers_equal q ks ks ≡ true
  unfolding containers_equal
  containers_equal_refl [] h = refl
  containers_equal_refl (k ∷ ks) h =
      rw
        (
          eq_refl k.image,
          compare_env_vars_refl k.env,
          compare_resource_requirements_refl k.resources h.requests h.limits,
        )
        (compare_volume_mounts_refl k.volume_mounts h.mounts)

  -- A specification equals itself if the mounts of its first container have distinct names, and
  -- its resource maps distinct keys.
  pub deployment_spec_equal_refl :
      (s : DeploymentSpec)
      → FirstIsComparable s.template.spec.containers
      → deployment_spec_equal q s s ≡ true
  unfolding deployment_spec_equal
  deployment_spec_equal_refl s h = ground (
    arith,
    compare_int32_ptr_refl s.replicas,
    containers_equal_refl s.template.spec.containers h,
    compare_volumes_refl s.template.spec.volumes,
    eq_refl s.template.spec.service_account_name,
  )

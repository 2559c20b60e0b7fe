-- ===== src/Controller/Compare/Defaulted.antt =====
-- When the reconciler finds the Deployment it built in one that is stored, in which the API server has
-- filled in what was left open (internal/controller/kubenova_controller.go).
use kube_nova_operator.Controller.Compare.{
  compare_env_vars, compare_volumes, containers_equal, deployment_spec_equal, env_map, volume_map,
}
use kube_nova_operator.Controller.Compare.Refl.{
  FirstIsComparable, compare_env_vars_refl, compare_int32_ptr_refl,
  compare_resource_requirements_refl, compare_volume_mounts_refl, compare_volumes_refl,
}
use kube_nova_operator.Kube.Workload.{Container, DeploymentSpec, EnvVar, Quantity, Volume}
use kube_nova_operator.Prelude.{
  Bool, List, String, [], arith, eq_refl, length, refl, true, ◌∷◌, ◌≡◌,
}
use kube_nova_operator.Prelude.Maps.{Map}

-- The same variables with the same values, in order.
abbrev pub SameVars : List EnvVar → List EnvVar → Type 0
SameVars [] [] = Unit
SameVars [] (_ ∷ _) = ⊥
SameVars (_ ∷ _) [] = ⊥
SameVars (e ∷ es) (x ∷ xs) = (e.name ≡ x.name) × ((e.value ≡ x.value) × SameVars es xs)

-- Volumes of the same names, in order.
abbrev pub SameVolumes : List Volume → List Volume → Type 0
SameVolumes [] [] = Unit
SameVolumes [] (_ ∷ _) = ⊥
SameVolumes (_ ∷ _) [] = ⊥
SameVolumes (v ∷ vs) (x ∷ xs) = (v.name ≡ x.name) × SameVolumes vs xs

-- The first container of a stored specification and of the one that was built, and as many others.
abbrev pub SameContainers : List Container → List Container → Type 0
SameContainers [] [] = Unit
SameContainers [] (_ ∷ _) = ⊥
SameContainers (_ ∷ _) [] = ⊥
SameContainers (k ∷ ks) (x ∷ xs) =
    (k.image ≡ x.image)
    × (SameVars k.env x.env
        × ((k.resources ≡ x.resources)
            × ((k.volume_mounts ≡ x.volume_mounts) × (length ks ≡ length xs))))

-- A stored specification has what was built: all else may differ, as the sources of the volumes and
-- of the variables without a value, the strategy, the probes and the template's metadata.
pub record Keeps (kept built : DeploymentSpec) : Type 0 where
  pub replicas : kept.replicas ≡ built.replicas
  pub containers : SameContainers kept.template.spec.containers built.template.spec.containers
  pub volumes : SameVolumes kept.template.spec.volumes built.template.spec.volumes
  pub account : kept.template.spec.service_account_name ≡ built.template.spec.service_account_name

env_map_same : (a b : List EnvVar) (m : Map String) → SameVars a b → env_map a m ≡ env_map b m
unfolding env_map
env_map_same [] [] m h = refl
env_map_same [] (x ∷ xs) m h = absurd h
env_map_same (e ∷ es) [] m h = absurd h
env_map_same (e ∷ es) (x ∷ xs) m h = rw (h.0, h.1.0) (env_map_same es xs _ h.1.1)

count_vars : (a b : List EnvVar) → SameVars a b → length a ≡ length b
count_vars [] [] h = refl
count_vars [] (x ∷ xs) h = absurd h
count_vars (e ∷ es) [] h = absurd h
count_vars (e ∷ es) (x ∷ xs) h = rw (count_vars es xs h.1.1) refl

volume_map_same :
    (a b : List Volume) (m : Map Bool) → SameVolumes a b → volume_map a m ≡ volume_map b m
unfolding volume_map
volume_map_same [] [] m h = refl
volume_map_same [] (x ∷ xs) m h = absurd h
volume_map_same (v ∷ vs) [] m h = absurd h
volume_map_same (v ∷ vs) (x ∷ xs) m h = rw h.0 (volume_map_same vs xs _ h.1)

count_volumes : (a b : List Volume) → SameVolumes a b → length a ≡ length b
count_volumes [] [] h = refl
count_volumes [] (x ∷ xs) h = absurd h
count_volumes (v ∷ vs) [] h = absurd h
count_volumes (v ∷ vs) (x ∷ xs) h = rw (count_volumes vs xs h.1) refl

compare_env_vars_same : (a b : List EnvVar) → SameVars a b → compare_env_vars a b ≡ true
unfolding compare_env_vars
compare_env_vars_same a b h = rw (count_vars a b h, env_map_same a b [] h) (compare_env_vars_refl b)

compare_volumes_same : (a b : List Volume) → SameVolumes a b → compare_volumes a b ≡ true
unfolding compare_volumes
compare_volumes_same a b h =
    rw (count_volumes a b h, volume_map_same a b [] h) (compare_volumes_refl b)

count_containers : (a b : List Container) → SameContainers a b → length a ≡ length b
count_containers [] [] h = refl
count_containers [] (x ∷ xs) h = absurd h
count_containers (k ∷ ks) [] h = absurd h
count_containers (k ∷ ks) (x ∷ xs) h = rw h.1.1.1.1 refl

module _ (q : Quantity → Quantity → Bool) (q_refl : (x : Quantity) → q x x ≡ true) where
  containers_equal_same :
      (a b : List Container)
      → SameContainers a b
      → FirstIsComparable b
      → containers_equal q a b ≡ true
  unfolding containers_equal
  containers_equal_same [] b h p = refl
  containers_equal_same (k ∷ ks) [] h p = refl
  containers_equal_same (k ∷ ks) (x ∷ xs) h p =
      rw
        (
          h.0,
          h.1.1.0,
          h.1.1.1.0,
          eq_refl x.image,
          compare_env_vars_same k.env x.env h.1.0,
          compare_resource_requirements_refl q q_refl x.resources p.requests p.limits,
        )
        (compare_volume_mounts_refl x.volume_mounts p.mounts)

  -- A stored specification that has what was built equals it.
  pub deployment_spec_equal-Keeps :
      (kept built : DeploymentSpec)
      → Keeps kept built
      → FirstIsComparable built.template.spec.containers
      → deployment_spec_equal q kept built ≡ true
  unfolding deployment_spec_equal
  deployment_spec_equal-Keeps kept built h p =
      rw
        (
          h.replicas,
          compare_int32_ptr_refl built.replicas,
          count_containers _ _ h.containers,
          containers_equal_same _ _ h.containers p,
          compare_volumes_same _ _ h.volumes,
          h.account,
        )
        (ground (arith, eq_refl built.template.spec.service_account_name))

-- ===== src/Controller/Compare.antt =====
-- How the reconciler compares two Deployments (internal/controller/kubenova_controller.go).
pub mod Refl
pub mod Defaulted
pub mod Web
pub mod Missed
pub mod Sound
use kube_nova_operator.Kube.Workload.{
  Container, DeploymentSpec, EnvVar, Quantity, ResourceRequirements, Volume, VolumeMount,
}
use kube_nova_operator.Prelude.{
  Bool, List, Option, String, [], all, false, if◌then◌else◌, length, nat_eq, none, not, some, true,
  ◌&&◌, ◌==◌, ◌∷◌,
}
use kube_nova_operator.Prelude.Int.{int_eq, ℤ}
use kube_nova_operator.Prelude.Maps.{Map, insert, lookup, maps_equal}

pub compare_int32_ptr : Option ℤ → Option ℤ → Bool
compare_int32_ptr none none = true
compare_int32_ptr (some a) (some b) = int_eq a b
compare_int32_ptr none (some _) = false
compare_int32_ptr (some _) none = false

-- The map of the variables with a value.
pub env_map : List EnvVar → Map String → Map String
env_map [] m = m
env_map (e ∷ es) m = env_map es (if not (e.value == "") then insert e.name e.value m else m)

pub compare_env_vars : List EnvVar → List EnvVar → Bool
compare_env_vars a b =
    nat_eq (length a) (length b) && maps_equal (λ s t. s == t) (env_map a []) (env_map b [])

pub mount_map : List VolumeMount → Map VolumeMount → Map VolumeMount
mount_map [] m = m
mount_map (vm ∷ vms) m = mount_map vms (insert vm.name vm m)

abbrev pub same_path : VolumeMount → Option VolumeMount → Bool
same_path vm none = false
same_path vm (some existing) = existing.mount_path == vm.mount_path

pub compare_volume_mounts : List VolumeMount → List VolumeMount → Bool
compare_volume_mounts a b =
    nat_eq (length a) (length b) && all (λ vm. same_path vm (lookup vm.name (mount_map a []))) b

pub volume_map : List Volume → Map Bool → Map Bool
volume_map [] m = m
volume_map (v ∷ vs) m = volume_map vs (insert v.name true m)

-- `aMap[name]`, false if it is not there.
abbrev pub is_marked : Map Bool → String → Bool
is_marked m name = elim (lookup name m) [ none ↦ false | some b ↦ b ]

pub compare_volumes : List Volume → List Volume → Bool
compare_volumes a b =
    nat_eq (length a) (length b) && all (λ v. is_marked (volume_map a []) v.name) b

module _ (quantity_equal : Quantity → Quantity → Bool) where
  abbrev pub quantities_equal : Option (Map Quantity) → Option (Map Quantity) → Bool
  quantities_equal none none = true
  quantities_equal (some a) (some b) = maps_equal quantity_equal a b
  quantities_equal none (some _) = false
  quantities_equal (some _) none = false

  pub compare_resource_requirements : ResourceRequirements → ResourceRequirements → Bool
  compare_resource_requirements a b =
      quantities_equal a.requests b.requests && quantities_equal a.limits b.limits

  -- The tests on the first container.
  unfoldable pub containers_equal : List Container → List Container → Bool
  containers_equal (a ∷ _) (b ∷ _) =
      a.image == b.image
      && (compare_env_vars a.env b.env
          && (compare_resource_requirements a.resources b.resources
              && compare_volume_mounts a.volume_mounts b.volume_mounts))
  containers_equal [] _ = true
  containers_equal (_ ∷ _) [] = true

  unfoldable pub deployment_spec_equal : DeploymentSpec → DeploymentSpec → Bool
  deployment_spec_equal existing desired =
      compare_int32_ptr existing.replicas desired.replicas
      && (nat_eq (length existing.template.spec.containers)
            (length desired.template.spec.containers)
          && (containers_equal existing.template.spec.containers desired.template.spec.containers
              && (compare_volumes existing.template.spec.volumes desired.template.spec.volumes
                  && (existing.template.spec.service_account_name
                      == desired.template.spec.service_account_name))))

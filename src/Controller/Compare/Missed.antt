-- ===== src/Controller/Compare/Missed.antt =====
-- Changes that the comparison does not see (internal/controller/kubenova_controller.go).
use kube_nova_operator.Api.{KubeNova}
use kube_nova_operator.Api.Methods.{get_replicas}
use kube_nova_operator.Api.Spec.{ServiceConfig}
use kube_nova_operator.Builder.{image_reference}
use kube_nova_operator.Builder.Service.{
  ServiceSetup, get_service_resources, get_service_volume_mounts, get_service_volumes, needs_certs,
}
use kube_nova_operator.Builder.Service.Pod.{
  base_env, build_deployment, custom_image, extra_env, service_container,
}
use kube_nova_operator.Controller.Compare.{
  compare_volumes, containers_equal, deployment_spec_equal, volume_map,
}
use kube_nova_operator.Controller.Compare.Refl.{
  HasDistinctMounts, HasDistinctQuantities, compare_env_vars_refl, compare_int32_ptr_refl,
  compare_resource_requirements_refl, compare_volume_mounts_refl,
}
use kube_nova_operator.Kube.Workload.{Quantity}
use kube_nova_operator.Prelude.{
  Bool, Bool-cases, Option, String, arith, eq_iff, inl, inr, some, true, ◌++◌, ◌≡◌, ◌≢◌,
}

-- Two setups of a service that agree in what the comparison looks at: the name, the reference of
-- the image, the settings of the service and which volumes are mounted. The ConfigMap, the Secret
-- of the certificates, the ports, the pull policy and the pull secrets may differ.
pub record LooksAlike (a b : ServiceSetup) : Type 0 where
  pub name : a.name ≡ b.name
  pub image :
      image_reference a.registry a.name (custom_image a.service_config)
      ≡ image_reference b.registry b.name (custom_image b.service_config)
  pub service_config : a.service_config ≡ b.service_config
  pub certs : needs_certs a ≡ needs_certs b
  pub cache : a.need_cache ≡ b.need_cache

same_mounts :
    (a b : ServiceSetup)
    → LooksAlike a b
    → get_service_volume_mounts a ≡ get_service_volume_mounts b
unfolding get_service_volume_mounts
same_mounts a b h = ground arith

same_volume_names :
    (a b : ServiceSetup)
    → LooksAlike a b
    → compare_volumes (get_service_volumes a) (get_service_volumes b) ≡ true
unfolding compare_volumes volume_map get_service_volumes
same_volume_names a b h = ground arith

config_ne_certs : ◌≢◌ {A = String} "minio-certs" "config"
config_ne_certs = ground (arith, eq_iff "minio-certs" "config")

config_ne_cache : ◌≢◌ {A = String} "cache" "config"
config_ne_cache = ground (arith, eq_iff "cache" "config")

certs_ne_cache : ◌≢◌ {A = String} "cache" "minio-certs"
certs_ne_cache = ground (arith, eq_iff "cache" "minio-certs")

-- The mounts of a back-end service have distinct names.
pub service_mounts-HasDistinctMounts :
    (cfg : ServiceSetup) → HasDistinctMounts (get_service_volume_mounts cfg)
unfolding get_service_volume_mounts
service_mounts-HasDistinctMounts cfg = elim (Bool-cases (needs_certs cfg)) [
  | inl certs ↦ elim (Bool-cases cfg.need_cache) [
    | inl cache ↦
        rw (certs, cache)
          ((config_ne_certs, (config_ne_cache, tt)), ((certs_ne_cache, tt), (tt, tt)))
    | inr bare ↦ rw (certs, bare) ((config_ne_certs, tt), (tt, tt))
  ]
  | inr plainly ↦ elim (Bool-cases cfg.need_cache) [
    | inl cache ↦ rw (plainly, cache) ((config_ne_cache, tt), (tt, tt))
    | inr bare ↦ rw (plainly, bare) (tt, tt)
  ]
]

-- The settings of a service whose resource maps have distinct keys.
abbrev pub HasDistinctResources : Option ServiceConfig → Type 0
HasDistinctResources sc =
    HasDistinctQuantities (get_service_resources sc).requests
    × HasDistinctQuantities (get_service_resources sc).limits

-- If two setups of a service look alike, the Deployment of the one is found equal to that of the
-- other, and the change is not rolled out.
pub missed_change :
    (q : Quantity → Quantity → Bool) (q_refl : (x : Quantity) → q x x ≡ true) (kn : KubeNova)
    (namespace : String) (a b : ServiceSetup)
    → LooksAlike a b
    → HasDistinctResources b.service_config
    → deployment_spec_equal q
        (build_deployment kn namespace a).spec
        (build_deployment kn namespace b).spec
      ≡ true
unfolding deployment_spec_equal containers_equal build_deployment service_container
missed_change q q_refl kn namespace a b h r = ground (
  arith,
  compare_int32_ptr_refl (some (get_replicas b.service_config)),
  (eq_iff (image_reference a.registry a.name (custom_image a.service_config))
        (image_reference b.registry b.name (custom_image b.service_config))).1
      h.image,
  compare_env_vars_refl (base_env ++ extra_env b.service_config),
  compare_resource_requirements_refl q q_refl (get_service_resources b.service_config) r.0 r.1,
  same_mounts a b h,
  compare_volume_mounts_refl (get_service_volume_mounts b) (service_mounts-HasDistinctMounts b),
  same_volume_names a b h,
)

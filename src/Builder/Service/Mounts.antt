-- ===== src/Builder/Service/Mounts.antt =====
-- The mounts of a pod against its volumes (internal/builder/service.go, internal/builder/web.go).
use kube_nova_operator.Api.{KubeNova}
use kube_nova_operator.Builder.Service.{
  ServiceSetup, get_service_volume_mounts, get_service_volumes, needs_certs,
}
use kube_nova_operator.Builder.Service.Pod.{build_deployment, service_container}
use kube_nova_operator.Builder.Web.Pod.{
  build_web_deployment, get_web_volume_mounts, get_web_volumes, web_container,
}
use kube_nova_operator.Kube.Workload.{PodSpec, Volume, VolumeMount}
use kube_nova_operator.Prelude.{
  Bool, Bool-cases, List, String, all, any, arith, inl, inr, true, ◌==◌, ◌≡◌,
}

abbrev pub declares : List Volume → VolumeMount → Bool
declares vs m = any (λ v. v.name == m.name) vs

-- Every mount of every container names a volume of the pod.
abbrev pub mounts_are_declared : PodSpec → Bool
mounts_are_declared p = all (λ k. all (declares p.volumes) k.volume_mounts) p.containers

build_deployment-mounts :
    (kn : KubeNova) (namespace : String) (cfg : ServiceSetup)
    → mounts_are_declared (build_deployment kn namespace cfg).spec.template.spec ≡ true
unfolding build_deployment service_container get_service_volume_mounts get_service_volumes
build_deployment-mounts kn namespace cfg = elim (Bool-cases (needs_certs cfg)) [
  | inl certs ↦ ground arith
  | inr plainly ↦ ground arith
]

build_web_deployment-mounts :
    (kn : KubeNova) (namespace : String)
    → mounts_are_declared (build_web_deployment kn namespace).spec.template.spec ≡ true
unfolding build_web_deployment web_container get_web_volume_mounts get_web_volumes
build_web_deployment-mounts kn namespace = ground arith

-- Every Deployment that is built mounts only volumes that it declares: that of a back-end service,
-- whatever the service needs, and that of the web front end, whatever its exposure, its HTTPS settings
-- and its Nginx configuration.
pub all_mounts_declared :
    (kn : KubeNova) (namespace : String) (cfg : ServiceSetup)
    → (mounts_are_declared (build_deployment kn namespace cfg).spec.template.spec ≡ true)
      × (mounts_are_declared (build_web_deployment kn namespace).spec.template.spec ≡ true)
all_mounts_declared kn namespace cfg =
    (build_deployment-mounts kn namespace cfg, build_web_deployment-mounts kn namespace)

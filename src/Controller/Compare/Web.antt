-- ===== src/Controller/Compare/Web.antt =====
-- The comparison at the Deployment of the web front end, whose container mounts one volume twice
-- (internal/controller/kubenova_controller.go, internal/builder/web.go).
use kube_nova_operator.Api.{KubeNova}
use kube_nova_operator.Builder.Web.Pod.{
  build_web_deployment, file_mount, get_web_volume_mounts, web_container,
}
use kube_nova_operator.Controller.Compare.{
  compare_volume_mounts, containers_equal, deployment_spec_equal, mount_map, same_path,
}
use kube_nova_operator.Kube.Workload.{Container, DeploymentSpec, Quantity, VolumeMount}
use kube_nova_operator.Prelude.{
  Bool, List, Option, String, [], arith, eq_iff, false, length, nat_eq, none, refl, some, true,
  ◌&&◌, ◌∷◌, ◌≡◌, ◌≢◌,
}
use kube_nova_operator.Prelude.Maps.{lookup}

conf_paths_differ : ◌≢◌ {A = String} "/etc/nginx/nginx.conf" "/etc/nginx/conf.d/default.conf"
conf_paths_differ = ground (arith, eq_iff "/etc/nginx/nginx.conf" "/etc/nginx/conf.d/default.conf")

-- One found mount cannot have both paths.
same_path_once :
    (o : Option VolumeMount)
    → same_path (file_mount "/etc/nginx/nginx.conf" "nginx.conf") o ≡ true
    → same_path (file_mount "/etc/nginx/conf.d/default.conf" "default.conf") o ≡ false
same_path_once none h = refl
same_path_once (some vm) h = ground (
  arith,
  conf_paths_differ,
  eq_iff vm.mount_path "/etc/nginx/nginx.conf",
  eq_iff vm.mount_path "/etc/nginx/conf.d/default.conf",
)

web_mounts_differ :
    (a : List VolumeMount) (kn : KubeNova)
    → compare_volume_mounts a (get_web_volume_mounts kn) ≡ false
unfolding compare_volume_mounts get_web_volume_mounts
web_mounts_differ a kn = ground (arith, same_path_once (lookup "nginx-config" (mount_map a [])))

containers_never_equal :
    (q : Quantity → Quantity → Bool) (ks : List Container) (kn : KubeNova)
    → (nat_eq (length ks) 1 && containers_equal q ks (web_container kn ∷ [])) ≡ false
unfolding containers_equal web_container
containers_never_equal q [] kn = refl
containers_never_equal q (k ∷ ks) kn = ground (arith, web_mounts_differ k.volume_mounts kn)

-- Whatever the Deployment in the cluster is, also the one just written, the comparison says that
-- it differs from the one built for the web front end: a full pass always writes it again.
pub web_never_equal :
    (q : Quantity → Quantity → Bool) (existing : DeploymentSpec) (kn : KubeNova)
    (namespace : String)
    → deployment_spec_equal q existing (build_web_deployment kn namespace).spec ≡ false
unfolding deployment_spec_equal build_web_deployment
web_never_equal q existing kn namespace =
    ground (arith, containers_never_equal q existing.template.spec.containers kn)

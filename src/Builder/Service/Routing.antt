-- ===== src/Builder/Service/Routing.antt =====
-- Which pods a Service of internal/builder/service.go sends its traffic to.
use kube_nova_operator.Api.{KubeNova}
use kube_nova_operator.Builder.Service.{ServiceSetup}
use kube_nova_operator.Builder.Service.Pod.{
  build_deployment, build_k8s_service, build_service, service_container,
}
use kube_nova_operator.Kube.Network.{Service, ServicePort, ServiceSpec}
use kube_nova_operator.Kube.Workload.{ContainerPort, Deployment, PodSpec}
use kube_nova_operator.Prelude.{
  Bool, List, String, [], all, any, arith, eq_refl, false, refl, true, ◌==◌, ◌∷◌, ◌≡◌,
}
use kube_nova_operator.Prelude.Int.{int_eq, int_eq_iff}
use kube_nova_operator.Prelude.Maps.{Map, agrees}

-- A selector accepts a set of labels: each of its pairs is among them.
abbrev pub selects : Map String → Map String → Bool
selects selector labels = agrees (λ s t. s == t) selector labels

abbrev pub listens : List ContainerPort → ServicePort → Bool
listens ps p = any (λ k. int_eq k.container_port p.target_port) ps

-- Each port of the Service leads to a port of the first container of the pod.
abbrev pub ports_lead : ServiceSpec → PodSpec → Bool
ports_lead s p = elim (p.containers) [ [] ↦ false | k ∷ _ ↦ all (listens k.ports) s.ports ]

-- A Service, a Deployment and the pods of the Deployment belong together.
pub record IsRouted (s : Service) (d : Deployment) : Type 0 where
  pub own_pods : selects d.spec.selector d.spec.template.labels ≡ true
  pub service_pods : selects s.spec.selector d.spec.template.labels ≡ true
  pub ports : ports_lead s.spec d.spec.template.spec ≡ true
  pub same_namespace : s.metadata.namespace ≡ d.metadata.namespace

-- The Deployment of a back-end service selects its own pods, the Service selects them too, in the
-- same namespace, and every port of the Service leads to a port that the container declares.
pub build_service-IsRouted :
    (kn : KubeNova) (namespace : String) (cfg : ServiceSetup)
    → let r = build_service kn namespace cfg in IsRouted r.service r.deployment
unfolding build_service build_deployment build_k8s_service service_container
build_service-IsRouted kn namespace cfg = record {
  own_pods = ground (arith, eq_refl cfg.name);
  service_pods = ground (arith, eq_refl cfg.name);
  ports = ground (arith, int_eq_iff cfg.target_port cfg.target_port);
  same_namespace = refl;
}

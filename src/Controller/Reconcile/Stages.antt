-- ===== src/Controller/Reconcile/Stages.antt =====
-- The stages of a pass return, and what `Reconcile` answers behind them
-- (internal/controller/kubenova_controller.go).
use kube_nova_operator.Api.{KubeNova}
use kube_nova_operator.Controller.Action.Total.{IsTotal, IsTotal-pure, total_rules}
use kube_nova_operator.Controller.Cluster.{Cluster}
use kube_nova_operator.Controller.Components.{conclude}
use kube_nova_operator.Controller.Components.Access.{find_node_port_url, find_web_url}
use kube_nova_operator.Controller.Reconcile.{reconcile_validation}
use kube_nova_operator.Controller.Reconcile.Total.{
  create_if_missing-IsTotal, create_or_update-IsTotal, deploy_services-IsTotal,
  ensure_config_map-IsTotal, ensure_config_maps-IsTotal, ensure_deployment-IsTotal,
  ensure_service-IsTotal, get_node_ip-IsTotal, get_web_node_port-IsTotal, own-IsTotal,
  set_condition-IsTotal, set_status_phase-IsTotal,
}
use kube_nova_operator.Controller.Resources.{
  reconcile_config_maps, reconcile_namespace, reconcile_rbac, reconcile_secret,
}
use kube_nova_operator.Controller.Workloads.{
  ensure_ingress, ensure_nginx, reconcile_services, reconcile_web,
}
use kube_nova_operator.Kube.{ConfigMap}
use kube_nova_operator.Kube.Network.{Ingress}
use kube_nova_operator.Kube.Workload.{Deployment}
use kube_nova_operator.Prelude.{Bool, Option, String, false, none, some, true, ◌≡◌}
use kube_nova_operator.Prelude.Int.{ℤ}
use kube_nova_operator.Prelude.Results.{got}

-- Every Deployment that is read has a replica count: the API server fills in a missing one.
abbrev pub HasReplicas : Cluster → Type 0
HasReplicas c =
    (namespace name : String) (w : c.World) (d : Deployment)
    → (c.deployments.get namespace name w).0 ≡ got d
    → (want : ℤ) × (d.spec.replicas ≡ some want)

module _ (c : Cluster) where
  pub reconcile_validation-IsTotal : IsTotal (reconcile_validation c)
  unfolding reconcile_validation
  reconcile_validation-IsTotal =
      search (set_status_phase-IsTotal, set_condition-IsTotal, total_rules)

  pub reconcile_namespace-IsTotal : IsTotal (reconcile_namespace c)
  unfolding reconcile_namespace
  reconcile_namespace-IsTotal = search total_rules

  pub reconcile_rbac-IsTotal : IsTotal (reconcile_rbac c)
  unfolding reconcile_rbac
  reconcile_rbac-IsTotal = search (own-IsTotal, create_if_missing-IsTotal, total_rules)

  pub reconcile_secret-IsTotal : IsTotal (reconcile_secret c)
  unfolding reconcile_secret
  reconcile_secret-IsTotal = search (
    own-IsTotal, get_node_ip-IsTotal, get_web_node_port-IsTotal, create_or_update-IsTotal,
    total_rules,
  )

  pub reconcile_config_maps-IsTotal : IsTotal (reconcile_config_maps c)
  unfolding reconcile_config_maps
  reconcile_config_maps-IsTotal = search (ensure_config_maps-IsTotal, total_rules)

  pub reconcile_services-IsTotal : IsTotal (reconcile_services c)
  unfolding reconcile_services
  reconcile_services-IsTotal =
      search (set_status_phase-IsTotal, deploy_services-IsTotal, total_rules)

  pub ensure_nginx-IsTotal : (ns : String) (o : Option ConfigMap) → IsTotal (ensure_nginx c ns o)
  ensure_nginx-IsTotal ns none = IsTotal-pure tt
  ensure_nginx-IsTotal ns (some cm) = ensure_config_map-IsTotal c _ ns cm

  pub ensure_ingress-IsTotal : (ns : String) (o : Option Ingress) → IsTotal (ensure_ingress c ns o)
  ensure_ingress-IsTotal ns none = IsTotal-pure tt
  ensure_ingress-IsTotal ns (some i) = search (own-IsTotal, create_if_missing-IsTotal, total_rules)

  pub reconcile_web-IsTotal : IsTotal (reconcile_web c)
  unfolding reconcile_web
  reconcile_web-IsTotal = search (
    ensure_nginx-IsTotal, ensure_deployment-IsTotal, ensure_service-IsTotal, ensure_ingress-IsTotal,
    total_rules,
  )

  pub find_node_port_url-IsTotal : (ns : String) → IsTotal (find_node_port_url c ns)
  unfolding find_node_port_url
  find_node_port_url-IsTotal ns = search (get_node_ip-IsTotal, total_rules)

  pub find_web_url-IsTotal : (kn : KubeNova) (ns old : String) → IsTotal (find_web_url c kn ns old)
  unfolding find_web_url
  find_web_url-IsTotal kn ns old = search (find_node_port_url-IsTotal, total_rules)

  pub conclude-IsTotal : (b : Bool) → IsTotal (conclude c b)
  unfolding conclude
  conclude-IsTotal true = search (set_status_phase-IsTotal, set_condition-IsTotal, total_rules)
  conclude-IsTotal false = search (set_status_phase-IsTotal, set_condition-IsTotal, total_rules)

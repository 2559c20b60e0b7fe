-- ===== src/Controller/Reconcile/Total.antt =====
-- Every method of the reconciler returns (internal/controller/kubenova_controller.go).
use kube_nova_operator.Api.{KubeNova}
use kube_nova_operator.Api.Status.{DeploymentPhase}
use kube_nova_operator.Builder.Service.{ServiceResources}
use kube_nova_operator.Controller.Action.{Action, Session}
use kube_nova_operator.Controller.Action.Total.{
  IsTotal, IsTotal-bind, IsTotal-pure, Returns, total_rules,
}
use kube_nova_operator.Controller.Cluster.{Cluster, Store}
use kube_nova_operator.Controller.Ensure.{
  Texts, create, create_if_missing, create_or_update, ensure, own, write,
}
use kube_nova_operator.Controller.Nodes.{get_node_ip, get_web_node_port}
use kube_nova_operator.Controller.Resources.{ensure_config_map, ensure_config_maps}
use kube_nova_operator.Controller.Status.{set_condition, set_status_phase, update_status_with_retry}
use kube_nova_operator.Controller.Status.Retry.{Ended, update_status_with_retry-Ended}
use kube_nova_operator.Controller.Workloads.{deploy_services, ensure_deployment, ensure_service}
use kube_nova_operator.Kube.{ConfigMap, ObjectMeta}
use kube_nova_operator.Kube.Network.{Service}
use kube_nova_operator.Kube.Workload.{Deployment}
use kube_nova_operator.Prelude.{Bool, List, String, [], ◌∷◌}
use kube_nova_operator.Prelude.Maps.{Map}
use kube_nova_operator.Prelude.Results.{Error, Outcome, err, ok, panic}

module _ (c : Cluster) where
  pub set_status_phase-IsTotal :
      (p : DeploymentPhase) (m : String) → IsTotal (set_status_phase c p m)
  unfolding set_status_phase
  set_status_phase-IsTotal p m = search total_rules

  pub set_condition-IsTotal : (k st r m : String) → IsTotal (set_condition c k st r m)
  unfolding set_condition
  set_condition-IsTotal k st r m = search total_rules

  pub own-IsTotal : (prefix : String) (meta : ObjectMeta) → IsTotal (own c prefix meta)
  unfolding own
  own-IsTotal prefix meta = search total_rules

  module _ {A : Type 0} (store : Store c.World c.ApiError A) (texts : Texts) where
    pub ensure-IsTotal :
        (namespace name : String) (obj : A) (present : A → Action c.World c.ApiError (Unit {0}))
        → ((a : A) → IsTotal (present a))
        → IsTotal (ensure c store texts namespace name obj present)
    unfolding ensure create
    ensure-IsTotal namespace name obj present h = search total_rules depth 9

    pub write-IsTotal : (obj : A) → IsTotal (write c store texts obj)
    unfolding write
    write-IsTotal obj = search total_rules

  pub create_if_missing-IsTotal :
      {A : Type 0} (store : Store c.World c.ApiError A) (texts : Texts) (namespace name : String)
      (obj : A)
      → IsTotal (create_if_missing c store texts namespace name obj)
  unfolding create_if_missing
  create_if_missing-IsTotal store texts namespace name obj = search (ensure-IsTotal, total_rules)

  pub create_or_update-IsTotal :
      {A : Type 0} (store : Store c.World c.ApiError A) (texts : Texts) (same : A → Bool)
      (merge : A → A) (namespace name : String) (obj : A)
      → IsTotal (create_or_update c store texts same merge namespace name obj)
  unfolding create_or_update
  create_or_update-IsTotal store texts same merge namespace name obj =
      search (ensure-IsTotal, write-IsTotal, total_rules)

  pub get_node_ip-IsTotal : IsTotal (get_node_ip c)
  unfolding get_node_ip
  get_node_ip-IsTotal = search total_rules

  pub get_web_node_port-IsTotal :
      (kn : KubeNova) (ns : String) → IsTotal (get_web_node_port c kn ns)
  unfolding get_web_node_port
  get_web_node_port-IsTotal kn ns = search total_rules

  pub ensure_config_map-IsTotal :
      (texts : Texts) (ns : String) (cm : ConfigMap) → IsTotal (ensure_config_map c texts ns cm)
  unfolding ensure_config_map
  ensure_config_map-IsTotal texts ns cm =
      search (own-IsTotal, create_or_update-IsTotal, total_rules)

  pub ensure_config_maps-IsTotal :
      (ns : String) (cms : List ConfigMap) → IsTotal (ensure_config_maps c ns cms)
  unfolding ensure_config_maps
  ensure_config_maps-IsTotal ns [] = IsTotal-pure tt
  ensure_config_maps-IsTotal ns (cm ∷ cms) =
      IsTotal-bind _ _ (ensure_config_map-IsTotal _ ns cm) (λ _. ensure_config_maps-IsTotal ns cms)

  pub ensure_deployment-IsTotal :
      (texts : Texts) (regetting : String) (merge : Deployment → Deployment → Deployment)
      (ns : String) (d : Deployment)
      → IsTotal (ensure_deployment c texts regetting merge ns d)
  unfolding ensure_deployment
  ensure_deployment-IsTotal texts regetting merge ns d =
      search (own-IsTotal, ensure-IsTotal, write-IsTotal, total_rules) depth 9

  pub ensure_service-IsTotal :
      (texts : Texts) (ns : String) (svc : Service) → IsTotal (ensure_service c texts ns svc)
  unfolding ensure_service
  ensure_service-IsTotal texts ns svc = search (own-IsTotal, create_if_missing-IsTotal, total_rules)

  pub deploy_services-IsTotal :
      (ns : String) (m : Map ServiceResources) → IsTotal (deploy_services c ns m)
  unfolding deploy_services
  deploy_services-IsTotal ns [] = IsTotal-pure tt
  deploy_services-IsTotal ns ((name, r) ∷ rest) =
      IsTotal-bind _ _ (ensure_deployment-IsTotal _ _ _ ns r.deployment) (λ _.
        IsTotal-bind _ _ (ensure_service-IsTotal _ ns r.service)
          (λ _. deploy_services-IsTotal ns rest))

  pub update_status-IsTotal : IsTotal (update_status_with_retry c)
  update_status-IsTotal = record { at = λ s. ended _ _ (update_status_with_retry-Ended c s) }
    where
      ended :
          (kn : KubeNova) (r : Outcome (Error c.ApiError) (Unit {0}) × Session c.World)
          → Ended kn r
          → Returns r.0
      ended kn (ok _, s) h = tt
      ended kn (err _, s) h = tt
      ended kn (panic, s) h = h

-- ===== src/Controller/Reconcile/KeptStages.antt =====
-- Each stage of a pass keeps a relation that every call keeps
-- (internal/controller/kubenova_controller.go).
use kube_nova_operator.Api.{KubeNova}
use kube_nova_operator.Builder.Service.{ServiceResources}
use kube_nova_operator.Controller.Action.{Session}
use kube_nova_operator.Controller.Action.Rules.{Relates, Relates-bind, Relates-pure, action_rules}
use kube_nova_operator.Controller.Cluster.{Cluster}
use kube_nova_operator.Controller.Ensure.{Texts}
use kube_nova_operator.Controller.Nodes.{get_node_ip, get_web_node_port}
use kube_nova_operator.Controller.Reconcile.{reconcile_validation}
use kube_nova_operator.Controller.Reconcile.Kept.{
  BaseKeeps, StoreKeeps, create_if_missing-Relates, create_or_update-Relates, ensure-Relates,
  get-Relates, nodes-Relates, own-Relates, set_condition-Relates, set_status_phase-Relates,
  write-Relates,
}
use kube_nova_operator.Controller.Resources.{
  ensure_config_map, ensure_config_maps, reconcile_config_maps, reconcile_namespace, reconcile_rbac,
  reconcile_secret,
}
use kube_nova_operator.Controller.Workloads.{
  deploy_services, ensure_deployment, ensure_ingress, ensure_nginx, ensure_service,
  reconcile_services, reconcile_web,
}
use kube_nova_operator.Kube.{ConfigMap}
use kube_nova_operator.Kube.Network.{Ingress, Service}
use kube_nova_operator.Kube.Workload.{Deployment}
use kube_nova_operator.Prelude.{List, Option, String, [], none, some, ◌∷◌}
use kube_nova_operator.Prelude.Maps.{Map}

module _ (c : Cluster) (R : Session c.World → Session c.World → Type 0) (k : BaseKeeps c R) where
  pub reconcile_validation-Relates : Relates R (reconcile_validation c)
  unfolding reconcile_validation
  reconcile_validation-Relates =
      search (set_status_phase-Relates, set_condition-Relates, k.preorder, action_rules) depth 8

  pub reconcile_namespace-Relates : StoreKeeps R c.namespaces → Relates R (reconcile_namespace c)
  unfolding reconcile_namespace
  reconcile_namespace-Relates nss =
      search (get-Relates c R k c.namespaces nss.keeps_get, k.preorder, action_rules) depth 8

  pub reconcile_rbac-Relates :
      StoreKeeps R c.service_accounts
      → StoreKeeps R c.cluster_role_bindings
      → Relates R (reconcile_rbac c)
  unfolding reconcile_rbac
  reconcile_rbac-Relates sas crbs =
      search (own-Relates, create_if_missing-Relates, sas, crbs, k.preorder, action_rules) depth 8

  pub get_node_ip-Relates : Relates R (get_node_ip c)
  unfolding get_node_ip
  get_node_ip-Relates = search (nodes-Relates, k.preorder, action_rules)

  pub get_web_node_port-Relates :
      StoreKeeps R c.services
      → (kn : KubeNova) (ns : String) → Relates R (get_web_node_port c kn ns)
  unfolding get_web_node_port
  get_web_node_port-Relates svcs kn ns =
      search (get-Relates c R k c.services svcs.keeps_get, k.preorder, action_rules) depth 8

  pub reconcile_secret-Relates :
      StoreKeeps R c.secrets → StoreKeeps R c.services → Relates R (reconcile_secret c)
  unfolding reconcile_secret
  reconcile_secret-Relates secs svcs =
      search
        (
          own-Relates,
          get_node_ip-Relates,
          (get_web_node_port-Relates svcs),
          create_or_update-Relates,
          secs,
          k.preorder,
          action_rules,
        )
        depth 9

  pub ensure_config_map-Relates :
      StoreKeeps R c.config_maps
      → (texts : Texts) (ns : String) (cm : ConfigMap) → Relates R (ensure_config_map c texts ns cm)
  unfolding ensure_config_map
  ensure_config_map-Relates cfgs texts ns cm =
      search (own-Relates, create_or_update-Relates, cfgs, k.preorder, action_rules)

  pub ensure_config_maps-Relates :
      StoreKeeps R c.config_maps
      → (ns : String) (cms : List ConfigMap) → Relates R (ensure_config_maps c ns cms)
  unfolding ensure_config_maps
  ensure_config_maps-Relates cfgs ns [] = Relates-pure R k.preorder tt
  ensure_config_maps-Relates cfgs ns (cm ∷ cms) =
      Relates-bind R k.preorder _ _ (ensure_config_map-Relates cfgs _ ns cm)
        (λ _. ensure_config_maps-Relates cfgs ns cms)

  pub reconcile_config_maps-Relates :
      StoreKeeps R c.config_maps → Relates R (reconcile_config_maps c)
  unfolding reconcile_config_maps
  reconcile_config_maps-Relates cfgs =
      search ((ensure_config_maps-Relates cfgs), k.preorder, action_rules)

  pub ensure_deployment-Relates :
      StoreKeeps R c.deployments
      → (texts : Texts) (regetting : String) (merge : Deployment → Deployment → Deployment)
        (ns : String) (d : Deployment)
      → Relates R (ensure_deployment c texts regetting merge ns d)
  unfolding ensure_deployment
  ensure_deployment-Relates deps texts regetting merge ns d =
      search
        (own-Relates, ensure-Relates, write-Relates, get-Relates, deps, k.preorder, action_rules)
        depth 10

  pub ensure_service-Relates :
      StoreKeeps R c.services
      → (texts : Texts) (ns : String) (svc : Service) → Relates R (ensure_service c texts ns svc)
  unfolding ensure_service
  ensure_service-Relates svcs texts ns svc =
      search (own-Relates, create_if_missing-Relates, svcs, k.preorder, action_rules)

  pub deploy_services-Relates :
      StoreKeeps R c.deployments
      → StoreKeeps R c.services
      → (ns : String) (m : Map ServiceResources) → Relates R (deploy_services c ns m)
  unfolding deploy_services
  deploy_services-Relates deps svcs ns [] = Relates-pure R k.preorder tt
  deploy_services-Relates deps svcs ns ((name, r) ∷ rest) =
      Relates-bind R k.preorder _ _ (ensure_deployment-Relates deps _ _ _ ns r.deployment) (λ _.
        Relates-bind R k.preorder _ _ (ensure_service-Relates svcs _ ns r.service)
          (λ _. deploy_services-Relates deps svcs ns rest))

  pub reconcile_services-Relates :
      StoreKeeps R c.deployments → StoreKeeps R c.services → Relates R (reconcile_services c)
  unfolding reconcile_services
  reconcile_services-Relates deps svcs =
      search
        (set_status_phase-Relates, (deploy_services-Relates deps svcs), k.preorder, action_rules)

  pub ensure_nginx-Relates :
      StoreKeeps R c.config_maps
      → (ns : String) (o : Option ConfigMap) → Relates R (ensure_nginx c ns o)
  ensure_nginx-Relates cfgs ns none = Relates-pure R k.preorder tt
  ensure_nginx-Relates cfgs ns (some cm) = ensure_config_map-Relates cfgs _ ns cm

  pub ensure_ingress-Relates :
      StoreKeeps R c.ingresses
      → (ns : String) (o : Option Ingress) → Relates R (ensure_ingress c ns o)
  ensure_ingress-Relates ings ns none = Relates-pure R k.preorder tt
  ensure_ingress-Relates ings ns (some i) =
      search (own-Relates, create_if_missing-Relates, ings, k.preorder, action_rules)

  pub reconcile_web-Relates :
      StoreKeeps R c.config_maps
      → StoreKeeps R c.deployments
      → StoreKeeps R c.services
      → StoreKeeps R c.ingresses
      → Relates R (reconcile_web c)
  unfolding reconcile_web
  reconcile_web-Relates cfgs deps svcs ings =
      search
        (
          (ensure_nginx-Relates cfgs),
          (ensure_deployment-Relates deps),
          (ensure_service-Relates svcs),
          (ensure_ingress-Relates ings),
          k.preorder,
          action_rules,
        )
        depth 8

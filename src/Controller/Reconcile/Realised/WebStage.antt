-- ===== src/Controller/Reconcile/Realised/WebStage.antt =====
-- The stage of the web front end leaves what the back-end services need as it is
-- (reconcileWeb of internal/controller/kubenova_controller.go).
use kube_nova_operator.Api.{KubeNova}
use kube_nova_operator.Builder.Checksum.{entry}
use kube_nova_operator.Builder.ConfigMaps.{build_all_config_maps}
use kube_nova_operator.Builder.Service.{ServiceResources}
use kube_nova_operator.Builder.Service.All.{build_all_services}
use kube_nova_operator.Builder.Web.Nginx.{build_nginx_config_map}
use kube_nova_operator.Builder.Web.Pod.{build_web_deployment}
use kube_nova_operator.Builder.Web.Resources.{build_web_resources}
use kube_nova_operator.Controller.Action.{Action, Session}
use kube_nova_operator.Controller.Action.Ensures.{
  Ensures, Ensures-All, Ensures-Relates, Ensures-bind, Ensures-pure, Ensures-self,
}
use kube_nova_operator.Controller.Action.Rules.{Relates, action_rules}
use kube_nova_operator.Controller.Cluster.{Cluster}
use kube_nova_operator.Controller.Ensure.AllConfigMaps.{Holds, ensure_config_map-Kept}
use kube_nova_operator.Controller.Reconcile.KeptStages.{
  ensure_deployment-Relates, ensure_ingress-Relates, ensure_nginx-Relates, ensure_service-Relates,
}
use kube_nova_operator.Controller.Reconcile.Realised.{SameView}
use kube_nova_operator.Controller.Reconcile.Realised.Held.{HasDeployments, HasMaps, IsSame}
use kube_nova_operator.Controller.Reconcile.Realised.Isolated.{
  ServerLaws, deployments_base, deployments_by_services, maps_base,
}
use kube_nova_operator.Controller.Resources.{ensure_config_map, texts_of}
use kube_nova_operator.Controller.Status.Retry.{SameButStatus}
use kube_nova_operator.Controller.Workloads.{
  ensure_deployment, ensure_nginx, merge_web_deployment, reconcile_web,
}
use kube_nova_operator.Controller.Workloads.Deployed.{Deployed}
use kube_nova_operator.Controller.Workloads.KeptDeployments.{ensure_deployment-Kept}
use kube_nova_operator.Controller.Workloads.Names.{build_all_services-HasOtherName}
use kube_nova_operator.Kube.{ConfigMap}
use kube_nova_operator.Prelude.{
  All, All-weaker, Bool, String, arith, eq_iff, false, if◌then◌else◌, none, refl, some, subst, sym,
  true, ◌==◌, ◌∙◌, ◌≡◌,
}

-- Of another name than the ConfigMap of Nginx.
abbrev IsNoNginxMap : ConfigMap → Type 0
IsNoNginxMap cm = ("frontend-nginx-config" == cm.metadata.name) ≡ false

-- Of another name than the Deployment of the web front end.
abbrev IsNoWeb : String × ServiceResources → Type 0
IsNoWeb entry = ("kube-nova-web" == entry.1.deployment.metadata.name) ≡ false

config_maps-IsNoNginxMap :
    (kn : KubeNova) (ns : String) → All IsNoNginxMap (build_all_config_maps kn ns)
unfolding build_all_config_maps
config_maps-IsNoNginxMap kn ns = ground arith

services-IsNoWeb : (kn : KubeNova) (ns : String) → All IsNoWeb (build_all_services kn ns)
services-IsNoWeb kn ns =
    All-weaker _
      (λ entry h. ground (
        arith,
        h,
        eq_iff "kube-nova-web" entry.1.deployment.metadata.name,
        eq_iff entry.1.deployment.metadata.name "kube-nova-web",
      ))
      (build_all_services-HasOtherName kn ns "kube-nova-web" refl)

module _ (c : Cluster) (l : ServerLaws c) (kn : KubeNova) where
  module _ (cm : ConfigMap) (other : IsNoNginxMap cm) where
    abbrev HoldsMap : Session c.World → Type 0
    HoldsMap s = Holds c l.keeps l.config_maps l.maps_apart kn.metadata.namespace cm s.world

    nginx_keeps :
        (k : KubeNova) (n : String) (custom : Bool)
        → kn.metadata.namespace ≡ n
        → Ensures HoldsMap
            (λ _. HoldsMap)
            (ensure_nginx c n (if custom then some (build_nginx_config_map k n) else none))
    unfolding build_nginx_config_map
    nginx_keeps k n false h = Ensures-pure HoldsMap (λ _. HoldsMap) tt (λ s p. p)
    nginx_keeps k n true h =
        subst
          (λ m.
            Ensures HoldsMap (λ _. HoldsMap)
              (ensure_config_map c (texts_of "Web ConfigMap") m (build_nginx_config_map k m)))
          h
          (ensure_config_map-Kept c l.keeps l.config_maps l.maps_apart kn.metadata.namespace cm
            (texts_of "Web ConfigMap") (build_nginx_config_map k kn.metadata.namespace) refl other)

    web_map : Ensures (λ s. IsSame c l kn s × HoldsMap s) (λ _. HoldsMap) (reconcile_web c)
    unfolding reconcile_web build_web_resources
    web_map =
        Ensures-bind _ (λ k s. SameButStatus k kn × HoldsMap s) _ _ _ (Ensures-self _ _ (λ s p. p))
          λ k. record {
            at = λ s p.
                (Ensures-bind HoldsMap (λ _. HoldsMap) (λ _. HoldsMap) _ _
                    (nginx_keeps k k.metadata.namespace _ (sym p.0.namespace))
                    λ _.
                      Ensures-Relates HoldsMap (SameView l.config_maps.view) (λ _. HoldsMap) _
                        (search
                          (
                            ensure_deployment-Relates c _ (maps_base c l) l.maps_by_deployments,
                            ensure_service-Relates c _ (maps_base c l) l.maps_by_services,
                            ensure_ingress-Relates c _ (maps_base c l) l.maps_by_ingresses,
                            (maps_base c l).preorder,
                            action_rules,
                          )
                          depth 8)
                        (λ a t u e (b, (h, j)). (b, (e _ _ ∙ h, j)))).at
                  s p.1;
          }

  pub web_maps :
      Ensures (λ s. IsSame c l kn s × HasMaps c l kn s) (λ _. HasMaps c l kn) (reconcile_web c)
  web_maps =
      Ensures-All (IsSame c l kn)
        (λ cm s. Holds c l.keeps l.config_maps l.maps_apart kn.metadata.namespace cm s.world)
        (reconcile_web c) _
        (All-weaker _ web_map (config_maps-IsNoNginxMap kn kn.metadata.namespace))

  module _ (entry : String × ServiceResources) (other : IsNoWeb entry) where
    abbrev HoldsDeployment : Session c.World → Type 0
    HoldsDeployment s = Deployed c l.deployments kn.metadata.namespace entry.1.deployment s.world

    web_deployment_keeps :
        (k : KubeNova) (n : String)
        → kn.metadata.namespace ≡ n
        → Ensures HoldsDeployment
            (λ _. HoldsDeployment)
            (ensure_deployment c
              (texts_of "Web Deployment")
              "重新获取 Web Deployment 失败"
              merge_web_deployment
              n
              (build_web_deployment k n))
    unfolding build_web_deployment
    web_deployment_keeps k n h =
        subst
          (λ m.
            Ensures HoldsDeployment (λ _. HoldsDeployment)
              (ensure_deployment c (texts_of "Web Deployment") "重新获取 Web Deployment 失败"
                merge_web_deployment m (build_web_deployment k m)))
          h
          (ensure_deployment-Kept c l.keeps l.deployments kn.metadata.namespace entry.1.deployment _
            _ merge_web_deployment (λ latest d. refl) (build_web_deployment k kn.metadata.namespace)
            refl other)

    left_alone :
        {A : Type 0} (m : Action c.World c.ApiError A)
        → Relates (SameView l.deployments.view) m
        → Ensures HoldsDeployment (λ _. HoldsDeployment) m
    left_alone m h =
        Ensures-Relates HoldsDeployment (SameView l.deployments.view) (λ _. HoldsDeployment) m h
          (λ a t u e (b, (v, j)). (b, (e _ _ ∙ v, j)))

    web_deployment :
        Ensures (λ s. IsSame c l kn s × HoldsDeployment s) (λ _. HoldsDeployment) (reconcile_web c)
    unfolding reconcile_web build_web_resources
    web_deployment =
        Ensures-bind _ (λ k s. SameButStatus k kn × HoldsDeployment s) _ _ _
          (Ensures-self _ _ (λ s p. p))
          λ k. record {
            at = λ s p.
                (Ensures-bind HoldsDeployment (λ _. HoldsDeployment) (λ _. HoldsDeployment) _ _
                    (left_alone _
                      (ensure_nginx-Relates c _ (deployments_base c l) l.deployments_by_maps _ _))
                    λ _.
                      Ensures-bind HoldsDeployment (λ _. HoldsDeployment) (λ _. HoldsDeployment) _ _
                        (web_deployment_keeps k k.metadata.namespace (sym p.0.namespace))
                        λ _. left_alone _ (
                          search
                            (
                              ensure_service-Relates c _ (deployments_base c l)
                                  (deployments_by_services c l),
                              ensure_ingress-Relates c _ (deployments_base c l)
                                  l.deployments_by_ingresses,
                              (deployments_base c l).preorder,
                              action_rules,
                            )
                            depth 8)).at
                  s p.1;
          }

  pub web_deployments :
      Ensures
        (λ s. IsSame c l kn s × HasDeployments c l kn s)
        (λ _. HasDeployments c l kn)
        (reconcile_web c)
  web_deployments =
      Ensures-All (IsSame c l kn)
        (λ entry s. Deployed c l.deployments kn.metadata.namespace entry.1.deployment s.world)
        (reconcile_web c) _
        (All-weaker _ web_deployment (services-IsNoWeb kn kn.metadata.namespace))

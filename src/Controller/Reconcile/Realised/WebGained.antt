-- ===== src/Controller/Reconcile/Realised/WebGained.antt =====
-- The stage of the web front end stores its ConfigMap and its Deployment
-- (reconcileWeb of internal/controller/kubenova_controller.go).
use kube_nova_operator.Api.{KubeNova}
use kube_nova_operator.Builder.Web.Nginx.{build_nginx_config_map}
use kube_nova_operator.Builder.Web.Pod.{build_web_deployment}
use kube_nova_operator.Builder.Web.Resources.{build_web_resources}
use kube_nova_operator.Controller.Action.{Session}
use kube_nova_operator.Controller.Action.Ensures.{
  Ensures, Ensures-Relates, Ensures-bind, Ensures-nothing, Ensures-self, Ensures-weaker,
}
use kube_nova_operator.Controller.Action.Rules.{action_rules}
use kube_nova_operator.Controller.Cluster.{Cluster}
use kube_nova_operator.Controller.Ensure.AllConfigMaps.{Holds}
use kube_nova_operator.Controller.Ensure.Converges.{ensure_config_map-converges}
use kube_nova_operator.Controller.Reconcile.KeptStages.{
  ensure_deployment-Relates, ensure_ingress-Relates, ensure_service-Relates,
}
use kube_nova_operator.Controller.Reconcile.Realised.{SameView}
use kube_nova_operator.Controller.Reconcile.Realised.Held.{HasNginx, HasWeb, IsSame}
use kube_nova_operator.Controller.Reconcile.Realised.Isolated.{
  ServerLaws, deployments_base, deployments_by_services, maps_base,
}
use kube_nova_operator.Controller.Reconcile.Realised.Renamed.{nginx_map_same, web_deployment_same}
use kube_nova_operator.Controller.Resources.{texts_of}
use kube_nova_operator.Controller.Status.Retry.{SameButStatus}
use kube_nova_operator.Controller.Workloads.{ensure_nginx, reconcile_web}
use kube_nova_operator.Controller.Workloads.Converges.{WebDeployed, web_round}
use kube_nova_operator.Kube.{ConfigMap}
use kube_nova_operator.Prelude.{
  Bool, String, false, if◌then◌else◌, none, refl, some, subst, true, ◌==◌, ◌∙◌, ◌≡◌,
}

in_namespace : (kn : KubeNova) (ns : String) → (build_web_deployment kn ns).metadata.namespace ≡ ns
unfolding build_web_deployment
in_namespace kn ns = refl

module _ (c : Cluster) (l : ServerLaws c) (kn : KubeNova) where
  -- The ConfigMap of Nginx is stored, if it is to be built.
  abbrev HasFile : Bool → ConfigMap → String → Session c.World → Type 0
  HasFile own_map cm ns s =
      if own_map then Holds c l.keeps l.config_maps l.maps_apart ns cm s.world else Unit

  file_stored :
      (own_map : Bool) (k : KubeNova) (ns : String)
      → Ensures
          (λ _. Unit {0})
          (λ _. HasFile own_map (build_nginx_config_map k ns) ns)
          (ensure_nginx c ns (if own_map then some (build_nginx_config_map k ns) else none))
  unfolding build_nginx_config_map
  file_stored false k ns = Ensures-nothing _ _
  file_stored true k ns =
      ensure_config_map-converges c l.keeps l.config_maps (texts_of "Web ConfigMap")
        (build_nginx_config_map k ns) (refl, (refl, tt))

  file_moved :
      (own_map : Bool) (cm : ConfigMap) (ns : String) (s t : Session c.World)
      → SameView l.config_maps.view s t
      → HasFile own_map cm ns s
      → HasFile own_map cm ns t
  file_moved false cm ns s t e h = h
  file_moved true cm ns s t e (b, (h, k)) = (b, (e _ _ ∙ h, k))

  -- What is stored for the object in memory is stored for the one of the pass.
  file_of :
      (k : KubeNova) (s : Session c.World)
      → SameButStatus k kn
      → HasFile
          (k.spec.web.custom_nginx_config_map == "")
          (build_nginx_config_map k k.metadata.namespace)
          k.metadata.namespace
          s
      → HasNginx c l kn s
  file_of k s h p =
      subst
        (λ x.
          HasFile (x.web.custom_nginx_config_map == "")
            (build_nginx_config_map kn kn.metadata.namespace) kn.metadata.namespace s)
        h.spec
        (subst (λ m. HasFile (k.spec.web.custom_nginx_config_map == "") m kn.metadata.namespace s)
          (nginx_map_same kn.metadata.namespace k kn h)
          (subst
            (λ n.
              HasFile (k.spec.web.custom_nginx_config_map == "") (build_nginx_config_map k n) n s)
            h.namespace p))

  web_of :
      (k : KubeNova) (s : Session c.World)
      → SameButStatus k kn
      → WebDeployed c l.deployments k.metadata.namespace
          (build_web_deployment k k.metadata.namespace)
          s.world
      → HasWeb c l kn s
  web_of k s h p =
      subst (λ d. WebDeployed c l.deployments kn.metadata.namespace d s.world)
        (web_deployment_same kn.metadata.namespace k kn h)
        (subst (λ n. WebDeployed c l.deployments n (build_web_deployment k n) s.world) h.namespace
          p)

  pub nginx_stage : Ensures (IsSame c l kn) (λ _. HasNginx c l kn) (reconcile_web c)
  unfolding reconcile_web build_web_resources
  nginx_stage =
      Ensures-bind _ (λ k s. SameButStatus k kn) _ _ _ (Ensures-self _ _ (λ s p. p))
        λ k. record {
          at = λ s h.
              (Ensures-weaker _ _ _ (λ _ t. file_of k t h) _
                  (Ensures-bind (λ _. Unit {0}) (λ _. stored k) (λ _. stored k) _ _
                    (file_stored _ k k.metadata.namespace)
                    λ _.
                      Ensures-Relates (stored k) (SameView l.config_maps.view) (λ _. stored k) _
                        (search
                          (
                            ensure_deployment-Relates c _ (maps_base c l) l.maps_by_deployments,
                            ensure_service-Relates c _ (maps_base c l) l.maps_by_services,
                            ensure_ingress-Relates c _ (maps_base c l) l.maps_by_ingresses,
                            (maps_base c l).preorder,
                            action_rules,
                          )
                          depth 8)
                        (λ _.
                          file_moved (k.spec.web.custom_nginx_config_map == "")
                            (build_nginx_config_map k k.metadata.namespace)
                            k.metadata.namespace))).at
                s tt;
        }
    where
      stored : KubeNova → Session c.World → Type 0
      stored k =
          HasFile (k.spec.web.custom_nginx_config_map == "")
            (build_nginx_config_map k k.metadata.namespace) k.metadata.namespace

  pub web_stage : Ensures (IsSame c l kn) (λ _. HasWeb c l kn) (reconcile_web c)
  unfolding reconcile_web build_web_resources
  web_stage =
      Ensures-bind _ (λ k s. SameButStatus k kn) _ _ _ (Ensures-self _ _ (λ s p. p))
        λ k. record {
          at = λ s h.
              (Ensures-weaker _ _ _ (λ _ t. web_of k t h) _
                  (Ensures-bind (λ _. Unit {0}) (λ _ _. Unit {0}) (λ _. stored k) _ _
                    (Ensures-nothing _ _)
                    λ _.
                      Ensures-bind (λ _. Unit {0}) (λ _. stored k) (λ _. stored k) _ _
                        (web_round c l.keeps l.deployments k.metadata.namespace _ _
                          (build_web_deployment k k.metadata.namespace)
                          (in_namespace k k.metadata.namespace))
                        λ _.
                          Ensures-Relates (stored k) (SameView l.deployments.view) (λ _. stored k) _
                            (search
                              (
                                ensure_service-Relates c _ (deployments_base c l)
                                    (deployments_by_services c l),
                                ensure_ingress-Relates c _ (deployments_base c l)
                                    l.deployments_by_ingresses,
                                (deployments_base c l).preorder,
                                action_rules,
                              )
                              depth 8)
                            (λ _ t u e (b, (v, j)). (b, (e _ _ ∙ v, j))))).at
                s tt;
        }
    where
      stored : KubeNova → Session c.World → Type 0
      stored k t =
          WebDeployed c l.deployments k.metadata.namespace
            (build_web_deployment k k.metadata.namespace) t.world

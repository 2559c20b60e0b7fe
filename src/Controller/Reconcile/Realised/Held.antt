-- ===== src/Controller/Reconcile/Realised/Held.antt =====
-- What is stored behind the stages that write it
-- (reconcileSecret, reconcileConfigMaps and reconcileServices of
-- internal/controller/kubenova_controller.go).
use kube_nova_operator.Api.{KubeNova}
use kube_nova_operator.Builder.ConfigMaps.{build_all_config_maps}
use kube_nova_operator.Builder.Secret.{secret_data}
use kube_nova_operator.Builder.Service.All.{build_all_services}
use kube_nova_operator.Builder.Web.Nginx.{build_nginx_config_map}
use kube_nova_operator.Builder.Web.Pod.{build_web_deployment}
use kube_nova_operator.Controller.Action.{Session}
use kube_nova_operator.Controller.Action.Ensures.{Ensures, Ensures-weaker}
use kube_nova_operator.Controller.Cluster.{Cluster}
use kube_nova_operator.Controller.Ensure.AllConfigMaps.{Holds, reconcile_config_maps-converges}
use kube_nova_operator.Controller.Ensure.Laws.{IsStored}
use kube_nova_operator.Controller.Ensure.SecretConverges.{HoldsSecret, reconcile_secret-converges}
use kube_nova_operator.Controller.Reconcile.Realised.{SameView}
use kube_nova_operator.Controller.Reconcile.Realised.Isolated.{ServerLaws}
use kube_nova_operator.Controller.Reconcile.Realised.Renamed.{
  config_maps_same, secret_data_same, services_same,
}
use kube_nova_operator.Controller.Resources.{reconcile_config_maps, reconcile_secret, texts_of}
use kube_nova_operator.Controller.Status.Retry.{SameButStatus}
use kube_nova_operator.Controller.Workloads.{reconcile_services}
use kube_nova_operator.Controller.Workloads.AllDeployed.{VisitsAll, reconcile_services-converges}
use kube_nova_operator.Controller.Workloads.Converges.{WebDeployed}
use kube_nova_operator.Controller.Workloads.Deployed.{Deployed}
use kube_nova_operator.Prelude.{
  All, All-weaker, Bool-cases, String, if◌then◌else◌, inl, inr, refl, subst, ◌==◌, ◌∙◌,
}

module _ (c : Cluster) (l : ServerLaws c) (kn : KubeNova) where
  -- The object in memory is still the one of the pass.
  abbrev pub IsSame : Session c.World → Type 0
  IsSame s = SameButStatus s.kube_nova kn

  abbrev pub HasSecret : Session c.World → Type 0
  HasSecret s = (ip : String) × HoldsSecret c l.keeps l.secrets kn ip s.world

  abbrev pub HasMaps : Session c.World → Type 0
  HasMaps s =
      All (λ cm. Holds c l.keeps l.config_maps l.maps_apart kn.metadata.namespace cm s.world)
        (build_all_config_maps kn kn.metadata.namespace)

  abbrev pub HasDeployments : Session c.World → Type 0
  HasDeployments s =
      All (λ entry. Deployed c l.deployments kn.metadata.namespace entry.1.deployment s.world)
        (build_all_services kn kn.metadata.namespace)

  -- The configuration of Nginx, unless the specification names one of its own.
  abbrev pub HasNginx : Session c.World → Type 0
  HasNginx s =
      if kn.spec.web.custom_nginx_config_map == ""
      then Holds c l.keeps l.config_maps l.maps_apart kn.metadata.namespace
          (build_nginx_config_map kn kn.metadata.namespace) s.world
      else Unit

  abbrev pub HasWeb : Session c.World → Type 0
  HasWeb s =
      WebDeployed c l.deployments kn.metadata.namespace
        (build_web_deployment kn kn.metadata.namespace) s.world

  pub moved_nginx :
      (s t : Session c.World) → SameView l.config_maps.view s t → HasNginx s → HasNginx t
  moved_nginx s t e = elim (Bool-cases (kn.spec.web.custom_nginx_config_map == "")) [
    | inl own_map ↦ rw own_map (λ (b, (h, k)). (b, (e _ _ ∙ h, k)))
    | inr named ↦ rw named (λ x. x)
  ]

  pub moved_web : (s t : Session c.World) → SameView l.deployments.view s t → HasWeb s → HasWeb t
  moved_web s t e (b, (h, k)) = (b, (e _ _ ∙ h, k))

  pub moved_secret :
      (s t : Session c.World) → SameView l.secrets.view s t → HasSecret s → HasSecret t
  moved_secret s t e (ip, (port, (b, (h, k)))) = (ip, (port, (b, (e _ _ ∙ h, k))))

  pub moved_maps : (s t : Session c.World) → SameView l.config_maps.view s t → HasMaps s → HasMaps t
  moved_maps s t e = All-weaker _ (λ cm (b, (h, k)). (b, (e _ _ ∙ h, k)))

  pub moved_deployments :
      (s t : Session c.World)
      → SameView l.deployments.view s t
      → HasDeployments s
      → HasDeployments t
  moved_deployments s t e = All-weaker _ (λ entry (b, (h, k)). (b, (e _ _ ∙ h, k)))

  -- A stage that works for any object in memory works for the one of the pass.
  secret_of :
      (k : KubeNova) (ip : String) (w : c.World)
      → SameButStatus k kn
      → HoldsSecret c l.keeps l.secrets k ip w
      → HoldsSecret c l.keeps l.secrets kn ip w
  secret_of k ip w h (port, held) = (
    port,
    subst
        (λ n.
          IsStored c _ _ _ l.secrets (texts_of "Secret") n "kube-nova-secret"
            (secret_data kn ip port) w)
        h.namespace
        (subst
          (λ d.
            IsStored c _ _ _ l.secrets (texts_of "Secret") k.metadata.namespace "kube-nova-secret" d
              w)
          (secret_data_same ip port k kn h) held),
  )

  pub secret_stage : Ensures IsSame (λ _. HasSecret) (reconcile_secret c)
  secret_stage = record {
    at = λ s h.
        (Ensures-weaker _ _ _ (λ _ t p. (_, secret_of s.kube_nova _ t.world h p)) _
            (reconcile_secret-converges c l.keeps l.secrets s.world s.kube_nova)).at
          s (refl, refl);
  }

  pub maps_stage : Ensures IsSame (λ _. HasMaps) (reconcile_config_maps c)
  maps_stage = record {
    at = λ s h.
        (Ensures-weaker _ _ _
            (λ _ t p.
              subst
                (All (λ cm.
                  Holds c l.keeps l.config_maps l.maps_apart kn.metadata.namespace cm t.world))
                (config_maps_same kn.metadata.namespace s.kube_nova kn h)
                (subst
                  (λ n.
                    All (λ cm. Holds c l.keeps l.config_maps l.maps_apart n cm t.world)
                      (build_all_config_maps s.kube_nova n))
                  h.namespace p))
            _ (reconcile_config_maps-converges c l.keeps l.config_maps l.maps_apart s.kube_nova)).at
          s refl;
  }

  pub services_stage : VisitsAll c → Ensures IsSame (λ _. HasDeployments) (reconcile_services c)
  services_stage visits = record {
    at = λ s h.
        (Ensures-weaker _ _ _
            (λ _ t p.
              subst
                (All (λ entry.
                  Deployed c l.deployments kn.metadata.namespace entry.1.deployment t.world))
                (services_same kn.metadata.namespace s.kube_nova kn h)
                (subst
                  (λ n.
                    All (λ entry. Deployed c l.deployments n entry.1.deployment t.world)
                      (build_all_services s.kube_nova n))
                  h.namespace p))
            _ (reconcile_services-converges c l.keeps l.deployments s.kube_nova visits)).at
          s refl;
  }

-- ===== src/Controller/Workloads/KeptDeployments.antt =====
-- The rounds for other services leave a Deployment as it is
-- (reconcileServices of internal/controller/kubenova_controller.go).
use kube_nova_operator.Builder.Service.{ServiceResources}
use kube_nova_operator.Controller.Action.{Session, call, or_wrap, pure, ◌>>=◌}
use kube_nova_operator.Controller.Action.Ensures.{Ensures, Ensures-bind, Ensures-pure}
use kube_nova_operator.Controller.Cluster.{Cluster}
use kube_nova_operator.Controller.Compare.{deployment_spec_equal}
use kube_nova_operator.Controller.Ensure.{Texts, create_if_missing, write}
use kube_nova_operator.Controller.Ensure.Apart.{keeps_apart}
use kube_nova_operator.Controller.Ensure.Converges.{KeepsNames}
use kube_nova_operator.Controller.Ensure.Keeps.{
  KeepsWorld, ensure-Kept, got_Found, named-Kept, own-Kept, write-Kept,
}
use kube_nova_operator.Controller.Ensure.Laws.{IsNamed}
use kube_nova_operator.Controller.Workloads.{
  deploy_services, ensure_deployment, ensure_service, merge_deployment,
}
use kube_nova_operator.Controller.Workloads.Deployed.{Deployed, DeploymentLaws}
use kube_nova_operator.Controller.Workloads.Names.{HasOtherName, IsOf}
use kube_nova_operator.Kube.Network.{Service}
use kube_nova_operator.Kube.Workload.{Deployment}
use kube_nova_operator.Prelude.{
  All, Bool-cases, String, [], false, if◌then◌else◌, inl, inr, refl, subst, sym, ◌==◌, ◌∙◌, ◌∷◌,
  ◌≡◌,
}
use kube_nova_operator.Prelude.Maps.{Map}

module _ (c : Cluster) (keeps : KeepsNames c) (laws : DeploymentLaws c) (ns : String)
    (held : Deployment) where
  abbrev Stays : Unit {0} → Session c.World → Type 0
  Stays _ s = Deployed c laws ns held s.world

  same_view :
      (v w : c.World)
      → laws.view ns held.metadata.name w ≡ laws.view ns held.metadata.name v
      → Deployed c laws ns held v
      → Deployed c laws ns held w
  same_view v w e (b, (h, k)) = (b, (e ∙ h, k))

  keeps_held :
      (name : String)
      → (name == held.metadata.name) ≡ false
      → KeepsWorld c.deployments ns name (λ a. IsNamed ns name a.metadata) (Deployed c laws ns held)
  keeps_held name h =
      keeps_apart laws.apart ns held.metadata.name (Deployed c laws ns held) same_view name
        (λ w a e. (laws.got_is ns name w a e).1) h

  services_keep :
      (name : String) → KeepsWorld c.services ns name (λ _. Unit {0}) (Deployed c laws ns held)
  services_keep name = record {
    get_keeps = λ w. same_view _ _ (laws.service_get ns held.metadata.name ns name w);
    get_finds = λ w a e. tt;
    create_keeps = λ a w n. same_view _ _ (laws.service_create ns held.metadata.name a w);
    update_keeps = λ a w n. same_view _ _ (laws.service_update ns held.metadata.name a w);
  }

  module _ (texts : Texts) where
    module _ (regetting : String) (merge : Deployment → Deployment → Deployment)
        (hm : (latest d : Deployment) → (merge latest d).metadata ≡ latest.metadata)
        (d : Deployment) (e : d.metadata.namespace ≡ ns)
        (h : (d.metadata.name == held.metadata.name) ≡ false) where
      there-Kept :
          (a : Deployment)
          → Ensures
              (λ s. IsNamed ns d.metadata.name a.metadata × Deployed c laws ns held s.world)
              Stays
              (if deployment_spec_equal c.quantity_equal a.spec d.spec then pure tt else do
                found ← call (c.deployments.get ns d.metadata.name)
                latest ← or_wrap regetting found
                write c c.deployments texts (merge latest d))
      there-Kept a = elim (Bool-cases (deployment_spec_equal c.quantity_equal a.spec d.spec)) [
        | inl equal ↦ rw equal (Ensures-pure _ Stays _ (λ s k. k.1))
        | inr differs ↦ rw differs (record {
          at = λ s k.
              (Ensures-bind _ _ Stays _ _
                  (got_Found c c.deployments ns d.metadata.name (keeps_held _ h) texts)
                  λ r.
                    Ensures-bind _ _ Stays _ _
                      (named-Kept c c.deployments ns d.metadata.name (keeps_held _ h) texts
                        regetting r)
                      (λ latest. record {
                        at = λ t p.
                            (write-Kept c c.deployments ns d.metadata.name (keeps_held _ h) texts
                                (merge latest d)
                                (subst (IsNamed ns d.metadata.name) (sym (hm latest d)) p.0)).at
                              t p.1;
                      })).at
                s k.1;
        })
      ]

      pub ensure_deployment-Kept :
          Ensures (Stays tt) Stays (ensure_deployment c texts regetting merge ns d)
      unfolding ensure_deployment
      ensure_deployment-Kept =
          Ensures-bind _ _ _ _ _
            (own-Kept c c.deployments ns d.metadata.name (keeps_held _ h) texts keeps
              "设置 OwnerReference 失败" d.metadata)
            λ m. record {
              at = λ s p.
                  (ensure-Kept c c.deployments ns d.metadata.name (keeps_held _ h) texts _
                      there-Kept (record d { metadata = m })
                      (subst (λ n. IsNamed n d.metadata.name m) e p.0)).at
                    s p.1;
            }

    pub ensure_service-Kept :
        (svc : Service) → Ensures (Stays tt) Stays (ensure_service c texts ns svc)
    unfolding ensure_service create_if_missing
    ensure_service-Kept svc =
        Ensures-bind _ _ _ _ _
          (own-Kept c c.services ns svc.metadata.name (services_keep _) texts keeps
            "设置 OwnerReference 失败" svc.metadata)
          λ m. record {
            at = λ s p.
                (ensure-Kept c c.services ns svc.metadata.name (services_keep _) texts _
                    (λ a. Ensures-pure _ _ _ (λ t k. k.1)) (record svc { metadata = m }) tt).at
                  s p.1;
          }

  pub deploy_services-Kept :
      (m : Map ServiceResources)
      → All (IsOf ns) m
      → All (HasOtherName held.metadata.name) m
      → Ensures (Stays tt) Stays (deploy_services c ns m)
  unfolding deploy_services
  deploy_services-Kept [] f h = Ensures-pure _ _ _ (λ s k. k)
  deploy_services-Kept ((name, r) ∷ rest) f h =
      Ensures-bind _ Stays _ _ _
        (ensure_deployment-Kept _ _ merge_deployment (λ latest d. refl) r.deployment f.0 h.0)
        λ _.
          Ensures-bind _ Stays _ _ _ (ensure_service-Kept _ r.service)
            (λ _. deploy_services-Kept rest f.1 h.1)

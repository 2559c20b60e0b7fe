-- ===== src/Controller/Workloads/AllDeployed.antt =====
-- All Deployments of the back-end services are what was built, behind their loop
-- (reconcileServices of internal/controller/kubenova_controller.go).
use mathlib.Core.List.{Permᴰ}
use mathlib.Core.List.Permᴰ
use kube_nova_operator.Api.{KubeNova}
use kube_nova_operator.Api.Methods.{get_image_registry}
use kube_nova_operator.Api.Status.{DeploymentPhase, KubeNovaStatus}
use kube_nova_operator.Builder.Service.{ServiceResources}
use kube_nova_operator.Builder.Service.All.{build_all_services}
use kube_nova_operator.Builder.Service.Pod.{
  build_deployment, build_k8s_service, build_service, service_container,
}
use kube_nova_operator.Controller.Action.{Action, Session}
use kube_nova_operator.Controller.Action.Ensures.{
  Ensures, Ensures-and, Ensures-bind, Ensures-call, Ensures-modify, Ensures-pure, Ensures-self,
  Ensures-weaker, Post,
}
use kube_nova_operator.Controller.Cluster.{Cluster}
use kube_nova_operator.Controller.Ensure.Converges.{KeepsNames}
use kube_nova_operator.Controller.Status.{set_status_phase}
use kube_nova_operator.Controller.Workloads.{deploy_services, reconcile_services}
use kube_nova_operator.Controller.Workloads.Converges.{service_round}
use kube_nova_operator.Controller.Workloads.Deployed.{Deployed, DeploymentLaws}
use kube_nova_operator.Controller.Workloads.KeptDeployments.{
  deploy_services-Kept, ensure_service-Kept,
}
use kube_nova_operator.Controller.Workloads.Names.{
  All-permᴰ, HaveOtherNames, HaveOtherNames-permᴰ, IsOf, build_all_services-HaveOtherNames,
  build_all_services-IsOf,
}
use kube_nova_operator.Prelude.{All, String, [], ap, refl, subst, ◌∷◌, ◌≡◌}
use kube_nova_operator.Prelude.Maps.{Map}

-- A range over a map visits each entry once, in some order.
abbrev pub VisitsAll : Cluster → Type 0
VisitsAll c = (m : Map ServiceResources) → Permᴰ m (c.range_services m)

-- The same KubeNova but for its status.
abbrev IsBut : KubeNova → KubeNova → Type 0
IsBut kn k = (st : KubeNovaStatus) × (k ≡ record kn { status = st })

built_alike :
    (kn : KubeNova) (st : KubeNovaStatus) (ns : String)
    → build_all_services (record kn { status = st }) ns ≡ build_all_services kn ns
unfolding build_all_services build_service build_deployment build_k8s_service service_container
    get_image_registry
built_alike kn st ns = refl

renamed :
    {kn : KubeNova} (k : KubeNova) (st : KubeNovaStatus)
    → k ≡ kn
    → IsBut kn (record k { status = st })
renamed k st h = (st, ap {A = KubeNova} (λ x. record x { status = st }) h)

set_status_phase-IsBut :
    (c : Cluster) (kn : KubeNova) (phase : DeploymentPhase) (message : String)
    → Ensures
        (λ s. s.kube_nova ≡ kn)
        (λ _ s. IsBut kn s.kube_nova)
        (set_status_phase c phase message)
unfolding set_status_phase
set_status_phase-IsBut c kn phase message =
    Ensures-bind _ (λ _ s. s.kube_nova ≡ kn) _ _ _ (Ensures-call _ _ _ (λ s h. h))
      (λ time. Ensures-modify _ _ _ (λ s h. renamed s.kube_nova _ h))

module _ (c : Cluster) (keeps : KeepsNames c) (laws : DeploymentLaws c) where
  module _ (ns : String) where
    deploy_services-Deployed :
        (m : Map ServiceResources)
        → All (IsOf ns) m
        → HaveOtherNames m
        → Ensures
            (λ _. Unit)
            (λ _ s. All (λ entry. Deployed c laws ns entry.1.deployment s.world) m)
            (deploy_services c ns m)
    unfolding deploy_services
    deploy_services-Deployed [] f h = Ensures-pure _ _ _ (λ s k. tt)
    deploy_services-Deployed ((name, r) ∷ rest) f h =
        Ensures-bind _ (λ _ s. Deployed c laws ns r.deployment s.world) _ _ _
          (service_round c keeps laws ns _ _ r.deployment f.0)
          λ _.
            Ensures-bind _ (λ _ s. Deployed c laws ns r.deployment s.world) _ _ _
              (ensure_service-Kept c keeps laws ns r.deployment _ r.service)
              λ _. record {
                at = λ s k.
                    (Ensures-and _ _ _ _ _
                        (deploy_services-Kept c keeps laws ns r.deployment rest f.1 h.0)
                        (deploy_services-Deployed rest f.1 h.1)).at
                      s (k, tt);
              }

    -- The stage behind the change of the phase.
    visited-Deployed :
        (kn : KubeNova)
        → VisitsAll c
        → Ensures
            (λ _. Unit)
            (λ _ s.
              All
                (λ entry. Deployed c laws ns entry.1.deployment s.world)
                (build_all_services kn ns))
            (deploy_services c ns (c.range_services (build_all_services kn ns)))
    visited-Deployed kn visits =
        let p = visits (build_all_services kn ns) in
        Ensures-weaker _ _ _ (λ _ s. All-permᴰ _ (Permᴰ.symm p)) _
          (deploy_services-Deployed _ (All-permᴰ _ p (build_all_services-IsOf kn ns))
            (HaveOtherNames-permᴰ p (build_all_services-HaveOtherNames kn ns)))

  -- A stage of the back-end services that ends without error leaves a Deployment stored for each
  -- service that is switched on, which agrees with the one that was built for the KubeNova as far as
  -- the comparison looks: in the replicas, the number of containers, of the first one the image, the
  -- variables with a non-empty literal value and the paths of the mounts, the names of the volumes,
  -- and the service account. Nothing is said of where variables and volumes take their contents from.
  -- The Deployment was missing and is created, or it was there and found equal, or it is overwritten
  -- from the answer to a second read; the rounds do not undo each other, in whichever order the
  -- map is visited. A range visits each entry once, the server stores these fields as it is sent
  -- them, leaves Deployments of other names as they are, and setting the owner keeps the name.
  pub reconcile_services-converges :
      (kn : KubeNova)
      → VisitsAll c
      → Ensures
          (λ s. s.kube_nova ≡ kn)
          (λ _ s.
            All
              (λ entry. Deployed c laws kn.metadata.namespace entry.1.deployment s.world)
              (build_all_services kn kn.metadata.namespace))
          (reconcile_services c)
  unfolding reconcile_services
  reconcile_services-converges kn visits =
      Ensures-bind _ (λ _ s. IsBut kn s.kube_nova) _ _ _ (set_status_phase-IsBut c kn _ _)
        λ _.
          Ensures-bind _ (λ k s. Unit {0} × IsBut kn k) _ _ _ (Ensures-self _ _ (λ s h. (tt, h)))
            λ k. record {
              at = λ s (_, (st, e)).
                  subst (λ m. Post (λ _ t. AllDone kn.metadata.namespace m t) (deploys k s))
                    (built_alike kn st kn.metadata.namespace)
                    (subst
                      (λ x.
                        Post
                          (λ _ t.
                            AllDone x.metadata.namespace (build_all_services x x.metadata.namespace)
                              t)
                          (deploys k s))
                      e ((visited-Deployed k.metadata.namespace k visits).at s tt));
            }
    where
      AllDone : String → Map ServiceResources → Session c.World → Type 0
      AllDone ns m t = All (λ entry. Deployed c laws ns entry.1.deployment t.world) m

      deploys : KubeNova → Action c.World c.ApiError (Unit {0})
      deploys k =
          deploy_services c k.metadata.namespace
            (c.range_services (build_all_services k k.metadata.namespace))

-- ===== src/Controller/Workloads/Idle.antt =====
-- When the stage of the back-end services has nothing to do
-- (internal/controller/kubenova_controller.go).
use kube_nova_operator.Api.{KubeNova}
use kube_nova_operator.Builder.Service.{ServiceResources}
use kube_nova_operator.Controller.Action.{Action, Session, pure, ◌>>=◌, ◌>>◌}
use kube_nova_operator.Controller.Cluster.{Cluster}
use kube_nova_operator.Controller.Compare.Defaulted.{Keeps, deployment_spec_equal-Keeps}
use kube_nova_operator.Controller.Compare.Refl.{FirstIsComparable}
use kube_nova_operator.Controller.Ensure.{Texts, create_if_missing, ensure, own}
use kube_nova_operator.Controller.Workloads.{deploy_services, ensure_deployment, ensure_service}
use kube_nova_operator.Kube.{ObjectMeta}
use kube_nova_operator.Kube.Network.{Service}
use kube_nova_operator.Kube.Workload.{Deployment, Quantity}
use kube_nova_operator.Prelude.{All, String, [], refl, true, ◌∙◌, ◌∷◌, ◌≡◌}
use kube_nova_operator.Prelude.Maps.{Map}
use kube_nova_operator.Prelude.Results.{got, ok}

-- A relation between worlds that reads of Deployments and Services keep: nothing has been written
-- to these, by the operator or by another writer, so that reads answer the same.
pub record ReadOnly (c : Cluster) : Type 1 where
  pub R : c.World → c.World → Type 0
  pub same : (w : c.World) → R w w
  pub chain : (u v w : c.World) → R u v → R v w → R u w
  pub get_deployment : (ns name : String) (w : c.World) → R w (c.deployments.get ns name w).1
  pub get_service : (ns name : String) (w : c.World) → R w (c.services.get ns name w).1
  pub same_deployment :
      (v w : c.World)
      → R v w
      → (ns name : String) → (c.deployments.get ns name w).0 ≡ (c.deployments.get ns name v).0
  pub same_service :
      (v w : c.World)
      → R v w
      → (ns name : String) → (c.services.get ns name w).0 ≡ (c.services.get ns name v).0

-- What was built for a service is there in this world: a Deployment with what was built of the
-- specification, and its Service. The first container can be compared.
pub record IsInPlace (c : Cluster) (ns : String) (r : ServiceResources) (w : c.World) : Type 0 where
  pub found : Deployment
  pub deployment_there : (c.deployments.get ns r.deployment.metadata.name w).0 ≡ got found
  pub keeps : Keeps found.spec r.deployment.spec
  pub comparable : FirstIsComparable r.deployment.spec.template.spec.containers
  pub service : Service
  pub service_there : (c.services.get ns r.service.metadata.name w).0 ≡ got service

-- The owner reference can be set on any object.
abbrev pub CanOwn : Cluster → Type 0
CanOwn c =
    (kn : KubeNova) (m : ObjectMeta)
    → (m' : ObjectMeta) × (c.set_controller_reference kn m ≡ got m')

module _ (c : Cluster) (q_refl : (x : Quantity) → c.quantity_equal x x ≡ true) (can_own : CanOwn c)
    (ro : ReadOnly c) where
  -- The method succeeds and has only read.
  abbrev Idles : Action c.World c.ApiError (Unit {0}) → Session c.World → Type 0
  Idles m s = ((m s).0 ≡ ok tt) × ro.R s.world (m s).1.world

  -- Reads keep it so.
  stays-IsInPlace :
      (ns : String) (r : ServiceResources) (v w : c.World)
      → ro.R v w
      → IsInPlace c ns r v
      → IsInPlace c ns r w
  stays-IsInPlace ns r v w h p = record {
    found = p.found;
    deployment_there = ro.same_deployment v w h ns _ ∙ p.deployment_there;
    keeps = p.keeps;
    comparable = p.comparable;
    service = p.service;
    service_there = ro.same_service v w h ns _ ∙ p.service_there;
  }

  stays_all :
      (ns : String) (m : Map ServiceResources) (v w : c.World)
      → ro.R v w
      → All (λ p. IsInPlace c ns p.1 v) m
      → All (λ p. IsInPlace c ns p.1 w) m
  stays_all ns [] v w h a = tt
  stays_all ns ((name, r) ∷ rest) v w h a =
      (stays-IsInPlace ns r v w h a.0, stays_all ns rest v w h a.1)

  ensure_deployment-Idles :
      (texts : Texts) (regetting : String) (merge : Deployment → Deployment → Deployment)
      (ns : String) (r : ServiceResources) (s : Session c.World)
      → IsInPlace c ns r s.world
      → Idles (ensure_deployment c texts regetting merge ns r.deployment) s
  unfolding ensure_deployment own ensure ◌>>=◌
  ensure_deployment-Idles texts regetting merge ns r s p =
      rw
        (
          (can_own s.kube_nova r.deployment.metadata).1,
          p.deployment_there,
          deployment_spec_equal-Keeps c.quantity_equal q_refl _ _ p.keeps p.comparable,
        )
        (refl, ro.get_deployment ns r.deployment.metadata.name s.world)

  ensure_service-Idles :
      (texts : Texts) (ns : String) (r : ServiceResources) (s : Session c.World)
      → IsInPlace c ns r s.world
      → Idles (ensure_service c texts ns r.service) s
  unfolding ensure_service create_if_missing own ensure ◌>>=◌
  ensure_service-Idles texts ns r s p =
      rw ((can_own s.kube_nova r.service.metadata).1, p.service_there)
        (refl, ro.get_service ns r.service.metadata.name s.world)

  bind-Idles :
      (m n : Action c.World c.ApiError (Unit {0})) (s : Session c.World)
      → Idles m s
      → ((t : Session c.World) → ro.R s.world t.world → Idles n t)
      → Idles (m >> n) s
  unfolding ◌>>=◌
  bind-Idles m n s h k = rw h.0 ((k (m s).1 h.1).0, ro.chain _ _ _ h.1 (k (m s).1 h.1).1)

  -- If what was built for each service is in place at the start, the stage succeeds and writes
  -- nothing: no Deployment is updated and no Service is created. In place is also a Deployment in which
  -- other fields were filled in. No other writer comes in between, equality of quantities is reflexive,
  -- the names of the mounts and of the resources of each first container are distinct, and owner
  -- references can be set.
  pub deploy_services-Idles :
      (ns : String) (m : Map ServiceResources) (s : Session c.World)
      → All (λ p. IsInPlace c ns p.1 s.world) m
      → ((deploy_services c ns m s).0 ≡ ok tt) × ro.R s.world (deploy_services c ns m s).1.world
  unfolding deploy_services pure
  deploy_services-Idles ns [] s h = (refl, ro.same s.world)
  deploy_services-Idles ns ((name, r) ∷ rest) s h =
      bind-Idles _ _ s (ensure_deployment-Idles _ _ _ ns r s h.0) (λ t a.
        bind-Idles _ _ t (ensure_service-Idles _ ns r t (stays-IsInPlace ns r _ _ a h.0))
          (λ u b. deploy_services-Idles ns rest u (stays_all ns rest _ _ (ro.chain _ _ _ a b) h.1)))

-- ===== src/Controller/Reconcile/Drift.antt =====
-- What `Reconcile` does for an object that is gone or settled
-- (internal/controller/kubenova_controller.go).
use kube_nova_operator.Api.{KubeNova}
use kube_nova_operator.Controller.Action.{Session, ◌>>=◌}
use kube_nova_operator.Controller.Cluster.{Cluster}
use kube_nova_operator.Controller.Components.{conclude}
use kube_nova_operator.Controller.Reconcile.{
  after, answer, finalizer, is_ready_phase, is_settled, reconcile, reconcile_found,
}
use kube_nova_operator.Controller.Status.{set_condition, set_status_phase}
use kube_nova_operator.Kube.{is_zero_time}
use kube_nova_operator.Prelude.{
  Bool, String, ap, arith, false, if◌then◌else◌, none, some, true, ◌≡◌,
}
use kube_nova_operator.Prelude.Results.{api, got, ok, refused}

module _ (c : Cluster) where
  -- An object that is not found is no error, and nothing is written: the world is as the read
  -- left it. Any other failure of the read is returned.
  pub reconcile_missing :
      (namespace name : String) (w : c.World) (e : c.ApiError)
      → (c.kube_novas.get namespace name w).0 ≡ refused e
      → reconcile c namespace name w ≡ (
        ok (answer (after 0) (if c.is_not_found e then none else some (api e))),
        (c.kube_novas.get namespace name w).1,
      )
  unfolding reconcile
  reconcile_missing namespace name w e h = ground arith

  -- The verdict on the components is what the next pass tests: the object in memory is settled
  -- exactly if all of them counted as ready.
  pub conclude-settled :
      (all_ready : Bool) (s : Session c.World)
      → is_settled c (conclude c all_ready s).1.kube_nova ≡ all_ready
  unfolding conclude set_status_phase set_condition ◌>>=◌
  conclude-settled true s = ground arith
  conclude-settled false s = ground arith

  settled_again :
      (a b : KubeNova)
      → a.status ≡ b.status
      → a.metadata.generation ≡ b.metadata.generation
      → is_settled c b ≡ true
      → is_settled c a ≡ true
  settled_again a b h g s =
      ground (arith, ap (λ t. t.observed_generation) h, ap (λ t. is_ready_phase c t.phase) h)

  -- Once all components have counted as ready, and the API server keeps that status and the
  -- generation, no later pass looks at anything: whatever happens to the Deployments, the only call
  -- is the read of the object itself, and the next pass is 300 seconds away. The object is not
  -- being deleted and has the finalizer.
  pub reconcile_settled :
      (namespace name : String) (s : Session c.World) (w : c.World) (kn : KubeNova)
      → (c.kube_novas.get namespace name w).0 ≡ got kn
      → kn.status ≡ (conclude c true s).1.kube_nova.status
      → kn.metadata.generation ≡ (conclude c true s).1.kube_nova.metadata.generation
      → is_zero_time kn.metadata.deletion_timestamp ≡ true
      → c.contains_finalizer kn finalizer ≡ true
      → reconcile c namespace name w
        ≡ (ok (answer (after 300) none), (c.kube_novas.get namespace name w).1)
  unfolding reconcile reconcile_found ◌>>=◌
  reconcile_settled namespace name s w kn h status generation d f = ground (
    arith,
    conclude-settled true s,
    settled_again kn (conclude c true s).1.kube_nova status generation (conclude-settled true s),
  )

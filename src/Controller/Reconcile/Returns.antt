-- ===== src/Controller/Reconcile/Returns.antt =====
-- `Reconcile` always returns (internal/controller/kubenova_controller.go).
use kube_nova_operator.Api.{KubeNova}
use kube_nova_operator.Api.Status.{DeploymentPhase}
use kube_nova_operator.Controller.Action.{◌>>=◌}
use kube_nova_operator.Controller.Action.Sure.{IsSure, sure_rules}
use kube_nova_operator.Controller.Action.Total.{IsTotal, total_rules}
use kube_nova_operator.Controller.Cluster.{Cluster}
use kube_nova_operator.Controller.Reconcile.{
  delete_binding, reconcile, reconcile_delete, reconcile_found, release, update_self,
}
use kube_nova_operator.Controller.Reconcile.Answers.{Answers}
use kube_nova_operator.Controller.Reconcile.Total.{update_status-IsTotal}
use kube_nova_operator.Controller.Status.{set_status_phase}
use kube_nova_operator.Prelude.{String, arith, ◌≡◌}
use kube_nova_operator.Prelude.Results.{got}

module _ (c : Cluster) where
  delete_binding-IsTotal : (name : String) → IsTotal (delete_binding c name)
  unfolding delete_binding
  delete_binding-IsTotal name = search total_rules depth 8

  pub update_self-IsTotal : (kn : KubeNova) → IsTotal (update_self c kn)
  unfolding update_self
  update_self-IsTotal kn = search total_rules

  pub set_status_phase-IsSure : (p : DeploymentPhase) (m : String) → IsSure (set_status_phase c p m)
  unfolding set_status_phase ◌>>=◌
  set_status_phase-IsSure p m = record { at = λ s. tt }

  release-IsSure : (kn : KubeNova) → IsSure (release c kn)
  unfolding release
  release-IsSure kn = search (delete_binding-IsTotal, update_self-IsTotal, sure_rules)

  pub reconcile_delete-IsSure : IsSure (reconcile_delete c)
  unfolding reconcile_delete
  reconcile_delete-IsSure =
      search (set_status_phase-IsSure, update_status-IsTotal, release-IsSure, sure_rules)

  pub reconcile_got :
      (namespace name : String) (w : c.World) (kn : KubeNova)
      → (c.kube_novas.get namespace name w).0 ≡ got kn
      → (reconcile c namespace name w).0
        ≡ (reconcile_found c
            (record { world = (c.kube_novas.get namespace name w).1; kube_nova = kn })).0
  unfolding reconcile
  reconcile_got namespace name w kn k = ground arith

  pub reconcile_world :
      (namespace name : String) (w : c.World) (kn : KubeNova)
      → (c.kube_novas.get namespace name w).0 ≡ got kn
      → (reconcile c namespace name w).1
        ≡ (reconcile_found c
            (record { world = (c.kube_novas.get namespace name w).1; kube_nova = kn })).1.world
  unfolding reconcile
  reconcile_world namespace name w kn k = ground arith

-- ===== src/Controller/Reconcile/Realised/Whole.antt =====
-- What `Reconcile` has achieved when it answers no error
-- (internal/controller/kubenova_controller.go).
use kube_nova_operator.Api.{KubeNova}
use kube_nova_operator.Controller.Action.{Session, ◌>>=◌}
use kube_nova_operator.Controller.Action.Ensures.{Post}
use kube_nova_operator.Controller.Cluster.{Cluster}
use kube_nova_operator.Controller.Reconcile.{
  Answer, finalizer, is_settled, reconcile, reconcile_found,
}
use kube_nova_operator.Controller.Reconcile.Answers.{Answers, run_stages-Answers}
use kube_nova_operator.Controller.Reconcile.Frame.{same_all}
use kube_nova_operator.Controller.Reconcile.Realised.AlongStages.{Unless}
use kube_nova_operator.Controller.Reconcile.Realised.Isolated.{ServerLaws}
use kube_nova_operator.Controller.Reconcile.Realised.Pass.{IsRealised, run_stages-Realises}
use kube_nova_operator.Controller.Reconcile.Returns.{reconcile_got, reconcile_world}
use kube_nova_operator.Controller.Reconcile.Stages.{HasReplicas}
use kube_nova_operator.Controller.Workloads.AllDeployed.{VisitsAll}
use kube_nova_operator.Kube.{is_zero_time}
use kube_nova_operator.Prelude.{String, false, some, true, ◌≡◌, ◌⊎◌}
use kube_nova_operator.Prelude.Results.{Error, Outcome, err, got, ok, panic}

module _ (c : Cluster) (l : ServerLaws c) (kn : KubeNova) where
  -- An answer is returned, and it is an error, or what was built is stored.
  abbrev pub Realises : Outcome (Error c.ApiError) (Answer c.ApiError) → c.World → Type 0
  Realises (ok a) w = ((e : Error c.ApiError) × (a.error ≡ some e)) ⊎ IsRealised c l kn w
  Realises (err _) w = ⊥
  Realises panic w = ⊥

  answered :
      (r : Outcome (Error c.ApiError) (Answer c.ApiError)) (s : Session c.World)
      → Answers r
      → Post (Unless (λ t. IsRealised c l kn t.world)) (r, s)
      → Realises r s.world
  answered (ok a) s h p = p
  answered (err _) s h p = h
  answered panic s h p = h

  -- A pass over an object that is not being deleted, has the finalizer and has changed since it was
  -- found ready returns an answer, and if that is no error, then the server stores the Secret with the
  -- entries that were built for the KubeNova, the configuration files and that of Nginx, unless
  -- another one is named for it, and a Deployment for every service that is switched on and for the web
  -- front end; no later stage has undone what an earlier one wrote. A stored Deployment agrees with
  -- the one that was built as far as the comparison looks: in the replicas, the number of containers,
  -- of the first one the image, the variables with a non-empty literal value and the paths of the
  -- mounts, the names of the volumes, and, but for the web front end, the service account. Nothing is
  -- said of where variables and volumes take their contents from. The Deployments that are read have
  -- replica counts, the server stores these fields as it is sent them, only the calls for a kind of
  -- object change what is stored of it, setting the owner keeps the name, and a range visits each
  -- entry of a map once.
  pub reconcile-Realises :
      HasReplicas c
      → VisitsAll c
      → (ns name : String) (w : c.World) → (c.kube_novas.get ns name w).0 ≡ got kn
      → is_zero_time kn.metadata.deletion_timestamp ≡ true
      → c.contains_finalizer kn finalizer ≡ true
      → is_settled c kn ≡ false
      → Realises (reconcile c ns name w).0 (reconcile c ns name w).1
  unfolding reconcile_found ◌>>=◌
  reconcile-Realises replicas visits ns name w read staying held changed =
      rw
        (
          reconcile_got c ns name w kn read,
          reconcile_world c ns name w kn read,
          staying,
          held,
          changed,
        )
        (answered _ _ (run_stages-Answers c replicas start)
          ((run_stages-Realises c l kn visits).at start (same_all kn)))
    where
      start : Session c.World
      start = record { world = (c.kube_novas.get ns name w).1; kube_nova = kn }

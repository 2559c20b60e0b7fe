-- ===== src/Controller/Reconcile/Leak.antt =====
-- A ClusterRoleBinding that deletion leaves behind (internal/controller/kubenova_controller.go).
use kube_nova_operator.Api.{KubeNova}
use kube_nova_operator.Api.Status.{deleting}
use kube_nova_operator.Controller.Action.{Session, resume, settle, ◌>>=◌}
use kube_nova_operator.Controller.Cluster.{Cluster}
use kube_nova_operator.Controller.Reconcile.{
  Answer, after, answer, binding_name, delete_binding, finalizer, reconcile_delete, release,
  update_self,
}
use kube_nova_operator.Controller.Status.{set_status_phase, update_status_with_retry}
use kube_nova_operator.Controller.Status.Retry.{Ended, update_status_with_retry-Ended}
use kube_nova_operator.Prelude.{arith, inl, inr, none, refl, ◌≡◌}
use kube_nova_operator.Prelude.Results.{Error, Outcome, Reply-cases, err, got, ok, panic, refused}

-- The session at the point where the binding is read.
abbrev pub before_binding : (c : Cluster) → Session c.World → Session c.World
before_binding c s = (update_status_with_retry c (set_status_phase c deleting "正在删除资源" s).1).1

module _ (c : Cluster) where
  -- How deletion ends behind a binding that cannot be read.
  abbrev pub Skips :
      Session c.World → Outcome (Error c.ApiError) (Answer c.ApiError) × Session c.World → Type 0
  Skips t (r, s) =
      let (_, w) = c.cluster_role_bindings.get "" (binding_name c t.kube_nova) t.world in
      let (written, w') = c.kube_novas.update (c.remove_finalizer t.kube_nova finalizer) w in
      (s.world ≡ w') × ((kn : KubeNova) → written ≡ got kn → r ≡ ok (answer (after 0) none))

  release-Skips :
      (t : Session c.World) (e : c.ApiError)
      → (c.cluster_role_bindings.get "" (binding_name c t.kube_nova) t.world).0 ≡ refused e
      → Skips t (release c t.kube_nova t)
  unfolding release delete_binding update_self ◌>>=◌
  release-Skips t e h =
      rw h
        (elim (Reply-cases
          (c.kube_novas.update (c.remove_finalizer t.kube_nova finalizer)
            (c.cluster_role_bindings.get "" (binding_name c t.kube_nova) t.world).1).0) [
              | inl (kn, k) ↦ rw k (refl, λ kn' l. refl)
              | inr (e', k) ↦ rw k (refl, λ kn' l. absurd (ground arith))
            ])

  skip_status :
      (r : Outcome (Error c.ApiError) (Unit {0})) (t : Session c.World) (kn : KubeNova)
      → Ended kn (r, t)
      → Skips t (release c t.kube_nova t)
      → Skips t (resume (settle r t).0 (λ _ s. release c s.kube_nova s) (settle r t).1)
  skip_status (ok a) t kn h k = k
  skip_status (err e) t kn h k = k
  skip_status panic t kn h k = absurd h

  -- If the read of the binding fails, for whatever reason, no deletion is sent: the next thing
  -- that happens to the world is the write of the object without its finalizer, and if that is
  -- accepted the deletion ends without error.
  pub reconcile_delete_leaks :
      (s : Session c.World) (e : c.ApiError)
      → let t = before_binding c s in
        (c.cluster_role_bindings.get "" (binding_name c t.kube_nova) t.world).0 ≡ refused e
        → Skips t (reconcile_delete c s)
  unfolding reconcile_delete set_status_phase ◌>>=◌
  reconcile_delete_leaks s e h =
      skip_status _ _ _ (update_status_with_retry-Ended c _) (release-Skips _ e h)

-- ===== src/Controller/Reconcile/Guard/Deletion.antt =====
-- Deletion lets go of the finalizer only behind the ClusterRoleBinding
-- (internal/controller/kubenova_controller.go).
use kube_nova_operator.Api.{KubeNova}
use kube_nova_operator.Controller.Action.{Action, Session, attempt, on_option, pure, ◌>>=◌}
use kube_nova_operator.Controller.Action.Ensures.{
  Attempted, Ensures, Ensures-Relates, Ensures-and, Ensures-attempt, Ensures-bind, Ensures-pure,
  Ensures-self,
}
use kube_nova_operator.Controller.Action.Rules.{Relates, Relates-attempt}
use kube_nova_operator.Controller.Cluster.{Cluster}
use kube_nova_operator.Controller.Reconcile.{
  after, answer, binding_name, delete_binding, finalizer, reconcile_delete, release, update_self,
}
use kube_nova_operator.Controller.Reconcile.Delete.{
  BindingLaws, Binds, Binds-of, Gone, ReadsWell, delete_binding-Gone,
}
use kube_nova_operator.Controller.Reconcile.Frame.{Framed, Framed-IsPreorder, PassKeeps-Framed}
use kube_nova_operator.Controller.Reconcile.Guard.{
  CallsKeep, CallsKeep-sum, GuardLaws, IsGuarded, Keeping, Keeping-IsPreorder, Keeping-delete,
  Keeping-phase, Keeping-status, Keeping-write, binding_of,
}
use kube_nova_operator.Controller.Reconcile.Kept.{set_status_phase-Relates, status_write-Relates}
use kube_nova_operator.Prelude.{Option, String, inl, none, some, subst, sym, ◌≡◌}
use kube_nova_operator.Prelude.Results.{Error}

module _ (c : Cluster) (ns name : String) (b : BindingLaws c (binding_of ns name))
    (reads_well : ReadsWell c (binding_of ns name)) (gone_calls : CallsKeep c b.IsGone)
    (g : GuardLaws c ns name) where
  abbrev Covered : c.World → Type 0
  Covered = IsGuarded c ns name b g

  pub guarded_calls : CallsKeep c Covered
  guarded_calls = CallsKeep-sum c b.IsGone g.Guards gone_calls g.calls

  abbrev Guarded : {A : Type 0} → A → Session c.World → Type 0
  Guarded _ s = Covered s.world

  Guarded-of :
      {A : Type 0} (m : Action c.World c.ApiError A)
      → Relates (Keeping Covered) m
      → Ensures (Guarded tt) Guarded m
  Guarded-of m h = Ensures-Relates (Guarded tt) (Keeping Covered) Guarded m h (λ a s t k. k)

  -- Behind the deletion of the binding: it is gone if there was no error, and guarded anyway.
  abbrev Deleted : Option (Error c.ApiError) → Session c.World → Type 0
  Deleted r s = Attempted (Gone c (binding_of ns name) b reads_well) r s × Covered s.world

  let_go :
      (kn : KubeNova) (r : Option (Error c.ApiError))
      → Ensures (Deleted r) Guarded (
          on_option r
            (do
              failure' ← attempt (update_self c (c.remove_finalizer kn finalizer))
              pure (answer (after 0) failure'))
            (λ e. pure (answer (after 0) (some e))))
  unfolding on_option
  let_go kn none =
      Ensures-bind _ Guarded Guarded _ _
        (Ensures-Relates _ (Keeping b.IsGone) Guarded _
          (Relates-attempt (Keeping b.IsGone) (Keeping-IsPreorder c b.IsGone gone_calls) _
            (Keeping-write c b.IsGone gone_calls _ (b.stays _)))
          (λ a s t k h. inl (k h.0.1)))
        (λ r. Ensures-pure _ Guarded _ (λ s h. h))
  let_go kn (some e) = Ensures-pure _ Guarded _ (λ s h. h.1)

  release-Guarded :
      (kn : KubeNova)
      → Ensures
          (λ s. (binding_name c kn ≡ binding_of ns name) × Covered s.world)
          Guarded
          (release c kn)
  unfolding release
  release-Guarded kn = record {
    at = λ s h.
        (Ensures-bind _ Deleted Guarded _ _
            (subst
              (λ n. Ensures (λ t. Unit × Covered t.world) Deleted (attempt (delete_binding c n)))
              (sym h.0) deleted)
            (let_go kn)).at
          s (tt, h.1);
  }
    where
      deleted :
          Ensures
            (λ t. Unit {0} × Covered t.world)
            Deleted
            (attempt (delete_binding c (binding_of ns name)))
      deleted =
          Ensures-and (λ _. Unit) (Guarded tt) _ Guarded _
            (Ensures-attempt _ _ _ (delete_binding-Gone c (binding_of ns name) b reads_well))
            (Guarded-of _ (
              Relates-attempt _ (Keeping-IsPreorder c Covered guarded_calls) _
                (Keeping-delete c Covered guarded_calls _)))

  -- The object in memory has this binding, and that is guarded.
  abbrev Bound : {A : Type 0} → A → Session c.World → Type 0
  Bound _ s = Binds c (binding_of ns name) b reads_well tt s × Covered s.world

  pub reconcile_delete-Guarded : Ensures (Bound tt) Guarded (reconcile_delete c)
  unfolding reconcile_delete
  reconcile_delete-Guarded =
      Ensures-bind _ Bound Guarded _ _
        (Ensures-and _ _ _ Guarded _
          (Binds-of c (binding_of ns name) b reads_well _
            (set_status_phase-Relates c (Framed c) (PassKeeps-Framed c).base _ _))
          (Guarded-of _ (Keeping-phase c Covered guarded_calls _ _)))
        (λ _.
          Ensures-bind _ Bound Guarded _ _
            (Ensures-and _ _ _ Guarded _
              (Binds-of c (binding_of ns name) b reads_well _ (
                Relates-attempt (Framed c) (Framed-IsPreorder c) _
                  (status_write-Relates c (Framed c) (PassKeeps-Framed c).base)))
              (Guarded-of _ (
                Relates-attempt _ (Keeping-IsPreorder c Covered guarded_calls) _
                  (Keeping-status c Covered guarded_calls))))
            (λ _.
              Ensures-bind _ (λ kn s. (binding_name c kn ≡ binding_of ns name) × Covered s.world)
                Guarded _ _ (Ensures-self _ _ (λ s h. h)) release-Guarded))

-- ===== src/Controller/Reconcile/Delete.antt =====
-- What deletion promises about the ClusterRoleBinding, which no owner reference cleans up
-- (internal/controller/kubenova_controller.go).
use kube_nova_operator.Api.{KubeNova}
use kube_nova_operator.Controller.Action.{
  Action, Session, attempt, call, modify, on_option, on_reply, pure, raise, ◌>>=◌,
}
use kube_nova_operator.Controller.Action.Ensures.{
  Attempted, Ensures, Ensures-Relates, Ensures-attempt, Ensures-bind, Ensures-call, Ensures-modify,
  Ensures-pure, Ensures-raise, Ensures-self,
}
use kube_nova_operator.Controller.Action.Rules.{Relates, Relates-attempt}
use kube_nova_operator.Controller.Cluster.{Cluster}
use kube_nova_operator.Controller.Reconcile.{
  Answer, after, answer, binding_name, delete_binding, finalizer, reconcile_delete, release,
  update_self,
}
use kube_nova_operator.Controller.Reconcile.Frame.{Framed, Framed-IsPreorder, PassKeeps-Framed}
use kube_nova_operator.Controller.Reconcile.Kept.{set_status_phase-Relates, status_write-Relates}
use kube_nova_operator.Kube.{ClusterRoleBinding}
use kube_nova_operator.Prelude.{
  Bool-cases, Option, String, [], ap, arith, if◌then◌else◌, inl, inr, join, none, refl, some, subst,
  sym, true, ◌∙◌, ◌∷◌, ◌≡◌,
}
use kube_nova_operator.Prelude.Results.{Error, Reply, api, got, refused}

-- What the client's calls say of the binding of this name: `IsGone w` is that it is not there in
-- the world `w`. A read returns a binding of the name that is asked for. An answer without error
-- means that the deletion was done, `NotFound` that there is none, and a write of the object does
-- not bring it back.
pub record BindingLaws (c : Cluster) (binding : String) : Type 1 where
  pub IsGone : c.World → Type 0
  pub got_named :
      (w : c.World) (b : ClusterRoleBinding)
      → (c.cluster_role_bindings.get "" binding w).0 ≡ got b
      → b.metadata.name ≡ binding
  pub not_found_get :
      (w : c.World) (e : c.ApiError)
      → (c.cluster_role_bindings.get "" binding w).0 ≡ refused e
      → c.is_not_found e ≡ true
      → IsGone (c.cluster_role_bindings.get "" binding w).1
  pub deleted :
      (b : ClusterRoleBinding) (w : c.World)
      → b.metadata.name ≡ binding
      → (c.cluster_role_bindings.delete b w).0 ≡ got tt
      → IsGone (c.cluster_role_bindings.delete b w).1
  pub not_found_delete :
      (b : ClusterRoleBinding) (w : c.World) (e : c.ApiError)
      → b.metadata.name ≡ binding
      → (c.cluster_role_bindings.delete b w).0 ≡ refused e
      → c.is_not_found e ≡ true
      → IsGone (c.cluster_role_bindings.delete b w).1
  pub stays : (kn : KubeNova) (w : c.World) → IsGone w → IsGone (c.kube_novas.update kn w).1

-- Every read of the binding that fails says that there is none.
abbrev pub ReadsWell : Cluster → String → Type 0
ReadsWell c binding =
    (w : c.World) (e : c.ApiError)
    → (c.cluster_role_bindings.get "" binding w).0 ≡ refused e
    → c.is_not_found e ≡ true

module _ (c : Cluster) (binding : String) (laws : BindingLaws c binding)
    (reads_well : ReadsWell c binding) where
  -- An answer to the deletion that leaves no binding.
  abbrev LeavesNone : Reply c.ApiError (Unit {0}) → Session c.World → Type 0
  LeavesNone (got _) s = laws.IsGone s.world
  LeavesNone (refused e) s = c.is_not_found e ≡ true → laws.IsGone s.world

  -- An answer to the read that leaves no binding.
  abbrev FindsNone : Reply c.ApiError ClusterRoleBinding → Session c.World → Type 0
  FindsNone (got b) s = b.metadata.name ≡ binding
  FindsNone (refused e) s = laws.IsGone s.world

  abbrev pub Gone : Unit {0} → Session c.World → Type 0
  Gone _ s = laws.IsGone s.world

  delete_leaves :
      (b : ClusterRoleBinding) (w : c.World) (r : Reply c.ApiError (Unit {0})) (kn : KubeNova)
      → b.metadata.name ≡ binding
      → (c.cluster_role_bindings.delete b w).0 ≡ r
      → LeavesNone r (record { world = (c.cluster_role_bindings.delete b w).1; kube_nova = kn })
  delete_leaves b w (got tt) kn n h = laws.deleted b w n h
  delete_leaves b w (refused e) kn n h = laws.not_found_delete b w e n h

  get_finds :
      (w : c.World) (r : Reply c.ApiError ClusterRoleBinding) (kn : KubeNova)
      → (c.cluster_role_bindings.get "" binding w).0 ≡ r
      → FindsNone r
          (record { world = (c.cluster_role_bindings.get "" binding w).1; kube_nova = kn })
  get_finds w (got b) kn h = laws.got_named w b h
  get_finds w (refused e) kn h = laws.not_found_get w e h (reads_well w e h)

  after_delete :
      (r : Reply c.ApiError (Unit {0}))
      → Ensures
          (LeavesNone r)
          Gone
          (on_reply r pure (λ e. if c.is_not_found e then pure tt else raise (api e)))
  unfolding on_reply
  after_delete (got tt) = Ensures-pure _ Gone tt (λ s h. h)
  after_delete (refused e) = elim (Bool-cases (c.is_not_found e)) [
    | inl missing ↦ rw missing (Ensures-pure _ Gone tt (λ s h. h missing))
    | inr other ↦ rw other (Ensures-raise _ Gone (api e))
  ]

  delete_found :
      (r : Reply c.ApiError ClusterRoleBinding)
      → Ensures (FindsNone r) Gone (
          on_reply r
            (λ crb. do
              deleted ← call (c.cluster_role_bindings.delete crb)
              on_reply deleted pure (λ e. if c.is_not_found e then pure tt else raise (api e)))
            (λ _. pure tt))
  unfolding on_reply
  delete_found (got b) =
      Ensures-bind _ LeavesNone Gone _ _
        (Ensures-call _ LeavesNone _ (λ s h. delete_leaves b s.world _ s.kube_nova h refl))
        after_delete
  delete_found (refused e) = Ensures-pure _ Gone tt (λ s h. h)

  pub delete_binding-Gone : Ensures (λ _. Unit) Gone (delete_binding c binding)
  unfolding delete_binding
  delete_binding-Gone =
      Ensures-bind _ FindsNone Gone _ _
        (Ensures-call _ FindsNone _ (λ s h. get_finds s.world _ s.kube_nova refl)) delete_found

  after_update :
      (r : Reply c.ApiError KubeNova)
      → Ensures
          (λ s. laws.IsGone s.world)
          Gone
          (on_reply r (λ kn'. modify (λ _. kn')) (λ e. raise (api e)))
  unfolding on_reply
  after_update (got kn) = Ensures-modify _ Gone _ (λ s h. h)
  after_update (refused e) = Ensures-raise _ Gone (api e)

  update_self-Gone : (kn : KubeNova) → Ensures (λ s. laws.IsGone s.world) Gone (update_self c kn)
  unfolding update_self
  update_self-Gone kn = Ensures-bind _ Gone Gone _ _ (Ensures-modify _ Gone _ (λ s h. h)) (λ _.
      Ensures-bind _ (λ _ s. laws.IsGone s.world) Gone _ _
        (Ensures-call _ _ _ (λ s h. laws.stays kn s.world h)) after_update)

  -- What the deletion promises of its answer.
  abbrev pub Deletes : Answer c.ApiError → Session c.World → Type 0
  Deletes a s = a.error ≡ none → laws.IsGone s.world

  answer_done :
      (r : Option (Error c.ApiError))
      → Ensures (Attempted Gone r) Deletes (pure {E = c.ApiError} (answer (after 0) r))
  answer_done none = Ensures-pure _ Deletes _ (λ s h _. h.1)
  answer_done (some e) = Ensures-pure _ Deletes _ (λ s h k. absurd (ground arith))

  finish :
      (kn : KubeNova) (r : Option (Error c.ApiError))
      → Ensures (Attempted Gone r) Deletes (
          on_option r
            (do
              failure' ← attempt (update_self c (c.remove_finalizer kn finalizer))
              pure (answer (after 0) failure'))
            (λ e. pure (answer (after 0) (some e))))
  unfolding on_option
  finish kn none =
      Ensures-bind _ (Attempted Gone) Deletes _ _
        (Ensures-attempt _ Gone _
          (record { at = λ s h. (update_self-Gone (c.remove_finalizer kn finalizer)).at s h.1 }))
        answer_done
  finish kn (some e) = Ensures-pure _ Deletes _ (λ s h k. absurd (ground arith))

  release-gone : (kn : KubeNova) → Ensures (λ _. binding_name c kn ≡ binding) Deletes (release c kn)
  unfolding release
  release-gone kn = record {
    at = λ s h.
        (Ensures-bind _ (Attempted Gone) Deletes _ _
            (Ensures-attempt (λ _. Unit) Gone _
              (subst (λ n. Ensures (λ _. Unit) Gone (delete_binding c n)) (sym h)
                delete_binding-Gone))
            (finish kn)).at
          s tt;
  }

  -- The object in memory has the binding of this name.
  abbrev pub Binds : {A : Type 0} → A → Session c.World → Type 0
  Binds _ s = binding_name c s.kube_nova ≡ binding

  pub Binds-of :
      {A : Type 0} (m : Action c.World c.ApiError A)
      → Relates (Framed c) m
      → Ensures (Binds tt) Binds m
  Binds-of m h = Ensures-Relates (Binds tt) (Framed c) Binds m h (λ a s t k n.
      ap (λ x. join ("kube-nova-" ∷ x ∷ "-" ∷ t.kube_nova.metadata.name ∷ "-cluster-admin" ∷ []))
        k.namespace
      ∙ (ap
            (λ x.
              join
                ("kube-nova-" ∷ s.kube_nova.metadata.namespace ∷ "-" ∷ x ∷ "-cluster-admin" ∷ []))
            k.name
          ∙ n))

  -- If every read of the binding of the object that fails says that there is none, then a deletion
  -- that ends without error leaves no such binding behind.
  pub reconcile_delete-gone :
      Ensures (λ s. binding_name c s.kube_nova ≡ binding) Deletes (reconcile_delete c)
  unfolding reconcile_delete
  reconcile_delete-gone =
      Ensures-bind _ Binds Deletes _ _
        (Binds-of _ (set_status_phase-Relates c (Framed c) (PassKeeps-Framed c).base _ _))
        (λ _.
          Ensures-bind _ Binds Deletes _ _
            (Binds-of _ (
              Relates-attempt (Framed c) (Framed-IsPreorder c) _
                (status_write-Relates c (Framed c) (PassKeeps-Framed c).base)))
            (λ _.
              Ensures-bind _ (λ kn _. binding_name c kn ≡ binding) Deletes _ _
                (Ensures-self _ _ (λ s h. h)) release-gone))

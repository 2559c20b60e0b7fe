-- ===== src/Controller/Reconcile/Guard.antt =====
-- The finalizer guards the ClusterRoleBinding: what a pass keeps of that
-- (internal/controller/kubenova_controller.go).
pub mod Deletion
pub mod Reach
use kube_nova_operator.Api.{KubeNova}
use kube_nova_operator.Api.Status.{DeploymentPhase}
use kube_nova_operator.Controller.Action.{Session}
use kube_nova_operator.Controller.Action.Rules.{
  IsPreorder, Relates, Relates-bind, Relates-call, Relates-modify, Relates-on_reply, Relates-pure,
  Relates-raise, action_rules,
}
use kube_nova_operator.Controller.Cluster.{Cluster}
use kube_nova_operator.Controller.Ensure.Laws.{IsNamed}
use kube_nova_operator.Controller.Reconcile.{delete_binding, finalizer, update_self}
use kube_nova_operator.Controller.Reconcile.Delete.{BindingLaws}
use kube_nova_operator.Controller.Reconcile.Invalid.{
  Quiet, set_status_phase-Keeps, update_status-Keeps,
}
use kube_nova_operator.Controller.Reconcile.Kept.{StoreKeeps}
use kube_nova_operator.Controller.Status.{set_status_phase, update_status_with_retry}
use kube_nova_operator.Kube.{ClusterRoleBinding}
use kube_nova_operator.Prelude.{String, [], inl, inr, join, true, ℕ, ◌∷◌, ◌≡◌, ◌⊎◌}
use kube_nova_operator.Prelude.Results.{got}

-- A call that keeps a condition on the world keeps this relation.
abbrev pub Keeping : {W : Type 0} → (W → Type 0) → Session W → Session W → Type 0
Keeping K s t = K s.world → K t.world

-- The clock, the pauses, the reads and the status writes of the object, and the calls on the
-- binding but its creation keep the condition.
pub record CallsKeep (c : Cluster) (K : c.World → Type 0) : Type 0 where
  pub keeps_now : (w : c.World) → K w → K (c.now w).1
  pub keeps_sleep : (n : ℕ) (w : c.World) → K w → K (c.sleep n w)
  pub keeps_found : (ns name : String) (w : c.World) → K w → K (c.kube_novas.get ns name w).1
  pub keeps_status : (kn : KubeNova) (w : c.World) → K w → K (c.update_status kn w).1
  pub keeps_read : (name : String) (w : c.World) → K w → K (c.cluster_role_bindings.get "" name w).1
  pub keeps_delete :
      (b : ClusterRoleBinding) (w : c.World) → K w → K (c.cluster_role_bindings.delete b w).1

-- What the API server promises of the finalizer: `Guards w` is that the object of this name is
-- stored with it in the world `w`. A read returns what is stored, under the name that is asked for;
-- no call of a pass takes the finalizer away but a write of the object without it.
pub record GuardLaws (c : Cluster) (ns name : String) : Type 1 where
  pub Guards : c.World → Type 0
  pub calls : CallsKeep c Guards
  pub nodes : (s : Session c.World) → Guards s.world → Guards (c.list_nodes s.world).1
  pub namespaces : StoreKeeps (Keeping Guards) c.namespaces
  pub service_accounts : StoreKeeps (Keeping Guards) c.service_accounts
  pub cluster_role_bindings : StoreKeeps (Keeping Guards) c.cluster_role_bindings
  pub secrets : StoreKeeps (Keeping Guards) c.secrets
  pub config_maps : StoreKeeps (Keeping Guards) c.config_maps
  pub deployments : StoreKeeps (Keeping Guards) c.deployments
  pub services : StoreKeeps (Keeping Guards) c.services
  pub ingresses : StoreKeeps (Keeping Guards) c.ingresses
  pub found_named :
      (kn : KubeNova) (w : c.World)
      → (c.kube_novas.get ns name w).0 ≡ got kn
      → IsNamed ns name kn.metadata
  pub found_guarded :
      (kn : KubeNova) (w : c.World)
      → (c.kube_novas.get ns name w).0 ≡ got kn
      → c.contains_finalizer kn finalizer ≡ true
      → Guards (c.kube_novas.get ns name w).1
  pub added_guards :
      (kn : KubeNova) (w : c.World)
      → Guards w
      → Guards (c.kube_novas.update (c.add_finalizer kn finalizer) w).1

-- The name of the binding of an object.
abbrev pub binding_of : String → String → String
binding_of ns name = join ("kube-nova-" ∷ ns ∷ "-" ∷ name ∷ "-cluster-admin" ∷ [])

-- There is no binding of the object, or the object is stored with the finalizer.
abbrev pub IsGuarded :
    (c : Cluster) (ns name : String)
    → BindingLaws c (binding_of ns name)
    → GuardLaws c ns name
    → c.World
    → Type 0
IsGuarded c ns name b g w = b.IsGone w ⊎ g.Guards w

pub CallsKeep-sum :
    (c : Cluster) (K L : c.World → Type 0)
    → CallsKeep c K
    → CallsKeep c L
    → CallsKeep c (λ w. K w ⊎ L w)
CallsKeep-sum c K L k l = record {
  keeps_now = λ w. either (k.keeps_now w) (l.keeps_now w);
  keeps_sleep = λ n w. either (k.keeps_sleep n w) (l.keeps_sleep n w);
  keeps_found = λ ns name w. either (k.keeps_found ns name w) (l.keeps_found ns name w);
  keeps_status = λ kn w. either (k.keeps_status kn w) (l.keeps_status kn w);
  keeps_read = λ name w. either (k.keeps_read name w) (l.keeps_read name w);
  keeps_delete = λ b w. either (k.keeps_delete b w) (l.keeps_delete b w);
}
  where
    either : {A B C D : Type 0} → (A → C) → (B → D) → A ⊎ B → C ⊎ D
    either f g (inl a) = inl (f a)
    either f g (inr b) = inr (g b)

module _ (c : Cluster) (K : c.World → Type 0) (k : CallsKeep c K) where
  pub Keeping-IsPreorder : IsPreorder (Keeping K)
  Keeping-IsPreorder = record { same = λ s h. h; chain = λ s t u f g h. g (f h) }

  pub keeping-Quiet : Quiet c
  keeping-Quiet = record {
    R = λ v w. K v → K w;
    same = λ w h. h;
    chain = λ u v w f g h. g (f h);
    now = k.keeps_now;
    sleep = k.keeps_sleep;
    get = k.keeps_found;
    update_status = k.keeps_status;
  }

  pub Keeping-status : Relates (Keeping K) (update_status_with_retry c)
  unfolding keeping-Quiet
  Keeping-status = update_status-Keeps c keeping-Quiet

  pub Keeping-phase :
      (p : DeploymentPhase) (m : String) → Relates (Keeping K) (set_status_phase c p m)
  unfolding keeping-Quiet
  Keeping-phase p m = set_status_phase-Keeps c keeping-Quiet p m

  pub Keeping-delete : (binding : String) → Relates (Keeping K) (delete_binding c binding)
  unfolding delete_binding
  Keeping-delete binding =
      Relates-bind (Keeping K) Keeping-IsPreorder _ _
        (Relates-call (Keeping K) Keeping-IsPreorder _ (λ s. k.keeps_read binding s.world))
        (λ r.
          Relates-on_reply (Keeping K) Keeping-IsPreorder r _ _
            (λ b.
              Relates-bind (Keeping K) Keeping-IsPreorder _ _
                (Relates-call (Keeping K) Keeping-IsPreorder _ (λ s. k.keeps_delete b s.world))
                (λ r'. search (Keeping-IsPreorder, action_rules)))
            (λ e. Relates-pure (Keeping K) Keeping-IsPreorder tt))

  -- A write of the object that keeps the condition.
  pub Keeping-write :
      (kn : KubeNova)
      → ((w : c.World) → K w → K (c.kube_novas.update kn w).1)
      → Relates (Keeping K) (update_self c kn)
  unfolding update_self
  Keeping-write kn h =
      Relates-bind (Keeping K) Keeping-IsPreorder _ _
        (Relates-modify (Keeping K) Keeping-IsPreorder _ (λ s x. x))
        (λ _.
          Relates-bind (Keeping K) Keeping-IsPreorder _ _
            (Relates-call (Keeping K) Keeping-IsPreorder _ (λ s. h s.world))
            (λ r.
              Relates-on_reply (Keeping K) Keeping-IsPreorder r _ _
                (λ kn'. Relates-modify (Keeping K) Keeping-IsPreorder _ (λ s x. x))
                (λ e. Relates-raise (Keeping K) Keeping-IsPreorder _)))

-- ===== src/Tests/Guarded.antt =====
-- An API server that keeps the finalizer of its KubeNova, and the guard of the ClusterRoleBinding at
-- it.
use kube_nova_operator.Api.{KubeNova}
use kube_nova_operator.Controller.Cluster.{Cluster, Store}
use kube_nova_operator.Controller.Ensure.Laws.{IsNamed}
use kube_nova_operator.Controller.Reconcile.{finalizer, reconcile}
use kube_nova_operator.Controller.Reconcile.Delete.{BindingLaws, ReadsWell}
use kube_nova_operator.Controller.Reconcile.Guard.{CallsKeep, GuardLaws, IsGuarded, Keeping}
use kube_nova_operator.Controller.Reconcile.Guard.Reach.{
  Reach-IsGuarded, at_start, pass_runs, then_step, writer_acts,
}
use kube_nova_operator.Controller.Reconcile.Kept.{StoreKeeps}
use kube_nova_operator.Prelude.{
  Bool-cases, String, any, ap, arith, eq_iff, false, if◌then◌else◌, inl, inr, refl, subst, sym,
  true, ◌&&◌, ◌==◌, ◌∙◌, ◌≡◌,
}
use kube_nova_operator.Prelude.Results.{Reply, got, refused}
use kube_nova_operator.Tests.{nova_broken}
use kube_nova_operator.Tests.Promises.{
  binding_gone, binding_refused, got_same, named_binding, nova_binding,
}
use kube_nova_operator.Tests.Server.{Server, ServerError, demo_world, no_object, server}

-- The object, if it is asked for by its name.
abbrev answer_object : String → String → KubeNova → Reply ServerError KubeNova
answer_object ns name kn =
    if kn.metadata.namespace == ns && kn.metadata.name == name then got kn else refused no_object

-- A write of the status changes nothing else.
abbrev guarded_server : Cluster
guarded_server = record server {
  kube_novas = record (server.kube_novas) {
    get = λ ns name w. (answer_object ns name w.kube_nova, w);
  };
  update_status = λ a w. (
    got (record (w.kube_nova) { status = a.status }),
    record w { kube_nova = record (w.kube_nova) { status = a.status } },
  );
}

-- The other writers touch neither the binding nor the finalizers.
abbrev OtherWrites : Server → Server → Type 0
OtherWrites v w =
    (w.has_binding ≡ v.has_binding)
    × (w.kube_nova.metadata.finalizers ≡ v.kube_nova.metadata.finalizers)

abbrev IsHeld : Server → Type 0
IsHeld w = guarded_server.contains_finalizer w.kube_nova finalizer ≡ true

guarded_binding : BindingLaws guarded_server nova_binding
guarded_binding = record {
  IsGone = λ w. w.has_binding ≡ false;
  got_named = λ w b. named_binding w.has_binding b;
  not_found_get = λ w e h k. binding_gone w.has_binding e h;
  deleted = λ b w n h. refl;
  not_found_delete = λ b w e n h k. refl;
  stays = λ kn w h. h;
}

guarded_reads : ReadsWell guarded_server nova_binding
guarded_reads w e h = binding_refused w.has_binding e h

guarded_gone : CallsKeep guarded_server guarded_binding.IsGone
unfolding guarded_binding
guarded_gone = record {
  keeps_now = λ w h. h;
  keeps_sleep = λ n w h. h;
  keeps_found = λ ns name w h. h;
  keeps_status = λ kn w h. h;
  keeps_read = λ name w h. h;
  keeps_delete = λ b w h. refl;
}

-- The calls of a store of which nothing is said of the KubeNova.
IsHeld-store :
    {A : Type 0} (store : Store Server ServerError A)
    → ((ns name : String) (w : Server) → (store.get ns name w).1.kube_nova ≡ w.kube_nova)
    → ((a : A) (w : Server) → (store.create a w).1.kube_nova ≡ w.kube_nova)
    → ((a : A) (w : Server) → (store.update a w).1.kube_nova ≡ w.kube_nova)
    → StoreKeeps (Keeping IsHeld) store
IsHeld-store store hg hc hu = record {
  keeps_get = λ ns name s h. held _ _ (hg ns name s.world) h;
  keeps_create = λ a s h. held _ _ (hc a s.world) h;
  keeps_update = λ a s h. held _ _ (hu a s.world) h;
}
  where
    held :
        (a b : KubeNova)
        → a ≡ b
        → guarded_server.contains_finalizer b finalizer ≡ true
        → guarded_server.contains_finalizer a finalizer ≡ true
    held a b e h = subst (λ x. guarded_server.contains_finalizer x finalizer ≡ true) (sym e) h

object_found :
    (ns name : String) (a kn : KubeNova)
    → answer_object ns name a ≡ got kn
    → (a ≡ kn) × IsNamed ns name kn.metadata
object_found ns name a kn h =
    elim (Bool-cases (a.metadata.namespace == ns && a.metadata.name == name)) [
      | inl named ↦
          let same = got_same a kn (sym (ground arith) ∙ h) in
          (
            same,
            subst (λ x. IsNamed ns name x.metadata) same
                (record {
                  namespace_is = ground (arith, eq_iff a.metadata.namespace ns);
                  name_is = ground (arith, eq_iff a.metadata.name name);
                }),
          )
      | inr other ↦ absurd (ground arith)
    ]

guarded_laws : GuardLaws guarded_server "nova" "demo"
guarded_laws = record {
  Guards = IsHeld;
  calls = record {
    keeps_now = λ w h. h;
    keeps_sleep = λ n w h. h;
    keeps_found = λ ns name w h. h;
    keeps_status = λ kn w h. h;
    keeps_read = λ name w h. h;
    keeps_delete = λ b w h. h;
  };
  nodes = λ s h. h;
  namespaces =
      IsHeld-store guarded_server.namespaces (λ ns name w. refl) (λ a w. refl) (λ a w. refl);
  service_accounts =
      IsHeld-store guarded_server.service_accounts (λ ns name w. refl) (λ a w. refl) (λ a w. refl);
  cluster_role_bindings =
      IsHeld-store guarded_server.cluster_role_bindings (λ ns name w. refl) (λ a w. refl)
        (λ a w. refl);
  secrets = IsHeld-store guarded_server.secrets (λ ns name w. refl) (λ a w. refl) (λ a w. refl);
  config_maps =
      IsHeld-store guarded_server.config_maps (λ ns name w. refl) (λ a w. refl) (λ a w. refl);
  deployments =
      IsHeld-store guarded_server.deployments (λ ns name w. refl) (λ a w. refl) (λ a w. refl);
  services = IsHeld-store guarded_server.services (λ ns name w. refl) (λ a w. refl) (λ a w. refl);
  ingresses = IsHeld-store guarded_server.ingresses (λ ns name w. refl) (λ a w. refl) (λ a w. refl);
  found_named = λ kn w h. (object_found "nova" "demo" w.kube_nova kn h).1;
  found_guarded = λ kn w h k.
      subst (λ x. guarded_server.contains_finalizer x finalizer ≡ true)
        (sym (object_found "nova" "demo" w.kube_nova kn h).0) k;
  added_guards = λ kn w h. ground arith;
}

others_gone : (v w : Server) → OtherWrites v w → guarded_binding.IsGone v → guarded_binding.IsGone w
unfolding guarded_binding
others_gone v w o h = o.0 ∙ h

others_guard : (v w : Server) → OtherWrites v w → guarded_laws.Guards v → guarded_laws.Guards w
unfolding guarded_laws
others_guard v w o h = ap (any (λ g. g == finalizer)) o.1 ∙ h

IsGuarded-start : IsGuarded guarded_server "nova" "demo" guarded_binding guarded_laws demo_world
unfolding guarded_binding guarded_laws
IsGuarded-start = inr refl

-- A pass, an edit of the configuration, and another pass.
abbrev passed : Server
passed = (reconcile guarded_server "nova" "demo" demo_world).1

abbrev edited : Server
edited = record passed { kube_nova = record (passed.kube_nova) { spec = nova_broken.spec } }

Reach-IsGuarded_example :
    IsGuarded guarded_server "nova" "demo" guarded_binding guarded_laws
      (reconcile guarded_server "nova" "demo" edited).1
Reach-IsGuarded_example =
    Reach-IsGuarded guarded_server "nova" "demo" guarded_binding guarded_reads guarded_gone
      guarded_laws OtherWrites others_gone others_guard
      (then_step
        (then_step (then_step at_start (pass_runs demo_world))
          (writer_acts {w = edited} (refl, refl)))
        (pass_runs edited))
      IsGuarded-start

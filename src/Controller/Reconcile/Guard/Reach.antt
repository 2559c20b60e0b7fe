-- ===== src/Controller/Reconcile/Guard/Reach.antt =====
-- The finalizer guards the ClusterRoleBinding in every state that passes and other writers reach
-- (internal/controller/kubenova_controller.go).
use kube_nova_operator.Controller.Action.{Session, ◌>>=◌}
use kube_nova_operator.Controller.Action.Rules.{
  IsPreorder, Relates-attempt, Relates-bind, action_rules,
}
use kube_nova_operator.Controller.Action.Sure.{Post-Succeeds}
use kube_nova_operator.Controller.Cluster.{Cluster}
use kube_nova_operator.Controller.Ensure.Laws.{IsNamed}
use kube_nova_operator.Controller.Reconcile.{
  add_finalizer_step, finalizer, is_settled, reconcile, reconcile_delete, reconcile_found,
  run_stages,
}
use kube_nova_operator.Controller.Reconcile.Delete.{BindingLaws, ReadsWell}
use kube_nova_operator.Controller.Reconcile.Drift.{reconcile_missing}
use kube_nova_operator.Controller.Reconcile.Guard.{
  CallsKeep, GuardLaws, IsGuarded, Keeping, Keeping-IsPreorder, Keeping-status, Keeping-write,
  binding_of,
}
use kube_nova_operator.Controller.Reconcile.Guard.Deletion.{guarded_calls, reconcile_delete-Guarded}
use kube_nova_operator.Controller.Reconcile.Kept.{PassKeeps}
use kube_nova_operator.Controller.Reconcile.KeptPass.{run_stages-Relates}
use kube_nova_operator.Controller.Reconcile.Returns.{reconcile_delete-IsSure, reconcile_world}
use kube_nova_operator.Kube.{is_zero_time}
use kube_nova_operator.Prelude.{Bool-cases, String, ap, inl, inr, subst, sym, true, ◌∙◌, ◌≡◌}
use kube_nova_operator.Prelude.Results.{Reply-cases}

-- What happens between two states of the world: a pass over the object, or another writer acts.
pub data Step (c : Cluster) (ns name : String) (Others : c.World → c.World → Type 0)
    : c.World → c.World → Type 0 where
  pass_runs : (w : c.World) → Step c ns name Others w (reconcile c ns name w).1
  writer_acts : {v w : c.World} → Others v w → Step c ns name Others v w

pub data Reach (c : Cluster) (ns name : String) (Others : c.World → c.World → Type 0)
    (start : c.World) : c.World → Type 0 where
  at_start : Reach c ns name Others start start
  then_step :
      {v w : c.World}
      → Reach c ns name Others start v
      → Step c ns name Others v w
      → Reach c ns name Others start w

module _ (c : Cluster) (ns name : String) (b : BindingLaws c (binding_of ns name))
    (reads_well : ReadsWell c (binding_of ns name)) (gone_calls : CallsKeep c b.IsGone)
    (g : GuardLaws c ns name) where
  abbrev Covered : c.World → Type 0
  Covered = IsGuarded c ns name b g

  guards_pass : PassKeeps c (Keeping g.Guards)
  guards_pass = record {
    base = record {
      preorder = Keeping-IsPreorder c g.Guards g.calls;
      status = λ f s h. h;
      status_write = Keeping-status c g.Guards g.calls;
      now = λ s. g.calls.keeps_now s.world;
      list_nodes = g.nodes;
    };
    namespaces = g.namespaces;
    service_accounts = g.service_accounts;
    cluster_role_bindings = g.cluster_role_bindings;
    secrets = g.secrets;
    config_maps = g.config_maps;
    deployments = g.deployments;
    services = g.services;
    ingresses = g.ingresses;
  }

  Covered-calls : CallsKeep c Covered
  Covered-calls = guarded_calls c ns name b reads_well gone_calls g

  -- What the read of the object says before the rest of a pass.
  pub record IsRead (s : Session c.World) : Type 0 where
    pub named : IsNamed ns name s.kube_nova.metadata
    pub guarded : c.contains_finalizer s.kube_nova finalizer ≡ true → g.Guards s.world
    pub covered : Covered s.world

  deleted-Covered : (s : Session c.World) → IsRead s → Covered (reconcile_delete c s).1.world
  deleted-Covered s r =
      Post-Succeeds _ (reconcile_delete c s).0 (reconcile_delete c s).1
        ((reconcile_delete-IsSure c).at s)
        ((reconcile_delete-Guarded c ns name b reads_well gone_calls g).at s (
          ap (λ n. binding_of n s.kube_nova.metadata.name) r.named.namespace_is
              ∙ ap (binding_of ns) r.named.name_is,
          r.covered,
        ))

  added-Covered :
      (s : Session c.World) → IsRead s → Covered (add_finalizer_step c s.kube_nova s).1.world
  added-Covered s r =
      (Relates-bind (Keeping Covered) keeping _ _
          (Relates-attempt (Keeping Covered) keeping _ (
            Keeping-write c Covered Covered-calls (c.add_finalizer s.kube_nova finalizer)
              (λ w. written w)))
          (λ f. search (keeping, action_rules))).at
        s r.covered
    where
      keeping : IsPreorder (Keeping Covered)
      keeping = Keeping-IsPreorder c Covered Covered-calls

      written :
          (w : c.World)
          → Covered w
          → Covered (c.kube_novas.update (c.add_finalizer s.kube_nova finalizer) w).1
      written w (inl gone) = inl (b.stays _ w gone)
      written w (inr guards) = inr (g.added_guards _ w guards)

  run-Covered :
      (s : Session c.World)
      → IsRead s
      → c.contains_finalizer s.kube_nova finalizer ≡ true
      → Covered (run_stages c s).1.world
  run-Covered s r h = inr ((run_stages-Relates c (Keeping g.Guards) guards_pass).at s (r.guarded h))

  reconcile_found-Covered : (s : Session c.World) → IsRead s → Covered (reconcile_found c s).1.world
  unfolding reconcile_found ◌>>=◌
  reconcile_found-Covered s r =
      let kn = s.kube_nova in
      elim (Bool-cases (is_zero_time kn.metadata.deletion_timestamp)) [
        | inr going ↦ rw going (deleted-Covered s r)
        | inl staying ↦ elim (Bool-cases (c.contains_finalizer kn finalizer)) [
          | inr free ↦ rw staying (rw free (added-Covered s r))
          | inl held ↦ elim (Bool-cases (is_settled c kn)) [
            | inl settled ↦ rw staying (rw held (rw settled r.covered))
            | inr open_ ↦ rw staying (rw held (rw open_ (run-Covered s r held)))
          ]
        ]
      ]

  reconcile-Covered : (w : c.World) → Covered w → Covered (reconcile c ns name w).1
  reconcile-Covered w h =
      let read = Covered-calls.keeps_found ns name w h in
      elim (Reply-cases (c.kube_novas.get ns name w).0) [
        | inl (kn, k) ↦ subst Covered (sym (reconcile_world c ns name w kn k)) (
            reconcile_found-Covered _ (record {
              named = g.found_named kn w k;
              guarded = g.found_guarded kn w k;
              covered = read;
            }))
        | inr (e, k) ↦ subst Covered (sym (ap (λ p. p.1) (reconcile_missing c ns name w e k))) read
      ]

  module _ (Others : c.World → c.World → Type 0)
      (others_gone : (v w : c.World) → Others v w → b.IsGone v → b.IsGone w)
      (others_guard : (v w : c.World) → Others v w → g.Guards v → g.Guards w) where
    Step-Covered : {v w : c.World} → Step c ns name Others v w → Covered v → Covered w
    Step-Covered (pass_runs w) h = reconcile-Covered w h
    Step-Covered (writer_acts o) (inl gone) = inl (others_gone _ _ o gone)
    Step-Covered (writer_acts o) (inr guards) = inr (others_guard _ _ o guards)

    -- In every state that passes over an object and other writers reach, in any order and however
    -- the passes end, its ClusterRoleBinding is gone or the object is stored with the finalizer, if
    -- that is so at the start: no cluster-admin binding is left without an object whose deletion
    -- takes it along. The other writers neither create the binding nor take the finalizer off, a
    -- read of the binding that fails says that there is none, and the API server keeps its laws.
    pub Reach-IsGuarded :
        {start w : c.World}
        → Reach c ns name Others start w
        → IsGuarded c ns name b g start
        → IsGuarded c ns name b g w
    Reach-IsGuarded at_start h = h
    Reach-IsGuarded (then_step r st) h = Step-Covered st (Reach-IsGuarded r h)

-- ===== src/Tests/Promises.antt =====
-- What the small API server keeps of the hypotheses of the theorems.
use kube_nova_operator.Builder.Rbac.{build_cluster_role_binding}
use kube_nova_operator.Builder.Service.Pod.{build_deployment}
use kube_nova_operator.Controller.Cluster.{Cluster}
use kube_nova_operator.Controller.Components.Ready.{Undisturbed}
use kube_nova_operator.Controller.Ensure.Apart.{NamesApart}
use kube_nova_operator.Controller.Ensure.Converges.{KeepsNames}
use kube_nova_operator.Controller.Ensure.Laws.{IsNamed, StoreLaws}
use kube_nova_operator.Controller.Reconcile.Delete.{BindingLaws, ReadsWell}
use kube_nova_operator.Controller.Reconcile.Guard.{binding_of}
use kube_nova_operator.Controller.Reconcile.Invalid.{Quiet}
use kube_nova_operator.Controller.Reconcile.Stages.{HasReplicas}
use kube_nova_operator.Controller.Status.Cost.{Meters}
use kube_nova_operator.Controller.Workloads.Idle.{CanOwn}
use kube_nova_operator.Kube.{ClusterRoleBinding, ConfigMap, ObjectMeta, Secret}
use kube_nova_operator.Kube.Workload.{Quantity, must_parse, new_quantity}
use kube_nova_operator.Prelude.{
  Bool, Bool-cases, List, String, [], ap, arith, eq_iff, eq_refl, false, if◌then◌else◌, inl, inr,
  none, refl, some, subst, sym, true, ◌==◌, ◌∙◌, ◌∷◌, ◌≡◌,
}
use kube_nova_operator.Prelude.Int.{pos}
use kube_nova_operator.Prelude.MapLaws.{has_key_once, has_key_once-HasDistinctKeys}
use kube_nova_operator.Prelude.Results.{Reply, got, refused}
use kube_nova_operator.Tests.{nova}
use kube_nova_operator.Tests.Server.{
  Server, ServerError, answer_stored, matches, no_object, nothing_there, server, stale_object,
  stored,
}

pub server-HasReplicas : HasReplicas server
unfolding build_deployment
server-HasReplicas ns name w d h =
    (pos 2, ap (λ r. elim r [ got e ↦ e.spec.replicas | refused _ ↦ none ]) (sym h))

pub server-KeepsNames : KeepsNames server
server-KeepsNames kn m m' h = record {
  namespace_is =
      ap {B = String} (λ r. elim r [ got x ↦ x.namespace | refused _ ↦ m.namespace ]) (sym h);
  name_is = ap {B = String} (λ r. elim r [ got x ↦ x.name | refused _ ↦ m.name ]) (sym h);
}

pub got_same : {A : Type 0} (a b : A) → ◌≡◌ {A = Reply ServerError A} (got a) (got b) → a ≡ b
got_same {A} a b h = ap (λ r. elim r [ got x ↦ x | refused _ ↦ a ]) h

module _ {A : Type 0} (meta : A → ObjectMeta) (sound : A → Bool) where
  pub stored_first :
      (ns name : String) (a : A) (rest : List A)
      → IsNamed ns name (meta a)
      → stored meta sound ns name (a ∷ rest) ≡ some a
  stored_first ns name a rest n =
      ground
        (arith, n.namespace_is, n.name_is, eq_iff (meta a).namespace ns, eq_iff (meta a).name name)

  pub stored_other :
      (ns other : String) (a : A) (rest : List A)
      → ((meta a).name == other) ≡ false
      → stored meta sound ns other (a ∷ rest) ≡ stored meta sound ns other rest
  stored_other ns other a rest h = ground (arith, h)

  -- What an answer to a read says of the object that is stored.
  pub found_stored :
      (ns name : String) (rest : List A) (a : A)
      → answer_stored meta sound (stored meta sound ns name rest) ≡ got a
      → (stored meta sound ns name rest ≡ some a) × (IsNamed ns name (meta a) × (sound a ≡ true))
  found_stored ns name [] a h = absurd (ground arith)
  found_stored ns name (b ∷ rest) a h = elim (Bool-cases (matches meta sound ns name b)) [
    | inl named ↦ elim (Bool-cases (sound b)) [
      | inl once ↦
          let same = got_same b a (sym (ground arith) ∙ h) in
          (
            ground (arith, same),
            (
              subst (λ x. IsNamed ns name (meta x)) same
                  (record {
                    namespace_is = ground (arith, eq_iff (meta b).namespace ns);
                    name_is = ground (arith, eq_iff (meta b).name name);
                  }),
              subst (λ x. sound x ≡ true) same once,
            ),
          )
      | inr twice ↦ absurd (ground arith)
    ]
    | inr other ↦
        let found =
          found_stored ns name rest a (sym (ap (answer_stored meta sound) (skipped other)) ∙ h) in
        (skipped other ∙ found.0, found.1)
  ]
    where
      skipped :
          matches meta sound ns name b ≡ false
          → stored meta sound ns name (b ∷ rest) ≡ stored meta sound ns name rest
      skipped h = ground (arith, h)

pub binding_refused :
    (b : Bool) (e : ServerError)
    → (if b
        then got (build_cluster_role_binding nova nova.metadata.namespace)
        else refused no_object)
      ≡ refused e
    → server.is_not_found e ≡ true
binding_refused true e h = absurd (ground arith)
binding_refused false no_object h = refl
binding_refused false stale_object h = absurd (ground arith)

pub binding_gone :
    (b : Bool) (e : ServerError)
    → (if b
        then got (build_cluster_role_binding nova nova.metadata.namespace)
        else refused no_object)
      ≡ refused e
    → b ≡ false
binding_gone true e h = absurd (ground arith)
binding_gone false e h = refl

abbrev pub server_config_maps :
    StoreLaws Server ServerError ConfigMap (λ a. a.metadata) (λ a. a.entries) server.config_maps
server_config_maps = record {
  view = λ ns name w. stored (λ a. a.metadata) (λ a. has_key_once a.entries) ns name w.config_maps;
  got_is = λ ns name w a h.
      let (v, (n, d)) =
        found_stored (λ a. a.metadata) (λ a. has_key_once a.entries) ns name w.config_maps a h in
      (v, (n, has_key_once-HasDistinctKeys a.entries d));
  created = λ ns name a w n h.
      (a, (stored_first (λ a. a.metadata) (λ a. has_key_once a.entries) ns name a _ n, refl));
  updated = λ ns name a b w n h.
      (a, (stored_first (λ a. a.metadata) (λ a. has_key_once a.entries) ns name a _ n, refl));
}

pub server_apart :
    NamesApart Server ServerError ConfigMap
      (λ a. a.metadata)
      server.config_maps
      server_config_maps.view
server_apart = record {
  get_view = λ ns name other w. refl;
  create_view = λ ns other a w.
      stored_other (λ a. a.metadata) (λ a. has_key_once a.entries) ns other a w.config_maps;
  update_view = λ ns other a w.
      stored_other (λ a. a.metadata) (λ a. has_key_once a.entries) ns other a w.config_maps;
}

abbrev pub server_secrets :
    StoreLaws Server ServerError Secret (λ a. a.metadata) (λ a. a.entries) server.secrets
server_secrets = record {
  view = λ ns name w. stored (λ a. a.metadata) (λ a. has_key_once a.entries) ns name w.secrets;
  got_is = λ ns name w a h.
      let (v, (n, d)) =
        found_stored (λ a. a.metadata) (λ a. has_key_once a.entries) ns name w.secrets a h in
      (v, (n, has_key_once-HasDistinctKeys a.entries d));
  created = λ ns name a w n h.
      (a, (stored_first (λ a. a.metadata) (λ a. has_key_once a.entries) ns name a _ n, refl));
  updated = λ ns name a b w n h.
      (a, (stored_first (λ a. a.metadata) (λ a. has_key_once a.entries) ns name a _ n, refl));
}

abbrev pub nova_binding : String
nova_binding = binding_of nova.metadata.namespace nova.metadata.name

-- The binding that the server has is the one of the KubeNova.
pub named_binding :
    (x : Bool) (b : ClusterRoleBinding)
    → (if x
        then got (build_cluster_role_binding nova nova.metadata.namespace)
        else refused no_object)
      ≡ got b
    → b.metadata.name ≡ nova_binding
unfolding build_cluster_role_binding
named_binding true b h = ap (λ x. x.metadata.name) (sym (got_same _ b h))
named_binding false b h = absurd (ground arith)

pub server-ReadsWell : ReadsWell server nova_binding
server-ReadsWell w e h = binding_refused w.has_binding e h

pub server_binding : BindingLaws server nova_binding
server_binding = record {
  IsGone = λ w. w.has_binding ≡ false;
  got_named = λ w b. named_binding w.has_binding b;
  not_found_get = λ w e h k. binding_gone w.has_binding e h;
  deleted = λ b w n h. refl;
  not_found_delete = λ b w e n h k. refl;
  stays = λ kn w h. h;
}

-- Only the clock, the pauses and the KubeNova are changed.
pub server_quiet : Quiet server
server_quiet = record {
  R = λ v w. (v.has_binding ≡ w.has_binding) × (v.config_maps ≡ w.config_maps);
  same = λ w. (refl, refl);
  chain = λ u v w h k. (h.0 ∙ k.0, h.1 ∙ k.1);
  now = λ w. (refl, refl);
  sleep = λ n w. (refl, refl);
  get = λ ns name w. (refl, refl);
  update_status = λ kn w. (refl, refl);
}

pub server_meters : Meters server
server_meters = record {
  requests = λ w. w.requests;
  slept = λ w. w.paused;
  get_requests = λ ns name w. refl;
  get_slept = λ ns name w. refl;
  update_requests = λ kn w. refl;
  update_slept = λ kn w. refl;
  sleep_requests = λ n w. refl;
  sleep_slept = λ n w. refl;
}

-- The server, when no Deployment is there.
abbrev pub blind_server : Cluster
blind_server = record server { deployments = nothing_there }

pub blind_server-Undisturbed : Undisturbed blind_server
blind_server-Undisturbed = record {
  by_get = λ ns name ns' name' w. refl;
  by_now = λ ns name w. refl;
}

-- The server, when no ClusterRoleBinding can be read.
abbrev pub forbidding_server : Cluster
forbidding_server = record server {
  cluster_role_bindings = record (server.cluster_role_bindings) {
    get = λ ns name w. (refused stale_object, w);
  };
}

pub same_quantity_refl : (x : Quantity) → server.quantity_equal x x ≡ true
same_quantity_refl (must_parse s) = eq_refl s
same_quantity_refl (new_quantity m f) = ground (arith, eq_refl f)

pub server-CanOwn : CanOwn server
server-CanOwn kn m = (record m { labels = ("owner", kn.metadata.name) ∷ m.labels }, refl)

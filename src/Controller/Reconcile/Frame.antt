-- ===== src/Controller/Reconcile/Frame.antt =====
-- What a pass leaves of the object in memory (internal/controller/kubenova_controller.go).
use kube_nova_operator.Api.{KubeNova}
use kube_nova_operator.Controller.Action.{Session}
use kube_nova_operator.Controller.Action.Rules.{IsPreorder, Relates}
use kube_nova_operator.Controller.Cluster.{Cluster, Store}
use kube_nova_operator.Controller.Reconcile.Kept.{PassKeeps, StoreKeeps}
use kube_nova_operator.Controller.Status.{update_status_with_retry}
use kube_nova_operator.Controller.Status.Retry.{
  Ended, SameButStatus, update_status_with_retry-Ended,
}
use kube_nova_operator.Prelude.{refl, subst, sym, ◌∙◌}
use kube_nova_operator.Prelude.Results.{Error, Outcome, err, ok, panic}

pub same_all : (kn : KubeNova) → SameButStatus kn kn
same_all kn = record {
  spec = refl;
  name = refl;
  namespace = refl;
  generation = refl;
  finalizers = refl;
  deletion = refl;
}

pub same_chain : (a b d : KubeNova) → SameButStatus b a → SameButStatus d b → SameButStatus d a
same_chain a b d h k = record {
  spec = k.spec ∙ h.spec;
  name = k.name ∙ h.name;
  namespace = k.namespace ∙ h.namespace;
  generation = k.generation ∙ h.generation;
  finalizers = k.finalizers ∙ h.finalizers;
  deletion = k.deletion ∙ h.deletion;
}

module _ (c : Cluster) where
  -- The object in memory is the same but for its status and its resource version.
  abbrev pub Framed : Session c.World → Session c.World → Type 0
  Framed s t = SameButStatus t.kube_nova s.kube_nova

  pub Framed-IsPreorder : IsPreorder Framed
  Framed-IsPreorder = record {
    same = λ s. same_all s.kube_nova;
    chain = λ s t u. same_chain s.kube_nova t.kube_nova u.kube_nova;
  }

  store-Framed : {A : Type 0} (store : Store c.World c.ApiError A) → StoreKeeps Framed store
  store-Framed store = record {
    keeps_get = λ ns name s. same_all s.kube_nova;
    keeps_create = λ a s. same_all s.kube_nova;
    keeps_update = λ a s. same_all s.kube_nova;
  }

  update_status-Framed : Relates Framed (update_status_with_retry c)
  update_status-Framed = record { at = λ s. ended _ _ (update_status_with_retry-Ended c s) }
    where
      ended :
          (kn : KubeNova) (r : Outcome (Error c.ApiError) (Unit {0}) × Session c.World)
          → Ended kn r
          → SameButStatus r.1.kube_nova kn
      ended kn (ok _, s) h = h
      ended kn (err _, s) h = subst (λ x. SameButStatus x kn) (sym h.1) (same_all kn)
      ended kn (panic, s) h = absurd h

  pub PassKeeps-Framed : PassKeeps c Framed
  PassKeeps-Framed = record {
    base = record {
      preorder = Framed-IsPreorder;
      status = λ g s. record {
        spec = refl;
        name = refl;
        namespace = refl;
        generation = refl;
        finalizers = refl;
        deletion = refl;
      };
      status_write = update_status-Framed;
      now = λ s. same_all s.kube_nova;
      list_nodes = λ s. same_all s.kube_nova;
    };
    namespaces = store-Framed c.namespaces;
    service_accounts = store-Framed c.service_accounts;
    cluster_role_bindings = store-Framed c.cluster_role_bindings;
    secrets = store-Framed c.secrets;
    config_maps = store-Framed c.config_maps;
    deployments = store-Framed c.deployments;
    services = store-Framed c.services;
    ingresses = store-Framed c.ingresses;
  }

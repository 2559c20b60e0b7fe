-- ===== src/Controller/Reconcile/Kept.antt =====
-- The rules by which the methods of a pass keep a relation between sessions that every call of
-- the client keeps (internal/controller/kubenova_controller.go).
use kube_nova_operator.Api.{KubeNova}
use kube_nova_operator.Api.Status.{DeploymentPhase, KubeNovaStatus}
use kube_nova_operator.Controller.Action.{Action, Session, call, modify}
use kube_nova_operator.Controller.Action.Rules.{
  IsPreorder, Relates, Relates-bind, Relates-call, Relates-modify, action_rules,
}
use kube_nova_operator.Controller.Cluster.{Cluster, Store}
use kube_nova_operator.Controller.Ensure.{
  Texts, create, create_if_missing, create_or_update, ensure, own, write,
}
use kube_nova_operator.Controller.Status.{set_condition, set_status_phase, update_status_with_retry}
use kube_nova_operator.Kube.{ObjectMeta}
use kube_nova_operator.Prelude.{Bool, String}
use kube_nova_operator.Prelude.Results.{Reply}

-- The reads of one kind of object keep the relation.
abbrev pub GetKeeps : {W E A : Type 0} → (Session W → Session W → Type 0) → Store W E A → Type 0
GetKeeps R store =
    (ns name : String) (s : Session _) → R s (record s { world = (store.get ns name s.world).1 })

-- All calls on one kind of object keep the relation.
pub record StoreKeeps {W E A : Type 0} (R : Session W → Session W → Type 0) (store : Store W E A)
    : Type 0 where
  pub keeps_get : GetKeeps R store
  pub keeps_create : (a : A) (s : Session W) → R s (record s { world = (store.create a s.world).1 })
  pub keeps_update : (a : A) (s : Session W) → R s (record s { world = (store.update a s.world).1 })

-- The calls that no kind of object owns keep the relation, and so does whatever changes the status only.
pub record BaseKeeps (c : Cluster) (R : Session c.World → Session c.World → Type 0) : Type 0 where
  pub preorder : IsPreorder R
  pub status :
      (g : KubeNova → KubeNovaStatus) (s : Session c.World)
      → R s (record s { kube_nova = record (s.kube_nova) { status = g s.kube_nova } })
  pub status_write : Relates R (update_status_with_retry c)
  pub now : (s : Session c.World) → R s (record s { world = (c.now s.world).1 })
  pub list_nodes : (s : Session c.World) → R s (record s { world = (c.list_nodes s.world).1 })

-- All calls of the stages keep the relation.
pub record PassKeeps (c : Cluster) (R : Session c.World → Session c.World → Type 0) : Type 0 where
  pub base : BaseKeeps c R
  pub namespaces : StoreKeeps R c.namespaces
  pub service_accounts : StoreKeeps R c.service_accounts
  pub cluster_role_bindings : StoreKeeps R c.cluster_role_bindings
  pub secrets : StoreKeeps R c.secrets
  pub config_maps : StoreKeeps R c.config_maps
  pub deployments : StoreKeeps R c.deployments
  pub services : StoreKeeps R c.services
  pub ingresses : StoreKeeps R c.ingresses

module _ (c : Cluster) (R : Session c.World → Session c.World → Type 0) (k : BaseKeeps c R) where
  pub status_write-Relates : Relates R (update_status_with_retry c)
  status_write-Relates = k.status_write

  pub now-Relates : Relates R (call {E = c.ApiError} c.now)
  now-Relates = Relates-call R k.preorder c.now k.now

  pub nodes-Relates : Relates R (call {E = c.ApiError} c.list_nodes)
  nodes-Relates = Relates-call R k.preorder c.list_nodes k.list_nodes

  pub get-Relates :
      {A : Type 0} (store : Store c.World c.ApiError A)
      → GetKeeps R store
      → (ns name : String) → Relates R (call {E = c.ApiError} (store.get ns name))
  get-Relates store ks ns name = Relates-call R k.preorder _ (ks ns name)

  pub modify-Relates :
      (g : KubeNova → KubeNovaStatus)
      → Relates R (modify {E = c.ApiError} (λ kn. record kn { status = g kn }))
  modify-Relates g = Relates-modify R k.preorder _ (k.status g)

  pub set_status_phase-Relates :
      (p : DeploymentPhase) (m : String) → Relates R (set_status_phase c p m)
  unfolding set_status_phase
  set_status_phase-Relates p m = search (now-Relates, modify-Relates, k.preorder, action_rules)

  pub set_condition-Relates : (kind st r m : String) → Relates R (set_condition c kind st r m)
  unfolding set_condition
  set_condition-Relates kind st r m = search (now-Relates, modify-Relates, k.preorder, action_rules)

  pub own-Relates : (prefix : String) (meta : ObjectMeta) → Relates R (own c prefix meta)
  unfolding own
  own-Relates prefix meta = search (k.preorder, action_rules)

  module _ {A : Type 0} (store : Store c.World c.ApiError A) (ks : StoreKeeps R store)
      (texts : Texts) where
    sent-Relates :
        {B : Type 0} (f : c.World → Reply c.ApiError B × c.World)
        → ((s : Session c.World) → R s (record s { world = (f s.world).1 }))
        → Relates R (call {E = c.ApiError} f)
    sent-Relates f = Relates-call R k.preorder f

    pub create-Relates : (obj : A) → Relates R (create c store texts obj)
    unfolding create
    create-Relates obj =
        search (sent-Relates (store.create obj) (ks.keeps_create obj), k.preorder, action_rules)

    pub write-Relates : (obj : A) → Relates R (write c store texts obj)
    unfolding write
    write-Relates obj =
        Relates-bind R k.preorder _ _ (sent-Relates (store.update obj) (ks.keeps_update obj))
          (λ r. search (k.preorder, action_rules))

    pub ensure-Relates :
        (namespace name : String) (obj : A) (present : A → Action c.World c.ApiError (Unit {0}))
        → ((a : A) → Relates R (present a))
        → Relates R (ensure c store texts namespace name obj present)
    unfolding ensure
    ensure-Relates namespace name obj present h =
        search (create-Relates, get-Relates store ks.keeps_get, k.preorder, action_rules) depth 8

    pub create_if_missing-Relates :
        (namespace name : String) (obj : A)
        → Relates R (create_if_missing c store texts namespace name obj)
    unfolding create_if_missing
    create_if_missing-Relates namespace name obj = search (ensure-Relates, k.preorder, action_rules)

    pub create_or_update-Relates :
        (same : A → Bool) (merge : A → A) (namespace name : String) (obj : A)
        → Relates R (create_or_update c store texts same merge namespace name obj)
    unfolding create_or_update
    create_or_update-Relates same merge namespace name obj =
        search (ensure-Relates, write-Relates, k.preorder, action_rules)

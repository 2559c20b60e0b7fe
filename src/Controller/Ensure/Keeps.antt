-- ===== src/Controller/Ensure/Keeps.antt =====
-- What the creation or the update of an object leaves as it was
-- (internal/controller/kubenova_controller.go).
use kube_nova_operator.Api.{KubeNova}
use kube_nova_operator.Controller.Action.{Action, Session, call, on_reply, or_wrap, pure, raise}
use kube_nova_operator.Controller.Action.Ensures.{
  Ensures, Ensures-and, Ensures-bind, Ensures-call, Ensures-pure, Ensures-raise, Ensures-self,
}
use kube_nova_operator.Controller.Cluster.{Cluster, Store}
use kube_nova_operator.Controller.Ensure.{Texts, create, create_or_update, ensure, own, write}
use kube_nova_operator.Controller.Ensure.Converges.{KeepsNames, own-names}
use kube_nova_operator.Controller.Ensure.Laws.{IsNamed}
use kube_nova_operator.Kube.{ObjectMeta}
use kube_nova_operator.Prelude.{Bool, Bool-cases, String, if◌then◌else◌, inl, inr, refl, ◌≡◌}
use kube_nova_operator.Prelude.Results.{Reply, api, got, refused, wrapped}

-- A condition on the world that the calls for objects with `N` keep; a read returns such an object.
pub record KeepsWorld {W E A : Type 0} (store : Store W E A) (ns name : String) (N : A → Type 0)
    (K : W → Type 0) : Type 0 where
  pub get_keeps : (w : W) → K w → K (store.get ns name w).1
  pub get_finds : (w : W) (a : A) → (store.get ns name w).0 ≡ got a → N a
  pub create_keeps : (a : A) (w : W) → N a → K w → K (store.create a w).1
  pub update_keeps : (a : A) (w : W) → N a → K w → K (store.update a w).1

module _ (c : Cluster) {A : Type 0} (store : Store c.World c.ApiError A) (ns name : String)
    {N : A → Type 0} {K : c.World → Type 0} (k : KeepsWorld store ns name N K) (texts : Texts) where
  abbrev pub Kept : {B : Type 0} → B → Session c.World → Type 0
  Kept _ s = K s.world

  pub or_wrap-Kept :
      {B : Type 0} (prefix : String) (r : Reply c.ApiError B)
      → Ensures (Kept r) Kept (or_wrap prefix r)
  unfolding on_reply
  or_wrap-Kept prefix (got b) = Ensures-pure _ _ _ (λ s h. h)
  or_wrap-Kept prefix (refused x) = Ensures-raise _ _ _

  create-Kept : (a : A) → N a → Ensures (Kept tt) Kept (create c store texts a)
  unfolding create
  create-Kept a n =
      Ensures-bind _ Kept _ _ _ (Ensures-call _ _ _ (λ s h. k.create_keeps a s.world n h))
        (or_wrap-Kept texts.creating)

  pub write-Kept : (a : A) → N a → Ensures (Kept tt) Kept (write c store texts a)
  unfolding write
  write-Kept a n =
      Ensures-bind _ Kept _ _ _ (Ensures-call _ _ _ (λ s h. k.update_keeps a s.world n h)) (λ r.
        Ensures-bind _ Kept _ _ _ (or_wrap-Kept texts.updating r)
          (λ b. Ensures-pure _ _ _ (λ s h. h)))

  -- An answer to the read.
  abbrev pub Found : Reply c.ApiError A → Session c.World → Type 0
  Found (got a) s = N a × K s.world
  Found (refused _) s = Unit × K s.world

  get-Found :
      (w : c.World) (kn : KubeNova) (r : Reply c.ApiError A)
      → (store.get ns name w).0 ≡ r
      → K w
      → Found r (record { world = (store.get ns name w).1; kube_nova = kn })
  get-Found w kn (got a) e h = (k.get_finds w a e, k.get_keeps w h)
  get-Found w kn (refused _) e h = (tt, k.get_keeps w h)

  pub got_Found : Ensures {E = c.ApiError} (Kept tt) Found (call (store.get ns name))
  got_Found = Ensures-call _ Found _ (λ s h. get-Found s.world s.kube_nova _ refl h)

  -- The object, if the answer is one.
  pub named-Kept :
      (prefix : String) (r : Reply c.ApiError A)
      → Ensures (Found r) (λ a s. N a × K s.world) (or_wrap prefix r)
  unfolding on_reply
  named-Kept prefix (got a) = Ensures-pure _ _ _ (λ s h. h)
  named-Kept prefix (refused x) = Ensures-raise _ _ _

  -- Setting the owner changes nothing that is stored, and keeps the name.
  pub own-Kept :
      KeepsNames c
      → (prefix : String) (m : ObjectMeta)
      → Ensures (Kept tt) (λ m' s. IsNamed m.namespace m.name m' × K s.world) (own c prefix m)
  unfolding own
  own-Kept keeps prefix m = record {
    at = λ s h. (Ensures-and _ _ _ _ _ (own-names c keeps prefix m) left_alone).at s (tt, h);
  }
    where
      left_alone : Ensures (Kept tt) Kept (own c prefix m)
      left_alone =
          Ensures-bind _ Kept _ _ _ (Ensures-self _ Kept (λ s h. h)) (λ kn. or_wrap-Kept prefix _)

  module _ (present : A → Action c.World c.ApiError (Unit {0}))
      (there : (a : A) → Ensures (Found (got a)) Kept (present a)) (obj : A) (n : N obj) where
    Found-Kept :
        (r : Reply c.ApiError A)
        → Ensures (Found r) Kept (
            on_reply r present (λ x.
              if c.is_not_found x
              then create c store texts obj
              else raise (wrapped texts.getting (api x))))
    unfolding on_reply
    Found-Kept (got a) = there a
    Found-Kept (refused x) = elim (Bool-cases (c.is_not_found x)) [
      | inl missing ↦ rw missing (record { at = λ s h. (create-Kept obj n).at s h.1 })
      | inr other ↦ rw other (Ensures-raise _ _ _)
    ]

    pub ensure-Kept : Ensures (Kept tt) Kept (ensure c store texts ns name obj present)
    unfolding ensure
    ensure-Kept = Ensures-bind _ Found _ _ _ got_Found Found-Kept

  module _ (same : A → Bool) (merge : A → A) (merged : (a : A) → N a → N (merge a)) (obj : A)
      (n : N obj) where
    present-Kept :
        (a : A)
        → Ensures (Found (got a)) Kept (if same a then pure tt else write c store texts (merge a))
    present-Kept a = elim (Bool-cases (same a)) [
      | inl equal ↦ rw equal (Ensures-pure _ _ _ (λ s h. h.1))
      | inr differs ↦
          rw differs (record { at = λ s h. (write-Kept (merge a) (merged a h.0)).at s h.1 })
    ]

    pub create_or_update-Kept :
        Ensures (Kept tt) Kept (create_or_update c store texts same merge ns name obj)
    unfolding create_or_update
    create_or_update-Kept = ensure-Kept _ present-Kept obj n

-- ===== src/Controller/Ensure/Laws.antt =====
-- What the creation or the update of a ConfigMap or a Secret achieves
-- (internal/controller/kubenova_controller.go).
use kube_nova_operator.Api.{KubeNova}
use kube_nova_operator.Controller.Action.{Session, on_reply, or_wrap, pure, raise, ◌>>=◌, ◌>>◌}
use kube_nova_operator.Controller.Action.Ensures.{
  Ensures, Ensures-bind, Ensures-call, Ensures-pure, Ensures-raise,
}
use kube_nova_operator.Controller.Cluster.{Cluster, Store}
use kube_nova_operator.Controller.Ensure.{Texts, create, create_or_update, ensure, write}
use kube_nova_operator.Kube.{ObjectMeta}
use kube_nova_operator.Prelude.{
  Bool, Bool-cases, Option, String, ap, if◌then◌else◌, inl, inr, refl, some, subst, sym, true, ◌∙◌,
  ◌≡◌,
}
use kube_nova_operator.Prelude.MapLaws.{HasDistinctKeys}
use kube_nova_operator.Prelude.Maps.{Map, lookup}
use kube_nova_operator.Prelude.Results.{Reply, api, got, refused, wrapped}

-- An object of a name in a namespace.
pub record IsNamed (namespace name : String) (m : ObjectMeta) : Type 0 where
  pub namespace_is : m.namespace ≡ namespace
  pub name_is : m.name ≡ name

-- What the API server stores: `view namespace name w` is the object of that name in the world `w`.
-- A read returns it, and behind a successful write it is the object that was sent, but for its
-- metadata. The entries of an object that is read have distinct keys.
pub record StoreLaws (W E A : Type 0) (meta : A → ObjectMeta) (entries : A → Map String)
    (store : Store W E A) : Type 0 where
  pub view : String → String → W → Option A
  pub got_is :
      (ns name : String) (w : W) (a : A)
      → (store.get ns name w).0 ≡ got a
      → (view ns name (store.get ns name w).1 ≡ some a)
        × (IsNamed ns name (meta a) × HasDistinctKeys (entries a))
  pub created :
      (ns name : String) (a : A) (w : W)
      → IsNamed ns name (meta a)
      → (store.create a w).0 ≡ got tt
      → (b : A) × ((view ns name (store.create a w).1 ≡ some b) × (entries b ≡ entries a))
  pub updated :
      (ns name : String) (a b : A) (w : W)
      → IsNamed ns name (meta a)
      → (store.update a w).0 ≡ got b
      → (d : A) × ((view ns name (store.update a w).1 ≡ some d) × (entries d ≡ entries a))

module _ (c : Cluster) {A : Type 0} (meta : A → ObjectMeta) (entries : A → Map String)
    (store : Store c.World c.ApiError A) (laws : StoreLaws c.World c.ApiError A meta entries store)
    (texts : Texts) where
  -- The object is stored, with the value that `wanted` has under every key.
  abbrev pub IsStored : String → String → Map String → c.World → Type 0
  IsStored ns name wanted w =
      (b : A) × ((laws.view ns name w ≡ some b)
        × ((k : String) → lookup k (entries b) ≡ lookup k wanted))

  module _ (ns name : String) (wanted : Map String) where
    abbrev Stored : Unit {0} → Session c.World → Type 0
    Stored _ s = IsStored ns name wanted s.world

    -- An answer to a write, behind which the object is stored if the answer is no error.
    abbrev Accepted : {B : Type 0} → Reply c.ApiError B → Session c.World → Type 0
    Accepted (got _) s = IsStored ns name wanted s.world
    Accepted (refused _) s = Unit

    -- An answer to the read.
    abbrev Seen : Reply c.ApiError A → Session c.World → Type 0
    Seen (got a) s =
        (laws.view ns name s.world ≡ some a)
        × (IsNamed ns name (meta a) × HasDistinctKeys (entries a))
    Seen (refused _) s = Unit

    module _ (obj : A) (n : IsNamed ns name (meta obj)) (e : entries obj ≡ wanted) where
      kept-IsStored :
          (w : c.World)
          → (b : A) × ((laws.view ns name w ≡ some b) × (entries b ≡ entries obj))
          → IsStored ns name wanted w
      kept-IsStored w (b, (v, h)) = (b, (v, λ k. ap (lookup k) (h ∙ e)))

      create-Accepted :
          (w : c.World) (kn : KubeNova) (r : Reply c.ApiError (Unit {0}))
          → (store.create obj w).0 ≡ r
          → Accepted r (record { world = (store.create obj w).1; kube_nova = kn })
      create-Accepted w kn (got tt) k = kept-IsStored _ (laws.created ns name obj w n k)
      create-Accepted w kn (refused _) k = tt

      update-Accepted :
          (w : c.World) (kn : KubeNova) (r : Reply c.ApiError A)
          → (store.update obj w).0 ≡ r
          → Accepted r (record { world = (store.update obj w).1; kube_nova = kn })
      update-Accepted w kn (got b) k = kept-IsStored _ (laws.updated ns name obj b w n k)
      update-Accepted w kn (refused _) k = tt

      created-Stored :
          (r : Reply c.ApiError (Unit {0})) → Ensures (Accepted r) Stored (or_wrap texts.creating r)
      unfolding on_reply
      created-Stored (got tt) = Ensures-pure _ Stored tt (λ s h. h)
      created-Stored (refused x) = Ensures-raise _ Stored _

      updated-Stored :
          (r : Reply c.ApiError A)
          → Ensures (Accepted r) Stored (or_wrap texts.updating r >> pure tt)
      unfolding ◌>>=◌
      updated-Stored (got b) = record { at = λ s h. h }
      updated-Stored (refused x) = record { at = λ s h. tt }

      create-Stored : Ensures (λ _. Unit) Stored (create c store texts obj)
      unfolding create
      create-Stored =
          Ensures-bind _ Accepted Stored _ _
            (Ensures-call _ Accepted _ (λ s _. create-Accepted s.world s.kube_nova _ refl))
            created-Stored

      write-Stored : Ensures (λ _. Unit) Stored (write c store texts obj)
      unfolding write
      write-Stored =
          Ensures-bind _ Accepted Stored _ _
            (Ensures-call _ Accepted _ (λ s _. update-Accepted s.world s.kube_nova _ refl))
            updated-Stored

    get-Seen :
        (w : c.World) (kn : KubeNova) (r : Reply c.ApiError A)
        → (store.get ns name w).0 ≡ r
        → Seen r (record { world = (store.get ns name w).1; kube_nova = kn })
    get-Seen w kn (got a) k = laws.got_is ns name w a k
    get-Seen w kn (refused _) k = tt

    module _ (same : A → Bool) (merge : A → A)
        (same_exact : (a : A)
          → HasDistinctKeys (entries a)
          → same a ≡ true
          → (k : String) → lookup k (entries a) ≡ lookup k wanted)
        (merge_meta : (a : A) → meta (merge a) ≡ meta a)
        (merge_entries : (a : A) → entries (merge a) ≡ wanted) where
      present-Stored :
          (a : A)
          → Ensures
              (Seen (got a))
              Stored
              (if same a then pure tt else write c store texts (merge a))
      present-Stored a = elim (Bool-cases (same a)) [
        | inl equal ↦
            rw equal (Ensures-pure _ Stored tt (λ s h. (a, (h.0, same_exact a h.1.1 equal))))
        | inr differs ↦ rw differs (record {
          at = λ s h.
              (write-Stored (merge a) (subst (IsNamed ns name) (sym (merge_meta a)) h.1.0)
                  (merge_entries a)).at
                s tt;
        })
      ]

      module _ (obj : A) (n : IsNamed ns name (meta obj)) (e : entries obj ≡ wanted) where
        found-Stored :
            (r : Reply c.ApiError A)
            → Ensures (Seen r) Stored (
                on_reply r
                  (λ existing.
                    if same existing then pure tt else write c store texts (merge existing))
                  (λ x.
                    if c.is_not_found x
                    then create c store texts obj
                    else raise (wrapped texts.getting (api x))))
        unfolding on_reply
        found-Stored (got a) = present-Stored a
        found-Stored (refused x) = elim (Bool-cases (c.is_not_found x)) [
          | inl missing ↦ rw missing (create-Stored obj n e)
          | inr other ↦ rw other (Ensures-raise _ Stored _)
        ]

        pub create_or_update-Stored :
            Ensures (λ _. Unit) Stored (create_or_update c store texts same merge ns name obj)
        unfolding create_or_update ensure
        create_or_update-Stored =
            Ensures-bind _ Seen Stored _ _
              (Ensures-call _ Seen _ (λ s _. get-Seen s.world s.kube_nova _ refl)) found-Stored

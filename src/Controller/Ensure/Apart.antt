-- ===== src/Controller/Ensure/Apart.antt =====
-- Objects of other names are left as they are
-- (internal/controller/kubenova_controller.go).
use kube_nova_operator.Controller.Cluster.{Store}
use kube_nova_operator.Controller.Ensure.Keeps.{KeepsWorld}
use kube_nova_operator.Controller.Ensure.Laws.{IsNamed}
use kube_nova_operator.Kube.{ObjectMeta}
use kube_nova_operator.Prelude.{Option, String, ap, false, ◌==◌, ◌∙◌, ◌≡◌}
use kube_nova_operator.Prelude.Results.{got}

-- The calls for an object leave the objects of other names as they are: no other writer removes
-- or changes them in between.
pub record NamesApart (W E A : Type 0) (meta : A → ObjectMeta) (store : Store W E A)
    (view : String → String → W → Option A) : Type 0 where
  pub get_view :
      (ns name other : String) (w : W) → view ns other (store.get ns name w).1 ≡ view ns other w
  pub create_view :
      (ns other : String) (a : A) (w : W)
      → ((meta a).name == other) ≡ false
      → view ns other (store.create a w).1 ≡ view ns other w
  pub update_view :
      (ns other : String) (a : A) (w : W)
      → ((meta a).name == other) ≡ false
      → view ns other (store.update a w).1 ≡ view ns other w

module _ {W E A : Type 0} {meta : A → ObjectMeta} {store : Store W E A}
    {view : String → String → W → Option A} (apart : NamesApart W E A meta store view)
    (ns held : String) (K : W → Type 0)
    (same_view : (v w : W) → view ns held w ≡ view ns held v → K v → K w) where
  named_apart :
      (name : String) (m : ObjectMeta)
      → (name == held) ≡ false
      → IsNamed ns name m
      → (m.name == held) ≡ false
  named_apart name m h n = ap (λ s. s == held) (n.name_is) ∙ h

  -- A condition on the object `held` is kept by the calls for another name.
  pub keeps_apart :
      (name : String)
      → ((w : W) (a : A) → (store.get ns name w).0 ≡ got a → IsNamed ns name (meta a))
      → (name == held) ≡ false
      → KeepsWorld store ns name (λ a. IsNamed ns name (meta a)) K
  keeps_apart name named h = record {
    get_keeps = λ w. same_view _ _ (apart.get_view ns name held w);
    get_finds = named;
    create_keeps = λ a w n. same_view _ _ (apart.create_view ns held a w (named_apart name _ h n));
    update_keeps = λ a w n. same_view _ _ (apart.update_view ns held a w (named_apart name _ h n));
  }

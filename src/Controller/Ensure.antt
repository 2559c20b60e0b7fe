-- ===== src/Controller/Ensure.antt =====
-- The pattern that the reconciler repeats for each kind of object
-- (internal/controller/kubenova_controller.go): own it, look it up, create it if it is not there,
-- and for some kinds update it if it differs. The texts are the prefixes of the errors.
pub mod Laws
pub mod Keeps
pub mod Apart
pub mod AllConfigMaps
pub mod SecretConverges
pub mod Converges
use kube_nova_operator.Controller.Action.{
  Action, call, on_reply, or_wrap, pure, raise, self, ◌>>=◌, ◌>>◌,
}
use kube_nova_operator.Controller.Cluster.{Cluster, Store}
use kube_nova_operator.Kube.{ObjectMeta}
use kube_nova_operator.Prelude.{Bool, String, if◌then◌else◌}
use kube_nova_operator.Prelude.Results.{api, wrapped}

pub record Texts : Type 0 where
  pub getting : String
  pub creating : String
  pub updating : String

module _ (c : Cluster) where
  open c use {World, ApiError, is_not_found}

  -- `controllerutil.SetControllerReference(kubenova, obj, r.Scheme)`: the metadata with the owner.
  unfoldable pub own : String → ObjectMeta → Action World ApiError ObjectMeta
  own prefix meta = do kn ← self; or_wrap prefix (c.set_controller_reference kn meta)

  module _ {A : Type 0} (store : Store World ApiError A) (texts : Texts) where
    unfoldable pub create : A → Action World ApiError (Unit {0})
    create obj = do created ← call (store.create obj); or_wrap texts.creating created

    unfoldable pub write : A → Action World ApiError (Unit {0})
    write obj = do written ← call (store.update obj); or_wrap texts.updating written; pure tt

    -- Create if it is not found; `present` is what happens if it is there.
    unfoldable pub ensure :
        String
        → String
        → A
        → (A → Action World ApiError (Unit {0}))
        → Action World ApiError (Unit {0})
    ensure namespace name obj present = do
      found ← call (store.get namespace name)
      on_reply found present
          (λ e. if is_not_found e then create obj else raise (wrapped texts.getting (api e)))

    -- An object that is there is left as it is.
    unfoldable pub create_if_missing : String → String → A → Action World ApiError (Unit {0})
    create_if_missing namespace name obj = ensure namespace name obj (λ _. pure tt)

    -- An object that is there is written if `same` finds a difference.
    unfoldable pub create_or_update :
        (A → Bool) → (A → A) → String → String → A → Action World ApiError (Unit {0})
    create_or_update same merge namespace name obj =
        ensure namespace name obj
          λ existing. if same existing then pure tt else write (merge existing)

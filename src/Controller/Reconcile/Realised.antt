-- ===== src/Controller/Reconcile/Realised.antt =====
-- What a pass without error leaves on the API server
-- (internal/controller/kubenova_controller.go).
pub mod Isolated
pub mod AlongStages
pub mod Renamed
pub mod Held
pub mod WebStage
pub mod WebGained
pub mod Carried
pub mod Pass
pub mod Whole
use kube_nova_operator.Api.{KubeNova}
use kube_nova_operator.Controller.Action.{Session}
use kube_nova_operator.Controller.Cluster.{Cluster}
use kube_nova_operator.Controller.Reconcile.Invalid.{Quiet, update_status-Keeps}
use kube_nova_operator.Controller.Reconcile.Kept.{BaseKeeps}
use kube_nova_operator.Prelude.{Option, String, refl, ℕ, ◌∙◌, ◌≡◌}

-- What is stored of one kind of object is the same.
abbrev pub SameView :
    {W A : Type 0} → (String → String → W → Option A) → Session W → Session W → Type 0
SameView view s t = (ns name : String) → view ns name t.world ≡ view ns name s.world

-- The clock, the pauses, the reads and the status writes of the KubeNova and the list of the nodes
-- leave the objects of a kind as they are.
pub record Untouched (c : Cluster) {A : Type 0} (view : String → String → c.World → Option A)
    : Type 0 where
  pub by_now : (w : c.World) (ns name : String) → view ns name (c.now w).1 ≡ view ns name w
  pub by_sleep :
      (n : ℕ) (w : c.World) (ns name : String) → view ns name (c.sleep n w) ≡ view ns name w
  pub by_get :
      (ns' name' : String) (w : c.World) (ns name : String)
      → view ns name (c.kube_novas.get ns' name' w).1 ≡ view ns name w
  pub by_status :
      (kn : KubeNova) (w : c.World) (ns name : String)
      → view ns name (c.update_status kn w).1 ≡ view ns name w
  pub by_nodes : (w : c.World) (ns name : String) → view ns name (c.list_nodes w).1 ≡ view ns name w

module _ (c : Cluster) {A : Type 0} (view : String → String → c.World → Option A)
    (u : Untouched c view) where
  unchanged : Quiet c
  unchanged = record {
    R = λ v w. (ns name : String) → view ns name w ≡ view ns name v;
    same = λ w ns name. refl;
    chain = λ v w x h k ns name. k ns name ∙ h ns name;
    now = u.by_now;
    sleep = u.by_sleep;
    get = u.by_get;
    update_status = u.by_status;
  }

  pub BaseKeeps-SameView : BaseKeeps c (SameView view)
  unfolding unchanged
  BaseKeeps-SameView = record {
    preorder = record {
      same = λ s ns name. refl;
      chain = λ s t x h k ns name. k ns name ∙ h ns name;
    };
    status = λ g s ns name. refl;
    status_write = update_status-Keeps c unchanged;
    now = λ s. u.by_now s.world;
    list_nodes = λ s. u.by_nodes s.world;
  }

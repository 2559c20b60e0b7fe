-- ===== src/Controller/Status/Cost.antt =====
-- How many requests `updateStatusWithRetry` sends, and how long it sleeps
-- (internal/controller/kubenova_controller.go).
use kube_nova_operator.Api.{KubeNova}
use kube_nova_operator.Controller.Action.{Action, Session, ◌>>=◌}
use kube_nova_operator.Controller.Cluster.{Cluster}
use kube_nova_operator.Controller.Status.{
  after_get, after_write, update_round, update_rounds, update_status_with_retry,
}
use kube_nova_operator.Prelude.{String, arith, if◌then◌else◌, ltb, ℕ, ◌*◌, ◌+◌, ◌≡◌, ◌≤◌}
use kube_nova_operator.Prelude.Results.{Reply, got, refused}

-- Two meters on the world: the requests sent to the API server, and the milliseconds slept. A read
-- and a status write count once each, and a sleep counts in full.
pub record Meters (c : Cluster) : Type 0 where
  pub requests : c.World → ℕ
  pub slept : c.World → ℕ
  pub get_requests :
      (ns name : String) (w : c.World) → requests (c.kube_novas.get ns name w).1 ≡ requests w + 1
  pub get_slept : (ns name : String) (w : c.World) → slept (c.kube_novas.get ns name w).1 ≡ slept w
  pub update_requests :
      (kn : KubeNova) (w : c.World) → requests (c.update_status kn w).1 ≡ requests w + 1
  pub update_slept : (kn : KubeNova) (w : c.World) → slept (c.update_status kn w).1 ≡ slept w
  pub sleep_requests : (n : ℕ) (w : c.World) → requests (c.sleep n w) ≡ requests w
  pub sleep_slept : (n : ℕ) (w : c.World) → slept (c.sleep n w) ≡ slept w + n

module _ (c : Cluster) (meters : Meters c) where
  -- From `w` to `w'` there were at most `n` requests and `ms` milliseconds of sleep.
  abbrev Spent : ℕ → ℕ → c.World → c.World → Type 0
  Spent n ms w w' =
      (meters.requests w' ≤ meters.requests w + n) × (meters.slept w' ≤ meters.slept w + ms)

  -- What round `i` may sleep.
  abbrev pause : ℕ → ℕ
  pause i = if ltb i 2 then 100 * (i + 1) else 0

  module _ (retry : Action c.World c.ApiError (Unit {0})) (n ms : ℕ)
      (retry_spent : (s : Session c.World) → Spent n ms s.world (retry s).1.world) where
    after_write-Spent :
        (i : ℕ) (r : Reply c.ApiError KubeNova) (s : Session c.World)
        → Spent n (pause i + ms) s.world (after_write c retry i r s).1.world
    unfolding after_write ◌>>=◌
    after_write-Spent i (got latest) s = (omega arith, omega arith)
    after_write-Spent i (refused e) s = ground (
      arith,
      meters.sleep_requests (100 * (i + 1)) s.world,
      meters.sleep_slept (100 * (i + 1)) s.world,
      retry_spent (record s { world = c.sleep (100 * (i + 1)) s.world }),
    )

    after_get-Spent :
        (i : ℕ) (kn : KubeNova) (r : Reply c.ApiError KubeNova) (s : Session c.World)
        → Spent (n + 1) (pause i + ms) s.world (after_get c retry i kn r s).1.world
    unfolding after_get ◌>>=◌
    after_get-Spent i kn (got latest) s =
        let (r, w) = c.update_status (record latest { status = kn.status }) s.world in
        let ih = after_write-Spent i r (record s { world = w }) in
        let u = meters.update_requests (record latest { status = kn.status }) s.world in
        let v = meters.update_slept (record latest { status = kn.status }) s.world in
        (omega arith, omega arith)
    after_get-Spent i kn (refused e) s = (omega arith, omega arith)

    update_round-Spent :
        (i : ℕ) (s : Session c.World)
        → Spent (n + 2) (pause i + ms) s.world (update_round c retry i s).1.world
    unfolding update_round ◌>>=◌
    update_round-Spent i s =
        let kn = s.kube_nova in
        let (r, w) = c.kube_novas.get kn.metadata.namespace kn.metadata.name s.world in
        let ih = after_get-Spent i kn r (record s { world = w }) in
        let u = meters.get_requests kn.metadata.namespace kn.metadata.name s.world in
        let v = meters.get_slept kn.metadata.namespace kn.metadata.name s.world in
        (omega arith, omega arith)

  no_round-Spent : (i : ℕ) (s : Session c.World) → Spent 0 0 s.world (update_rounds c 0 i s).1.world
  unfolding update_rounds ◌>>=◌
  no_round-Spent i s = (omega arith, omega arith)

  last_round-Spent : (s : Session c.World) → Spent 2 0 s.world (update_rounds c 1 2 s).1.world
  unfolding update_rounds
  last_round-Spent s = update_round-Spent (update_rounds c 0 3) 0 0 (no_round-Spent 3) 2 s

  second_round-Spent : (s : Session c.World) → Spent 4 200 s.world (update_rounds c 2 1 s).1.world
  unfolding update_rounds
  second_round-Spent s = update_round-Spent (update_rounds c 1 2) 2 0 last_round-Spent 1 s

  -- A status write sends at most six requests to the API server, each of its three rounds
  -- a read and a write, and sleeps at most 300 ms.
  pub update_status_with_retry_spent :
      (s : Session c.World)
      → (meters.requests (update_status_with_retry c s).1.world ≤ meters.requests s.world + 6)
        × (meters.slept (update_status_with_retry c s).1.world ≤ meters.slept s.world + 300)
  unfolding update_status_with_retry update_rounds
  update_status_with_retry_spent s =
      update_round-Spent (update_rounds c 2 1) 4 200 second_round-Spent 0 s

-- ===== src/Controller/Status.antt =====
-- The status writes of the reconciler: `setStatusPhase` and `updateStatusWithRetry`
-- (internal/controller/kubenova_controller.go).
pub mod Retry
pub mod Cost
use kube_nova_operator.Api.{KubeNova}
use kube_nova_operator.Api.Status.{DeploymentPhase}
use kube_nova_operator.Controller.Action.{Action, call, modify, on_reply, raise, self, ◌>>=◌, ◌>>◌}
use kube_nova_operator.Controller.Cluster.{Cluster}
use kube_nova_operator.Prelude.{String, if◌then◌else◌, ltb, suc, zero, ℕ, ◌&&◌, ◌*◌, ◌+◌}
use kube_nova_operator.Prelude.Results.{Reply, api, plain}

module _ (c : Cluster) where
  open c use {World, ApiError, now, sleep, is_conflict}

  -- In memory only.
  unfoldable pub set_status_phase : DeploymentPhase → String → Action World ApiError (Unit {0})
  set_status_phase phase message = do
    time ← call now
    modify λ kn. record kn {
      status = record (kn.status) {
        phase = phase;
        message = message;
        last_update_time = time;
        observed_generation = kn.metadata.generation;
      };
    }

  -- `meta.SetStatusCondition(&kubenova.Status.Conditions, …)`
  unfoldable pub set_condition :
      String → String → String → String → Action World ApiError (Unit {0})
  set_condition kind status reason message = do
    time ← call now
    modify λ kn. record kn {
      status = record (kn.status) {
        conditions = c.set_status_condition time kn.status.conditions (record {
          kind = kind;
          status = status;
          reason = reason;
          message = message;
          observed_generation = kn.metadata.generation;
          last_transition_time = 0;
        });
      };
    }

  -- The object in memory after a successful write.
  abbrev pub refresh : KubeNova → KubeNova → KubeNova
  refresh kn latest = record kn {
    status = latest.status;
    metadata = record (kn.metadata) { resource_version = latest.metadata.resource_version };
  }

  -- The branches on the answer to the write. A conflict is retried before the last round, after
  -- 100 ms for each round so far.
  unfoldable pub after_write :
      Action World ApiError (Unit {0})
      → ℕ
      → Reply ApiError KubeNova
      → Action World ApiError (Unit {0})
  after_write retry i written =
      on_reply written (λ latest. modify (λ kn. refresh kn latest))
        (λ e.
          if is_conflict e && ltb i 2
          then call (λ w. (tt, sleep (100 * (i + 1)) w)) >> retry
          else raise (api e))

  -- The branches on the answer to the read.
  unfoldable pub after_get :
      Action World ApiError (Unit {0})
      → ℕ
      → KubeNova
      → Reply ApiError KubeNova
      → Action World ApiError (Unit {0})
  after_get retry i kn found =
      on_reply found
        (λ latest.
          call (c.update_status (record latest { status = kn.status })) >>= after_write retry i)
        (λ e. raise (api e))

  -- Round `i` of the loop; `retry` is the rounds behind it.
  unfoldable pub update_round :
      Action World ApiError (Unit {0}) → ℕ → Action World ApiError (Unit {0})
  update_round retry i = do
    kn ← self
    found ← call (c.kube_novas.get kn.metadata.namespace kn.metadata.name)
    after_get retry i kn found

  -- The loop from round `i`, with the rounds that are left.
  unfoldable pub update_rounds : ℕ → ℕ → Action World ApiError (Unit {0})
  update_rounds zero i = raise (plain "状态更新失败，已重试 3 次")
  update_rounds (suc left) i = update_round (update_rounds left (i + 1)) i

  unfoldable pub update_status_with_retry : Action World ApiError (Unit {0})
  update_status_with_retry = update_rounds 3 0

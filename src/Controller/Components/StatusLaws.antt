-- ===== src/Controller/Components/StatusLaws.antt =====
-- The status of a component, from its replicas (internal/controller/kubenova_controller.go).
use kube_nova_operator.Api.Status.{ComponentStatus, state_pending, state_ready}
use kube_nova_operator.Controller.Components.{service_status}
use kube_nova_operator.Kube.{Time}
use kube_nova_operator.Prelude.{arith, false, ◌↔◌, ◌≡◌, ◌≢◌}
use kube_nova_operator.Prelude.Int.{int_eq_iff, is_pos, ℤ}

-- How the replicas of a service decide its state: ready if all are, running if some are, else
-- pending; the counts are copied.
record IsStatusOf (have want : ℤ) (s : ComponentStatus) : Type 0 where
  when_ready : (s.state ≡ state_ready) ↔ (have ≡ want)
  when_pending : (s.state ≡ state_pending) ↔ ((have ≢ want) × (is_pos have ≡ false))
  have_count : s.ready_replicas ≡ have
  want_count : s.desired_replicas ≡ want

-- A service is ready exactly if its ready replicas are as many as wanted, pending exactly if they
-- are not and none is ready, and so running in between.
service_status-IsStatusOf :
    (have want : ℤ) (time : Time) → IsStatusOf have want (service_status have want time)
unfolding service_status
service_status-IsStatusOf have want time = record {
  when_ready = ground (arith, int_eq_iff have want);
  when_pending = ground (arith, int_eq_iff have want);
  have_count = ground arith;
  want_count = ground arith;
}

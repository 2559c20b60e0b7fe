-- ===== src/Controller/Components.antt =====
-- `checkComponentStatus` and `updateAccessInfo` of internal/controller/kubenova_controller.go.
pub mod Access
pub mod Ready
pub mod StatusLaws
pub mod Built
use kube_nova_operator.Api.{KubeNova}
use kube_nova_operator.Api.Status.{
  ComponentStatus, condition_type_ready, creating, ready, state_pending, state_ready, state_running,
}
use kube_nova_operator.Controller.Action.{
  Action, call, crash, modify, on_option, on_reply, pure, self, ◌>>=◌, ◌>>◌,
}
use kube_nova_operator.Controller.Cluster.{Cluster}
use kube_nova_operator.Controller.Components.Access.{update_access_info}
use kube_nova_operator.Controller.Status.{set_condition, set_status_phase, update_status_with_retry}
use kube_nova_operator.Kube.{Time}
use kube_nova_operator.Prelude.{
  Bool, List, String, [], false, if◌then◌else◌, join, none, some, true, ◌&&◌, ◌∷◌,
}
use kube_nova_operator.Prelude.Int.{decimal, int_eq, is_pos, ℤ}
use kube_nova_operator.Prelude.Maps.{Map, insert}

abbrev pub service_names : List String
service_names =
    "portal-api" ∷ "portal-rpc" ∷ "manager-api" ∷ "manager-rpc" ∷ "workload-api" ∷ "console-api"
    ∷ "console-rpc" ∷ []

abbrev pub partly : String → ℤ → ℤ → String
partly what have want = join (what ∷ " (" ∷ decimal have ∷ "/" ∷ decimal want ∷ ")" ∷ [])

-- The status of a back-end service, from its ready and its desired replicas at a time.
unfoldable pub service_status : ℤ → ℤ → Time → ComponentStatus
service_status have want time =
    let base : ComponentStatus = record {
      state = state_pending;
      ready_replicas = have;
      desired_replicas = want;
      message = "等待 Pod 启动";
      last_transition_time = time;
    } in
    if int_eq have want
    then record base { state = state_ready; message = "服务运行正常" }
    else if is_pos have
    then record base { state = state_running; message = partly "服务部分就绪" have want }
    else base

unfoldable pub web_status : ℤ → ℤ → Time → ComponentStatus
web_status have want time =
    let base : ComponentStatus = record {
      state = state_running;
      ready_replicas = have;
      desired_replicas = want;
      message = partly "Web 前端部分就绪" have want;
      last_transition_time = time;
    } in
    if int_eq have want then record base { state = state_ready; message = "Web 前端运行正常" } else base

-- `kubenova.Status.ComponentStatus.Services`, made if it is nil.
abbrev pub service_map : KubeNova → Map ComponentStatus
service_map kn = elim (kn.status.component_status.services) [ none ↦ [] | some m ↦ m ]

abbrev pub with_services : KubeNova → Map ComponentStatus → KubeNova
with_services kn m = record kn {
  status = record (kn.status) {
    component_status = record (kn.status.component_status) { services = some m };
  };
}

abbrev pub with_web : KubeNova → ComponentStatus → KubeNova
with_web kn s = record kn {
  status = record (kn.status) {
    component_status = record (kn.status.component_status) { web = some s };
  };
}

module _ (c : Cluster) where
  open c use {World, ApiError, now}

  -- `kubenova.Status.ComponentStatus.Services[name] = status`, which panics if the map is nil.
  unfoldable pub put_status : String → ComponentStatus → Action World ApiError (Unit {0})
  put_status name s = do
    kn ← self
    on_option kn.status.component_status.services crash
        (λ m. modify (λ k. with_services k (insert name s m)))

  -- One round of the loop: whether the service counts as ready. A Deployment that cannot be read,
  -- for whatever reason, is passed over; a nil replica count is dereferenced.
  unfoldable pub check_service : String → String → Action World ApiError Bool
  check_service namespace name = do
    found ← call (c.deployments.get namespace name)
    on_reply found
        (λ d. on_option d.spec.replicas crash (λ want. do
          time ← call now
          put_status name (service_status d.ready_replicas want time)
          pure (int_eq d.ready_replicas want)))
        (λ _. pure true)

  -- The loop, with `allReady`.
  unfoldable pub check_services : String → List String → Bool → Action World ApiError Bool
  check_services namespace [] all_ready = pure all_ready
  check_services namespace (name ∷ names) all_ready = do
    is_ready ← check_service namespace name
    check_services namespace names (all_ready && is_ready)

  unfoldable pub check_web : String → Bool → Action World ApiError Bool
  check_web namespace all_ready = do
    found ← call (c.deployments.get namespace "kube-nova-web")
    on_reply found
        (λ d. on_option d.spec.replicas crash (λ want. do
          time ← call now
          modify λ kn. with_web kn (web_status d.ready_replicas want time)
          pure (all_ready && int_eq d.ready_replicas want)))
        (λ _. pure all_ready)

  unfoldable pub conclude : Bool → Action World ApiError (Unit {0})
  conclude true = do
    set_status_phase c ready "所有组件运行正常"
    set_condition c condition_type_ready "True" "AllComponentsReady" "所有组件运行正常"
  conclude false = do
    set_status_phase c creating "部分组件尚未就绪"
    set_condition c condition_type_ready "False" "ComponentsNotReady" "部分组件尚未就绪"

  abbrev pub make_services : Action World ApiError (Unit {0})
  make_services = modify λ kn. with_services kn (service_map kn)

  -- The loop over the services and the web front end: whether all count as ready.
  unfoldable pub survey : String → Action World ApiError Bool
  survey namespace = do
    make_services
    services_ready ← check_services namespace service_names true
    check_web namespace services_ready

  unfoldable pub check_component_status : Action World ApiError (Unit {0})
  check_component_status = do
    kn ← self
    let namespace = kn.metadata.namespace
    all_ready ← survey namespace
    update_access_info c namespace
    conclude all_ready
    update_status_with_retry c

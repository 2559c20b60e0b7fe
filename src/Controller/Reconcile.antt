-- ===== src/Controller/Reconcile.antt =====
-- `Reconcile`, `reconcileValidation` and `reconcileDelete` of
-- internal/controller/kubenova_controller.go.
pub mod Delete
pub mod Leak
pub mod Total
pub mod Stages
pub mod NilMaps
pub mod Answers
pub mod Returns
pub mod Invalid
pub mod Guard
pub mod Frame
pub mod Kept
pub mod KeptStages
pub mod KeptPass
pub mod FramePass
pub mod Drift
pub mod Realised
use kube_nova_operator.Api.{KubeNova}
use kube_nova_operator.Api.Status.{
  DeploymentPhase, condition_type_validated, deleting, failed, ready, validating,
}
use kube_nova_operator.Controller.Action.{
  Action, attempt, call, modify, on_option, on_reply, pure, raise, self, ◌>>=◌, ◌>>◌,
}
use kube_nova_operator.Controller.Cluster.{Cluster}
use kube_nova_operator.Controller.Components.{check_component_status}
use kube_nova_operator.Controller.Resources.{
  reconcile_config_maps, reconcile_namespace, reconcile_rbac, reconcile_secret,
}
use kube_nova_operator.Controller.Status.{set_condition, set_status_phase, update_status_with_retry}
use kube_nova_operator.Controller.Workloads.{reconcile_services, reconcile_web}
use kube_nova_operator.Kube.{is_zero_time}
use kube_nova_operator.Prelude.{
  Bool, Option, String, [], false, if◌then◌else◌, join, nat_eq, none, not, some, true, ℕ, ◌&&◌, ◌∷◌,
}
use kube_nova_operator.Prelude.Results.{Error, Outcome, api, error_text, got, ok, refused}
use kube_nova_operator.Validator.{validate_kube_nova}

abbrev pub finalizer : String
finalizer = "kubenova.io/finalizer"

-- `ctrl.Result`, with the delay in seconds.
pub record RequeueResult : Type 0 where
  pub requeue : Bool
  pub requeue_after : ℕ

-- What `Reconcile` returns.
pub record Answer (E : Type 0) : Type 0 where
  pub result : RequeueResult
  pub error : Option (Error E)

abbrev pub after : ℕ → RequeueResult
after seconds = record { requeue = false; requeue_after = seconds }

abbrev pub answer : {E : Type 0} → RequeueResult → Option (Error E) → Answer E
answer result error = record { result = result; error = error }

module _ (c : Cluster) where
  open c use {World, ApiError, is_not_found}

  unfoldable pub reconcile_validation : Action World ApiError (Unit {0})
  reconcile_validation = do
    set_status_phase c validating "正在验证配置"
    kn ← self
    on_option (validate_kube_nova kn)
        (set_condition c condition_type_validated "True" "ValidationSucceeded" "配置验证成功")
        (λ e. do
          set_condition c condition_type_validated "False" "ValidationFailed"
              (join ("配置验证失败: " ∷ error_text c.api_error_text e ∷ []))
          raise e)

  -- A binding that cannot be read is left where it is.
  unfoldable pub delete_binding : String → Action World ApiError (Unit {0})
  delete_binding name = do
    found ← call (c.cluster_role_bindings.get "" name)
    on_reply found
        (λ crb. do
          deleted ← call (c.cluster_role_bindings.delete crb)
          on_reply deleted pure (λ e. if is_not_found e then pure tt else raise (api e)))
        (λ _. pure tt)

  abbrev pub binding_name : KubeNova → String
  binding_name kn =
      join ("kube-nova-" ∷ kn.metadata.namespace ∷ "-" ∷ kn.metadata.name ∷ "-cluster-admin" ∷ [])

  -- `r.Update(ctx, kubenova)`: the object in memory takes the server's answer.
  unfoldable pub update_self : KubeNova → Action World ApiError (Unit {0})
  update_self kn = do
    modify (λ _. kn)
    written ← call (c.kube_novas.update kn)
    on_reply written (λ kn'. modify (λ _. kn')) (λ e. raise (api e))

  -- The binding, and then the finalizer.
  unfoldable pub release : KubeNova → Action World ApiError (Answer ApiError)
  release kn = do
    failure ← attempt (delete_binding (binding_name kn))
    on_option failure
        (do
          failure' ← attempt (update_self (c.remove_finalizer kn finalizer))
          pure (answer (after 0) failure'))
        (λ e. pure (answer (after 0) (some e)))

  unfoldable pub reconcile_delete : Action World ApiError (Answer ApiError)
  reconcile_delete = do
    set_status_phase c deleting "正在删除资源"
    attempt (update_status_with_retry c)
    kn ← self
    release kn

  -- The handling of a stage that failed.
  unfoldable pub fail_stage : String → Error ApiError → Action World ApiError (Answer ApiError)
  fail_stage what e = do
    set_status_phase c failed (join (what ∷ ": " ∷ error_text c.api_error_text e ∷ []))
    attempt (update_status_with_retry c)
    pure (answer (after 60) (some e))

  -- A stage, and the rest if it succeeds.
  unfoldable pub stage :
      String
      → Action World ApiError (Unit {0})
      → Action World ApiError (Answer ApiError)
      → Action World ApiError (Answer ApiError)
  stage what m rest = do failure ← attempt m; on_option failure rest (fail_stage what)

  unfoldable pub check_stage : Action World ApiError (Answer ApiError)
  check_stage = do
    failure ← attempt (check_component_status c)
    on_option failure (pure (answer (after 300) none)) (λ _. pure (answer (after 30) none))

  -- The stages 1 to 8.
  unfoldable pub run_stages : Action World ApiError (Answer ApiError)
  run_stages = stage "配置验证失败" reconcile_validation (
      stage "Namespace 错误" (reconcile_namespace c) (
        stage "创建 RBAC 资源失败" (reconcile_rbac c) (
          stage "创建 Secret 失败" (reconcile_secret c) (
            stage "创建 ConfigMap 失败" (reconcile_config_maps c) (
              stage "部署后端服务失败" (reconcile_services c)
                (stage "部署 Web 前端失败" (reconcile_web c) check_stage))))))

  abbrev pub is_ready_phase : DeploymentPhase → Bool
  is_ready_phase ready = true
  is_ready_phase _ = false

  -- The object is as it was when it was found ready.
  abbrev pub is_settled : KubeNova → Bool
  is_settled kn =
      nat_eq kn.status.observed_generation kn.metadata.generation && is_ready_phase kn.status.phase

  abbrev pub add_finalizer_step : KubeNova → Action World ApiError (Answer ApiError)
  add_finalizer_step kn = do
    failure ← attempt (update_self (c.add_finalizer kn finalizer))
    on_option failure (pure (answer (record { requeue = true; requeue_after = 0 }) none))
        (λ e. pure (answer (after 0) (some e)))

  -- `Reconcile` behind the read of the object.
  unfoldable pub reconcile_found : Action World ApiError (Answer ApiError)
  reconcile_found = do
    kn ← self
    if not (is_zero_time kn.metadata.deletion_timestamp)
        then reconcile_delete
        else if not (c.contains_finalizer kn finalizer)
        then add_finalizer_step kn
        else if is_settled kn
        then pure (answer (after 300) none)
        else run_stages

  -- A request names a namespace and a name.
  unfoldable pub reconcile :
      String → String → World → Outcome (Error ApiError) (Answer ApiError) × World
  reconcile namespace name w =
      let (found, w') = c.kube_novas.get namespace name w in
      elim found [
        | refused e ↦ (ok (answer (after 0) (if is_not_found e then none else some (api e))), w')
        | got kn ↦
            let (r, s) = reconcile_found (record { world = w'; kube_nova = kn }) in (r, s.world)
      ]

-- ===== src/Api/Status.antt =====
-- The status of a KubeNova (api/v1/kubenova_types.go). `DeploymentPhase` and `ComponentState` are
-- texts in the source, of which the code writes and compares only the named constants; `unset` is
-- the empty text of a new object.
use kube_nova_operator.Kube.{Condition, Time}
use kube_nova_operator.Prelude.{List, Option, String, ℕ}
use kube_nova_operator.Prelude.Int.{ℤ}
use kube_nova_operator.Prelude.Maps.{Map}

pub data DeploymentPhase : Type 0 where
  unset : DeploymentPhase
  validating : DeploymentPhase
  pending : DeploymentPhase
  creating : DeploymentPhase
  ready : DeploymentPhase
  updating : DeploymentPhase
  failed : DeploymentPhase
  deleting : DeploymentPhase

pub data ComponentState : Type 0 where
  state_pending : ComponentState
  state_creating : ComponentState
  state_running : ComponentState
  state_ready : ComponentState
  state_failed : ComponentState
  state_updating : ComponentState

pub record ComponentStatus : Type 0 where
  pub state : ComponentState
  pub ready_replicas : ℤ
  pub desired_replicas : ℤ
  pub message : String
  pub last_transition_time : Time

pub record ComponentStatusMap : Type 0 where
  pub database : Option ComponentStatus
  pub cache : Option ComponentStatus
  pub storage : Option ComponentStatus
  pub telemetry : Option ComponentStatus
  pub services : Option (Map ComponentStatus)
  pub web : Option ComponentStatus

pub record AccessInfo : Type 0 where
  pub web_url : String
  pub database_endpoint : String
  pub cache_endpoint : String
  pub storage_endpoint : String
  pub storage_console_url : String
  pub jaeger_ui_url : String
  pub service_endpoints : Option (Map String)

pub record KubeNovaStatus : Type 0 where
  pub phase : DeploymentPhase
  pub conditions : List Condition
  pub component_status : ComponentStatusMap
  pub access_info : Option AccessInfo
  pub message : String
  pub last_update_time : Time
  pub observed_generation : ℕ

-- The condition types, of which the controller writes the first two.
abbrev pub condition_type_ready : String
condition_type_ready = "Ready"

abbrev pub condition_type_validated : String
condition_type_validated = "Validated"

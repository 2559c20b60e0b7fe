-- ===== src/Kube/Workload.antt =====
-- Deployments and what they are made of.
use kube_nova_operator.Kube.{ObjectMeta}
use kube_nova_operator.Prelude.{Bool, List, Option, String, ℕ}
use kube_nova_operator.Prelude.Int.{ℤ}
use kube_nova_operator.Prelude.Maps.{Map}

-- `resource.MustParse(s)` and `resource.NewQuantity(n, format)`.
pub data Quantity : Type 0 where
  must_parse : String → Quantity
  new_quantity : ℕ → String → Quantity

-- `none` is a nil map.
pub record ResourceRequirements : Type 0 where
  pub requests : Option (Map Quantity)
  pub limits : Option (Map Quantity)

-- `value_from` is the path of a field reference.
pub record EnvVar : Type 0 where
  pub name : String
  pub value : String
  pub value_from : Option String

pub record ContainerPort : Type 0 where
  pub name : String
  pub container_port : ℤ
  pub protocol : String

-- An HTTP probe.
pub record Probe : Type 0 where
  pub path : String
  pub port : ℤ
  pub scheme : String
  pub initial_delay_seconds : ℕ
  pub period_seconds : ℕ
  pub timeout_seconds : ℕ
  pub success_threshold : ℕ
  pub failure_threshold : ℕ

pub record VolumeMount : Type 0 where
  pub name : String
  pub mount_path : String
  pub sub_path : String
  pub read_only : Bool

pub record KeyToPath : Type 0 where
  pub key : String
  pub path : String

pub data VolumeSource : Type 0 where
  config_map_volume : (name : String) (items : List KeyToPath) → VolumeSource
  secret_volume : (name : String) (optional : Bool) (items : List KeyToPath) → VolumeSource
  empty_dir : (size_limit : Quantity) → VolumeSource

pub record Volume : Type 0 where
  pub name : String
  pub source : VolumeSource

pub record SecurityContext : Type 0 where
  pub run_as_non_root : Bool
  pub read_only_root_filesystem : Bool
  pub allow_privilege_escalation : Bool
  pub drop : List String

-- `env_from` holds the names of the Secrets whose entries become variables.
pub record Container : Type 0 where
  pub name : String
  pub image : String
  pub image_pull_policy : String
  pub ports : List ContainerPort
  pub env_from : List String
  pub env : List EnvVar
  pub startup_probe : Probe
  pub liveness_probe : Probe
  pub readiness_probe : Probe
  pub resources : ResourceRequirements
  pub volume_mounts : List VolumeMount
  pub security_context : Option SecurityContext

-- One preferred anti-affinity term: a weight, an `In` requirement and a topology key.
pub record AffinityTerm : Type 0 where
  pub weight : ℕ
  pub key : String
  pub values : List String
  pub topology_key : String

pub record PodSpec : Type 0 where
  pub service_account_name : String
  pub pod_anti_affinity : List AffinityTerm
  pub containers : List Container
  pub volumes : List Volume
  pub image_pull_secrets : List String
  pub dns_policy : String
  pub restart_policy : String
  pub termination_grace_period_seconds : ℕ

pub record PodTemplateSpec : Type 0 where
  pub labels : Map String
  pub annotations : Map String
  pub spec : PodSpec

-- `replicas` is a pointer.
pub record DeploymentSpec : Type 0 where
  pub replicas : Option ℤ
  pub max_surge : ℕ
  pub max_unavailable : ℕ
  pub selector : Map String
  pub template : PodTemplateSpec

pub record Deployment : Type 0 where
  pub metadata : ObjectMeta
  pub spec : DeploymentSpec
  pub ready_replicas : ℤ

-- ===== src/Kube.antt =====
-- The Kubernetes objects that the operator reads and writes, with the fields that its code names.
-- The types belong to the Kubernetes API (k8s.io/api, k8s.io/apimachinery); a field that the
-- operator neither sets nor reads is left out, and a composite literal that omits a field leaves
-- it at the zero value written here.
pub mod Workload
pub mod Network
use kube_nova_operator.Prelude.{Bool, List, Option, String, [], nat_eq, none, some, true, ℕ}
use kube_nova_operator.Prelude.Maps.{Map}

-- A point in time; 0 is Go's zero time.
abbrev pub Time : Type 0
Time = ℕ

pub record OwnerReference : Type 0 where
  pub uid : String
  pub controller : Bool

pub record ObjectMeta : Type 0 where
  pub name : String
  pub namespace : String
  pub labels : Map String
  pub annotations : Map String
  pub finalizers : List String
  pub owner_references : List OwnerReference
  pub generation : ℕ
  pub resource_version : String
  pub deletion_timestamp : Option Time

-- The literal `ObjectMeta{Name, Namespace, Labels}`.
abbrev pub object_meta : String → String → Map String → ObjectMeta
object_meta name namespace labels = record {
  name = name;
  namespace = namespace;
  labels = labels;
  annotations = [];
  finalizers = [];
  owner_references = [];
  generation = 0;
  resource_version = "";
  deletion_timestamp = none;
}

-- `DeletionTimestamp.IsZero()`
abbrev pub is_zero_time : Option Time → Bool
is_zero_time none = true
is_zero_time (some t) = nat_eq t 0

pub record Condition : Type 0 where
  pub kind : String
  pub status : String
  pub reason : String
  pub message : String
  pub observed_generation : ℕ
  pub last_transition_time : Time

pub record ConfigMap : Type 0 where
  pub metadata : ObjectMeta
  pub entries : Map String

pub record Secret : Type 0 where
  pub metadata : ObjectMeta
  pub kind : String
  pub entries : Map String

pub record ServiceAccount : Type 0 where
  pub metadata : ObjectMeta

pub record Subject : Type 0 where
  pub kind : String
  pub name : String
  pub namespace : String

pub record RoleRef : Type 0 where
  pub api_group : String
  pub kind : String
  pub name : String

pub record ClusterRoleBinding : Type 0 where
  pub metadata : ObjectMeta
  pub subjects : List Subject
  pub role_ref : RoleRef

pub record Namespace : Type 0 where
  pub metadata : ObjectMeta

pub record NodeCondition : Type 0 where
  pub kind : String
  pub status : String

pub record NodeAddress : Type 0 where
  pub kind : String
  pub address : String

pub record Node : Type 0 where
  pub conditions : List NodeCondition
  pub addresses : List NodeAddress

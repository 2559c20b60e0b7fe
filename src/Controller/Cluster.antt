-- ===== src/Controller/Cluster.antt =====
-- The outside of the reconciler: the API server behind the client of controller-runtime, the
-- clock, and the helper packages that the source only calls (controllerutil, meta, errors). All of
-- it is a parameter: nothing is assumed of it here.
use kube_nova_operator.Api.{KubeNova}
use kube_nova_operator.Builder.Service.{ServiceResources}
use kube_nova_operator.Kube.{
  ClusterRoleBinding, Condition, ConfigMap, Namespace, Node, ObjectMeta, Secret, ServiceAccount,
  Time,
}
use kube_nova_operator.Kube.Network.{Ingress, Service}
use kube_nova_operator.Kube.Workload.{Deployment, Quantity}
use kube_nova_operator.Prelude.{Bool, List, String, ℕ}
use kube_nova_operator.Prelude.Maps.{Map}
use kube_nova_operator.Prelude.Results.{Reply}

-- The client's calls on one kind of object; `get` takes a namespace and a name. What the world is
-- after a call is up to the client, so other writers may act between two calls.
pub record Store (W E A : Type 0) : Type 0 where
  pub get : String → String → W → Reply E A × W
  pub create : A → W → Reply E (Unit {0}) × W
  pub update : A → W → Reply E A × W
  pub delete : A → W → Reply E (Unit {0}) × W

pub record Cluster : Type 1 where
  pub World : Type 0
  pub ApiError : Type 0
  pub is_not_found : ApiError → Bool
  pub is_conflict : ApiError → Bool
  pub api_error_text : ApiError → String
  pub now : World → Time × World
  pub sleep : ℕ → World → World
  pub kube_novas : Store World ApiError KubeNova
  pub update_status : KubeNova → World → Reply ApiError KubeNova × World
  pub namespaces : Store World ApiError Namespace
  pub service_accounts : Store World ApiError ServiceAccount
  pub cluster_role_bindings : Store World ApiError ClusterRoleBinding
  pub secrets : Store World ApiError Secret
  pub config_maps : Store World ApiError ConfigMap
  pub deployments : Store World ApiError Deployment
  pub services : Store World ApiError Service
  pub ingresses : Store World ApiError Ingress
  pub list_nodes : World → Reply ApiError (List Node) × World
  -- `controllerutil`: the owner reference is set in the object's metadata, or an error is returned.
  pub set_controller_reference : KubeNova → ObjectMeta → Reply ApiError ObjectMeta
  pub contains_finalizer : KubeNova → String → Bool
  pub add_finalizer : KubeNova → String → KubeNova
  pub remove_finalizer : KubeNova → String → KubeNova
  -- `meta.SetStatusCondition`, at a time.
  pub set_status_condition : Time → List Condition → Condition → List Condition
  -- `reflect.DeepEqual` on two values of `resource.Quantity`.
  pub quantity_equal : Quantity → Quantity → Bool
  -- The order in which `range` visits the map of services.
  pub range_services : Map ServiceResources → Map ServiceResources

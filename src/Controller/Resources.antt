-- ===== src/Controller/Resources.antt =====
-- The stages that check the namespace and create the RBAC objects, the Secret and the ConfigMaps
-- (internal/controller/kubenova_controller.go).
use kube_nova_operator.Builder.ConfigMaps.{build_all_config_maps}
use kube_nova_operator.Builder.Rbac.{build_cluster_role_binding, build_service_account}
use kube_nova_operator.Builder.Secret.{build_secret}
use kube_nova_operator.Controller.Action.{Action, call, on_reply, pure, raise, self, ◌>>=◌, ◌>>◌}
use kube_nova_operator.Controller.Cluster.{Cluster}
use kube_nova_operator.Controller.Ensure.{Texts, create_if_missing, create_or_update, own}
use kube_nova_operator.Controller.Nodes.{get_node_ip, get_web_node_port}
use kube_nova_operator.Kube.{ConfigMap}
use kube_nova_operator.Prelude.{Bool, List, String, [], if◌then◌else◌, join, ◌==◌, ◌∷◌}
use kube_nova_operator.Prelude.Maps.{Map, maps_equal}
use kube_nova_operator.Prelude.Results.{api, plain, wrapped}

abbrev pub texts_of : String → Texts
texts_of kind = record {
  getting = join ("获取 " ∷ kind ∷ " 失败" ∷ []);
  creating = join ("创建 " ∷ kind ∷ " 失败" ∷ []);
  updating = join ("更新 " ∷ kind ∷ " 失败" ∷ []);
}

abbrev pub entries_equal : Map String → Map String → Bool
entries_equal = maps_equal (λ s t. s == t)

module _ (c : Cluster) where
  open c use {World, ApiError, is_not_found}

  unfoldable pub reconcile_namespace : Action World ApiError (Unit {0})
  reconcile_namespace = do
    kn ← self
    found ← call (c.namespaces.get "" kn.metadata.namespace)
    on_reply found (λ _. pure tt)
        (λ e.
          if is_not_found e
          then raise (plain (join ("命名空间 " ∷ kn.metadata.namespace ∷ " 不存在，请先创建命名空间" ∷ [])))
          else raise (wrapped "获取命名空间失败" (api e)))

  unfoldable pub reconcile_rbac : Action World ApiError (Unit {0})
  reconcile_rbac = do
    kn ← self
    let namespace = kn.metadata.namespace
    let sa = build_service_account kn namespace
    meta ← own c "设置 ServiceAccount OwnerReference 失败" sa.metadata
    create_if_missing c c.service_accounts (texts_of "ServiceAccount") namespace sa.metadata.name
        (record { metadata = meta })
    let crb = build_cluster_role_binding kn namespace
    create_if_missing c c.cluster_role_bindings (texts_of "ClusterRoleBinding") "" crb.metadata.name
        crb

  unfoldable pub reconcile_secret : Action World ApiError (Unit {0})
  reconcile_secret = do
    kn ← self
    let namespace = kn.metadata.namespace
    node_ip ← get_node_ip c
    node_port ← get_web_node_port c kn namespace
    let secret = build_secret kn namespace node_ip node_port
    meta ← own c "设置 OwnerReference 失败" secret.metadata
    create_or_update c c.secrets (texts_of "Secret")
        (λ existing. entries_equal existing.entries secret.entries)
        (λ existing. record existing { entries = secret.entries }) namespace secret.metadata.name
        (record secret { metadata = meta })

  -- One round of the loop, and the Nginx ConfigMap of the web front end.
  unfoldable pub ensure_config_map : Texts → String → ConfigMap → Action World ApiError (Unit {0})
  ensure_config_map texts namespace cm = do
    meta ← own c "设置 OwnerReference 失败" cm.metadata
    create_or_update c c.config_maps texts (λ existing. entries_equal existing.entries cm.entries)
        (λ existing. record existing { entries = cm.entries }) namespace cm.metadata.name
        (record cm { metadata = meta })

  abbrev pub config_map_texts : ConfigMap → Texts
  config_map_texts cm = record {
    getting = "获取 ConfigMap 失败";
    creating = join ("创建 ConfigMap " ∷ cm.metadata.name ∷ " 失败" ∷ []);
    updating = join ("更新 ConfigMap " ∷ cm.metadata.name ∷ " 失败" ∷ []);
  }

  unfoldable pub ensure_config_maps : String → List ConfigMap → Action World ApiError (Unit {0})
  ensure_config_maps namespace [] = pure tt
  ensure_config_maps namespace (cm ∷ cms) = do
    ensure_config_map (config_map_texts cm) namespace cm
    ensure_config_maps namespace cms

  unfoldable pub reconcile_config_maps : Action World ApiError (Unit {0})
  reconcile_config_maps = do
    kn ← self
    ensure_config_maps kn.metadata.namespace (build_all_config_maps kn kn.metadata.namespace)

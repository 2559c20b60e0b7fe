-- ===== src/Controller/Components/Access.antt =====
-- `updateAccessInfo` of internal/controller/kubenova_controller.go.
use kube_nova_operator.Api.{KubeNova}
use kube_nova_operator.Api.Endpoints.{
  get_cache_endpoint, get_database_endpoint, get_storage_endpoint, scheme, used_ingress,
}
use kube_nova_operator.Api.Methods.{ingress_tls_on}
use kube_nova_operator.Api.Spec.{IngressConfig, KubeNovaSpec, TelemetryConfig}
use kube_nova_operator.Api.Status.{AccessInfo}
use kube_nova_operator.Controller.Action.{
  Action, call, crash, modify, on_option, on_reply, pure, self, ◌>>=◌, ◌>>◌,
}
use kube_nova_operator.Controller.Cluster.{Cluster}
use kube_nova_operator.Controller.Nodes.{get_node_ip, is_assigned}
use kube_nova_operator.Kube.Network.{ServicePort}
use kube_nova_operator.Prelude.{
  List, Option, String, [], if◌then◌else◌, join, none, some, ◌==◌, ◌∷◌,
}
use kube_nova_operator.Prelude.Int.{decimal, is_pos, pos, ℤ}
use kube_nova_operator.Prelude.Maps.{Map, insert}

abbrev pub backend_names : List String
backend_names =
    "portal-api" ∷ "portal-rpc" ∷ "manager-api" ∷ "manager-rpc" ∷ "workload-api" ∷ "console-api"
    ∷ "console-rpc" ∷ []

abbrev pub empty_access_info : AccessInfo
empty_access_info = record {
  web_url = "";
  database_endpoint = "";
  cache_endpoint = "";
  storage_endpoint = "";
  storage_console_url = "";
  jaeger_ui_url = "";
  service_endpoints = none;
}

-- The port that the loop over the Service's ports ends with: the last one assigned, or 0.
pub last_assigned : String → List ServicePort → ℤ → ℤ
last_assigned name [] port = port
last_assigned name (p ∷ ps) port =
    last_assigned name ps (if is_assigned name p then p.node_port else port)

abbrev pub or_node_ip : String → String
or_node_ip ip = if ip == "" then "<NODE-IP>" else ip

unfoldable pub node_port_url : List ServicePort → String → String
node_port_url ports node_ip =
    let https_port = last_assigned "https" ports (pos 0) in
    let http_port = last_assigned "http" ports (pos 0) in
    if is_pos https_port
    then join ("https://" ∷ or_node_ip node_ip ∷ ":" ∷ decimal https_port ∷ [])
    else if is_pos http_port
    then join ("http://" ∷ or_node_ip node_ip ∷ ":" ∷ decimal http_port ∷ [])
    else "NodePort (端口分配中...)"

abbrev pub ingress_url : IngressConfig → String
ingress_url i = join (scheme (ingress_tls_on i) ∷ "://" ∷ i.host ∷ [])

abbrev pub add_endpoints : String → List String → Map String → Map String
add_endpoints namespace [] m = m
add_endpoints namespace (svc ∷ svcs) m =
    add_endpoints namespace svcs
      (insert svc (join (svc ∷ "." ∷ namespace ∷ ".svc.cluster.local" ∷ [])) m)

abbrev pub endpoint_map : AccessInfo → Map String
endpoint_map a = elim (a.service_endpoints) [ none ↦ [] | some m ↦ m ]

abbrev pub jaeger_url : Option TelemetryConfig → String → String
jaeger_url none old = old
jaeger_url (some t) old = if t.enabled then t.jaeger_endpoint else old

-- The fields behind the map of the endpoints.
abbrev pub refresh_info : KubeNovaSpec → AccessInfo → AccessInfo
refresh_info spec a = record a {
  database_endpoint = get_database_endpoint spec.database;
  cache_endpoint = get_cache_endpoint spec.cache;
  storage_endpoint = get_storage_endpoint spec.storage;
  jaeger_ui_url = jaeger_url spec.telemetry a.jaeger_ui_url;
}

abbrev pub with_access_info : KubeNova → AccessInfo → KubeNova
with_access_info kn a = record kn { status = record (kn.status) { access_info = some a } }

abbrev pub access_info_of : KubeNova → AccessInfo
access_info_of kn = elim (kn.status.access_info) [ none ↦ empty_access_info | some a ↦ a ]

module _ (c : Cluster) where
  open c use {World, ApiError}

  -- The branch for the exposure by node port.
  unfoldable pub find_node_port_url : String → Action World ApiError String
  find_node_port_url namespace = do
    found ← call (c.services.get namespace "kube-nova-web")
    on_reply found (λ svc. do node_ip ← get_node_ip c; pure (node_port_url svc.spec.ports node_ip))
        (λ _. pure "Service 创建中...")

  -- The web URL, which an exposure of neither kind leaves as it is.
  unfoldable pub find_web_url : KubeNova → String → String → Action World ApiError String
  find_web_url kn namespace old =
      on_option (used_ingress kn.spec.web)
        (if kn.spec.web.expose_type == "nodeport" then find_node_port_url namespace else pure old)
        (λ i. pure (ingress_url i))

  abbrev pub make_access_info : Action World ApiError (Unit {0})
  make_access_info = modify λ kn. with_access_info kn (access_info_of kn)

  -- A write through the pointer, which panics if it is nil.
  unfoldable pub write_info : (AccessInfo → AccessInfo) → Action World ApiError (Unit {0})
  write_info f = do
    kn ← self
    on_option kn.status.access_info crash (λ a. modify (λ k. with_access_info k (f a)))

  abbrev pub make_endpoints : Action World ApiError (Unit {0})
  make_endpoints = write_info (λ a. record a { service_endpoints = some (endpoint_map a) })

  -- The loop that writes into the map, which panics if the map is nil.
  unfoldable pub write_endpoints : String → Action World ApiError (Unit {0})
  write_endpoints namespace = do
    kn ← self
    on_option kn.status.access_info crash λ a. on_option a.service_endpoints crash λ m. modify λ k.
        with_access_info k
          (record a { service_endpoints = some (add_endpoints namespace backend_names m) })

  unfoldable pub update_access_info : String → Action World ApiError (Unit {0})
  update_access_info namespace = do
    make_access_info
    kn ← self
    url ← find_web_url kn namespace (access_info_of kn).web_url
    write_info (λ a. record a { web_url = url })
    make_endpoints
    write_endpoints namespace
    write_info (refresh_info kn.spec)

-- ===== src/Controller/Nodes.antt =====
-- `getNodeIP` and `getWebNodePort` of internal/controller/kubenova_controller.go.
pub mod Laws
pub mod Ports
use kube_nova_operator.Api.{KubeNova}
use kube_nova_operator.Api.Methods.{https_on}
use kube_nova_operator.Api.Spec.{NodePortConfig, WebConfig}
use kube_nova_operator.Controller.Action.{Action, call, on_reply, pure, ◌>>=◌, ◌>>◌}
use kube_nova_operator.Controller.Cluster.{Cluster}
use kube_nova_operator.Kube.{Node, NodeAddress, NodeCondition}
use kube_nova_operator.Kube.Network.{ServicePort}
use kube_nova_operator.Prelude.{
  Bool, List, Option, String, [], any, find_first, if◌then◌else◌, none, not, some, ◌&&◌, ◌==◌, ◌||◌,
  ◌∷◌,
}
use kube_nova_operator.Prelude.Int.{is_pos, pos, ℤ}

abbrev pub is_ready_condition : NodeCondition → Bool
is_ready_condition k = k.kind == "Ready" && k.status == "True"

abbrev pub is_external : NodeAddress → Bool
is_external a = a.kind == "ExternalIP"

abbrev pub is_internal : NodeAddress → Bool
is_internal a = a.kind == "InternalIP"

abbrev pub node_is_ready : Node → Bool
node_is_ready n = any is_ready_condition n.conditions

-- The loops over the addresses of one ready node: an external address before an internal one.
unfoldable pub node_address : Node → Option NodeAddress
node_address n = elim (find_first is_external n.addresses) [
  | some a ↦ some a
  | none ↦ find_first is_internal n.addresses
]

-- The loop over the nodes.
unfoldable pub ready_address : List Node → Option NodeAddress
ready_address [] = none
ready_address (n ∷ ns) =
    let rest = ready_address ns in
    if node_is_ready n then elim (node_address n) [ some a ↦ some a | none ↦ rest ] else rest

-- The last resort: any address of the first node.
unfoldable pub fallback_address : List Node → Option NodeAddress
fallback_address [] = none
fallback_address (n ∷ _) = find_first (λ a. is_external a || is_internal a) n.addresses

abbrev pub address_text : Option NodeAddress → String
address_text none = ""
address_text (some a) = a.address

unfoldable pub choose_node_ip : List Node → String
choose_node_ip nodes = elim (ready_address nodes) [
  | some a ↦ a.address
  | none ↦ address_text (fallback_address nodes)
]

-- A port of the Service that the cluster has assigned.
abbrev pub is_assigned : String → ServicePort → Bool
is_assigned name p = p.name == name && is_pos p.node_port

-- The port of the configuration, or 30080.
abbrev pub configured_port : Option NodePortConfig → ℤ
configured_port none = pos 30080
configured_port (some n) = if is_pos n.http_port then n.http_port else pos 30080

abbrev pub http_or_configured : WebConfig → List ServicePort → ℤ
http_or_configured w ports = elim (find_first (is_assigned "http") ports) [
  | some p ↦ p.node_port
  | none ↦ configured_port w.node_port
]

unfoldable pub choose_node_port : WebConfig → List ServicePort → ℤ
choose_node_port w ports =
    if https_on w.node_port
    then elim (find_first (is_assigned "https") ports) [
      | some p ↦ p.node_port
      | none ↦ http_or_configured w ports
    ]
    else http_or_configured w ports

module _ (c : Cluster) where
  open c use {World, ApiError}

  unfoldable pub get_node_ip : Action World ApiError String
  get_node_ip = do
    nodes ← call c.list_nodes
    on_reply nodes (λ ns. pure (choose_node_ip ns)) (λ _. pure "")

  unfoldable pub get_web_node_port : KubeNova → String → Action World ApiError ℤ
  get_web_node_port kn namespace =
      if not (kn.spec.web.expose_type == "nodeport") then pure (pos 0) else do
        found ← call (c.services.get namespace "kube-nova-web")
        on_reply found (λ svc. pure (choose_node_port kn.spec.web svc.spec.ports))
            (λ _. pure (configured_port kn.spec.web.node_port))

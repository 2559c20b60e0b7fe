-- ===== src/Api/EndpointLaws.antt =====
-- The two endpoints of the object store that the API types compute (api/v1/kubenova_types.go).
use Prim.Native.String.append
use text.Mathlib.TextLemmas.{append-nil, append_assoc}
use kube_nova_operator.Api.{KubeNova}
use kube_nova_operator.Api.Endpoints.{
  get_minio_endpoint_for_backend, get_minio_endpoint_for_backend_with_node_info,
  get_minio_proxy_endpoint, get_minio_proxy_path, is_minio_proxy_enabled, scheme, used_ingress,
}
use kube_nova_operator.Api.Methods.{ingress_tls_on}
use kube_nova_operator.Api.Spec.{IngressConfig}
use kube_nova_operator.Prelude.{
  Bool-cases, String, [], arith, drop_slash, if◌then◌else◌, inl, inr, join, some, ◌&&◌, ◌==◌, ◌∙◌,
  ◌∷◌, ◌≡◌,
}
use kube_nova_operator.Prelude.Int.{ℤ}

-- What the one that knows the node puts in front, behind an Ingress.
abbrev pub endpoint_prefix : KubeNova → IngressConfig → String
endpoint_prefix k i =
    if is_minio_proxy_enabled k && get_minio_proxy_endpoint k == ""
    then join (scheme (ingress_tls_on i) ∷ "://" ∷ [])
    else ""

-- Nothing in front of a text.
join_alone : (s : String) → join ("" ∷ s ∷ []) ≡ s
join_alone s = append.nil (join (s ∷ [])) ∙ append-nil s

-- A scheme in front of the pieces of an endpoint.
join_scheme :
    (sch host path : String)
    → join (sch ∷ "://" ∷ host ∷ "/" ∷ path ∷ [])
      ≡ join (join (sch ∷ "://" ∷ []) ∷ join (host ∷ "/" ∷ path ∷ []) ∷ [])
join_scheme sch host path = simp (append_assoc, append-nil)

-- Behind an Ingress the two endpoints are one but for the scheme, and the node does not matter: the
-- scheme is there exactly if the endpoint goes through the proxy and is not given outright.
pub get_minio_endpoint_for_backend_agrees :
    (k : KubeNova) (i : IngressConfig) (node_ip : String) (node_port : ℤ)
    → used_ingress k.spec.web ≡ some i
    → get_minio_endpoint_for_backend_with_node_info k node_ip node_port
      ≡ join (endpoint_prefix k i ∷ get_minio_endpoint_for_backend k ∷ [])
unfolding get_minio_endpoint_for_backend get_minio_endpoint_for_backend_with_node_info
get_minio_endpoint_for_backend_agrees k i node_ip node_port h =
    elim (Bool-cases (is_minio_proxy_enabled k)) [
      | inl on ↦ elim (Bool-cases (get_minio_proxy_endpoint k == "")) [
        | inl open_end ↦ ground (
          arith,
          h,
          join_scheme (scheme (ingress_tls_on i)) i.host (drop_slash (get_minio_proxy_path k)),
        )
        | inr given ↦ ground (arith, join_alone (get_minio_proxy_endpoint k))
      ]
      | inr off ↦ ground (arith, join_alone k.spec.storage.endpoint)
    ]

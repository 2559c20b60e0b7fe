-- ===== src/Tests/Objects.antt =====
-- The theorems on the validator, the comparison, the nodes and the checksums, at the configuration.
use mathlib.Core.List.{Permᴰ}
use kube_nova_operator.Api.EndpointLaws.{get_minio_endpoint_for_backend_agrees}
use kube_nova_operator.Api.Endpoints.{
  get_minio_endpoint_for_backend, get_minio_endpoint_for_backend_with_node_info,
  get_minio_proxy_endpoint, is_minio_proxy_enabled,
}
use kube_nova_operator.Builder.Checksum.{calculate_config_map_checksum, checksum_of}
use kube_nova_operator.Builder.Checksum.Collision.{checksum_collides, folded, spread_out}
use kube_nova_operator.Builder.Checksum.Laws.{IsSameMap, calculate_config_map_checksum_order}
use kube_nova_operator.Builder.Service.{ServiceSetup, get_service_resources}
use kube_nova_operator.Builder.Service.All.{portal_rpc_setup}
use kube_nova_operator.Builder.Service.Pod.{build_deployment, service_container}
use kube_nova_operator.Builder.Web.Pod.{build_web_deployment}
use kube_nova_operator.Controller.Compare.{deployment_spec_equal}
use kube_nova_operator.Controller.Compare.Missed.{
  HasDistinctResources, LooksAlike, missed_change, service_mounts-HasDistinctMounts,
}
use kube_nova_operator.Controller.Compare.Refl.{FirstIsComparable, deployment_spec_equal_refl}
use kube_nova_operator.Controller.Compare.Sound.{SameSpec, deployment_spec_equal_sound}
use kube_nova_operator.Controller.Compare.Web.{web_never_equal}
use kube_nova_operator.Controller.Nodes.{
  choose_node_ip, choose_node_port, node_address, ready_address,
}
use kube_nova_operator.Controller.Nodes.Laws.{Chosen, choose_node_ip-Chosen}
use kube_nova_operator.Controller.Nodes.Ports.{choose_node_port_positive}
use kube_nova_operator.Kube.{ConfigMap, Node, object_meta}
use kube_nova_operator.Kube.Workload.{DeploymentSpec, Quantity}
use kube_nova_operator.Prelude.{
  Bool, List, String, [], arith, eq_iff, false, join, length, ne_of_eq-false, none, refl, some,
  true, ◌↔◌, ◌∷◌, ◌≡◌, ◌≢◌,
}
use kube_nova_operator.Prelude.Int.{is_pos, pos}
use kube_nova_operator.Tests.{nova, nova_behind_ingress, nova_ingress, nova_spec, nova_web}
use kube_nova_operator.Tests.Server.{ServerError}
use kube_nova_operator.Validator.{validate_kube_nova}
use kube_nova_operator.Validator.Sound.{IsValidSpec, validate_kube_nova_iff}

validate_kube_nova_iff_example :
    (validate_kube_nova {E = ServerError} nova ≡ none) ↔ IsValidSpec nova_spec
validate_kube_nova_iff_example = validate_kube_nova_iff nova

abbrev any_quantity : Quantity → Quantity → Bool
any_quantity x y = true

abbrev portal_setup : ServiceSetup
portal_setup = portal_rpc_setup nova

abbrev portal_spec : DeploymentSpec
portal_spec = (build_deployment nova "nova" portal_setup).spec

nova_distinct : HasDistinctResources portal_setup.service_config
unfolding get_service_resources
nova_distinct = ((refl, (refl, tt)), (refl, (refl, tt)))

portal_comparable : FirstIsComparable portal_spec.template.spec.containers
unfolding build_deployment service_container
portal_comparable = record {
  mounts = service_mounts-HasDistinctMounts portal_setup;
  requests = nova_distinct.0;
  limits = nova_distinct.1;
}

deployment_spec_equal_refl_example :
    deployment_spec_equal any_quantity portal_spec portal_spec ≡ true
deployment_spec_equal_refl_example =
    deployment_spec_equal_refl any_quantity (λ x. refl) portal_spec portal_comparable

deployment_spec_equal_sound_example : SameSpec portal_spec portal_spec
deployment_spec_equal_sound_example =
    deployment_spec_equal_sound any_quantity portal_spec portal_spec
      deployment_spec_equal_refl_example

-- Another Secret of the certificates.
abbrev renewed_setup : ServiceSetup
renewed_setup = record portal_setup { minio_cert_secret = "minio-tls-renewed" }

renewed_alike : LooksAlike portal_setup renewed_setup
renewed_alike = record {
  name = refl;
  image = refl;
  service_config = refl;
  certs = refl;
  cache = refl;
}

missed_change_example :
    deployment_spec_equal any_quantity
      (build_deployment nova "nova" portal_setup).spec
      (build_deployment nova "nova" renewed_setup).spec
    ≡ true
missed_change_example =
    missed_change any_quantity (λ x. refl) nova "nova" portal_setup renewed_setup renewed_alike
      nova_distinct

web_never_equal_example :
    let web = (build_web_deployment nova "nova").spec in
    deployment_spec_equal any_quantity web web ≡ false
web_never_equal_example =
    web_never_equal any_quantity (build_web_deployment nova "nova").spec nova "nova"

abbrev two_nodes : List Node
two_nodes =
    record { conditions = []; addresses = record { kind = "ExternalIP"; address = "1.2.3.4" } ∷ [] }
    ∷ record {
      conditions = record { kind = "Ready"; status = "True" } ∷ [];
      addresses =
          record { kind = "InternalIP"; address = "10.0.0.2" }
          ∷ record { kind = "ExternalIP"; address = "5.6.7.8" }
          ∷ [];
    }
    ∷ []

choose_node_ip-Chosen_example : Chosen two_nodes (choose_node_ip two_nodes)
choose_node_ip-Chosen_example = choose_node_ip-Chosen two_nodes

choose_node_ip_test : choose_node_ip two_nodes ≡ "5.6.7.8"
unfolding choose_node_ip ready_address node_address
choose_node_ip_test = refl

abbrev map_ab : ConfigMap
map_ab = record { metadata = object_meta "m" "nova" []; entries = ("a", "1") ∷ ("b", "2") ∷ [] }

abbrev map_ba : ConfigMap
map_ba = record { metadata = object_meta "m" "nova" []; entries = ("b", "2") ∷ ("a", "1") ∷ [] }

a_ne_b : ◌≢◌ {A = String} "a" "b"
a_ne_b = ne_of_eq-false "a" "b" refl

same_map : IsSameMap map_ab.entries map_ba.entries
same_map = record {
  keys_perm = ∣ Permᴰ.swap refl refl ∣₁;
  values = λ k. ground (arith, eq_iff "a" k, eq_iff "b" k, a_ne_b);
}

calculate_config_map_checksum_order_example :
    calculate_config_map_checksum (λ s. s) (some map_ab)
    ≡ calculate_config_map_checksum (λ s. s) (some map_ba)
calculate_config_map_checksum_order_example =
    calculate_config_map_checksum_order (λ s. s) map_ab map_ba same_map

checksum_collides_example :
    (checksum_of (λ s. s) (some (folded "a" "1" "b" "2"))
      ≡ checksum_of (λ s. s) (some (spread_out "a" "1" "b" "2")))
    × (length (folded "a" "1" "b" "2") ≢ length (spread_out "a" "1" "b" "2"))
checksum_collides_example = checksum_collides (λ s. s) "a" "1" "b" "2" a_ne_b refl

choose_node_port_positive_example : is_pos (choose_node_port nova_web []) ≡ true
choose_node_port_positive_example = choose_node_port_positive nova_web []

get_minio_endpoint_for_backend_agrees_example :
    get_minio_endpoint_for_backend_with_node_info nova_behind_ingress "1.2.3.4" (pos 30443)
    ≡ join ("https://" ∷ get_minio_endpoint_for_backend nova_behind_ingress ∷ [])
unfolding is_minio_proxy_enabled get_minio_proxy_endpoint
get_minio_endpoint_for_backend_agrees_example =
    get_minio_endpoint_for_backend_agrees nova_behind_ingress nova_ingress "1.2.3.4" (pos 30443)
      refl

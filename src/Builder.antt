-- ===== src/Builder.antt =====
-- The builders of the Kubernetes objects (internal/builder): the labels and image references that
-- they share. One child for each file of that directory.
pub mod Checksum
pub mod Rbac
pub mod Secret
pub mod Service
pub mod Web
pub mod ConfigMaps
use kube_nova_operator.Api.{KubeNova}
use kube_nova_operator.Api.Spec.{ImageRegistryConfig}
use kube_nova_operator.Kube.Workload.{AffinityTerm}
use kube_nova_operator.Prelude.{List, String, [], if◌then◌else◌, join, ℕ, ◌==◌, ◌∷◌}
use kube_nova_operator.Prelude.Maps.{Map}

abbrev pub service_account_name : String
service_account_name = "kube-nova-sa"

unfoldable pub get_common_labels : KubeNova → Map String
get_common_labels kn =
    ("app.kubernetes.io/name", "kube-nova")
    ∷ ("app.kubernetes.io/instance", kn.metadata.name)
    ∷ ("app.kubernetes.io/managed-by", "kube-nova-operator")
    ∷ []

-- `fmt.Sprintf("%s/%s/%s:%s", registry, organization, name, tag)`, unless an image is given.
abbrev pub image_reference : ImageRegistryConfig → String → String → String
image_reference r name given =
    if given == ""
    then join (r.registry ∷ "/" ∷ r.organization ∷ "/" ∷ name ∷ ":" ∷ r.tag ∷ [])
    else given

-- Both builders of Deployments spread the pods over hosts in this way.
abbrev pub spread : ℕ → String → List AffinityTerm
spread weight app =
    record {
      weight = weight;
      key = "app";
      values = app ∷ [];
      topology_key = "kubernetes.io/hostname";
    }
    ∷ []

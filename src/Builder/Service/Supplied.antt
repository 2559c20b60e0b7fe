-- ===== src/Builder/Service/Supplied.antt =====
-- The pods of the back-end services against the objects they read (internal/builder/service.go,
-- internal/builder/configmap.go, internal/builder/secret.go, internal/builder/rbac.go).
use kube_nova_operator.Api.{KubeNova}
use kube_nova_operator.Builder.ConfigMaps.{build_all_config_maps}
use kube_nova_operator.Builder.Rbac.{build_service_account}
use kube_nova_operator.Builder.Secret.{build_secret}
use kube_nova_operator.Kube.{ConfigMap, Secret, ServiceAccount}
use kube_nova_operator.Kube.Workload.{
  Deployment, VolumeSource, config_map_volume, empty_dir, secret_volume,
}
use kube_nova_operator.Prelude.{All, Bool, List, String, all, any, true, ◌&&◌, ◌==◌, ◌≡◌}
use kube_nova_operator.Prelude.Int.{ℤ}

-- The volume of a ConfigMap has the name of one of these, in this namespace, with a configuration file.
abbrev pub is_supplied : List ConfigMap → String → VolumeSource → Bool
is_supplied cms namespace (config_map_volume name items) =
    any
      (λ cm.
        cm.metadata.name == name
        && (cm.metadata.namespace == namespace
            && any (λ entry. entry.0 == "config.yaml") cm.entries))
      cms
is_supplied cms namespace (secret_volume name optional items) = true
is_supplied cms namespace (empty_dir size_limit) = true

-- The ConfigMaps of the volumes, the Secret of the environment and the account of a Deployment are
-- these, in its own namespace.
pub record IsSupplied (cms : List ConfigMap) (s : Secret) (a : ServiceAccount) (d : Deployment)
    : Type 0 where
  pub files :
      all (λ v. is_supplied cms d.metadata.namespace v.source) d.spec.template.spec.volumes ≡ true
  pub environment :
      all
        (λ k.
          any (λ name. name == s.metadata.name) k.env_from
          && all (λ name. name == s.metadata.name) k.env_from)
        d.spec.template.spec.containers
      ≡ true
  pub account : d.spec.template.spec.service_account_name ≡ a.metadata.name
  pub secret_namespace : s.metadata.namespace ≡ d.metadata.namespace
  pub account_namespace : a.metadata.namespace ≡ d.metadata.namespace

module _ (kn : KubeNova) (namespace node_ip : String) (node_port : ℤ) where
  abbrev Supplied : Deployment → Type 0
  Supplied d =
      IsSupplied (build_all_config_maps kn namespace) (build_secret kn namespace node_ip node_port)
        (build_service_account kn namespace) d

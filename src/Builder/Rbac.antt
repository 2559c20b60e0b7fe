-- ===== src/Builder/Rbac.antt =====
-- internal/builder/rbac.go
use kube_nova_operator.Api.{KubeNova}
use kube_nova_operator.Builder.{service_account_name}
use kube_nova_operator.Kube.{ClusterRoleBinding, ServiceAccount, object_meta}
use kube_nova_operator.Prelude.{String, [], join, ◌∷◌}
use kube_nova_operator.Prelude.Maps.{Map}

abbrev pub rbac_labels : KubeNova → String → Map String
rbac_labels kn namespace =
    ("app.kubernetes.io/name", "kube-nova")
    ∷ ("app.kubernetes.io/instance", kn.metadata.name)
    ∷ ("app.kubernetes.io/managed-by", "kube-nova-operator")
    ∷ ("app.kubernetes.io/namespace", namespace)
    ∷ ("app.kubernetes.io/component", "rbac")
    ∷ []

unfoldable pub build_service_account : KubeNova → String → ServiceAccount
build_service_account kn namespace = record {
  metadata = object_meta service_account_name namespace (rbac_labels kn namespace);
}

unfoldable pub build_cluster_role_binding : KubeNova → String → ClusterRoleBinding
build_cluster_role_binding kn namespace = record {
  metadata =
      object_meta (join ("kube-nova-" ∷ namespace ∷ "-" ∷ kn.metadata.name ∷ "-cluster-admin" ∷ []))
        "" (rbac_labels kn namespace);
  subjects =
      record { kind = "ServiceAccount"; name = service_account_name; namespace = namespace } ∷ [];
  role_ref = record {
    api_group = "rbac.authorization.k8s.io";
    kind = "ClusterRole";
    name = "cluster-admin";
  };
}

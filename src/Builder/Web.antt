-- ===== src/Builder/Web.antt =====
-- internal/builder/web.go: the Deployment, the Service and the Ingress of the web front end.
pub mod Pod
pub mod Expose
pub mod Nginx
pub mod Resources
pub mod Laws
use kube_nova_operator.Api.{KubeNova}
use kube_nova_operator.Api.Methods.{enabled_https, https_on}
use kube_nova_operator.Prelude.{Bool, String, [], if◌then◌else◌, none, some, ◌&&◌, ◌==◌, ◌∷◌}
use kube_nova_operator.Prelude.Maps.{Map}

abbrev pub web_labels : KubeNova → Map String
web_labels kn =
    ("app", "kube-nova-web")
    ∷ ("tier", "frontend")
    ∷ ("app.kubernetes.io/name", "kube-nova")
    ∷ ("app.kubernetes.io/instance", kn.metadata.name)
    ∷ ("app.kubernetes.io/component", "web")
    ∷ ("app.kubernetes.io/managed-by", "kube-nova-operator")
    ∷ []

-- `ExposeType == "nodeport" && NodePort != nil && NodePort.HTTPS != nil && NodePort.HTTPS.Enabled`
abbrev pub https_mode : KubeNova → Bool
https_mode kn = kn.spec.web.expose_type == "nodeport" && https_on kn.spec.web.node_port

-- The same, with a Secret named: the name of that Secret.
abbrev pub https_secret : KubeNova → String
https_secret kn = elim (enabled_https kn.spec.web.node_port) [
  | none ↦ ""
  | some h ↦ if kn.spec.web.expose_type == "nodeport" then h.secret_name else ""
]

-- ===== src/Builder/Web/Expose.antt =====
-- How the web front end is reached: `buildWebService` and `buildWebIngress` of
-- internal/builder/web.go.
use kube_nova_operator.Api.{KubeNova}
use kube_nova_operator.Api.Methods.{enabled_https, ingress_tls_on}
use kube_nova_operator.Api.Spec.{IngressConfig, NodePortConfig, NodePortHttpsConfig, WebConfig}
use kube_nova_operator.Builder.Web.{web_labels}
use kube_nova_operator.Kube.{object_meta}
use kube_nova_operator.Kube.Network.{Ingress, IngressTls, Service, ServicePort, ServiceSpec}
use kube_nova_operator.Prelude.{
  Bool, List, Option, String, [], false, if◌then◌else◌, none, not, some, ◌&&◌, ◌++◌, ◌==◌, ◌∷◌,
}
use kube_nova_operator.Prelude.Int.{is_pos, pos, ℤ}
use kube_nova_operator.Prelude.Maps.{Map, insert, insert_all}

abbrev pub web_port : String → ℤ → ℤ → ServicePort
web_port name port node_port = record {
  name = name;
  port = port;
  target_port = port;
  protocol = "TCP";
  node_port = node_port;
}

-- A positive port of the configuration is asked for; otherwise the cluster picks one.
abbrev pub asked : ℤ → ℤ
asked p = if is_pos p then p else pos 0

abbrev pub http_node_port : Option NodePortConfig → ℤ
http_node_port none = pos 0
http_node_port (some n) = asked n.http_port

abbrev pub https_ports : Option NodePortHttpsConfig → List ServicePort
https_ports none = []
https_ports (some h) = web_port "https" (pos 443) (asked h.port) ∷ []

abbrev pub cluster_ip_spec : ServiceSpec
cluster_ip_spec = record {
  kind = "ClusterIP";
  selector = ("app", "kube-nova-web") ∷ [];
  ports = web_port "http" (pos 80) (pos 0) ∷ [];
  session_affinity = "";
  session_timeout = none;
  external_traffic_policy = "";
}

abbrev pub node_port_spec : WebConfig → ServiceSpec
node_port_spec w = record {
  kind = "NodePort";
  selector = ("app", "kube-nova-web") ∷ [];
  ports =
      web_port "http" (pos 80) (http_node_port w.node_port)
      ∷ https_ports (enabled_https w.node_port);
  session_affinity = "ClientIP";
  session_timeout = some 10800;
  external_traffic_policy = "Cluster";
}

-- An exposure of neither kind leaves the type of the Service unset.
unfoldable pub build_web_service : KubeNova → String → Service
build_web_service kn namespace =
    let w = kn.spec.web in
    record {
      metadata = object_meta "kube-nova-web" namespace (web_labels kn);
      spec =
          if w.expose_type == "ingress"
          then cluster_ip_spec
          else if w.expose_type == "nodeport"
          then node_port_spec w
          else record cluster_ip_spec { kind = "" };
    }

-- The literal of `getIngressAnnotations`, less the two redirect entries that come first.
abbrev pub fixed_annotations : Map String
fixed_annotations =
    ("nginx.ingress.kubernetes.io/proxy-body-size", "1024m")
    ∷ ("nginx.ingress.kubernetes.io/proxy-connect-timeout", "600")
    ∷ ("nginx.ingress.kubernetes.io/proxy-send-timeout", "600")
    ∷ ("nginx.ingress.kubernetes.io/proxy-read-timeout", "600")
    ∷ ("nginx.ingress.kubernetes.io/proxy-buffer-size", "8k")
    ∷ ("nginx.ingress.kubernetes.io/proxy-buffers-number", "4")
    ∷ ("nginx.ingress.kubernetes.io/websocket-services", "kube-nova-web")
    ∷ ("nginx.ingress.kubernetes.io/proxy-http-version", "1.1")
    ∷ ("nginx.ingress.kubernetes.io/enable-cors", "true")
    ∷ ("nginx.ingress.kubernetes.io/cors-allow-methods", "GET, POST, PUT, DELETE, OPTIONS, PATCH")
    ∷ ("nginx.ingress.kubernetes.io/cors-allow-origin", "*")
    ∷ ("nginx.ingress.kubernetes.io/cors-allow-credentials", "true")
    ∷ ("nginx.ingress.kubernetes.io/cors-max-age", "3600")
    ∷ ("nginx.ingress.kubernetes.io/limit-rps", "100")
    ∷ ("nginx.ingress.kubernetes.io/limit-connections", "50")
    ∷ ("nginx.ingress.kubernetes.io/affinity", "cookie")
    ∷ ("nginx.ingress.kubernetes.io/affinity-mode", "persistent")
    ∷ ("nginx.ingress.kubernetes.io/session-cookie-name", "route")
    ∷ ("nginx.ingress.kubernetes.io/session-cookie-hash", "sha1")
    ∷ []

abbrev pub ssl_redirect : String
ssl_redirect = "nginx.ingress.kubernetes.io/ssl-redirect"

abbrev pub force_ssl_redirect : String
force_ssl_redirect = "nginx.ingress.kubernetes.io/force-ssl-redirect"

abbrev pub redirects : String → Map String
redirects value = (ssl_redirect, value) ∷ (force_ssl_redirect, value) ∷ []

abbrev pub default_annotations : Bool → Map String
default_annotations tls =
    if tls
    then insert force_ssl_redirect "true"
        (insert ssl_redirect "true" (redirects "false" ++ fixed_annotations))
    else redirects "false" ++ fixed_annotations

-- `kn.Spec.Web.Ingress` is tested for nil twice.
unfoldable pub get_ingress_annotations : Option IngressConfig → Map String
get_ingress_annotations none = default_annotations false
get_ingress_annotations (some i) = insert_all i.annotations (default_annotations (ingress_tls_on i))

abbrev pub ingress_tls_list : IngressConfig → List IngressTls
ingress_tls_list i = elim (i.tls) [
  | none ↦ []
  | some t ↦
      if t.enabled && not (t.secret_name == "")
      then record { hosts = i.host ∷ []; secret_name = t.secret_name } ∷ []
      else []
]

abbrev pub ingress_of : KubeNova → String → IngressConfig → Ingress
ingress_of kn namespace i = record {
  metadata = record (object_meta "kube-nova-web" namespace (web_labels kn)) {
    annotations = get_ingress_annotations kn.spec.web.ingress;
  };
  ingress_class_name = i.class_name;
  rules =
      record {
        host = i.host;
        paths =
            record {
              path = "/";
              path_type = "Prefix";
              service_name = "kube-nova-web";
              service_port = 80;
            }
            ∷ [];
      }
      ∷ [];
  tls = ingress_tls_list i;
}

unfoldable pub build_web_ingress : KubeNova → String → Option Ingress
build_web_ingress kn namespace = elim (kn.spec.web.ingress) [
  | none ↦ none
  | some i ↦ some (ingress_of kn namespace i)
]

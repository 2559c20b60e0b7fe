-- ===== src/Builder/Web/Resources.antt =====
-- `BuildWebResources` of internal/builder/web.go.
use kube_nova_operator.Api.{KubeNova}
use kube_nova_operator.Builder.Web.Expose.{build_web_ingress, build_web_service}
use kube_nova_operator.Builder.Web.Nginx.{build_nginx_config_map}
use kube_nova_operator.Builder.Web.Pod.{build_web_deployment}
use kube_nova_operator.Kube.{ConfigMap}
use kube_nova_operator.Kube.Network.{Ingress, Service}
use kube_nova_operator.Kube.Workload.{Deployment}
use kube_nova_operator.Prelude.{Option, String, if◌then◌else◌, none, some, ◌==◌}

-- `none` is a nil pointer.
pub record WebResources : Type 0 where
  pub deployment : Deployment
  pub service : Service
  pub ingress : Option Ingress
  pub nginx_config_map : Option ConfigMap

unfoldable pub build_web_resources : KubeNova → String → WebResources
build_web_resources kn namespace = record {
  nginx_config_map =
      if kn.spec.web.custom_nginx_config_map == ""
      then some (build_nginx_config_map kn namespace)
      else none;
  deployment = build_web_deployment kn namespace;
  service = build_web_service kn namespace;
  ingress = if kn.spec.web.expose_type == "ingress" then build_web_ingress kn namespace else none;
}

-- ===== src/Controller/Workloads.antt =====
-- The stages that deploy the back-end services and the web front end
-- (internal/controller/kubenova_controller.go).
pub mod Idle
pub mod Deployed
pub mod Converges
pub mod Names
pub mod KeptDeployments
pub mod AllDeployed
use kube_nova_operator.Api.Status.{creating}
use kube_nova_operator.Builder.Service.{ServiceResources}
use kube_nova_operator.Builder.Service.All.{build_all_services}
use kube_nova_operator.Builder.Web.Resources.{build_web_resources}
use kube_nova_operator.Controller.Action.{Action, call, or_wrap, pure, self, ◌>>=◌, ◌>>◌}
use kube_nova_operator.Controller.Cluster.{Cluster}
use kube_nova_operator.Controller.Compare.{deployment_spec_equal}
use kube_nova_operator.Controller.Ensure.{Texts, create_if_missing, ensure, own, write}
use kube_nova_operator.Controller.Resources.{ensure_config_map, texts_of}
use kube_nova_operator.Controller.Status.{set_status_phase}
use kube_nova_operator.Kube.{ConfigMap}
use kube_nova_operator.Kube.Network.{Ingress, Service}
use kube_nova_operator.Kube.Workload.{Deployment}
use kube_nova_operator.Prelude.{Option, String, [], if◌then◌else◌, join, none, some, ◌∷◌}
use kube_nova_operator.Prelude.Maps.{Map}

-- What an update copies into the Deployment of a back-end service.
abbrev pub merge_deployment : Deployment → Deployment → Deployment
merge_deployment latest desired = record latest {
  spec = record (latest.spec) {
    replicas = desired.spec.replicas;
    template = record (latest.spec.template) {
      spec = record (latest.spec.template.spec) {
        containers = desired.spec.template.spec.containers;
        volumes = desired.spec.template.spec.volumes;
        service_account_name = desired.spec.template.spec.service_account_name;
        image_pull_secrets = desired.spec.template.spec.image_pull_secrets;
      };
    };
  };
}

-- For the web front end the service account stays.
abbrev pub merge_web_deployment : Deployment → Deployment → Deployment
merge_web_deployment latest desired = record latest {
  spec = record (latest.spec) {
    replicas = desired.spec.replicas;
    template = record (latest.spec.template) {
      spec = record (latest.spec.template.spec) {
        containers = desired.spec.template.spec.containers;
        volumes = desired.spec.template.spec.volumes;
        image_pull_secrets = desired.spec.template.spec.image_pull_secrets;
      };
    };
  };
}

module _ (c : Cluster) where
  open c use {World, ApiError}

  -- Where the two differ, the Deployment is read once more before it is written.
  unfoldable pub ensure_deployment :
      Texts
      → String
      → (Deployment → Deployment → Deployment)
      → String
      → Deployment
      → Action World ApiError (Unit {0})
  ensure_deployment texts regetting merge namespace desired = do
    meta ← own c "设置 OwnerReference 失败" desired.metadata
    ensure c c.deployments texts namespace desired.metadata.name
        (record desired { metadata = meta })
        λ existing.
          if deployment_spec_equal c.quantity_equal existing.spec desired.spec then pure tt else do
            found ← call (c.deployments.get namespace desired.metadata.name)
            latest ← or_wrap regetting found
            write c c.deployments texts (merge latest desired)

  unfoldable pub ensure_service : Texts → String → Service → Action World ApiError (Unit {0})
  ensure_service texts namespace svc = do
    meta ← own c "设置 OwnerReference 失败" svc.metadata
    create_if_missing c c.services texts namespace svc.metadata.name
        (record svc { metadata = meta })

  abbrev pub named_texts : String → String → Texts
  named_texts kind name = record {
    getting = join ("获取 " ∷ kind ∷ " 失败" ∷ []);
    creating = join ("创建 " ∷ kind ∷ " " ∷ name ∷ " 失败" ∷ []);
    updating = join ("更新 " ∷ kind ∷ " " ∷ name ∷ " 失败" ∷ []);
  }

  -- The loop over the services, in the order in which the map is visited.
  unfoldable pub deploy_services : String → Map ServiceResources → Action World ApiError (Unit {0})
  deploy_services namespace [] = pure tt
  deploy_services namespace ((name, r) ∷ rest) = do
    ensure_deployment (named_texts "Deployment" name) "重新获取 Deployment 失败" merge_deployment
        namespace r.deployment
    ensure_service (named_texts "Service" name) namespace r.service
    deploy_services namespace rest

  unfoldable pub reconcile_services : Action World ApiError (Unit {0})
  reconcile_services = do
    set_status_phase c creating "正在部署后端服务"
    kn ← self
    deploy_services kn.metadata.namespace
        (c.range_services (build_all_services kn kn.metadata.namespace))

  abbrev pub ensure_nginx : String → Option ConfigMap → Action World ApiError (Unit {0})
  ensure_nginx namespace none = pure tt
  ensure_nginx namespace (some cm) = ensure_config_map c (texts_of "Web ConfigMap") namespace cm

  abbrev pub ensure_ingress : String → Option Ingress → Action World ApiError (Unit {0})
  ensure_ingress namespace none = pure tt
  ensure_ingress namespace (some i) = do
    meta ← own c "设置 OwnerReference 失败" i.metadata
    create_if_missing c c.ingresses (texts_of "Ingress") namespace i.metadata.name
        (record i { metadata = meta })

  unfoldable pub reconcile_web : Action World ApiError (Unit {0})
  reconcile_web = do
    kn ← self
    let namespace = kn.metadata.namespace
    let web = build_web_resources kn namespace
    ensure_nginx namespace web.nginx_config_map
    ensure_deployment (texts_of "Web Deployment") "重新获取 Web Deployment 失败" merge_web_deployment
        namespace web.deployment
    ensure_service (texts_of "Web Service") namespace web.service
    ensure_ingress namespace web.ingress

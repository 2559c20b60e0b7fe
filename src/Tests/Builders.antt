-- ===== src/Tests/Builders.antt =====
-- The theorems on the builders, at the configuration.
use kube_nova_operator.Api.Endpoints.{get_minio_proxy_path}
use kube_nova_operator.Api.Methods.{is_service_enabled, validate_minio_tls, validate_web_config}
use kube_nova_operator.Builder.ConfigMaps.{build_all_config_maps}
use kube_nova_operator.Builder.ConfigMaps.Placeholders.{
  config_maps_closed, in_environment, variables,
}
use kube_nova_operator.Builder.Secret.{build_secret, secret_data}
use kube_nova_operator.Builder.Service.All.{
  build_all_services, console_api_setup, portal_api_setup, portal_rpc_setup,
}
use kube_nova_operator.Builder.Service.Certs.{mounts_certs, names_ca_file, portal_rpc-certs}
use kube_nova_operator.Builder.Service.Mounts.{all_mounts_declared, mounts_are_declared}
use kube_nova_operator.Builder.Service.Pod.{build_deployment, build_service, service_container}
use kube_nova_operator.Builder.Service.Routing.{IsRouted, build_service-IsRouted}
use kube_nova_operator.Builder.Web.Expose.{build_web_service}
use kube_nova_operator.Builder.Web.Laws.{
  IsExposed, build_web_resources-IsExposed, build_web_service-IsRouted, get_web_volume_mounts-certs,
  has_certs,
}
use kube_nova_operator.Builder.Web.Nginx.{build_default_conf}
use kube_nova_operator.Builder.Web.Nginx.Balanced.{build_default_conf_balanced}
use kube_nova_operator.Builder.Web.Nginx.Braces.{IsPlain, depth}
use kube_nova_operator.Builder.Web.Pod.{build_web_deployment, web_container}
use kube_nova_operator.Builder.Web.Resources.{build_web_resources}
use kube_nova_operator.Controller.Components.{service_names}
use kube_nova_operator.Controller.Components.Built.{IsBuilt, build_all_services_lem, setting_named}
use kube_nova_operator.Prelude.{All, String, all, any, false, none, refl, some, true, ◌==◌, ◌≡◌}
use kube_nova_operator.Prelude.Int.{pos}
use kube_nova_operator.Prelude.Maps.{lookup}
use kube_nova_operator.Tests.{nova, nova_behind_ingress, nova_storage, nova_web}
use kube_nova_operator.Tests.Server.{ServerError}
use kube_nova_operator.Validator.{validate_storage}

build_service-IsRouted_example :
    let r = build_service nova "nova" (console_api_setup nova) in IsRouted r.service r.deployment
build_service-IsRouted_example = build_service-IsRouted nova "nova" (console_api_setup nova)

build_all_services_lem_example :
    All
      (λ name.
        IsBuilt
          (build_all_services nova "nova")
          "nova"
          name
          (setting_named name nova.spec.services))
      service_names
    × ((k : String)
        → any (λ name. name == k) service_names ≡ false
        → lookup k (build_all_services nova "nova") ≡ none)
build_all_services_lem_example = build_all_services_lem nova "nova"

-- manager-api is switched off in the configuration.
manager_api_absent_test : lookup "manager-api" (build_all_services nova "nova") ≡ none
unfolding build_all_services is_service_enabled
manager_api_absent_test = refl

all_mounts_declared_example :
    (mounts_are_declared (build_deployment nova "nova" (portal_rpc_setup nova)).spec.template.spec
      ≡ true)
    × (mounts_are_declared (build_web_deployment nova "nova").spec.template.spec ≡ true)
all_mounts_declared_example = all_mounts_declared nova "nova" (portal_rpc_setup nova)

storage_accepted : validate_storage {E = ServerError} nova_storage ≡ none
unfolding validate_storage validate_minio_tls
storage_accepted = refl

portal_rpc-certs_example :
    (mounts_certs (service_container (portal_rpc_setup nova)) ≡ true)
    × (names_ca_file (secret_data nova "1.2.3.4" (pos 30080)) ≡ true)
portal_rpc-certs_example = portal_rpc-certs nova "1.2.3.4" (pos 30080) storage_accepted

config_maps_closed_example :
    All
      (λ cm.
        all
          (in_environment
            (build_secret nova "nova" "1.2.3.4" (pos 30080))
            (service_container (portal_api_setup nova)))
          (variables cm)
        ≡ true)
      (build_all_config_maps nova "nova")
config_maps_closed_example =
    config_maps_closed nova "nova" "1.2.3.4" (pos 30080) (portal_api_setup nova)

build_web_service-IsRouted_example :
    IsRouted (build_web_service nova "nova") (build_web_deployment nova "nova")
build_web_service-IsRouted_example = build_web_service-IsRouted nova "nova"

build_web_resources-IsExposed_example :
    IsExposed nova_behind_ingress (build_web_resources nova_behind_ingress "nova")
build_web_resources-IsExposed_example = build_web_resources-IsExposed nova_behind_ingress "nova"

web_accepted : validate_web_config {E = ServerError} nova_web ≡ none
unfolding validate_web_config
web_accepted = refl

get_web_volume_mounts-certs_example :
    has_certs (web_container nova) ≡ any (λ p. p.name == "https") (web_container nova).ports
get_web_volume_mounts-certs_example = get_web_volume_mounts-certs nova web_accepted

files-IsPlain : IsPlain (get_minio_proxy_path nova)
unfolding depth get_minio_proxy_path
files-IsPlain n = refl

endpoint-IsPlain : IsPlain nova_storage.endpoint
unfolding depth
endpoint-IsPlain n = refl

build_default_conf_balanced_example : depth (build_default_conf nova) 0 ≡ some 0
build_default_conf_balanced_example =
    build_default_conf_balanced nova files-IsPlain endpoint-IsPlain

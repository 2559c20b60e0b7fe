-- ===== src/Api/Spec.antt =====
-- The specification of a KubeNova (api/v1/kubenova_types.go). A Go pointer is an Option; int32 and
-- int64 fields are integers, since no arithmetic is done on them.
use kube_nova_operator.Kube.Workload.{EnvVar, ResourceRequirements}
use kube_nova_operator.Prelude.{Bool, List, Option, String}
use kube_nova_operator.Prelude.Int.{ℤ}
use kube_nova_operator.Prelude.Maps.{Map}

pub record ImageRegistryConfig : Type 0 where
  pub registry : String
  pub organization : String
  pub tag : String
  pub pull_policy : String
  pub pull_secrets : List String

pub record DatabaseConfig : Type 0 where
  pub host : String
  pub port : ℤ
  pub database : String
  pub user : String
  pub password : String
  pub max_open_conns : ℤ
  pub max_idle_conns : ℤ
  pub conn_max_lifetime : String

pub record CacheConfig : Type 0 where
  pub host : String
  pub port : ℤ
  pub kind : String
  pub password : String
  pub tls : Bool
  pub non_block : Bool
  pub ping_timeout : String

pub record MinioTlsConfig : Type 0 where
  pub enabled : Bool
  pub secret_name : String

pub record StorageConfig : Type 0 where
  pub endpoint : String
  pub endpoint_proxy : String
  pub access_key : String
  pub secret_key : String
  pub bucket : String
  pub tls : Option MinioTlsConfig

pub record TelemetryConfig : Type 0 where
  pub enabled : Bool
  pub jaeger_endpoint : String
  pub sampler : String
  pub batcher : String

pub record JwtConfig : Type 0 where
  pub access_secret : String
  pub access_expire : ℤ
  pub refresh_secret : String
  pub refresh_expire : ℤ
  pub refresh_after : ℤ

pub record PortalConfig : Type 0 where
  pub name : String
  pub url : String
  pub demo_mode : Bool

pub record ServiceConfig : Type 0 where
  pub enabled : Option Bool
  pub replicas : ℤ
  pub image : String
  pub resources : Option ResourceRequirements
  pub env : List EnvVar

pub record ServicesConfig : Type 0 where
  pub global_timeout : ℤ
  pub jwt : JwtConfig
  pub portal : Option PortalConfig
  pub webhook_token : String
  pub inject_image : String
  pub portal_api : Option ServiceConfig
  pub portal_rpc : Option ServiceConfig
  pub manager_api : Option ServiceConfig
  pub manager_rpc : Option ServiceConfig
  pub workload_api : Option ServiceConfig
  pub console_api : Option ServiceConfig
  pub console_rpc : Option ServiceConfig

pub record IngressTlsConfig : Type 0 where
  pub enabled : Bool
  pub secret_name : String

pub record IngressConfig : Type 0 where
  pub class_name : String
  pub host : String
  pub tls : Option IngressTlsConfig
  pub annotations : Map String

pub record NodePortHttpsConfig : Type 0 where
  pub enabled : Bool
  pub port : ℤ
  pub secret_name : String

pub record NodePortConfig : Type 0 where
  pub http_port : ℤ
  pub https : Option NodePortHttpsConfig

pub record MinioProxyConfig : Type 0 where
  pub enabled : Bool
  pub path_prefix : String
  pub proxy_endpoint : String

pub record WebConfig : Type 0 where
  pub replicas : ℤ
  pub image : String
  pub resources : Option ResourceRequirements
  pub expose_type : String
  pub ingress : Option IngressConfig
  pub node_port : Option NodePortConfig
  pub minio_proxy : Option MinioProxyConfig
  pub custom_nginx_config_map : String

pub record KubeNovaSpec : Type 0 where
  pub image_registry : Option ImageRegistryConfig
  pub database : DatabaseConfig
  pub cache : CacheConfig
  pub storage : StorageConfig
  pub telemetry : Option TelemetryConfig
  pub services : ServicesConfig
  pub web : WebConfig

-- ===== src/Validator/Sound.antt =====
-- When the validator of internal/validator/validator.go accepts, stated without its order of tests.
use Prim.Native.String
use kube_nova_operator.Api.{KubeNova}
use kube_nova_operator.Api.Methods.{
  enabled_https, has_no_secret, only_enabled, tls_secret_missing, validate_ingress,
  validate_minio_tls, validate_telemetry_config, validate_web_config,
}
use kube_nova_operator.Api.Spec.{
  CacheConfig, DatabaseConfig, IngressConfig, IngressTlsConfig, JwtConfig, KubeNovaSpec,
  MinioTlsConfig, NodePortConfig, NodePortHttpsConfig, StorageConfig, TelemetryConfig, WebConfig,
}
use kube_nova_operator.Prelude.{
  Option, String, arith, eq_iff, false, none, some, true, ◌↔◌, ◌≡◌, ◌≢◌, ◌≤◌, ◌⊎◌,
}
use kube_nova_operator.Prelude.Int.{negsuc, pos, ℤ}
use kube_nova_operator.Validator.{
  validate_cache, validate_database, validate_jwt, validate_kube_nova, validate_storage,
  validate_storage_tls, validate_telemetry,
}

abbrev pub IsPort : ℤ → Type 0
IsPort (pos n) = (1 ≤ n) × (n ≤ 65535)
IsPort (negsuc _) = ⊥

pub record IsValidDatabase (db : DatabaseConfig) : Type 0 where
  pub host : db.host ≢ ""
  pub database : db.database ≢ ""
  pub user : db.user ≢ ""
  pub password : db.password ≢ ""
  pub port : IsPort db.port

pub record IsValidCache (c : CacheConfig) : Type 0 where
  pub host : c.host ≢ ""
  pub port : IsPort c.port
  pub kind : (c.kind ≡ "node") ⊎ (c.kind ≡ "cluster")

abbrev pub IsValidMinioTls : Option MinioTlsConfig → Type 0
IsValidMinioTls none = Unit
IsValidMinioTls (some t) = t.enabled ≡ true → t.secret_name ≢ ""

pub record IsValidStorage (s : StorageConfig) : Type 0 where
  pub endpoint : s.endpoint ≢ ""
  pub access_key : s.access_key ≢ ""
  pub secret_key : s.secret_key ≢ ""
  pub bucket : s.bucket ≢ ""
  pub tls : IsValidMinioTls s.tls

pub record IsValidJwt (j : JwtConfig) : Type 0 where
  pub access : 32 ≤ String.len j.access_secret
  pub refresh : 32 ≤ String.len j.refresh_secret

abbrev pub IsValidTelemetry : Option TelemetryConfig → Type 0
IsValidTelemetry none = Unit
IsValidTelemetry (some t) = t.enabled ≡ true → t.jaeger_endpoint ≢ ""

abbrev pub IsValidIngressTls : Option IngressTlsConfig → Type 0
IsValidIngressTls none = Unit
IsValidIngressTls (some t) = t.enabled ≡ true → t.secret_name ≢ ""

abbrev pub IsValidIngress : Option IngressConfig → Type 0
IsValidIngress none = ⊥
IsValidIngress (some i) = (i.host ≢ "") × IsValidIngressTls i.tls

abbrev pub IsValidHttps : Option NodePortHttpsConfig → Type 0
IsValidHttps none = Unit
IsValidHttps (some h) = h.enabled ≡ true → h.secret_name ≢ ""

abbrev pub IsValidNodePort : Option NodePortConfig → Type 0
IsValidNodePort none = Unit
IsValidNodePort (some n) = IsValidHttps n.https

abbrev pub IsValidWeb : WebConfig → Type 0
IsValidWeb w =
    ((w.expose_type ≡ "ingress") × IsValidIngress w.ingress)
    ⊎ ((w.expose_type ≡ "nodeport") × IsValidNodePort w.node_port)

pub record IsValidSpec (s : KubeNovaSpec) : Type 0 where
  pub database : IsValidDatabase s.database
  pub cache : IsValidCache s.cache
  pub storage : IsValidStorage s.storage
  pub telemetry : IsValidTelemetry s.telemetry
  pub jwt : IsValidJwt s.services.jwt
  pub web : IsValidWeb s.web

len_of_empty : (s : String) → s ≡ "" → String.len s ≡ 0
len_of_empty s e = rw e

ingress_secret_iff :
    (o : Option IngressTlsConfig) → (tls_secret_missing o ≡ false) ↔ IsValidIngressTls o
ingress_secret_iff none = ground arith
ingress_secret_iff (some t) = ground (arith, eq_iff t.secret_name "")

https_secret_iff :
    (o : Option NodePortHttpsConfig) → (has_no_secret (only_enabled o) ≡ false) ↔ IsValidHttps o
https_secret_iff none = ground arith
https_secret_iff (some h) = ground (arith, eq_iff h.secret_name "")

node_port_secret_iff :
    (o : Option NodePortConfig) → (has_no_secret (enabled_https o) ≡ false) ↔ IsValidNodePort o
node_port_secret_iff none = ground arith
node_port_secret_iff (some n) = https_secret_iff n.https

ingress_ne_nodeport : ◌≢◌ {A = String} "ingress" "nodeport"
ingress_ne_nodeport = ground (arith, eq_iff "ingress" "nodeport")

module _ {ℓ} {E : Type ℓ} where
  pub validate_database_iff :
      (db : DatabaseConfig) → (validate_database {E = E} db ≡ none) ↔ IsValidDatabase db
  unfolding validate_database
  validate_database_iff db =
      ground
        (arith, eq_iff db.host "", eq_iff db.database "", eq_iff db.user "", eq_iff db.password "")

  pub validate_cache_iff : (c : CacheConfig) → (validate_cache {E = E} c ≡ none) ↔ IsValidCache c
  unfolding validate_cache
  validate_cache_iff c =
      ground (arith, eq_iff c.host "", eq_iff c.kind "node", eq_iff c.kind "cluster")

  pub validate_jwt_iff : (j : JwtConfig) → (validate_jwt {E = E} j ≡ none) ↔ IsValidJwt j
  unfolding validate_jwt
  validate_jwt_iff j = ground (
    arith,
    eq_iff j.access_secret "",
    eq_iff j.refresh_secret "",
    len_of_empty j.access_secret,
    len_of_empty j.refresh_secret,
  )

  minio_tls_iff :
      (o : Option MinioTlsConfig) → (validate_storage_tls {E = E} o ≡ none) ↔ IsValidMinioTls o
  unfolding validate_minio_tls
  minio_tls_iff none = ground arith
  minio_tls_iff (some t) = ground (arith, eq_iff t.secret_name "")

  pub validate_storage_iff :
      (s : StorageConfig) → (validate_storage {E = E} s ≡ none) ↔ IsValidStorage s
  unfolding validate_storage
  validate_storage_iff s = ground (
    arith,
    eq_iff s.endpoint "",
    eq_iff s.access_key "",
    eq_iff s.secret_key "",
    eq_iff s.bucket "",
    minio_tls_iff s.tls,
  )

  validate_telemetry_iff :
      (o : Option TelemetryConfig) → (validate_telemetry {E = E} o ≡ none) ↔ IsValidTelemetry o
  unfolding validate_telemetry_config
  validate_telemetry_iff none = ground arith
  validate_telemetry_iff (some t) = ground (arith, eq_iff t.jaeger_endpoint "")

  validate_ingress_iff :
      (o : Option IngressConfig) → (validate_ingress {E = E} o ≡ none) ↔ IsValidIngress o
  validate_ingress_iff none = ground arith
  validate_ingress_iff (some i) = ground (arith, eq_iff i.host "", ingress_secret_iff i.tls)

  pub validate_web_config_iff :
      (w : WebConfig) → (validate_web_config {E = E} w ≡ none) ↔ IsValidWeb w
  unfolding validate_web_config
  validate_web_config_iff w = ground (
    arith,
    eq_iff w.expose_type "ingress",
    eq_iff w.expose_type "nodeport",
    validate_ingress_iff w.ingress,
    node_port_secret_iff w.node_port,
    ingress_ne_nodeport,
  )

  -- The validator accepts a KubeNova exactly if every part of its specification is valid.
  pub validate_kube_nova_iff :
      (kn : KubeNova) → (validate_kube_nova {E = E} kn ≡ none) ↔ IsValidSpec kn.spec
  unfolding validate_kube_nova
  validate_kube_nova_iff kn = ground (
    arith,
    validate_database_iff kn.spec.database,
    validate_cache_iff kn.spec.cache,
    validate_storage_iff kn.spec.storage,
    validate_telemetry_iff kn.spec.telemetry,
    validate_jwt_iff kn.spec.services.jwt,
    validate_web_config_iff kn.spec.web,
  )

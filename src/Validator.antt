-- ===== src/Validator.antt =====
-- The validator of a KubeNova (internal/validator/validator.go). A check is the error that the
-- function returns, or `none` for nil; `E` is the type of the client's errors, which no check makes.
pub mod Sound
use Prim.Native.String
use Prim.Native.Char.{code}
use kube_nova_operator.Api.{KubeNova}
use kube_nova_operator.Api.Methods.{
  validate_minio_tls, validate_telemetry_config, validate_web_config,
}
use kube_nova_operator.Api.Spec.{
  CacheConfig, DatabaseConfig, JwtConfig, MinioTlsConfig, StorageConfig, TelemetryConfig,
}
use kube_nova_operator.Prelude.{
  Bool, Option, String, [], false, if◌then◌else◌, join, ltb, nat_eq, none, not, some, ◌&&◌, ◌==◌,
  ◌||◌, ◌∷◌,
}
use kube_nova_operator.Prelude.Int.{decimal, gt_ℕ, is_pos, pos, ℤ}
use kube_nova_operator.Prelude.Results.{Check, plain, wrapped}

-- `if err := check; err != nil { return fmt.Errorf("prefix: %w", err) }` before the rest.
abbrev pub checked {ℓ} : {E : Type ℓ} → String → Check E → Check E → Check E
checked prefix none rest = rest
checked prefix (some e) rest = some (wrapped prefix e)

abbrev pub port_invalid : ℤ → Bool
port_invalid p = not (is_pos p) || gt_ℕ p 65535

-- `strings.Contains(name, " ")`
abbrev pub contains_space : String → Bool
contains_space String.[] = false
contains_space (String.◌∷◌ c s) = nat_eq (code c) b' ' || contains_space s

module _ {ℓ} {E : Type ℓ} where
  unfoldable pub validate_database : DatabaseConfig → Check E
  validate_database db =
      if db.host == ""
      then some (plain "数据库主机地址不能为空")
      else if db.database == ""
      then some (plain "数据库名称不能为空")
      else if db.user == ""
      then some (plain "数据库用户名不能为空")
      else if db.password == ""
      then some (plain "数据库密码不能为空")
      else if port_invalid db.port
      then some (plain (join ("数据库端口无效: " ∷ decimal db.port ∷ [])))
      else none

  pub validate_cache : CacheConfig → Check E
  validate_cache cache =
      if cache.host == ""
      then some (plain "redis 主机地址不能为空")
      else if port_invalid cache.port
      then some (plain (join ("redis 端口无效: " ∷ decimal cache.port ∷ [])))
      else if not (cache.kind == "node") && not (cache.kind == "cluster")
      then some (plain (join ("redis 类型必须是 node 或 cluster，当前值: " ∷ cache.kind ∷ [])))
      else none

  -- The last test of `validateStorage`.
  abbrev pub validate_storage_tls : Option MinioTlsConfig → Check E
  validate_storage_tls none = none
  validate_storage_tls (some tls) =
      if tls.enabled then checked "MinIO TLS 配置错误" (validate_minio_tls tls) none else none

  unfoldable pub validate_storage : StorageConfig → Check E
  validate_storage storage =
      if storage.endpoint == ""
      then some (plain "存储端点地址不能为空")
      else if storage.access_key == ""
      then some (plain "存储访问密钥不能为空")
      else if storage.secret_key == ""
      then some (plain "存储密钥不能为空")
      else if storage.bucket == ""
      then some (plain "存储桶名称不能为空")
      else validate_storage_tls storage.tls

  pub validate_jwt : JwtConfig → Check E
  validate_jwt jwt =
      if jwt.access_secret == ""
      then some (plain "访问令牌密钥不能为空")
      else if ltb (String.len jwt.access_secret) 32
      then some (
          plain (
            join
              ("访问令牌密钥长度至少需要 32 个字符，当前长度: " ∷ decimal (pos (String.len jwt.access_secret)) ∷ [])))
      else if jwt.refresh_secret == ""
      then some (plain "刷新令牌密钥不能为空")
      else if ltb (String.len jwt.refresh_secret) 32
      then some (
          plain (
            join
              ("刷新令牌密钥长度至少需要 32 个字符，当前长度: " ∷ decimal (pos (String.len jwt.refresh_secret)) ∷ [])))
      else none

  -- The tracing step, which runs only if tracing is on.
  abbrev pub validate_telemetry : Option TelemetryConfig → Check E
  validate_telemetry none = none
  validate_telemetry (some t) = if t.enabled then validate_telemetry_config t else none

  unfoldable pub validate_kube_nova : KubeNova → Check E
  validate_kube_nova kn = checked "数据库配置错误" (validate_database kn.spec.database) (
      checked "缓存配置错误" (validate_cache kn.spec.cache) (
        checked "存储配置错误" (validate_storage kn.spec.storage) (
          checked "链路追踪配置错误" (validate_telemetry kn.spec.telemetry) (
            checked "JWT 配置错误" (validate_jwt kn.spec.services.jwt)
              (checked "web 配置错误" (validate_web_config kn.spec.web) none)))))

  pub validate_tls_secret : String → Check E
  validate_tls_secret secret_name =
      if secret_name == "" then some (plain "TLS Secret 名称不能为空") else none

  pub validate_secret_name : String → Check E
  validate_secret_name name =
      if name == ""
      then some (plain "secret 名称不能为空")
      else if ltb 253 (String.len name)
      then some
          (plain (join ("secret 名称过长，最大长度 253，当前长度: " ∷ decimal (pos (String.len name)) ∷ [])))
      else if contains_space name
      then some (plain "secret 名称不能包含空格")
      else none

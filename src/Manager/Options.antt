-- ===== src/Manager/Options.antt =====
-- The options of the servers and of the manager, from the flags (cmd/main.go).
use kube_nova_operator.Manager.Flags.{Flags}
use kube_nova_operator.Prelude.{
  Bool, List, Option, String, [], if◌then◌else◌, none, not, some, ◌==◌, ◌∷◌,
}

-- `tls.Config`, with the field that the program writes to, and its other fields as they are.
pub record TlsConfig (Other : Type 0) : Type 0 where
  pub next_protos : List String
  pub other : Other

abbrev pub disable_http2 : {Other : Type 0} → TlsConfig Other → TlsConfig Other
disable_http2 c = record c { next_protos = "http/1.1" ∷ [] }

-- The list `tlsOpts`.
abbrev pub tls_opts : {Other : Type 0} → Flags → List (TlsConfig Other → TlsConfig Other)
tls_opts f = if not f.enable_http2 then disable_http2 ∷ [] else []

-- `webhook.Options`; the fields that are not set have their zero value.
pub record WebhookOptions (Other : Type 0) : Type 0 where
  pub tls_opts : List (TlsConfig Other → TlsConfig Other)
  pub cert_dir : String
  pub cert_name : String
  pub key_name : String

pub data FilterProvider : Type 0 where
  with_authentication_and_authorization : FilterProvider

-- `metricsserver.Options`
pub record MetricsOptions (Other : Type 0) : Type 0 where
  pub bind_address : String
  pub secure_serving : Bool
  pub tls_opts : List (TlsConfig Other → TlsConfig Other)
  pub filter_provider : Option FilterProvider
  pub cert_dir : String
  pub cert_name : String
  pub key_name : String

-- `ctrl.Options`; the webhook server is the one made of its options.
pub record ManagerOptions (Other : Type 0) : Type 0 where
  pub metrics : MetricsOptions Other
  pub webhook_server : WebhookOptions Other
  pub health_probe_bind_address : String
  pub leader_election : Bool
  pub leader_election_id : String

-- The branch on `secureMetrics`.
abbrev pub filter_provider_of : Flags → Option FilterProvider
filter_provider_of f = if f.secure_metrics then some with_authentication_and_authorization else none

module _ {Other : Type 0} where
  unfoldable pub webhook_server_options : Flags → WebhookOptions Other
  webhook_server_options f =
      let base : WebhookOptions Other = record {
        tls_opts = tls_opts f;
        cert_dir = "";
        cert_name = "";
        key_name = "";
      } in
      if not (f.webhook_cert_path == "")
      then record base {
        cert_dir = f.webhook_cert_path;
        cert_name = f.webhook_cert_name;
        key_name = f.webhook_cert_key;
      }
      else base

  unfoldable pub metrics_server_options : Flags → MetricsOptions Other
  metrics_server_options f =
      let base : MetricsOptions Other = record {
        bind_address = f.metrics_addr;
        secure_serving = f.secure_metrics;
        tls_opts = tls_opts f;
        filter_provider = filter_provider_of f;
        cert_dir = "";
        cert_name = "";
        key_name = "";
      } in
      if not (f.metrics_cert_path == "")
      then record base {
        cert_dir = f.metrics_cert_path;
        cert_name = f.metrics_cert_name;
        key_name = f.metrics_cert_key;
      }
      else base

  unfoldable pub manager_options : Flags → ManagerOptions Other
  unfolding webhook_server_options metrics_server_options
  manager_options f = record {
    metrics = metrics_server_options f;
    webhook_server = webhook_server_options f;
    health_probe_bind_address = f.probe_addr;
    leader_election = f.enable_leader_election;
    leader_election_id = "9658b857.ikubeops.com";
  }

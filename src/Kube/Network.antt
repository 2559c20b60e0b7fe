-- ===== src/Kube/Network.antt =====
-- Services and Ingresses.
use kube_nova_operator.Kube.{ObjectMeta}
use kube_nova_operator.Prelude.{List, Option, String, ℕ}
use kube_nova_operator.Prelude.Int.{ℤ}
use kube_nova_operator.Prelude.Maps.{Map}

-- `node_port` is 0 where none is asked for.
pub record ServicePort : Type 0 where
  pub name : String
  pub port : ℤ
  pub target_port : ℤ
  pub protocol : String
  pub node_port : ℤ

-- `session_timeout` is the ClientIP timeout of the session affinity.
pub record ServiceSpec : Type 0 where
  pub kind : String
  pub selector : Map String
  pub ports : List ServicePort
  pub session_affinity : String
  pub session_timeout : Option ℕ
  pub external_traffic_policy : String

pub record Service : Type 0 where
  pub metadata : ObjectMeta
  pub spec : ServiceSpec

pub record IngressPath : Type 0 where
  pub path : String
  pub path_type : String
  pub service_name : String
  pub service_port : ℕ

pub record IngressRule : Type 0 where
  pub host : String
  pub paths : List IngressPath

pub record IngressTls : Type 0 where
  pub hosts : List String
  pub secret_name : String

pub record Ingress : Type 0 where
  pub metadata : ObjectMeta
  pub ingress_class_name : String
  pub rules : List IngressRule
  pub tls : List IngressTls

-- ===== src/Api.antt =====
-- The custom resource KubeNova (api/v1/kubenova_types.go): its types are in Spec and Status,
-- its helper methods in Methods and Endpoints, and what is proved of the latter in EndpointLaws.
pub mod Spec
pub mod Status
pub mod Methods
pub mod Endpoints
pub mod EndpointLaws
use kube_nova_operator.Api.Spec.{KubeNovaSpec}
use kube_nova_operator.Api.Status.{KubeNovaStatus}
use kube_nova_operator.Kube.{ObjectMeta}

pub record KubeNova : Type 0 where
  pub metadata : ObjectMeta
  pub spec : KubeNovaSpec
  pub status : KubeNovaStatus

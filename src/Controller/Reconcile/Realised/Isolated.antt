-- ===== src/Controller/Reconcile/Realised/Isolated.antt =====
-- Calls for one kind of object leave the other kinds as they are
-- (internal/controller/kubenova_controller.go).
use kube_nova_operator.Controller.Cluster.{Cluster}
use kube_nova_operator.Controller.Ensure.Apart.{NamesApart}
use kube_nova_operator.Controller.Ensure.Converges.{KeepsNames}
use kube_nova_operator.Controller.Ensure.Laws.{StoreLaws}
use kube_nova_operator.Controller.Reconcile.Kept.{BaseKeeps, GetKeeps, StoreKeeps}
use kube_nova_operator.Controller.Reconcile.Realised.{BaseKeeps-SameView, SameView, Untouched}
use kube_nova_operator.Controller.Workloads.Deployed.{DeploymentLaws}
use kube_nova_operator.Kube.{ConfigMap, Secret}

abbrev pub SecretLaws : Cluster → Type 0
SecretLaws c = StoreLaws c.World c.ApiError Secret (λ a. a.metadata) (λ a. a.entries) c.secrets

abbrev pub ConfigMapLaws : Cluster → Type 0
ConfigMapLaws c =
    StoreLaws c.World c.ApiError ConfigMap (λ a. a.metadata) (λ a. a.entries) c.config_maps

-- What the API server promises of Secrets, ConfigMaps and Deployments, and that nothing but the calls
-- for a kind of object changes what is stored of it.
pub record ServerLaws (c : Cluster) : Type 0 where
  pub keeps : KeepsNames c
  pub secrets : SecretLaws c
  pub config_maps : ConfigMapLaws c
  pub deployments : DeploymentLaws c
  pub maps_apart :
      NamesApart c.World c.ApiError ConfigMap (λ a. a.metadata) c.config_maps config_maps.view
  pub secrets_untouched : Untouched c secrets.view
  pub secrets_by_maps : StoreKeeps (SameView secrets.view) c.config_maps
  pub secrets_by_deployments : StoreKeeps (SameView secrets.view) c.deployments
  pub secrets_by_services : StoreKeeps (SameView secrets.view) c.services
  pub secrets_by_ingresses : StoreKeeps (SameView secrets.view) c.ingresses
  pub maps_untouched : Untouched c config_maps.view
  pub maps_by_deployments : StoreKeeps (SameView config_maps.view) c.deployments
  pub maps_by_services : StoreKeeps (SameView config_maps.view) c.services
  pub maps_by_ingresses : StoreKeeps (SameView config_maps.view) c.ingresses
  pub deployments_untouched : Untouched c deployments.view
  pub deployments_by_maps : StoreKeeps (SameView deployments.view) c.config_maps
  pub deployments_by_ingresses : StoreKeeps (SameView deployments.view) c.ingresses
  pub deployment_read : GetKeeps (SameView deployments.view) c.deployments

module _ (c : Cluster) (l : ServerLaws c) where
  pub secrets_base : BaseKeeps c (SameView l.secrets.view)
  secrets_base = BaseKeeps-SameView c _ l.secrets_untouched

  pub maps_base : BaseKeeps c (SameView l.config_maps.view)
  maps_base = BaseKeeps-SameView c _ l.maps_untouched

  pub deployments_base : BaseKeeps c (SameView l.deployments.view)
  deployments_base = BaseKeeps-SameView c _ l.deployments_untouched

  pub deployments_by_services : StoreKeeps (SameView l.deployments.view) c.services
  deployments_by_services = record {
    keeps_get = λ ns' name' s ns name. l.deployments.service_get ns name ns' name' s.world;
    keeps_create = λ svc s ns name. l.deployments.service_create ns name svc s.world;
    keeps_update = λ svc s ns name. l.deployments.service_update ns name svc s.world;
  }

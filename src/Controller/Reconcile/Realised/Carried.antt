-- ===== src/Controller/Reconcile/Realised/Carried.antt =====
-- How what a stage has stored is carried to the end of a pass
-- (Reconcile of internal/controller/kubenova_controller.go).
use kube_nova_operator.Api.{KubeNova}
use kube_nova_operator.Controller.Action.{Action, Session}
use kube_nova_operator.Controller.Action.Ensures.{Ensures, Ensures-Relates, Ensures-and}
use kube_nova_operator.Controller.Action.Rules.{Relates}
use kube_nova_operator.Controller.Cluster.{Cluster}
use kube_nova_operator.Controller.Reconcile.{Answer, check_stage, reconcile_validation, stage}
use kube_nova_operator.Controller.Reconcile.Frame.{Framed, PassKeeps-Framed, same_chain}
use kube_nova_operator.Controller.Reconcile.Kept.{BaseKeeps, PassKeeps}
use kube_nova_operator.Controller.Reconcile.KeptStages.{
  reconcile_config_maps-Relates, reconcile_namespace-Relates, reconcile_rbac-Relates,
  reconcile_secret-Relates, reconcile_services-Relates, reconcile_validation-Relates,
  reconcile_web-Relates,
}
use kube_nova_operator.Controller.Reconcile.Realised.AlongStages.{
  Unless, check_stage-Unless, stage-Unless,
}
use kube_nova_operator.Controller.Resources.{
  reconcile_config_maps, reconcile_namespace, reconcile_rbac, reconcile_secret,
}
use kube_nova_operator.Controller.Status.Retry.{SameButStatus}
use kube_nova_operator.Controller.Workloads.{reconcile_services, reconcile_web}

module _ (c : Cluster) (kn : KubeNova) where
  abbrev pub Same : Session c.World → Type 0
  Same s = SameButStatus s.kube_nova kn

  pub framed :
      (m : Action c.World c.ApiError (Unit {0})) → Relates (Framed c) m → Ensures Same (λ _. Same) m
  framed m h =
      Ensures-Relates Same (Framed c) (λ _. Same) m h
        (λ _ s t e p. same_chain kn s.kube_nova t.kube_nova p e)

  abbrev base : BaseKeeps c (Framed c)
  base = (PassKeeps-Framed c).base

  abbrev pass : PassKeeps c (Framed c)
  pass = PassKeeps-Framed c

  pub framed_secret : Relates (Framed c) (reconcile_secret c)
  framed_secret = reconcile_secret-Relates c (Framed c) base pass.secrets pass.services

  pub framed_maps : Relates (Framed c) (reconcile_config_maps c)
  framed_maps = reconcile_config_maps-Relates c (Framed c) base pass.config_maps

  pub framed_services : Relates (Framed c) (reconcile_services c)
  framed_services = reconcile_services-Relates c (Framed c) base pass.deployments pass.services

  pub framed_web : Relates (Framed c) (reconcile_web c)
  framed_web =
      reconcile_web-Relates c (Framed c) base pass.config_maps pass.deployments pass.services
        pass.ingresses

  -- The first three stages write none of this.
  pub prepared :
      (H : Session c.World → Type 0) (rest : Action c.World c.ApiError (Answer c.ApiError))
      → Ensures Same (Unless H) rest
      → Ensures Same (Unless H) (
          stage c "配置验证失败" (reconcile_validation c) (
            stage c "Namespace 错误"
              (reconcile_namespace c)
              (stage c "创建 RBAC 资源失败" (reconcile_rbac c) rest)))
  prepared H rest h =
      stage-Unless c H Same Same _ _ _ (framed _ (reconcile_validation-Relates c (Framed c) base)) (
        stage-Unless c H Same Same _ _ _
          (framed _ (reconcile_namespace-Relates c (Framed c) base pass.namespaces))
          (stage-Unless c H Same Same _ _ _
            (framed _ (
              reconcile_rbac-Relates c (Framed c) base pass.service_accounts
                pass.cluster_role_bindings))
            h))

  module _ (H : Session c.World → Type 0) where
    -- The object in memory, and what is held.
    abbrev pub Both : Session c.World → Type 0
    Both s = Same s × H s

    pub gained :
        (m : Action c.World c.ApiError (Unit {0}))
        → Relates (Framed c) m
        → Ensures Same (λ _. H) m
        → Ensures Same (λ _. Both) m
    gained m f h = record { at = λ s p. (Ensures-and _ _ _ _ m (framed m f) h).at s (p, p) }

    pub carried :
        (m : Action c.World c.ApiError (Unit {0}))
        → Relates (Framed c) m
        → Ensures Both (λ _. H) m
        → Ensures Both (λ _. Both) m
    carried m f h = record { at = λ s p. (Ensures-and _ _ _ _ m (framed m f) h).at s (p.0, p) }

    module _ (R : Session c.World → Session c.World → Type 0)
        (moved : (s t : Session c.World) → R s t → H s → H t) where
      pub untouched :
          (m : Action c.World c.ApiError (Unit {0}))
          → Relates (Framed c) m
          → Relates R m
          → Ensures Both (λ _. Both) m
      untouched m f h =
          carried m f (Ensures-Relates Both R (λ _. H) m h (λ _ s t e p. moved s t e p.1))

      pub check_carried : Relates R (check_stage c) → Ensures Both (Unless H) (check_stage c)
      check_carried h = record { at = λ s p. (check_stage-Unless c H R h moved).at s p.1 }

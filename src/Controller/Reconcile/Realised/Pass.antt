-- ===== src/Controller/Reconcile/Realised/Pass.antt =====
-- A pass without error has written the Secret, the ConfigMaps and the Deployments
-- (Reconcile of internal/controller/kubenova_controller.go).
use kube_nova_operator.Api.{KubeNova}
use kube_nova_operator.Controller.Action.{Action, Session}
use kube_nova_operator.Controller.Action.Ensures.{Ensures, Ensures-and, Ensures-weaker}
use kube_nova_operator.Controller.Cluster.{Cluster}
use kube_nova_operator.Controller.Reconcile.{Answer, reconcile_validation, run_stages, stage}
use kube_nova_operator.Controller.Reconcile.Kept.{BaseKeeps}
use kube_nova_operator.Controller.Reconcile.KeptPass.{check_stage-Relates}
use kube_nova_operator.Controller.Reconcile.KeptStages.{
  reconcile_config_maps-Relates, reconcile_services-Relates, reconcile_web-Relates,
}
use kube_nova_operator.Controller.Reconcile.Realised.{SameView}
use kube_nova_operator.Controller.Reconcile.Realised.AlongStages.{Unless, stage-Unless}
use kube_nova_operator.Controller.Reconcile.Realised.Carried.{
  Both, Same, carried, check_carried, framed, framed_maps, framed_secret, framed_services,
  framed_web, gained, prepared, untouched,
}
use kube_nova_operator.Controller.Reconcile.Realised.Held.{
  HasDeployments, HasMaps, HasNginx, HasSecret, HasWeb, maps_stage, moved_deployments, moved_maps,
  moved_nginx, moved_secret, moved_web, secret_stage, services_stage,
}
use kube_nova_operator.Controller.Reconcile.Realised.Isolated.{
  ServerLaws, deployments_base, deployments_by_services, maps_base, secrets_base,
}
use kube_nova_operator.Controller.Reconcile.Realised.WebGained.{nginx_stage, web_stage}
use kube_nova_operator.Controller.Reconcile.Realised.WebStage.{web_deployments, web_maps}
use kube_nova_operator.Controller.Resources.{
  reconcile_config_maps, reconcile_namespace, reconcile_rbac, reconcile_secret,
}
use kube_nova_operator.Controller.Workloads.{reconcile_services}
use kube_nova_operator.Controller.Workloads.AllDeployed.{VisitsAll}
use kube_nova_operator.Prelude.{inl, inr}

-- What was built for a KubeNova is stored: the Secret, the ConfigMaps, and the Deployments of the
-- back-end services and the web front end.
pub record IsRealised (c : Cluster) (l : ServerLaws c) (kn : KubeNova) (w : c.World) : Type 0 where
  pub secret : HasSecret c l kn (record { world = w; kube_nova = kn })
  pub maps : HasMaps c l kn (record { world = w; kube_nova = kn })
  pub deployments : HasDeployments c l kn (record { world = w; kube_nova = kn })
  pub nginx : HasNginx c l kn (record { world = w; kube_nova = kn })
  pub web : HasWeb c l kn (record { world = w; kube_nova = kn })

module _ (c : Cluster) (l : ServerLaws c) (kn : KubeNova) where
  run_secret : Ensures (Same c kn) (Unless (HasSecret c l kn)) (run_stages c)
  unfolding run_stages
  run_secret = prepared c kn H _ (
      stage-Unless c H (Same c kn) (Both c kn H) _ _ _
        (gained c kn H _ (framed_secret c kn) (secret_stage c l kn))
        (stage-Unless c H (Both c kn H) (Both c kn H) _ _ _
          (untouched c kn H R moved _ (framed_maps c kn)
            (reconcile_config_maps-Relates c R b l.secrets_by_maps))
          (stage-Unless c H (Both c kn H) (Both c kn H) _ _ _
            (untouched c kn H R moved _ (framed_services c kn)
              (reconcile_services-Relates c R b l.secrets_by_deployments l.secrets_by_services))
            (stage-Unless c H (Both c kn H) (Both c kn H) _ _ _
              (untouched c kn H R moved _ (framed_web c kn) (
                reconcile_web-Relates c R b l.secrets_by_maps l.secrets_by_deployments
                  l.secrets_by_services l.secrets_by_ingresses))
              (check_carried c kn H R moved (
                check_stage-Relates c R b l.secrets_by_deployments.keeps_get
                  l.secrets_by_services.keeps_get))))))
    where
      H : Session c.World → Type 0
      H = HasSecret c l kn

      R : Session c.World → Session c.World → Type 0
      R = SameView l.secrets.view

      moved : (s t : Session c.World) → R s t → H s → H t
      moved = moved_secret c l kn

      b : BaseKeeps c R
      b = secrets_base c l

  run_maps : Ensures (Same c kn) (Unless (HasMaps c l kn)) (run_stages c)
  unfolding run_stages
  run_maps = prepared c kn H _ (
      stage-Unless c H (Same c kn) (Same c kn) _ _ _ (framed c kn _ (framed_secret c kn)) (
        stage-Unless c H (Same c kn) (Both c kn H) _ _ _
          (gained c kn H _ (framed_maps c kn) (maps_stage c l kn))
          (stage-Unless c H (Both c kn H) (Both c kn H) _ _ _
            (untouched c kn H R (moved_maps c l kn) _ (framed_services c kn) (
              reconcile_services-Relates c R (maps_base c l) l.maps_by_deployments
                l.maps_by_services))
            (stage-Unless c H (Both c kn H) (Both c kn H) _ _ _
              (carried c kn H _ (framed_web c kn) (web_maps c l kn))
              (check_carried c kn H R (moved_maps c l kn) (
                check_stage-Relates c R (maps_base c l) l.maps_by_deployments.keeps_get
                  l.maps_by_services.keeps_get))))))
    where
      H : Session c.World → Type 0
      H = HasMaps c l kn

      R : Session c.World → Session c.World → Type 0
      R = SameView l.config_maps.view

  run_deployments :
      VisitsAll c → Ensures (Same c kn) (Unless (HasDeployments c l kn)) (run_stages c)
  unfolding run_stages
  run_deployments visits = prepared c kn H _ (
      stage-Unless c H (Same c kn) (Same c kn) _ _ _ (framed c kn _ (framed_secret c kn)) (
        stage-Unless c H (Same c kn) (Same c kn) _ _ _ (framed c kn _ (framed_maps c kn)) (
          stage-Unless c H (Same c kn) (Both c kn H) _ _ _
            (gained c kn H _ (framed_services c kn) (services_stage c l kn visits))
            (stage-Unless c H (Both c kn H) (Both c kn H) _ _ _
              (carried c kn H _ (framed_web c kn) (web_deployments c l kn))
              (check_carried c kn H R (moved_deployments c l kn) (
                check_stage-Relates c R (deployments_base c l) l.deployment_read
                  (deployments_by_services c l).keeps_get))))))
    where
      H : Session c.World → Type 0
      H = HasDeployments c l kn

      R : Session c.World → Session c.World → Type 0
      R = SameView l.deployments.view

  -- The stages before the web front end.
  upto_web :
      (H : Session c.World → Type 0) {rest : Action c.World c.ApiError (Answer c.ApiError)}
      → Ensures (Same c kn) (Unless H) rest
      → Ensures (Same c kn) (Unless H) (
          stage c "配置验证失败" (reconcile_validation c) (
            stage c "Namespace 错误" (reconcile_namespace c) (
              stage c "创建 RBAC 资源失败" (reconcile_rbac c) (
                stage c "创建 Secret 失败" (reconcile_secret c) (
                  stage c "创建 ConfigMap 失败"
                    (reconcile_config_maps c)
                    (stage c "部署后端服务失败" (reconcile_services c) rest))))))
  upto_web H h = prepared c kn H _ (
      stage-Unless c H (Same c kn) (Same c kn) _ _ _ (framed c kn _ (framed_secret c kn)) (
        stage-Unless c H (Same c kn) (Same c kn) _ _ _ (framed c kn _ (framed_maps c kn)) (
          stage-Unless c H (Same c kn) (Same c kn) _ _ _ (framed c kn _ (framed_services c kn)) h)))

  run_nginx : Ensures (Same c kn) (Unless (HasNginx c l kn)) (run_stages c)
  unfolding run_stages
  run_nginx = upto_web H (
      stage-Unless c H (Same c kn) (Both c kn H) _ _ _
        (gained c kn H _ (framed_web c kn) (nginx_stage c l kn))
        (check_carried c kn H (SameView l.config_maps.view) (moved_nginx c l kn) (
          check_stage-Relates c _ (maps_base c l) l.maps_by_deployments.keeps_get
            l.maps_by_services.keeps_get)))
    where
      H : Session c.World → Type 0
      H = HasNginx c l kn

  run_web : Ensures (Same c kn) (Unless (HasWeb c l kn)) (run_stages c)
  unfolding run_stages
  run_web = upto_web H (
      stage-Unless c H (Same c kn) (Both c kn H) _ _ _
        (gained c kn H _ (framed_web c kn) (web_stage c l kn))
        (check_carried c kn H (SameView l.deployments.view) (moved_web c l kn) (
          check_stage-Relates c _ (deployments_base c l) l.deployment_read
            (deployments_by_services c l).keeps_get)))
    where
      H : Session c.World → Type 0
      H = HasWeb c l kn

  -- Two of them, of one answer.
  both_of :
      (H J : Session c.World → Type 0)
      → Ensures (Same c kn) (Unless H) (run_stages c)
      → Ensures (Same c kn) (Unless J) (run_stages c)
      → Ensures (Same c kn) (Unless (λ s. H s × J s)) (run_stages c)
  both_of H J h j = record {
    at = λ s p.
        (Ensures-weaker _ _ _ together _ (Ensures-and _ _ (Unless H) (Unless J) _ h j)).at s (p, p);
  }
    where
      together :
          (a : Answer c.ApiError) (t : Session c.World)
          → Unless H a t × Unless J a t
          → Unless (λ s. H s × J s) a t
      together a t (inl e, r) = inl e
      together a t (inr x, inl e) = inl e
      together a t (inr x, inr y) = inr (x, y)

  gathered :
      (a : Answer c.ApiError) (s : Session c.World)
      → Unless
          (λ t.
            HasSecret c l kn t
            × (HasMaps c l kn t
                × (HasDeployments c l kn t × (HasNginx c l kn t × HasWeb c l kn t))))
          a
          s
      → Unless (λ t. IsRealised c l kn t.world) a s
  gathered a s (inl e) = inl e
  gathered a s (inr (x, (y, (z, (n, v))))) =
      inr (record { secret = x; maps = y; deployments = z; nginx = n; web = v })

  -- The stages, as a pass runs them.
  pub run_stages-Realises :
      VisitsAll c → Ensures (Same c kn) (Unless (λ s. IsRealised c l kn s.world)) (run_stages c)
  run_stages-Realises visits = Ensures-weaker _ _ _ gathered _ (
      both_of _ _ run_secret (
        both_of _ _ run_maps
          (both_of _ _ (run_deployments visits) (both_of _ _ run_nginx run_web))))

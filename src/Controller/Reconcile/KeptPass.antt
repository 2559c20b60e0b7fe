-- ===== src/Controller/Reconcile/KeptPass.antt =====
-- A pass over the stages keeps a relation that every call keeps
-- (internal/controller/kubenova_controller.go).
use kube_nova_operator.Api.{KubeNova}
use kube_nova_operator.Api.Status.{AccessInfo, ComponentStatus, KubeNovaStatus}
use kube_nova_operator.Controller.Action.{
  Action, Session, call, crash, modify, on_option, on_reply, pure, self, ◌>>=◌, ◌>>◌,
}
use kube_nova_operator.Controller.Action.Rules.{
  Relates, Relates-bind, Relates-crash, Relates-on_option, Relates-on_reply, Relates-pure,
  Relates-self, action_rules,
}
use kube_nova_operator.Controller.Cluster.{Cluster}
use kube_nova_operator.Controller.Components.{
  check_component_status, check_service, check_services, check_web, conclude, put_status, survey,
}
use kube_nova_operator.Controller.Components.Access.{
  find_node_port_url, find_web_url, update_access_info, write_endpoints, write_info,
}
use kube_nova_operator.Controller.Reconcile.{Answer, check_stage, fail_stage, run_stages, stage}
use kube_nova_operator.Controller.Reconcile.Kept.{
  BaseKeeps, GetKeeps, PassKeeps, get-Relates, modify-Relates, now-Relates, set_condition-Relates,
  set_status_phase-Relates, status_write-Relates,
}
use kube_nova_operator.Controller.Reconcile.KeptStages.{
  get_node_ip-Relates, reconcile_config_maps-Relates, reconcile_namespace-Relates,
  reconcile_rbac-Relates, reconcile_secret-Relates, reconcile_services-Relates,
  reconcile_validation-Relates, reconcile_web-Relates,
}
use kube_nova_operator.Kube.{Time}
use kube_nova_operator.Kube.Workload.{Deployment}
use kube_nova_operator.Prelude.{Bool, List, Option, String, [], false, true, ◌&&◌, ◌∷◌}
use kube_nova_operator.Prelude.Int.{ℤ}
use kube_nova_operator.Prelude.Results.{Error, Reply}

module _ (c : Cluster) (R : Session c.World → Session c.World → Type 0) (k : BaseKeeps c R)
    (deps : GetKeeps R c.deployments) (svcs : GetKeeps R c.services) where
  -- A panic changes nothing.
  crash-Relates : {A : Type 0} → Relates R (crash {E = c.ApiError} {A = A})
  crash-Relates = Relates-crash R k.preorder

  -- What follows the read of a Deployment: its status is noted, or it is passed over.
  noted-Relates :
      (note : Deployment → ℤ → Time → Action c.World c.ApiError (Unit {0}))
      (is_ready : Deployment → ℤ → Bool) (passed : Bool) (r : Reply c.ApiError Deployment)
      → ((d : Deployment) (want : ℤ) (time : Time) → Relates R (note d want time))
      → Relates R (
          on_reply r
            (λ d.
              on_option d.spec.replicas crash
                (λ want. do time ← call c.now; note d want time; pure (is_ready d want)))
            (λ _. pure passed))
  noted-Relates note is_ready passed r h =
      Relates-on_reply R k.preorder r _ _
        (λ d. Relates-on_option R k.preorder _ _ _ crash-Relates (λ want.
          Relates-bind R k.preorder _ _ (now-Relates c R k) (λ time.
            Relates-bind R k.preorder _ _ (h d want time) (λ _. Relates-pure R k.preorder _))))
        (λ e. Relates-pure R k.preorder _)

  -- A write through a pointer, or into a map, that may be nil.
  written-Relates :
      {A : Type 0} (o : KubeNova → Option A) (g : A → KubeNova → KubeNovaStatus)
      → Relates R (do
        kn ← self
        on_option (o kn) crash (λ a. modify {E = c.ApiError} (λ j. record j { status = g a j })))
  written-Relates o g =
      Relates-bind R k.preorder _ _ (Relates-self R k.preorder)
        (λ kn. Relates-on_option R k.preorder _ _ _ crash-Relates (λ a. modify-Relates c R k _))

  put_status-Relates : (name : String) (s : ComponentStatus) → Relates R (put_status c name s)
  unfolding put_status
  put_status-Relates name s = written-Relates (λ kn. kn.status.component_status.services) _

  check_service-Relates : (ns name : String) → Relates R (check_service c ns name)
  unfolding check_service
  check_service-Relates ns name =
      Relates-bind R k.preorder _ _ (get-Relates c R k c.deployments deps ns _)
        (λ r. noted-Relates _ _ _ r (λ d want time. put_status-Relates name _))

  check_web-Relates : (ns : String) (b : Bool) → Relates R (check_web c ns b)
  unfolding check_web
  check_web-Relates ns b =
      Relates-bind R k.preorder _ _ (get-Relates c R k c.deployments deps ns _)
        (λ r. noted-Relates _ _ _ r (λ d want time. modify-Relates c R k _))

  check_services-Relates :
      (ns : String) (names : List String) (b : Bool) → Relates R (check_services c ns names b)
  unfolding check_services
  check_services-Relates ns [] b = Relates-pure R k.preorder b
  check_services-Relates ns (name ∷ names) b =
      Relates-bind R k.preorder _ _ (check_service-Relates ns name)
        (λ r. check_services-Relates ns names (b && r))

  survey-Relates : (ns : String) → Relates R (survey c ns)
  unfolding survey
  survey-Relates ns =
      Relates-bind R k.preorder _ _ (modify-Relates c R k _)
        (λ _. search (check_services-Relates, check_web-Relates, k.preorder, action_rules))

  find_node_port_url-Relates : (ns : String) → Relates R (find_node_port_url c ns)
  unfolding find_node_port_url
  find_node_port_url-Relates ns =
      search (get-Relates c R k c.services svcs, get_node_ip-Relates, k.preorder, action_rules)
        depth 8

  find_web_url-Relates : (kn : KubeNova) (ns old : String) → Relates R (find_web_url c kn ns old)
  unfolding find_web_url
  find_web_url-Relates kn ns old =
      search (find_node_port_url-Relates, k.preorder, action_rules) depth 8

  write_info-Relates : (f : AccessInfo → AccessInfo) → Relates R (write_info c f)
  unfolding write_info
  write_info-Relates f = written-Relates (λ kn. kn.status.access_info) _

  write_endpoints-Relates : (ns : String) → Relates R (write_endpoints c ns)
  unfolding write_endpoints
  write_endpoints-Relates ns = Relates-bind R k.preorder _ _ (Relates-self R k.preorder) (λ kn.
      Relates-on_option R k.preorder _ _ _ crash-Relates
        (λ a. Relates-on_option R k.preorder _ _ _ crash-Relates (λ m. modify-Relates c R k _)))

  update_access_info-Relates : (ns : String) → Relates R (update_access_info c ns)
  unfolding update_access_info
  update_access_info-Relates ns = Relates-bind R k.preorder _ _ (modify-Relates c R k _) (λ _.
      search
        (
          find_web_url-Relates, write_info-Relates, write_endpoints-Relates, k.preorder,
          action_rules,
        )
        depth 9)

  conclude-Relates : (b : Bool) → Relates R (conclude c b)
  unfolding conclude
  conclude-Relates true =
      search (set_status_phase-Relates, set_condition-Relates, k.preorder, action_rules)
  conclude-Relates false =
      search (set_status_phase-Relates, set_condition-Relates, k.preorder, action_rules)

  check_component_status-Relates : Relates R (check_component_status c)
  unfolding check_component_status
  check_component_status-Relates =
      search
        (
          survey-Relates, update_access_info-Relates, conclude-Relates, status_write-Relates,
          k.preorder, action_rules,
        )
        depth 9

  pub check_stage-Relates : Relates R (check_stage c)
  unfolding check_stage
  check_stage-Relates = search (check_component_status-Relates, k.preorder, action_rules) depth 8

module _ (c : Cluster) (R : Session c.World → Session c.World → Type 0) (k : BaseKeeps c R) where
  fail_stage-Relates : (what : String) (e : Error c.ApiError) → Relates R (fail_stage c what e)
  unfolding fail_stage
  fail_stage-Relates what e =
      search (set_status_phase-Relates, status_write-Relates, k.preorder, action_rules) depth 8

  stage-Relates :
      (what : String) (m : Action c.World c.ApiError (Unit {0}))
      (rest : Action c.World c.ApiError (Answer c.ApiError))
      → Relates R m
      → Relates R rest
      → Relates R (stage c what m rest)
  unfolding stage
  stage-Relates what m rest hm hr = search (fail_stage-Relates, k.preorder, action_rules) depth 8

module _ (c : Cluster) (R : Session c.World → Session c.World → Type 0) (k : PassKeeps c R) where
  pub run_stages-Relates : Relates R (run_stages c)
  unfolding run_stages
  run_stages-Relates = stage-Relates c R k.base _ _ _ (reconcile_validation-Relates c R k.base) (
      stage-Relates c R k.base _ _ _ (reconcile_namespace-Relates c R k.base k.namespaces) (
        stage-Relates c R k.base _ _ _
          (reconcile_rbac-Relates c R k.base k.service_accounts k.cluster_role_bindings)
          (stage-Relates c R k.base _ _ _ (reconcile_secret-Relates c R k.base k.secrets k.services)
            (stage-Relates c R k.base _ _ _ (reconcile_config_maps-Relates c R k.base k.config_maps)
              (stage-Relates c R k.base _ _ _
                (reconcile_services-Relates c R k.base k.deployments k.services)
                (stage-Relates c R k.base _ _ _
                  (reconcile_web-Relates c R k.base k.config_maps k.deployments k.services
                    k.ingresses)
                  (check_stage-Relates c R k.base k.deployments.keeps_get
                    k.services.keeps_get)))))))

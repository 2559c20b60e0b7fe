-- ===== src/Tests/Reconciler.antt =====
-- The theorems on the reconciler, at the small API server.
use kube_nova_operator.Api.{KubeNova}
use kube_nova_operator.Builder.ConfigMaps.{build_all_config_maps}
use kube_nova_operator.Controller.Action.{◌>>=◌}
use kube_nova_operator.Controller.Action.Ensures.{Ensures}
use kube_nova_operator.Controller.Components.{conclude, survey}
use kube_nova_operator.Controller.Components.Ready.{survey_blind}
use kube_nova_operator.Controller.Ensure.AllConfigMaps.{Holds, reconcile_config_maps-converges}
use kube_nova_operator.Controller.Ensure.SecretConverges.{
  HoldsSecret, ip_seen, reconcile_secret-converges,
}
use kube_nova_operator.Controller.Reconcile.{
  after, answer, binding_name, reconcile, reconcile_delete, run_stages,
}
use kube_nova_operator.Controller.Reconcile.Answers.{Answers, run_stages-Answers}
use kube_nova_operator.Controller.Reconcile.Delete.{Deletes, reconcile_delete-gone}
use kube_nova_operator.Controller.Reconcile.Drift.{reconcile_settled}
use kube_nova_operator.Controller.Reconcile.Invalid.{run_stages_invalid}
use kube_nova_operator.Controller.Reconcile.Leak.{Skips, before_binding, reconcile_delete_leaks}
use kube_nova_operator.Controller.Resources.{reconcile_config_maps, reconcile_secret}
use kube_nova_operator.Controller.Status.{set_condition, set_status_phase, update_status_with_retry}
use kube_nova_operator.Controller.Status.Cost.{update_status_with_retry_spent}
use kube_nova_operator.Prelude.{All, none, refl, some, true, ◌+◌, ◌≡◌, ◌≤◌}
use kube_nova_operator.Prelude.Results.{Error, ok, plain, wrapped}
use kube_nova_operator.Tests.{nova, nova_broken, nova_meta}
use kube_nova_operator.Tests.Promises.{
  blind_server, blind_server-Undisturbed, forbidding_server, nova_binding, server-HasReplicas,
  server-KeepsNames, server-ReadsWell, server_apart, server_binding, server_config_maps,
  server_meters, server_quiet, server_secrets,
}
use kube_nova_operator.Tests.Server.{
  Server, ServerError, demo_world, no_object, opened, server, stale_object,
}
use kube_nova_operator.Validator.{validate_database, validate_kube_nova}

run_stages-Answers_example : Answers (run_stages server (opened nova)).0
run_stages-Answers_example = run_stages-Answers server server-HasReplicas (opened nova)

abbrev broken_error : Error ServerError
broken_error = wrapped "数据库配置错误" (plain "数据库主机地址不能为空")

nova_broken_rejected : validate_kube_nova nova_broken ≡ some broken_error
unfolding validate_kube_nova validate_database
nova_broken_rejected = refl

run_stages_invalid_example :
    let (r, t) = run_stages server (opened nova_broken) in
    (r ≡ ok (answer (after 60) (some broken_error))) × server_quiet.R demo_world t.world
run_stages_invalid_example =
    run_stages_invalid server server_quiet (opened nova_broken) broken_error nova_broken_rejected

reconcile_delete-gone_example :
    Ensures
      (λ s. binding_name server s.kube_nova ≡ nova_binding)
      (Deletes server nova_binding server_binding server-ReadsWell)
      (reconcile_delete server)
reconcile_delete-gone_example =
    reconcile_delete-gone server nova_binding server_binding server-ReadsWell

reconcile_config_maps-converges_example :
    Ensures
      (λ s. s.kube_nova ≡ nova)
      (λ _ s.
        All
          (λ cm. Holds server server-KeepsNames server_config_maps server_apart "nova" cm s.world)
          (build_all_config_maps nova "nova"))
      (reconcile_config_maps server)
reconcile_config_maps-converges_example =
    reconcile_config_maps-converges server server-KeepsNames server_config_maps server_apart nova

reconcile_secret-converges_example :
    Ensures
      (λ s. (s.world ≡ demo_world) × (s.kube_nova ≡ nova))
      (λ _ s.
        HoldsSecret server server-KeepsNames server_secrets nova
          (ip_seen server server-KeepsNames server_secrets demo_world)
          s.world)
      (reconcile_secret server)
reconcile_secret-converges_example =
    reconcile_secret-converges server server-KeepsNames server_secrets demo_world nova

update_status_with_retry_spent_example :
    let w = (update_status_with_retry server (opened nova)).1.world in
    (server_meters.requests w ≤ server_meters.requests demo_world + 6)
    × (server_meters.slept w ≤ server_meters.slept demo_world + 300)
update_status_with_retry_spent_example =
    update_status_with_retry_spent server server_meters (opened nova)

abbrev concluded : KubeNova
concluded = (conclude server true (opened nova)).1.kube_nova

abbrev ready_server : Server
ready_server = record demo_world { kube_nova = record nova { status = concluded.status } }

same_generation : nova_meta.generation ≡ concluded.metadata.generation
unfolding conclude set_status_phase set_condition ◌>>=◌
same_generation = refl

reconcile_settled_example :
    reconcile server "nova" "demo" ready_server
    ≡ (ok (answer (after 300) none), record ready_server { requests = 1 })
reconcile_settled_example =
    reconcile_settled server "nova" "demo" (opened nova) ready_server ready_server.kube_nova refl
      refl same_generation refl refl

survey_blind_example : (survey blind_server "nova" (opened nova)).0 ≡ ok true
survey_blind_example =
    survey_blind blind_server blind_server-Undisturbed "nova" (opened nova)
      (λ ns name. (no_object, refl))

reconcile_delete_leaks_example :
    let t = before_binding forbidding_server (opened nova) in
    Skips forbidding_server t (reconcile_delete forbidding_server (opened nova))
reconcile_delete_leaks_example =
    reconcile_delete_leaks forbidding_server (opened nova) stale_object refl

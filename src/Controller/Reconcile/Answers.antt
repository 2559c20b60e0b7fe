-- ===== src/Controller/Reconcile/Answers.antt =====
-- What a pass of `Reconcile` answers (internal/controller/kubenova_controller.go).
use kube_nova_operator.Controller.Action.{Action, Session, on_option, pure, resume, settle, ◌>>=◌}
use kube_nova_operator.Controller.Action.Total.{IsTotal, Returns, total_rules}
use kube_nova_operator.Controller.Cluster.{Cluster}
use kube_nova_operator.Controller.Components.{check_component_status}
use kube_nova_operator.Controller.Reconcile.{
  Answer, after, answer, check_stage, fail_stage, run_stages, stage,
}
use kube_nova_operator.Controller.Reconcile.NilMaps.{survey-IsTotal, update_access_info-IsTotal}
use kube_nova_operator.Controller.Reconcile.Stages.{
  HasReplicas, conclude-IsTotal, reconcile_config_maps-IsTotal, reconcile_namespace-IsTotal,
  reconcile_rbac-IsTotal, reconcile_secret-IsTotal, reconcile_services-IsTotal,
  reconcile_validation-IsTotal, reconcile_web-IsTotal,
}
use kube_nova_operator.Controller.Reconcile.Total.{update_status-IsTotal}
use kube_nova_operator.Controller.Status.{set_status_phase}
use kube_nova_operator.Prelude.{String, inl, inr, none, refl, some, subst, sym, ◌≡◌, ◌⊎◌}
use kube_nova_operator.Prelude.Results.{Error, Outcome, err, ok, panic}

module _ (c : Cluster) (has_replicas : HasReplicas c) where
  check_component_status-IsTotal : IsTotal (check_component_status c)
  unfolding check_component_status
  check_component_status-IsTotal =
      search
        (
          survey-IsTotal, update_access_info-IsTotal, conclude-IsTotal, update_status-IsTotal,
          total_rules,
        )
        depth 8

-- Either no error and another pass in 300 or 30 seconds, or an error and another pass in 60.
abbrev pub IsVerdict : {E : Type 0} → Answer E → Type 0
IsVerdict {E} a =
    ((a.error ≡ none) × ((a.result ≡ after 300) ⊎ (a.result ≡ after 30)))
    ⊎ (((e : Error E) × (a.error ≡ some e)) × (a.result ≡ after 60))

abbrev pub Answers : {E : Type 0} → Outcome (Error E) (Answer E) → Type 0
Answers (ok a) = IsVerdict a
Answers (err _) = ⊥
Answers panic = ⊥

module _ (c : Cluster) where
  fails_with :
      (e : Error c.ApiError) (r : Outcome (Error c.ApiError) (Unit {0})) (t : Session c.World)
      → Returns r
      → (resume (settle r t).0 (λ _. pure (answer (after 60) (some e))) (settle r t).1).0
        ≡ ok (answer (after 60) (some e))
  unfolding pure
  fails_with e (ok _) t h = refl
  fails_with e (err _) t h = refl
  fails_with e panic t h = absurd h

  -- A stage that failed is answered by its error, whatever becomes of the status write.
  pub fail_stage-answer :
      (what : String) (e : Error c.ApiError) (s : Session c.World)
      → (fail_stage c what e s).0 ≡ ok (answer (after 60) (some e))
  unfolding fail_stage set_status_phase ◌>>=◌
  fail_stage-answer what e s = fails_with e _ _ ((update_status-IsTotal c).at _)

  fail_stage-Answers :
      (what : String) (e : Error c.ApiError) (s : Session c.World)
      → Answers (fail_stage c what e s).0
  fail_stage-Answers what e s =
      subst Answers (sym (fail_stage-answer what e s)) (inr ((e, refl), refl))

  goes_on :
      (what : String) (rest : Action c.World c.ApiError (Answer c.ApiError))
      (r : Outcome (Error c.ApiError) (Unit {0})) (t : Session c.World)
      → Returns r
      → ((s : Session c.World) → Answers (rest s).0)
      → Answers
          (resume
            (settle r t).0
            (λ failure. on_option failure rest (fail_stage c what))
            (settle r t).1).0
  unfolding on_option
  goes_on what rest (ok _) t h hr = hr t
  goes_on what rest (err e) t h hr = fail_stage-Answers what e t
  goes_on what rest panic t h hr = h

  stage-Answers :
      (what : String) (m : Action c.World c.ApiError (Unit {0}))
      (rest : Action c.World c.ApiError (Answer c.ApiError))
      → IsTotal m
      → ((s : Session c.World) → Answers (rest s).0)
      → (s : Session c.World) → Answers (stage c what m rest s).0
  unfolding stage ◌>>=◌
  stage-Answers what m rest hm hr s = goes_on what rest (m s).0 (m s).1 (hm.at s) hr

  concludes :
      (r : Outcome (Error c.ApiError) (Unit {0})) (t : Session c.World)
      → Returns r
      → Answers
          (resume
            (settle r t).0
            (λ failure.
              on_option failure
                (pure (answer {E = c.ApiError} (after 300) none))
                (λ _. pure (answer (after 30) none)))
            (settle r t).1).0
  unfolding pure on_option
  concludes (ok _) t h = inl (refl, inl refl)
  concludes (err _) t h = inl (refl, inr refl)
  concludes panic t h = h

  check_stage-Answers : HasReplicas c → (s : Session c.World) → Answers (check_stage c s).0
  unfolding check_stage ◌>>=◌
  check_stage-Answers h s = concludes _ _ ((check_component_status-IsTotal c h).at s)

  -- The stages of a pass, whichever of them fails, end in a verdict and never panic, if the
  -- Deployments that are read have replica counts: either there is no error, and the next pass is
  -- in 300 or 30 seconds, or there is one, and the next pass is in 60.
  pub run_stages-Answers : HasReplicas c → (s : Session c.World) → Answers (run_stages c s).0
  unfolding run_stages
  run_stages-Answers h = stage-Answers _ _ _ (reconcile_validation-IsTotal c) (
      stage-Answers _ _ _ (reconcile_namespace-IsTotal c) (
        stage-Answers _ _ _ (reconcile_rbac-IsTotal c) (
          stage-Answers _ _ _ (reconcile_secret-IsTotal c) (
            stage-Answers _ _ _ (reconcile_config_maps-IsTotal c) (
              stage-Answers _ _ _ (reconcile_services-IsTotal c)
                (stage-Answers _ _ _ (reconcile_web-IsTotal c) (check_stage-Answers h)))))))

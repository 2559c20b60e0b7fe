-- ===== src/Controller/Reconcile/Realised/AlongStages.antt =====
-- How a condition passes through the stages
-- (internal/controller/kubenova_controller.go).
use kube_nova_operator.Controller.Action.{Action, Session, on_option}
use kube_nova_operator.Controller.Action.Ensures.{
  Attempted, Ensures, Ensures-Relates, Ensures-attempt, Ensures-bind, Post,
}
use kube_nova_operator.Controller.Action.Rules.{Relates}
use kube_nova_operator.Controller.Cluster.{Cluster}
use kube_nova_operator.Controller.Reconcile.{Answer, check_stage, fail_stage, stage}
use kube_nova_operator.Controller.Reconcile.Answers.{fail_stage-answer}
use kube_nova_operator.Prelude.{Option, String, inl, inr, none, refl, some, subst, sym, ◌≡◌, ◌⊎◌}
use kube_nova_operator.Prelude.Results.{Error}

-- An error is answered, or the condition holds.
abbrev pub Unless : {W E : Type 0} → (Session W → Type 0) → Answer E → Session W → Type 0
Unless {W} {E} H a s = ((e : Error E) × (a.error ≡ some e)) ⊎ H s

module _ (c : Cluster) (H : Session c.World → Type 0) where
  fail_stage-Unless :
      (what : String) (e : Error c.ApiError)
      → Ensures (λ _. Unit {0}) (Unless H) (fail_stage c what e)
  fail_stage-Unless what e = record {
    at = λ s h.
        subst (λ r. Post (Unless H) (r, (fail_stage c what e s).1))
          (sym (fail_stage-answer c what e s)) (inl (e, refl));
  }

  -- A stage, and what follows it.
  pub stage-Unless :
      (I K : Session c.World → Type 0) (what : String) (m : Action c.World c.ApiError (Unit {0}))
      (rest : Action c.World c.ApiError (Answer c.ApiError))
      → Ensures I (λ _. K) m
      → Ensures K (Unless H) rest
      → Ensures I (Unless H) (stage c what m rest)
  unfolding stage on_option
  stage-Unless I K what m rest hm hr =
      Ensures-bind I (Attempted (λ _. K)) (Unless H) _ _ (Ensures-attempt I (λ _. K) m hm) goes_on
    where
      goes_on :
          (failure : Option (Error c.ApiError))
          → Ensures
              (Attempted {A = Unit {0}} (λ _. K) failure)
              (Unless H)
              (on_option failure rest (fail_stage c what))
      goes_on none = record { at = λ s h. hr.at s h.1 }
      goes_on (some e) = fail_stage-Unless what e

  -- The last stage, whose error is not answered.
  pub check_stage-Unless :
      (R : Session c.World → Session c.World → Type 0)
      → Relates R (check_stage c)
      → ((s t : Session c.World) → R s t → H s → H t)
      → Ensures H (Unless H) (check_stage c)
  check_stage-Unless R h k = Ensures-Relates H R (Unless H) _ h (λ a s t r p. inr (k s t r p))

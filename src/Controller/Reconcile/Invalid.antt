-- ===== src/Controller/Reconcile/Invalid.antt =====
-- A pass over an object that the validator rejects (internal/controller/kubenova_controller.go).
use kube_nova_operator.Api.{KubeNova}
use kube_nova_operator.Api.Status.{DeploymentPhase, validating}
use kube_nova_operator.Controller.Action.{Action, Session, call, modify, ◌>>=◌}
use kube_nova_operator.Controller.Action.Rules.{
  IsPreorder, Relates, Relates-bind, Relates-call, Relates-if, Relates-modify, Relates-on_reply,
  Relates-raise, action_rules,
}
use kube_nova_operator.Controller.Action.Sure.{Succeeds}
use kube_nova_operator.Controller.Cluster.{Cluster}
use kube_nova_operator.Controller.Reconcile.{
  Answer, after, answer, fail_stage, reconcile_validation, run_stages, stage,
}
use kube_nova_operator.Controller.Reconcile.Answers.{fail_stage-answer}
use kube_nova_operator.Controller.Status.{
  after_get, after_write, set_condition, set_status_phase, update_round, update_rounds,
  update_status_with_retry,
}
use kube_nova_operator.Prelude.{
  String, ap, none, refl, some, subst, suc, sym, zero, ℕ, ◌+◌, ◌∙◌, ◌≡◌,
}
use kube_nova_operator.Prelude.Results.{Error, Reply, err, ok}
use kube_nova_operator.Validator.{validate_kube_nova}

-- A relation between worlds that the clock, the pauses, and the reads and status writes of the
-- object keep: nothing else that is stored has changed.
pub record Quiet (c : Cluster) : Type 1 where
  pub R : c.World → c.World → Type 0
  pub same : (w : c.World) → R w w
  pub chain : (u v w : c.World) → R u v → R v w → R u w
  pub now : (w : c.World) → R w (c.now w).1
  pub sleep : (n : ℕ) (w : c.World) → R w (c.sleep n w)
  pub get : (namespace name : String) (w : c.World) → R w (c.kube_novas.get namespace name w).1
  pub update_status : (kn : KubeNova) (w : c.World) → R w (c.update_status kn w).1

module _ (c : Cluster) where
  -- The validator reads the specification only.
  validate_same_spec :
      (a b : KubeNova)
      → a.spec ≡ b.spec
      → validate_kube_nova {E = c.ApiError} a ≡ validate_kube_nova b
  unfolding validate_kube_nova
  validate_same_spec a b h = rw h refl

  pub reconcile_validation_passes :
      (s : Session c.World)
      → validate_kube_nova {E = c.ApiError} s.kube_nova ≡ none
      → Succeeds (reconcile_validation c s).0
  unfolding reconcile_validation set_status_phase set_condition ◌>>=◌
  reconcile_validation_passes s h =
      rw
        (validate_same_spec (set_status_phase c validating "正在验证配置" s).1.kube_nova s.kube_nova refl
          ∙ h)
        tt

module _ (c : Cluster) (q : Quiet c) where
  abbrev Keeps : Session c.World → Session c.World → Type 0
  Keeps s t = q.R s.world t.world

  Keeps-IsPreorder : IsPreorder Keeps
  Keeps-IsPreorder = record {
    same = λ s. q.same s.world;
    chain = λ s t u. q.chain s.world t.world u.world;
  }

  modify-Keeps : (f : KubeNova → KubeNova) → Relates Keeps (modify {E = c.ApiError} f)
  modify-Keeps f = Relates-modify Keeps Keeps-IsPreorder f (λ s. q.same s.world)

  now-Keeps : Relates Keeps (call {E = c.ApiError} c.now)
  now-Keeps = Relates-call Keeps Keeps-IsPreorder c.now (λ s. q.now s.world)

  get-Keeps : (ns name : String) → Relates Keeps (call {E = c.ApiError} (c.kube_novas.get ns name))
  get-Keeps ns name = Relates-call Keeps Keeps-IsPreorder _ (λ s. q.get ns name s.world)

  status-Keeps : (kn : KubeNova) → Relates Keeps (call {E = c.ApiError} (c.update_status kn))
  status-Keeps kn = Relates-call Keeps Keeps-IsPreorder _ (λ s. q.update_status kn s.world)

  sleep-Keeps : (n : ℕ) → Relates Keeps (call {E = c.ApiError} (λ w. (tt, c.sleep n w)))
  sleep-Keeps n = Relates-call Keeps Keeps-IsPreorder _ (λ s. q.sleep n s.world)

  module _ (retry : Action c.World c.ApiError (Unit {0})) (h : Relates Keeps retry) where
    after_write-Keeps :
        (i : ℕ) (r : Reply c.ApiError KubeNova) → Relates Keeps (after_write c retry i r)
    unfolding after_write
    after_write-Keeps i r =
        Relates-on_reply Keeps Keeps-IsPreorder r _ _ (λ latest. modify-Keeps _)
          (λ e.
            Relates-if Keeps Keeps-IsPreorder _ _ _
              (Relates-bind Keeps Keeps-IsPreorder _ _ (sleep-Keeps _) (λ _. h))
              (Relates-raise Keeps Keeps-IsPreorder _))

    after_get-Keeps :
        (i : ℕ) (kn : KubeNova) (r : Reply c.ApiError KubeNova)
        → Relates Keeps (after_get c retry i kn r)
    unfolding after_get
    after_get-Keeps i kn r =
        search (after_write-Keeps, status-Keeps, Keeps-IsPreorder, action_rules) depth 8

    update_round-Keeps : (i : ℕ) → Relates Keeps (update_round c retry i)
    unfolding update_round
    update_round-Keeps i =
        search (after_get-Keeps, get-Keeps, Keeps-IsPreorder, action_rules) depth 8

  update_rounds-Keeps : (left i : ℕ) → Relates Keeps (update_rounds c left i)
  unfolding update_rounds
  update_rounds-Keeps zero i = Relates-raise Keeps Keeps-IsPreorder _
  update_rounds-Keeps (suc left) i = update_round-Keeps _ (update_rounds-Keeps left (i + 1)) i

  pub update_status-Keeps : Relates Keeps (update_status_with_retry c)
  unfolding update_status_with_retry
  update_status-Keeps = update_rounds-Keeps 3 0

  pub set_status_phase-Keeps :
      (p : DeploymentPhase) (m : String) → Relates Keeps (set_status_phase c p m)
  unfolding set_status_phase
  set_status_phase-Keeps p m = search (now-Keeps, modify-Keeps, Keeps-IsPreorder, action_rules)

  set_condition-Keeps : (k st r m : String) → Relates Keeps (set_condition c k st r m)
  unfolding set_condition
  set_condition-Keeps k st r m = search (now-Keeps, modify-Keeps, Keeps-IsPreorder, action_rules)

  reconcile_validation-Keeps : Relates Keeps (reconcile_validation c)
  unfolding reconcile_validation
  reconcile_validation-Keeps =
      search (set_status_phase-Keeps, set_condition-Keeps, Keeps-IsPreorder, action_rules) depth 8

  fail_stage-Keeps : (what : String) (e : Error c.ApiError) → Relates Keeps (fail_stage c what e)
  unfolding fail_stage
  fail_stage-Keeps what e =
      search (set_status_phase-Keeps, update_status-Keeps, Keeps-IsPreorder, action_rules) depth 8

  reconcile_validation_fails :
      (s : Session c.World) (e : Error c.ApiError)
      → validate_kube_nova s.kube_nova ≡ some e
      → (reconcile_validation c s).0 ≡ err e
  unfolding reconcile_validation set_status_phase set_condition ◌>>=◌
  reconcile_validation_fails s e h =
      rw
        (validate_same_spec c (set_status_phase c validating "正在验证配置" s).1.kube_nova s.kube_nova
            refl
          ∙ h)
        refl

  stage_fails :
      (what : String) (m : Action c.World c.ApiError (Unit {0}))
      (rest : Action c.World c.ApiError (Answer c.ApiError)) (e : Error c.ApiError)
      (s : Session c.World)
      → (m s).0 ≡ err e
      → stage c what m rest s ≡ fail_stage c what e (m s).1
  unfolding stage ◌>>=◌
  stage_fails what m rest e s h = rw h refl

  -- A specification that the validator rejects creates nothing: the pass ends with the validator's
  -- error and another pass in 60 seconds, and the world is changed only by the clock, the pauses,
  -- and the reads and status writes of the object.
  pub run_stages_invalid :
      (s : Session c.World) (e : Error c.ApiError)
      → validate_kube_nova s.kube_nova ≡ some e
      → let (r, t) = run_stages c s in (r ≡ ok (answer (after 60) (some e))) × q.R s.world t.world
  unfolding run_stages
  run_stages_invalid s e h =
      let broken =
        stage_fails "配置验证失败" (reconcile_validation c) _ e s (reconcile_validation_fails s e h) in
      (
        ap (λ p. p.0) broken ∙ fail_stage-answer c _ e _,
        subst (λ p. q.R s.world p.1.world) (sym broken)
            (q.chain _ _ _ (reconcile_validation-Keeps.at s) ((fail_stage-Keeps _ e).at _)),
      )

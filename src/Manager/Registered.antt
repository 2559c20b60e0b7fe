-- ===== src/Manager/Registered.antt =====
-- What the exit status of cmd/main.go says.
use kube_nova_operator.Manager.Flags.{
  OtherFlags, Parsed, Settings, help_wanted, parse_flags, parsed, usage_error,
}
use kube_nova_operator.Manager.Options.{ManagerOptions, manager_options}
use kube_nova_operator.Manager.Start.{Runtime, controller_plan, main, or_exit, run_manager}
use kube_nova_operator.Prelude.{List, String, ap, arith, refl, subst, sym, ℕ, ◌∙◌, ◌≡◌, ◌≢◌}
use kube_nova_operator.Prelude.Results.{Reply, got, refused}

module _ (r : Runtime) where
  -- What the calls leave behind: a manager keeps what was registered with it.
  pub record Registry : Type 1 where
    pub HasController : r.Manager → r.World → Type 0
    pub HasHealth : r.Manager → r.World → Type 0
    pub HasReady : r.Manager → r.World → Type 0
    pub completed :
        (m : r.Manager) (w : r.World)
        → (r.complete m controller_plan w).0 ≡ got tt
        → HasController m (r.complete m controller_plan w).1
    pub health_added :
        (m : r.Manager) (w : r.World)
        → (r.add_healthz_check m "healthz" w).0 ≡ got tt
        → HasHealth m (r.add_healthz_check m "healthz" w).1
    pub health_keeps :
        (m : r.Manager) (w : r.World)
        → HasController m w
        → HasController m (r.add_healthz_check m "healthz" w).1
    pub ready_added :
        (m : r.Manager) (w : r.World)
        → (r.add_readyz_check m "readyz" w).0 ≡ got tt
        → HasReady m (r.add_readyz_check m "readyz" w).1
    pub ready_keeps :
        (m : r.Manager) (w : r.World)
        → HasController m w × HasHealth m w
        → HasController m (r.add_readyz_check m "readyz" w).1
          × HasHealth m (r.add_readyz_check m "readyz" w).1

  module _ (g : Registry) where
    -- The manager was started in the world `v`, complete, and ended without error in `w`.
    pub record HasRun (opts : ManagerOptions r.Tls) (w : r.World) : Type 0 where
      pub mgr : r.Manager
      pub made : (config : r.Config) × ((u : r.World) × ((r.new_manager config opts u).0 ≡ got mgr))
      pub v : r.World
      pub registered : (g.HasController mgr v × g.HasHealth mgr v) × g.HasReady mgr v
      pub started : (r.start mgr v).0 ≡ got tt
      pub ended : w ≡ (r.start mgr v).1

    -- Of this end an exit status of 0 says that the manager has run.
    pub record RunsAt (opts : ManagerOptions r.Tls) (p : ℕ × r.World) : Type 0 where
      pub at : p.0 ≡ 0 → HasRun opts p.1

    or_exit-RunsAt :
        {A : Type 0} (opts : ManagerOptions r.Tls) (p : Reply r.ApiError A × r.World)
        (rest : A → r.World → ℕ × r.World)
        → ((a : A) → p.0 ≡ got a → RunsAt opts (rest a p.1))
        → RunsAt opts (or_exit r p rest)
    unfolding or_exit
    or_exit-RunsAt opts (got a, w) rest h = h a refl
    or_exit-RunsAt opts (refused e, w) rest h = record { at = λ k. absurd (ground arith) }

    run_manager-RunsAt :
        (opts : ManagerOptions r.Tls) (w : r.World) → RunsAt opts (run_manager r opts w)
    unfolding run_manager
    run_manager-RunsAt opts w = or_exit-RunsAt opts _ _ (λ config h₁.
        or_exit-RunsAt opts _ _ (λ mgr h₂. or_exit-RunsAt opts _ _ (λ _ h₃.
          or_exit-RunsAt opts _ _ (λ _ h₄. or_exit-RunsAt opts _ _ (λ _ h₅.
            or_exit-RunsAt opts _ _ (λ _ h₆. record {
              at = λ k. record {
                mgr = mgr;
                made = (config, ((r.config w).1, h₂));
                v = _;
                registered = (
                  g.ready_keeps mgr _
                      (g.health_keeps mgr _ (g.completed mgr _ h₃), g.health_added mgr _ h₄),
                  g.ready_added mgr _ h₅,
                );
                started = h₆;
                ended = refl;
              };
            }))))))

    main_read :
        (o : OtherFlags) (others : o.Settings) (args : List String) (w : r.World) (s : Settings o)
        → parse_flags o args others ≡ parsed s
        → main r o others args w ≡ run_manager r (manager_options s.flags) w
    unfolding main
    main_read o others args w s e = rw (e, main) refl

    main_refused :
        (o : OtherFlags) (others : o.Settings) (args : List String) (w : r.World)
        → parse_flags o args others ≡ usage_error
        → main r o others args w ≡ (2, w)
    unfolding main
    main_refused o others args w e = rw (e, main) refl

    -- If the program exits with 0, and the command line was not a wish for help, it was read, and a
    -- manager made with the options of its flags has run and ended without error; when it was
    -- started, the controller, the health check and the readiness check were registered with it. A
    -- manager keeps what was registered with it.
    pub main_ran :
        (o : OtherFlags) (others : o.Settings) (args : List String) (w : r.World)
        → parse_flags o args others ≢ help_wanted
        → (main r o others args w).0 ≡ 0
        → (s : Settings o) × ((parse_flags o args others ≡ parsed s)
            × HasRun (manager_options s.flags) (main r o others args w).1)
    main_ran o others args w no_help h = read (parse_flags o args others) refl
      where
        read :
            (p : Parsed o)
            → parse_flags o args others ≡ p
            → (s : Settings o) × ((parse_flags o args others ≡ parsed s)
                × HasRun (manager_options s.flags) (main r o others args w).1)
        read usage_error e = absurd (two (ap (λ p. p.0) (sym (main_refused o others args w e)) ∙ h))
          where
            two : ◌≡◌ {A = ℕ} 2 0 → ⊥
            two k = ground arith
        read help_wanted e = absurd (no_help e)
        read (parsed s) e =
            let m = main_read o others args w s e in
            (
              s,
              (
                e,
                subst (λ p. HasRun (manager_options s.flags) p.1) (sym m)
                    ((run_manager-RunsAt (manager_options s.flags) w).at
                      (ap (λ p. p.0) (sym m) ∙ h)),
              ),
            )

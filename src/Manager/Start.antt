-- ===== src/Manager/Start.antt =====
-- `main` of cmd/main.go behind the flags, and `SetupWithManager` of
-- internal/controller/kubenova_controller.go.
use kube_nova_operator.Manager.Flags.{OtherFlags, help_wanted, parse_flags, parsed, usage_error}
use kube_nova_operator.Manager.Options.{ManagerOptions, manager_options}
use kube_nova_operator.Prelude.{List, String, [], ℕ, ◌∷◌}
use kube_nova_operator.Prelude.Results.{Reply, got, refused}

-- The kinds of the objects that the controller works for or owns.
pub data Kind : Type 0 where
  kube_nova_kind deployment_kind service_kind config_map_kind secret_kind : Kind
  service_account_kind ingress_kind : Kind

-- What `ctrl.NewControllerManagedBy(mgr)` is told before `Complete`.
pub record ControllerPlan : Type 0 where
  pub works_for : Kind
  pub owns : List Kind

abbrev pub controller_plan : ControllerPlan
controller_plan = record {
  works_for = kube_nova_kind;
  owns =
      deployment_kind ∷ service_kind ∷ config_map_kind ∷ secret_kind ∷ service_account_kind
      ∷ ingress_kind ∷ [];
}

-- The calls of controller-runtime that the program makes; nothing is assumed of them. `config` is
-- the one inside `GetConfigOrDie`.
pub record Runtime : Type 1 where
  pub World : Type 0
  pub ApiError : Type 0
  pub Config : Type 0
  pub Manager : Type 0
  pub Tls : Type 0
  pub config : World → Reply ApiError Config × World
  pub new_manager : Config → ManagerOptions Tls → World → Reply ApiError Manager × World
  pub complete : Manager → ControllerPlan → World → Reply ApiError (Unit {0}) × World
  pub add_healthz_check : Manager → String → World → Reply ApiError (Unit {0}) × World
  pub add_readyz_check : Manager → String → World → Reply ApiError (Unit {0}) × World
  pub start : Manager → World → Reply ApiError (Unit {0}) × World

module _ (r : Runtime) where
  open r use {World, ApiError}

  -- `if err != nil { os.Exit(1) }`, and the rest: the exit status and the world at the end.
  unfoldable pub or_exit :
      {A : Type 0} → Reply ApiError A × World → (A → World → ℕ × World) → ℕ × World
  or_exit (got a, w) rest = rest a w
  or_exit (refused _, w) rest = (1, w)

  -- `SetupWithManager`
  abbrev pub setup_with_manager : r.Manager → World → Reply ApiError (Unit {0}) × World
  setup_with_manager mgr = r.complete mgr controller_plan

  -- `main` behind the flags.
  unfoldable pub run_manager : ManagerOptions r.Tls → World → ℕ × World
  run_manager opts w = or_exit (r.config w) λ config w₁.
      or_exit (r.new_manager config opts w₁) λ mgr w₂. or_exit (setup_with_manager mgr w₂) λ _ w₃.
        or_exit (r.add_healthz_check mgr "healthz" w₃) λ _ w₄.
          or_exit (r.add_readyz_check mgr "readyz" w₄)
            λ _ w₅. or_exit (r.start mgr w₅) λ _ w₆. (0, w₆)

  -- `main`: a wrong command line exits with 2, and a wish for help with 0.
  unfoldable pub main : (o : OtherFlags) → o.Settings → List String → World → ℕ × World
  main o others args w = elim (parse_flags o args others) [
    | usage_error ↦ (2, w)
    | help_wanted ↦ (0, w)
    | parsed s ↦ run_manager (manager_options s.flags) w
  ]

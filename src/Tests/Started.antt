-- ===== src/Tests/Started.antt =====
-- A command line, a runtime that accepts every call, and the program entry at them.
use kube_nova_operator.Manager.Flags.{
  Flags, OtherFlags, Settings, default_flags, help_wanted, parse_bool, parse_flags, parsed,
  usage_error,
}
use kube_nova_operator.Manager.Hardening.{IsHardened, manager_options-IsHardened}
use kube_nova_operator.Manager.Options.{manager_options}
use kube_nova_operator.Manager.Registered.{HasRun, Registry, main_ran}
use kube_nova_operator.Manager.RoundTrip.{command_line, parse_flags-command_line}
use kube_nova_operator.Manager.Start.{Runtime, main, or_exit, run_manager}
use kube_nova_operator.Prelude.{
  Bool, List, String, [], arith, false, if◌then◌else◌, none, refl, some, true, ◌==◌, ◌∷◌, ◌≡◌, ◌≢◌,
}
use kube_nova_operator.Prelude.Results.{got}

-- One flag of zap, which needs no value.
abbrev zap_flags : OtherFlags
zap_flags = record {
  Settings = Bool;
  find = λ name. if name == "zap-devel" then some true else none;
  set = λ name value x. if name == "zap-devel" then parse_bool value else none;
}

-- An empty path and an address that begins with a dash.
abbrev odd_flags : Flags
odd_flags = record default_flags {
  metrics_addr = "-:8443";
  webhook_cert_path = "/certs";
  enable_leader_election = true;
  secure_metrics = false;
}

parse_flags-command_line_example :
    parse_flags zap_flags (command_line odd_flags) true
    ≡ parsed (record { flags = odd_flags; others = true })
parse_flags-command_line_example = parse_flags-command_line zap_flags odd_flags true

asks_for_help : parse_flags zap_flags ("--leader-elect" ∷ "-h" ∷ "--wrong" ∷ []) true ≡ help_wanted
unfolding parse_flags
asks_for_help = refl

not_a_bool : parse_flags zap_flags ("--metrics-secure=maybe" ∷ []) true ≡ usage_error
unfolding parse_flags
not_a_bool = refl

no_value : parse_flags zap_flags ("--metrics-bind-address" ∷ []) true ≡ usage_error
unfolding parse_flags
no_value = refl

abbrev elected : Settings zap_flags
elected = record { flags = record default_flags { enable_leader_election = true }; others = false }

-- The flags end at `--`.
ends_at_dashes :
    parse_flags zap_flags ("-leader-elect" ∷ "--zap-devel=0" ∷ "--" ∷ "--wrong" ∷ []) true
    ≡ parsed elected
unfolding parse_flags
ends_at_dashes = refl

manager_options-IsHardened_example : IsHardened {Other = Unit} odd_flags (manager_options odd_flags)
manager_options-IsHardened_example = manager_options-IsHardened odd_flags

-- What is registered with the one manager that there is.
record Running : Type 0 where
  has_controller : Bool
  has_health : Bool
  has_ready : Bool

abbrev runtime : Runtime
runtime = record {
  World = Running;
  ApiError = Unit;
  Config = Unit;
  Manager = Unit;
  Tls = Unit;
  config = λ w. (got tt, w);
  new_manager = λ config opts w. (got tt, w);
  complete = λ m plan w. (got tt, record w { has_controller = true });
  add_healthz_check = λ m name w. (got tt, record w { has_health = true });
  add_readyz_check = λ m name w. (got tt, record w { has_ready = true });
  start = λ m w. (got tt, w);
}

registry : Registry runtime
registry = record {
  HasController = λ m w. w.has_controller ≡ true;
  HasHealth = λ m w. w.has_health ≡ true;
  HasReady = λ m w. w.has_ready ≡ true;
  completed = λ m w h. refl;
  health_added = λ m w h. refl;
  health_keeps = λ m w h. h;
  ready_added = λ m w h. refl;
  ready_keeps = λ m w h. h;
}

abbrev idle : Running
idle = record { has_controller = false; has_health = false; has_ready = false }

abbrev elect_args : List String
elect_args = "--leader-elect" ∷ "--zap-devel=false" ∷ []

elect_read : parse_flags zap_flags elect_args true ≡ parsed elected
unfolding parse_flags
elect_read = refl

elect_no_help : parse_flags zap_flags elect_args true ≢ help_wanted
unfolding parse_flags
elect_no_help h = ground arith

elect_status : (main runtime zap_flags true elect_args idle).0 ≡ 0
unfolding main run_manager or_exit parse_flags
elect_status = refl

main_ran_example :
    (s : Settings zap_flags) × ((parse_flags zap_flags elect_args true ≡ parsed s)
      × HasRun runtime registry
          (manager_options s.flags)
          (main runtime zap_flags true elect_args idle).1)
main_ran_example =
    main_ran runtime registry zap_flags true elect_args idle elect_no_help elect_status

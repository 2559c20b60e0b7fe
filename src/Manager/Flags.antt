-- ===== src/Manager/Flags.antt =====
-- The command line of cmd/main.go, as Go's flag package reads it.
use Prim.Native.Char.{Char, code}
use kube_nova_operator.Controller.Ensure.{write}
use kube_nova_operator.Prelude.{
  Bool, List, Option, String, [], false, if◌then◌else◌, nat_eq, none, some, true, ℕ, ◌==◌, ◌||◌,
  ◌∷◌,
}

-- The variables of `main` that flags write to.
pub record Flags : Type 0 where
  pub metrics_addr : String
  pub metrics_cert_path : String
  pub metrics_cert_name : String
  pub metrics_cert_key : String
  pub webhook_cert_path : String
  pub webhook_cert_name : String
  pub webhook_cert_key : String
  pub enable_leader_election : Bool
  pub probe_addr : String
  pub secure_metrics : Bool
  pub enable_http2 : Bool

-- The defaults of the `flag.StringVar` and `flag.BoolVar` calls.
abbrev pub default_flags : Flags
default_flags = record {
  metrics_addr = "0";
  metrics_cert_path = "";
  metrics_cert_name = "tls.crt";
  metrics_cert_key = "tls.key";
  webhook_cert_path = "";
  webhook_cert_name = "tls.crt";
  webhook_cert_key = "tls.key";
  enable_leader_election = false;
  probe_addr = ":8081";
  secure_metrics = true;
  enable_http2 = false;
}

-- What a flag of `main` writes to.
pub data FlagTarget : Type 0 where
  text_var : (String → Flags → Flags) → FlagTarget
  bool_var : (Bool → Flags → Flags) → FlagTarget

-- The table that the calls of `flag.StringVar` and `flag.BoolVar` fill.
abbrev pub own_flag : String → Option FlagTarget
own_flag name =
    if name == "metrics-bind-address"
    then some (text_var (λ v f. record f { metrics_addr = v }))
    else if name == "health-probe-bind-address"
    then some (text_var (λ v f. record f { probe_addr = v }))
    else if name == "leader-elect"
    then some (bool_var (λ v f. record f { enable_leader_election = v }))
    else if name == "metrics-secure"
    then some (bool_var (λ v f. record f { secure_metrics = v }))
    else if name == "webhook-cert-path"
    then some (text_var (λ v f. record f { webhook_cert_path = v }))
    else if name == "webhook-cert-name"
    then some (text_var (λ v f. record f { webhook_cert_name = v }))
    else if name == "webhook-cert-key"
    then some (text_var (λ v f. record f { webhook_cert_key = v }))
    else if name == "metrics-cert-path"
    then some (text_var (λ v f. record f { metrics_cert_path = v }))
    else if name == "metrics-cert-name"
    then some (text_var (λ v f. record f { metrics_cert_name = v }))
    else if name == "metrics-cert-key"
    then some (text_var (λ v f. record f { metrics_cert_key = v }))
    else if name == "enable-http2"
    then some (bool_var (λ v f. record f { enable_http2 = v }))
    else none

-- The flags that other packages have registered: those of zap, by `opts.BindFlags`, and the one of
-- controller-runtime. `find` says of a name whether it is a flag that needs no value, and `set` is
-- none if the value is refused.
pub record OtherFlags : Type 1 where
  pub Settings : Type 0
  pub find : String → Option Bool
  pub set : String → String → Settings → Option Settings

-- `strconv.ParseBool`
abbrev pub parse_bool : String → Option Bool
parse_bool s =
    if s == "1" || s == "t" || s == "T" || s == "true" || s == "TRUE" || s == "True"
    then some true
    else if s == "0" || s == "f" || s == "F" || s == "false" || s == "FALSE" || s == "False"
    then some false
    else none

abbrev is_code : ℕ → Char → Bool
is_code n c = nat_eq (code c) n

-- The name of a flag and its value, which the first `=` separates.
abbrev pub cut_value : String → String × Option String
cut_value String.[] = ("", none)
cut_value (String.◌∷◌ c s) =
    let (name, value) = cut_value s in
    if is_code b'=' c then ("", some s) else (String.◌∷◌ c name, value)

-- An argument, as `parseOne` reads it.
pub data Argument : Type 0 where
  no_flag : Argument
  end_mark : Argument
  bad_syntax : Argument
  a_flag : String → Option String → Argument

-- What stands behind the dashes.
abbrev pub named_flag : String → Argument
named_flag String.[] = bad_syntax
named_flag (String.◌∷◌ c s) =
    if is_code b'-' c || is_code b'=' c
    then bad_syntax
    else let (name, value) = cut_value (String.◌∷◌ c s) in a_flag name value

abbrev pub after_dash : String → Argument
after_dash String.[] = no_flag
after_dash (String.◌∷◌ c String.[]) =
    if is_code b'-' c then end_mark else named_flag (String.◌∷◌ c "")
after_dash (String.◌∷◌ c (String.◌∷◌ d s)) =
    if is_code b'-' c
    then named_flag (String.◌∷◌ d s)
    else named_flag (String.◌∷◌ c (String.◌∷◌ d s))

abbrev pub read_argument : String → Argument
read_argument String.[] = no_flag
read_argument (String.◌∷◌ c s) = if is_code b'-' c then after_dash s else no_flag

module _ (o : OtherFlags) where
  pub record Settings : Type 0 where
    pub flags : Flags
    pub others : o.Settings

  -- What an argument does: it ends the flags, is wrong, asks for help, waits for its value, or is
  -- set.
  pub data Effect : Type 0 where
    ends : Effect
    is_wrong : Effect
    asks_help : Effect
    waits : Effect
    sets : Settings → Effect

  abbrev pub settles : Option Settings → Effect
  settles none = is_wrong
  settles (some s) = sets s

  abbrev pub set_bool : (Bool → Flags → Flags) → String → Settings → Option Settings
  set_bool write value s = elim (parse_bool value) [
    | none ↦ none
    | some b ↦ some (record s { flags = write b s.flags })
  ]

  abbrev pub set_other : String → String → Settings → Option Settings
  set_other name value s = elim (o.set name value s.others) [
    | none ↦ none
    | some x ↦ some (record s { others = x })
  ]

  -- `Set` on the flag of this name, which there is.
  abbrev pub set_flag : String → String → Settings → Option Settings
  set_flag name value s = elim (own_flag name) [
    | some (text_var write) ↦ some (record s { flags = write value s.flags })
    | some (bool_var write) ↦ set_bool write value s
    | none ↦ set_other name value s
  ]

  -- Whether the flag needs no value; none if there is no such flag.
  abbrev pub is_bool_flag : String → Option Bool
  is_bool_flag name = elim (own_flag name) [
    | some (text_var _) ↦ some false
    | some (bool_var _) ↦ some true
    | none ↦ o.find name
  ]

  abbrev pub apply_flag : String → Option String → Settings → Effect
  apply_flag name value s = elim (is_bool_flag name) [
    | none ↦ if name == "help" || name == "h" then asks_help else is_wrong
    | some true ↦ elim value [
      | none ↦ settles (set_flag name "true" s)
      | some v ↦ settles (set_flag name v s)
    ]
    | some false ↦ elim value [ none ↦ waits | some v ↦ settles (set_flag name v s) ]
  ]

  -- How the reading of the command line ends.
  pub data Parsed : Type 0 where
    usage_error : Parsed
    help_wanted : Parsed
    parsed : Settings → Parsed

  abbrev flag_name : Argument → String
  flag_name (a_flag name _) = name
  flag_name _ = ""

  abbrev effect_of : Argument → Settings → Effect
  effect_of no_flag s = ends
  effect_of end_mark s = ends
  effect_of bad_syntax s = is_wrong
  effect_of (a_flag name value) s = apply_flag name value s

  -- The loop over the arguments; a flag may wait for its value.
  unfoldable pub parse_loop : List String → Option String → Settings → Parsed
  parse_loop [] none s = parsed s
  parse_loop [] (some name) s = usage_error
  parse_loop (value ∷ args) (some name) s = elim (set_flag name value s) [
    | none ↦ usage_error
    | some s' ↦ parse_loop args none s'
  ]
  parse_loop (a ∷ args) none s = elim (effect_of (read_argument a) s) [
    | ends ↦ parsed s
    | is_wrong ↦ usage_error
    | asks_help ↦ help_wanted
    | waits ↦ parse_loop args (some (flag_name (read_argument a))) s
    | sets s' ↦ parse_loop args none s'
  ]

  -- `flag.Parse()`
  unfoldable pub parse_flags : List String → o.Settings → Parsed
  unfolding parse_loop
  parse_flags args others = parse_loop args none (record { flags = default_flags; others = others })

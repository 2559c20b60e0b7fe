-- ===== src/Manager/RoundTrip.antt =====
-- The flags of cmd/main.go can all be written on the command line.
use kube_nova_operator.Manager.Flags.{Flags, OtherFlags, parse_flags, parsed}
use kube_nova_operator.Prelude.{Bool, List, String, [], false, join, refl, true, ◌∷◌, ◌≡◌}

abbrev pub switch : Bool → String → String
switch true name = join ("--" ∷ name ∷ [])
switch false name = join ("--" ∷ name ∷ "=false" ∷ [])

-- A command line that says each flag: a value stands behind its name.
abbrev pub command_line : Flags → List String
command_line f =
    switch f.enable_leader_election "leader-elect"
    ∷ switch f.secure_metrics "metrics-secure"
    ∷ switch f.enable_http2 "enable-http2"
    ∷ "--metrics-bind-address"
    ∷ f.metrics_addr
    ∷ "--metrics-cert-path"
    ∷ f.metrics_cert_path
    ∷ "--metrics-cert-name"
    ∷ f.metrics_cert_name
    ∷ "--metrics-cert-key"
    ∷ f.metrics_cert_key
    ∷ "--webhook-cert-path"
    ∷ f.webhook_cert_path
    ∷ "--webhook-cert-name"
    ∷ f.webhook_cert_name
    ∷ "--webhook-cert-key"
    ∷ f.webhook_cert_key
    ∷ "-health-probe-bind-address"
    ∷ f.probe_addr
    ∷ []

module _ (o : OtherFlags) where
  -- By the three switches, at the values of the others.
  read_switches :
      (elect secure http2 : Bool) (f : Flags) (x : o.Settings)
      → let g = record f {
        enable_leader_election = elect;
        secure_metrics = secure;
        enable_http2 = http2;
      } in
        parse_flags o (command_line g) x ≡ parsed (record { flags = g; others = x })
  unfolding parse_flags
  read_switches true true true f x = refl
  read_switches true true false f x = refl
  read_switches true false true f x = refl
  read_switches true false false f x = refl
  read_switches false true true f x = refl
  read_switches false true false f x = refl
  read_switches false false true f x = refl
  read_switches false false false f x = refl

  -- Any values of the flags, also texts that begin with a dash or are empty, can be passed on the
  -- command line: they are read as they were written, each into its own variable, and the flags of
  -- other packages are left alone.
  pub parse_flags-command_line :
      (f : Flags) (x : o.Settings)
      → parse_flags o (command_line f) x ≡ parsed (record { flags = f; others = x })
  parse_flags-command_line f x =
      read_switches f.enable_leader_election f.secure_metrics f.enable_http2 f x

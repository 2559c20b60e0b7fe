-- ===== src/Builder/ConfigMaps/Placeholders.antt =====
-- The variables that the configuration files name, `${NAME}`, against the environment that the
-- pods have: the entries of the Secret, and POD_NAMESPACE.
use Prim.Native.String
use Prim.Native.Char.{Char, code}
use kube_nova_operator.Api.{KubeNova}
use kube_nova_operator.Builder.Checksum.{entry}
use kube_nova_operator.Builder.ConfigMaps.{build_all_config_maps}
use kube_nova_operator.Builder.ConfigMaps.ApiTexts.{
  console_api_config, manager_api_config, portal_api_config, workload_api_config,
}
use kube_nova_operator.Builder.ConfigMaps.RpcTexts.{
  console_rpc_config, manager_rpc_config, portal_rpc_config,
}
use kube_nova_operator.Builder.Secret.{build_secret, secret_data}
use kube_nova_operator.Builder.Service.{ServiceSetup}
use kube_nova_operator.Builder.Service.Pod.{service_container}
use kube_nova_operator.Kube.{ConfigMap, Secret}
use kube_nova_operator.Kube.Workload.{Container}
use kube_nova_operator.Prelude.{
  All, Bool, List, String, [], all, any, arith, false, if◌then◌else◌, length, ltb, nat_eq, none,
  refl, some, true, ◌&&◌, ◌++◌, ◌==◌, ◌||◌, ◌∷◌, ◌≡◌,
}
use kube_nova_operator.Prelude.Int.{ℤ}
use kube_nova_operator.Prelude.Maps.{Map, lookup}

-- Where a reader of a file is: outside a variable, behind a dollar sign, or inside the braces with
-- the name read so far.
data Mode : Type 0 where
  outside : Mode
  dollar : Mode
  inside : String → Mode

next_mode : Mode → Char → Mode
next_mode outside c = if nat_eq (code c) b'$' then dollar else outside
next_mode dollar c = if nat_eq (code c) b'{' then inside "" else outside
next_mode (inside name) c =
    if nat_eq (code c) b'}' then outside else inside (String.◌++◌ name (String.◌∷◌ c String.[]))

closed_by : Mode → Char → List String
closed_by (inside name) c = if nat_eq (code c) b'}' then name ∷ [] else []
closed_by _ c = []

-- The names between `${` and `}`, in order.
placeholders_from : Mode → String → List String
placeholders_from m String.[] = []
placeholders_from m (String.◌∷◌ c s) = closed_by m c ++ placeholders_from (next_mode m c) s

pub placeholders : String → List String
unfolding placeholders_from next_mode closed_by
placeholders s = placeholders_from outside s

abbrev pub has_key {ℓ} : {V : Type ℓ} → Map V → String → Bool
has_key m k = elim (lookup k m) [ none ↦ false | some _ ↦ true ]

-- A container finds the variable in its environment: as an entry of a Secret that it imports, or
-- as a variable of its own.
abbrev pub in_environment : Secret → Container → String → Bool
in_environment s k v =
    (any (λ n. n == s.metadata.name) k.env_from && has_key s.entries v)
    || any (λ e. e.name == v) k.env

All-of_all {ℓ} :
    {A : Type ℓ} (p : A → Bool) (xs : List A) → all p xs ≡ true → All (λ x. p x ≡ true) xs
All-of_all p [] h = tt
All-of_all p (x ∷ xs) h = (ground arith, All-of_all p xs (ground arith))

-- The variables of one ConfigMap's file.
abbrev pub variables : ConfigMap → List String
variables cm = placeholders (entry "config.yaml" cm.entries)

-- Every variable that a configuration file names is in the environment of the container of every
-- back-end service.
pub config_maps_closed :
    (kn : KubeNova) (namespace node_ip : String) (node_port : ℤ) (cfg : ServiceSetup)
    → All
        (λ cm.
          all
            (in_environment (build_secret kn namespace node_ip node_port) (service_container cfg))
            (variables cm)
          ≡ true)
        (build_all_config_maps kn namespace)
unfolding build_all_config_maps build_secret secret_data placeholders service_container
    portal_api_config portal_rpc_config manager_api_config manager_rpc_config workload_api_config
    console_api_config console_rpc_config
config_maps_closed kn namespace node_ip node_port cfg =
    All-of_all
      (λ cm.
        all (in_environment (build_secret kn namespace node_ip node_port) (service_container cfg))
          (variables cm))
      (build_all_config_maps kn namespace) refl

-- The files do name variables, eight or more each.
variables_test :
    (kn : KubeNova)
    → all (λ cm. ltb 7 (length (variables cm))) (build_all_config_maps kn "nova") ≡ true
unfolding build_all_config_maps placeholders portal_api_config portal_rpc_config manager_api_config
    manager_rpc_config workload_api_config console_api_config console_rpc_config
variables_test kn = refl

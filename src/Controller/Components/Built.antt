-- ===== src/Controller/Components/Built.antt =====
-- The services whose status is checked are those that are built (BuildAllServices of
-- internal/builder/service.go, checkComponentStatus of
-- internal/controller/kubenova_controller.go).
use kube_nova_operator.Api.{KubeNova}
use kube_nova_operator.Api.Methods.{get_replicas, is_service_enabled}
use kube_nova_operator.Api.Spec.{ServiceConfig, ServicesConfig}
use kube_nova_operator.Builder.Service.{ServiceResources, ServiceSetup}
use kube_nova_operator.Builder.Service.All.{
  ServiceEntry, all_entries, build_all_services, build_entries, console_api_setup,
  console_rpc_setup, manager_api_setup, manager_rpc_setup, portal_api_setup, portal_rpc_setup,
  workload_api_setup,
}
use kube_nova_operator.Builder.Service.Pod.{build_deployment, build_k8s_service, build_service}
use kube_nova_operator.Controller.Components.{service_names}
use kube_nova_operator.Controller.Ensure.Laws.{IsNamed}
use kube_nova_operator.Prelude.{
  All, Bool, List, Option, String, [], all, any, arith, eq_iff, eq_refl, false, if◌then◌else◌, none,
  not, refl, some, true, ◌&&◌, ◌==◌, ◌∙◌, ◌∷◌, ◌≡◌,
}
use kube_nova_operator.Prelude.Maps.{Map, lookup}

-- The setting of the specification that goes by the name of a service.
abbrev pub setting_named : String → ServicesConfig → Option ServiceConfig
setting_named name s =
    if name == "portal-api"
    then s.portal_api
    else if name == "portal-rpc"
    then s.portal_rpc
    else if name == "manager-api"
    then s.manager_api
    else if name == "manager-rpc"
    then s.manager_rpc
    else if name == "workload-api"
    then s.workload_api
    else if name == "console-api"
    then s.console_api
    else if name == "console-rpc"
    then s.console_rpc
    else none

-- What is built for a service: a Deployment and a Service of its name, with the replicas of its
-- setting.
pub record IsServiceOf (namespace name : String) (setting : Option ServiceConfig)
    (r : ServiceResources) : Type 0 where
  pub deployment_named : IsNamed namespace name r.deployment.metadata
  pub service_named : IsNamed namespace name r.service.metadata
  pub replicas : r.deployment.spec.replicas ≡ some (get_replicas setting)

-- A service is in the map under its name, unless its setting switches it off.
pub record IsBuilt (m : Map ServiceResources) (namespace name : String)
    (setting : Option ServiceConfig) : Type 0 where
  pub on :
      is_service_enabled setting ≡ true
      → (r : ServiceResources) × ((lookup name m ≡ some r) × IsServiceOf namespace name setting r)
  pub off : is_service_enabled setting ≡ false → lookup name m ≡ none

-- No entry of the list has this key.
abbrev is_unused : String → List ServiceEntry → Bool
is_unused k = all (λ e. not (e.key == k) && not (k == e.key))

abbrev distinct_keys : List ServiceEntry → Bool
distinct_keys [] = true
distinct_keys (e ∷ es) = is_unused e.key es && distinct_keys es

eq_sym-false : (s t : String) → (s == t) ≡ false → (t == s) ≡ false
eq_sym-false s t h = ground (arith, h, eq_iff s t, eq_iff t s)

module _ (kn : KubeNova) (namespace : String) where
  abbrev IsFound : Map ServiceResources → ServiceEntry → Type 0
  IsFound m e =
      lookup e.key m
      ≡ (if is_service_enabled e.setting then some (build_service kn namespace e.setup) else none)

  lookup-build_entries_unused :
      (k : String) (es : List ServiceEntry)
      → is_unused k es ≡ true
      → lookup k (build_entries kn namespace es) ≡ none
  lookup-build_entries_unused k [] h = refl
  lookup-build_entries_unused k (e ∷ es) h = ground (arith, lookup-build_entries_unused k es)

  lookup-build_entries_head :
      (e : ServiceEntry) (es : List ServiceEntry)
      → is_unused e.key es ≡ true
      → IsFound (build_entries kn namespace (e ∷ es)) e
  lookup-build_entries_head e es h =
      ground (arith, eq_refl e.key, lookup-build_entries_unused e.key es h)

  tail-IsFound :
      (e : ServiceEntry) (es others : List ServiceEntry)
      → is_unused e.key others ≡ true
      → All (IsFound (build_entries kn namespace es)) others
      → All (IsFound (build_entries kn namespace (e ∷ es))) others
  tail-IsFound e es [] h f = tt
  tail-IsFound e es (other ∷ others) h f =
      (ground (arith, f.0), tail-IsFound e es others (ground arith) f.1)

  every-IsFound :
      (es : List ServiceEntry)
      → distinct_keys es ≡ true
      → All (IsFound (build_entries kn namespace es)) es
  every-IsFound [] h = tt
  every-IsFound (e ∷ es) h = (
    lookup-build_entries_head e es (ground arith),
    tail-IsFound e es es (ground arith) (every-IsFound es (ground arith)),
  )

  -- What is built from a setup is for the service of its name.
  setup-IsServiceOf :
      (cfg : ServiceSetup)
      → IsServiceOf namespace cfg.name cfg.service_config (build_service kn namespace cfg)
  unfolding build_service build_deployment build_k8s_service
  setup-IsServiceOf cfg = record {
    deployment_named = record { namespace_is = refl; name_is = refl };
    service_named = record { namespace_is = refl; name_is = refl };
    replicas = refl;
  }

  found-IsBuilt :
      (m : Map ServiceResources) (e : ServiceEntry)
      → IsServiceOf namespace e.key e.setting (build_service kn namespace e.setup)
      → IsFound m e
      → IsBuilt m namespace e.key e.setting
  found-IsBuilt m e f h = record {
    on = λ on. (build_service kn namespace e.setup, (h ∙ rw on refl, f));
    off = λ off. h ∙ rw off refl;
  }

  all-IsBuilt :
      (m : Map ServiceResources)
      → All (IsFound m) (all_entries kn)
      → All (λ name. IsBuilt m namespace name (setting_named name kn.spec.services)) service_names
  all-IsBuilt m (a, (b, (d, (e, (f, (g, (h, _))))))) = (
    found-IsBuilt m _ (setup-IsServiceOf (portal_api_setup kn)) a,
    (
      found-IsBuilt m _ (setup-IsServiceOf (portal_rpc_setup kn)) b,
      (
        found-IsBuilt m _ (setup-IsServiceOf (manager_api_setup kn)) d,
        (
          found-IsBuilt m _ (setup-IsServiceOf (manager_rpc_setup kn)) e,
          (
            found-IsBuilt m _ (setup-IsServiceOf (workload_api_setup kn)) f,
            (
              found-IsBuilt m _ (setup-IsServiceOf (console_api_setup kn)) g,
              (found-IsBuilt m _ (setup-IsServiceOf (console_rpc_setup kn)) h, tt),
            ),
          ),
        ),
      ),
    ),
  )

  only_checked :
      (k : String)
      → any (λ name. name == k) service_names ≡ false
      → lookup k (build_entries kn namespace (all_entries kn)) ≡ none
  only_checked k h = lookup-build_entries_unused k (all_entries kn) (
      ground (
        arith,
        h,
        eq_sym-false "portal-api" k,
        eq_sym-false "portal-rpc" k,
        eq_sym-false "manager-api" k,
        eq_sym-false "manager-rpc" k,
        eq_sym-false "workload-api" k,
        eq_sym-false "console-api" k,
        eq_sym-false "console-rpc" k,
      ))

  -- The map of the back-end services has exactly the services whose status is checked: each of those
  -- is in it under its name, unless the setting of that name switches it off, and then it is absent;
  -- no other key is in the map. What is built for a service are a Deployment and a Service of
  -- its name in the namespace, with the replicas of its setting.
  pub build_all_services_lem :
      All
        (λ name.
          IsBuilt
            (build_all_services kn namespace)
            namespace
            name
            (setting_named name kn.spec.services))
        service_names
      × ((k : String)
          → any (λ name. name == k) service_names ≡ false
          → lookup k (build_all_services kn namespace) ≡ none)
  unfolding build_all_services
  build_all_services_lem = (all-IsBuilt _ (every-IsFound (all_entries kn) refl), only_checked)

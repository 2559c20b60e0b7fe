-- ===== src/Tests/Server.antt =====
-- A small API server for the examples: it keeps one KubeNova, the ConfigMaps and the Secrets, whether the
-- ClusterRoleBinding is there, and meters of the clock, the pauses, and the reads and status writes of the KubeNova. Every
-- Deployment is there and ready; of all other kinds nothing is there.
use kube_nova_operator.Api.{KubeNova}
use kube_nova_operator.Api.Methods.{get_image_registry}
use kube_nova_operator.Builder.Rbac.{build_cluster_role_binding}
use kube_nova_operator.Builder.Service.All.{plain_setup}
use kube_nova_operator.Builder.Service.Pod.{build_deployment}
use kube_nova_operator.Controller.Action.{Session}
use kube_nova_operator.Controller.Cluster.{Cluster, Store}
use kube_nova_operator.Kube.{ConfigMap, ObjectMeta, Secret, object_meta}
use kube_nova_operator.Kube.Network.{Service}
use kube_nova_operator.Kube.Workload.{Deployment, Quantity, must_parse, new_quantity}
use kube_nova_operator.Prelude.{
  Bool, List, Option, String, [], any, false, if◌then◌else◌, nat_eq, none, some, true, ℕ, ◌&&◌, ◌+◌,
  ◌==◌, ◌∷◌,
}
use kube_nova_operator.Prelude.Int.{pos}
use kube_nova_operator.Prelude.MapLaws.{has_key_once}
use kube_nova_operator.Prelude.Results.{Reply, got, refused}
use kube_nova_operator.Tests.{nova}

pub data ServerError : Type 0 where
  no_object : ServerError
  stale_object : ServerError

pub record Server : Type 0 where
  pub clock : ℕ
  pub paused : ℕ
  pub requests : ℕ
  pub has_binding : Bool
  pub config_maps : List ConfigMap
  pub secrets : List Secret
  pub deployments : List Deployment
  pub services : List Service
  pub kube_nova : KubeNova

-- Objects of which the server keeps a list, the last one that was written first.
module _ {A : Type 0} (meta : A → ObjectMeta) (sound : A → Bool) where
  abbrev pub matches : String → String → A → Bool
  matches ns name a = (meta a).namespace == ns && (meta a).name == name

  abbrev pub stored : String → String → List A → Option A
  stored ns name [] = none
  stored ns name (a ∷ rest) = if matches ns name a then some a else stored ns name rest

  abbrev pub answer_stored : Option A → Reply ServerError A
  answer_stored none = refused no_object
  answer_stored (some a) = if sound a then got a else refused no_object

-- A kind of object of which there is none.
abbrev pub nothing_there : {A : Type 0} → Store Server ServerError A
nothing_there = record {
  get = λ ns name w. (refused no_object, w);
  create = λ a w. (got tt, w);
  update = λ a w. (got a, w);
  delete = λ a w. (got tt, w);
}

abbrev pub ready_deployment : String → String → Deployment
ready_deployment ns name =
    let d =
      build_deployment nova ns
        (plain_setup (get_image_registry nova) name (pos 80) "" none "api") in
    record {
      metadata = object_meta name ns [];
      spec = record (d.spec) { replicas = some (pos 2) };
      ready_replicas = pos 2;
    }

abbrev same_quantity : Quantity → Quantity → Bool
same_quantity (must_parse s) (must_parse t) = s == t
same_quantity (new_quantity m f) (new_quantity n g) = nat_eq m n && f == g
same_quantity (must_parse _) (new_quantity _ _) = false
same_quantity (new_quantity _ _) (must_parse _) = false

abbrev pub server : Cluster
server = record {
  World = Server;
  ApiError = ServerError;
  is_not_found = λ e. elim e [ no_object ↦ true | stale_object ↦ false ];
  is_conflict = λ e. elim e [ no_object ↦ false | stale_object ↦ true ];
  api_error_text = λ e. elim e [ no_object ↦ "not found" | stale_object ↦ "stale_object" ];
  now = λ w. (w.clock, record w { clock = w.clock + 1 });
  sleep = λ n w. record w { paused = w.paused + n };
  kube_novas = record {
    get = λ ns name w. (got w.kube_nova, record w { requests = w.requests + 1 });
    create = λ a w. (got tt, w);
    update = λ a w. (got a, record w { kube_nova = a });
    delete = λ a w. (got tt, w);
  };
  update_status = λ a w. (got a, record w { kube_nova = a; requests = w.requests + 1 });
  namespaces = nothing_there;
  service_accounts = nothing_there;
  cluster_role_bindings = record {
    get = λ ns name w. (
      if w.has_binding
          then got (build_cluster_role_binding nova nova.metadata.namespace)
          else refused no_object,
      w,
    );
    create = λ a w. (got tt, record w { has_binding = true });
    update = λ a w. (got a, w);
    delete = λ a w. (got tt, record w { has_binding = false });
  };
  secrets = record {
    get = λ ns name w. (
      answer_stored (λ a. a.metadata) (λ a. has_key_once a.entries)
          (stored (λ a. a.metadata) (λ a. has_key_once a.entries) ns name w.secrets),
      w,
    );
    create = λ a w. (got tt, record w { secrets = a ∷ w.secrets });
    update = λ a w. (got a, record w { secrets = a ∷ w.secrets });
    delete = λ a w. (got tt, record w { secrets = [] });
  };
  config_maps = record {
    get = λ ns name w. (
      answer_stored (λ a. a.metadata) (λ a. has_key_once a.entries)
          (stored (λ a. a.metadata) (λ a. has_key_once a.entries) ns name w.config_maps),
      w,
    );
    create = λ a w. (got tt, record w { config_maps = a ∷ w.config_maps });
    update = λ a w. (got a, record w { config_maps = a ∷ w.config_maps });
    delete = λ a w. (got tt, record w { config_maps = [] });
  };
  deployments = record {
    get = λ ns name w. (got (ready_deployment ns name), w);
    create = λ a w. (got tt, w);
    update = λ a w. (got a, w);
    delete = λ a w. (got tt, w);
  };
  services = nothing_there;
  ingresses = nothing_there;
  list_nodes = λ w. (got [], w);
  set_controller_reference =
      λ kn m. got (record m { labels = ("owner", kn.metadata.name) ∷ m.labels });
  contains_finalizer = λ kn f. any (λ g. g == f) kn.metadata.finalizers;
  add_finalizer = λ kn f. record kn {
    metadata = record (kn.metadata) { finalizers = f ∷ kn.metadata.finalizers };
  };
  remove_finalizer = λ kn f. record kn { metadata = record (kn.metadata) { finalizers = [] } };
  set_status_condition = λ t ks k. k ∷ ks;
  quantity_equal = same_quantity;
  range_services = λ m. m;
}

abbrev pub demo_world : Server
demo_world = record {
  clock = 1;
  paused = 0;
  requests = 0;
  has_binding = true;
  config_maps = [];
  secrets = [];
  deployments = [];
  services = [];
  kube_nova = nova;
}

abbrev pub opened : KubeNova → Session Server
opened kn = record { world = demo_world; kube_nova = kn }

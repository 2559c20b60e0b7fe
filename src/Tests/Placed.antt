-- ===== src/Tests/Placed.antt =====
-- The theorems on a pass that finds its objects in place, at a server that keeps Deployments and
-- Services, on which console-api is deployed.
use kube_nova_operator.Builder.Service.{ServiceResources, get_service_resources}
use kube_nova_operator.Builder.Service.All.{console_api_setup}
use kube_nova_operator.Builder.Service.Pod.{
  build_deployment, build_k8s_service, build_service, service_container,
}
use kube_nova_operator.Controller.Action.{Session}
use kube_nova_operator.Controller.Cluster.{Cluster}
use kube_nova_operator.Controller.Compare.Defaulted.{SameContainers, SameVars, SameVolumes}
use kube_nova_operator.Controller.Compare.Missed.{service_mounts-HasDistinctMounts}
use kube_nova_operator.Controller.Compare.Refl.{FirstIsComparable}
use kube_nova_operator.Controller.Components.{service_names, survey}
use kube_nova_operator.Controller.Components.Ready.{Undisturbed, counts, survey_lem}
use kube_nova_operator.Controller.Workloads.{deploy_services}
use kube_nova_operator.Controller.Workloads.Idle.{IsInPlace, ReadOnly, deploy_services-Idles}
use kube_nova_operator.Kube.Workload.{Container, Deployment, EnvVar, Volume, empty_dir, must_parse}
use kube_nova_operator.Prelude.{List, [], all, map, refl, true, ◌&&◌, ◌∙◌, ◌∷◌, ◌≡◌}
use kube_nova_operator.Prelude.Int.{pos}
use kube_nova_operator.Prelude.Results.{got, ok}
use kube_nova_operator.Tests.{nova}
use kube_nova_operator.Tests.Deploying.{deploying_server, deploying_server-HasReplicas}
use kube_nova_operator.Tests.Promises.{same_quantity_refl, server-CanOwn}
use kube_nova_operator.Tests.Server.{Server, answer_stored, demo_world, stored}

-- What was built for console-api.
abbrev placed : ServiceResources
placed = build_service nova "nova" (console_api_setup nova)

abbrev placed_server : Cluster
placed_server = record deploying_server {
  services = record {
    get = λ ns name w. (
      answer_stored (λ a. a.metadata) (λ _. true)
          (stored (λ a. a.metadata) (λ _. true) ns name w.services),
      w,
    );
    create = λ a w. (got tt, record w { services = a ∷ w.services });
    update = λ a w. (got a, record w { services = a ∷ w.services });
    delete = λ a w. (got tt, record w { services = [] });
  };
}

-- The sources of a volume's items with a default filled in, here another source altogether.
abbrev filled_in : Volume → Volume
filled_in v = record v { source = empty_dir (must_parse "1Gi") }

-- What is stored for it: one replica is ready, and fields that are not compared differ.
abbrev found_console : Deployment
found_console =
    let s = placed.deployment.spec in
    record (placed.deployment) {
      spec = record s {
        max_surge = 3;
        template = record (s.template) {
          spec = record (s.template.spec) { volumes = map filled_in s.template.spec.volumes };
        };
      };
      ready_replicas = pos 1;
    }

abbrev placed_world : Server
placed_world = record demo_world {
  deployments = found_console ∷ [];
  services = placed.service ∷ [];
}

abbrev placed_session : Session Server
placed_session = record { world = placed_world; kube_nova = nova }

-- The Deployments and the Services are as they were.
abbrev placed_server_reads : ReadOnly placed_server
placed_server_reads = record {
  R = λ v w. (v.deployments ≡ w.deployments) × (v.services ≡ w.services);
  same = λ w. (refl, refl);
  chain = λ u v w h k. (h.0 ∙ k.0, h.1 ∙ k.1);
  get_deployment = λ ns name w. (refl, refl);
  get_service = λ ns name w. (refl, refl);
  same_deployment = λ v w h ns name. rw h.0 refl;
  same_service = λ v w h ns name. rw h.1 refl;
}

console_comparable : FirstIsComparable placed.deployment.spec.template.spec.containers
unfolding build_service build_deployment service_container get_service_resources
console_comparable = record {
  mounts = service_mounts-HasDistinctMounts (console_api_setup nova);
  requests = (refl, (refl, tt));
  limits = (refl, (refl, tt));
}

SameVars-refl : (a : List EnvVar) → SameVars a a
SameVars-refl [] = tt
SameVars-refl (e ∷ es) = (refl, (refl, SameVars-refl es))

filled_in-SameVolumes : (vs : List Volume) → SameVolumes (map filled_in vs) vs
filled_in-SameVolumes [] = tt
filled_in-SameVolumes (v ∷ vs) = (refl, filled_in-SameVolumes vs)

console_there :
    (placed_server.deployments.get "nova" placed.deployment.metadata.name placed_world).0
    ≡ got found_console
unfolding build_service build_deployment
console_there = refl

console_service_there :
    (placed_server.services.get "nova" placed.service.metadata.name placed_world).0
    ≡ got placed.service
unfolding build_service build_k8s_service
console_service_there = refl

console_containers : (ks : List Container) → SameContainers ks ks
console_containers [] = tt
console_containers (k ∷ ks) = (refl, (SameVars-refl k.env, (refl, (refl, refl))))

console-IsInPlace : IsInPlace placed_server "nova" placed placed_world
console-IsInPlace = record {
  found = found_console;
  deployment_there = console_there;
  keeps = record {
    replicas = refl;
    containers = console_containers placed.deployment.spec.template.spec.containers;
    volumes = filled_in-SameVolumes placed.deployment.spec.template.spec.volumes;
    account = refl;
  };
  comparable = console_comparable;
  service = placed.service;
  service_there = console_service_there;
}

deploy_services-Idles_example :
    let (r, t) =
      deploy_services placed_server "nova" (("console-api", placed) ∷ []) placed_session in
    (r ≡ ok tt)
    × ((found_console ∷ [] ≡ t.world.deployments) × (placed.service ∷ [] ≡ t.world.services))
deploy_services-Idles_example =
    deploy_services-Idles placed_server same_quantity_refl server-CanOwn placed_server_reads "nova"
      (("console-api", placed) ∷ []) placed_session (console-IsInPlace, tt)

placed_server-Undisturbed : Undisturbed placed_server
placed_server-Undisturbed = record {
  by_get = λ ns name ns' name' w. refl;
  by_now = λ ns name w. refl;
}

survey_lem_example :
    (survey placed_server "nova" placed_session).0
    ≡ ok (
        all
          (λ name. counts (placed_server.deployments.get "nova" name placed_world).0)
          service_names
        && counts (placed_server.deployments.get "nova" "kube-nova-web" placed_world).0)
survey_lem_example =
    survey_lem placed_server placed_server-Undisturbed "nova" placed_session
      (λ ns name d h. deploying_server-HasReplicas ns name placed_world d h)

-- ===== src/Tests/Deploying.antt =====
-- The theorems on what is stored, at a server that keeps the Deployments it is sent.
use mathlib.Core.List.Permᴰ
use kube_nova_operator.Builder.Service.All.{build_all_services}
use kube_nova_operator.Controller.Action.Ensures.{Ensures}
use kube_nova_operator.Controller.Cluster.{Cluster}
use kube_nova_operator.Controller.Ensure.Converges.{KeepsNames}
use kube_nova_operator.Controller.Reconcile.{reconcile}
use kube_nova_operator.Controller.Reconcile.Realised.Isolated.{ServerLaws}
use kube_nova_operator.Controller.Reconcile.Realised.Whole.{Realises, reconcile-Realises}
use kube_nova_operator.Controller.Reconcile.Stages.{HasReplicas}
use kube_nova_operator.Controller.Workloads.{reconcile_services}
use kube_nova_operator.Controller.Workloads.AllDeployed.{reconcile_services-converges}
use kube_nova_operator.Controller.Workloads.Deployed.{Deployed, DeploymentLaws, StoredAs-refl}
use kube_nova_operator.Kube.{object_meta}
use kube_nova_operator.Kube.Workload.{Deployment}
use kube_nova_operator.Prelude.{
  All, Bool, Option, [], arith, false, none, refl, some, true, ◌∷◌, ◌≡◌,
}
use kube_nova_operator.Prelude.Int.{ℤ}
use kube_nova_operator.Prelude.Results.{got}
use kube_nova_operator.Tests.{nova}
use kube_nova_operator.Tests.Promises.{
  found_stored, server-KeepsNames, server_apart, server_config_maps, server_secrets, stored_first,
  stored_other,
}
use kube_nova_operator.Tests.Server.{answer_stored, demo_world, server, stored}

-- The API server fills in a missing replica count, so none is without one.
abbrev pub is_counted : Deployment → Bool
is_counted d = elim (d.spec.replicas) [ none ↦ false | some _ ↦ true ]

abbrev pub deploying_server : Cluster
deploying_server = record server {
  namespaces = record (server.namespaces) {
    get = λ ns name w. (got (record { metadata = object_meta name "" [] }), w);
  };
  deployments = record {
    get = λ ns name w. (
      answer_stored (λ a. a.metadata) is_counted
          (stored (λ a. a.metadata) is_counted ns name w.deployments),
      w,
    );
    create = λ a w. (got tt, record w { deployments = a ∷ w.deployments });
    update = λ a w. (got a, record w { deployments = a ∷ w.deployments });
    delete = λ a w. (got tt, record w { deployments = [] });
  };
}

deploying_server-KeepsNames : KeepsNames deploying_server
deploying_server-KeepsNames = server-KeepsNames

abbrev deploying_server_laws : DeploymentLaws deploying_server
deploying_server_laws = record {
  view = λ ns name w. stored (λ a. a.metadata) is_counted ns name w.deployments;
  got_is = λ ns name w a h.
      let found = found_stored (λ a. a.metadata) is_counted ns name w.deployments a h in
      (found.0, found.1.0);
  created = λ ns name a w n h.
      (a, (stored_first (λ a. a.metadata) is_counted ns name a _ n, StoredAs-refl a.spec));
  updated = λ ns name a b w n h.
      (a, (stored_first (λ a. a.metadata) is_counted ns name a _ n, StoredAs-refl a.spec));
  apart = record {
    get_view = λ ns name other w. refl;
    create_view =
        λ ns other a w. stored_other (λ a. a.metadata) is_counted ns other a w.deployments;
    update_view =
        λ ns other a w. stored_other (λ a. a.metadata) is_counted ns other a w.deployments;
  };
  service_get = λ ns name ns' name' w. refl;
  service_create = λ ns name svc w. refl;
  service_update = λ ns name svc w. refl;
}

reconcile_services-converges_example :
    Ensures
      (λ s. s.kube_nova ≡ nova)
      (λ _ s.
        All
          (λ entry.
            Deployed deploying_server deploying_server_laws "nova" entry.1.deployment s.world)
          (build_all_services nova "nova"))
      (reconcile_services deploying_server)
reconcile_services-converges_example =
    reconcile_services-converges deploying_server deploying_server-KeepsNames deploying_server_laws
      nova (λ m. Permᴰ.refl m)

pub deploying_server-ServerLaws : ServerLaws deploying_server
deploying_server-ServerLaws = record {
  keeps = deploying_server-KeepsNames;
  secrets = server_secrets;
  config_maps = server_config_maps;
  deployments = deploying_server_laws;
  maps_apart = server_apart;
  secrets_untouched = record {
    by_now = λ w ns name. refl;
    by_sleep = λ n w ns name. refl;
    by_get = λ ns' name' w ns name. refl;
    by_status = λ kn w ns name. refl;
    by_nodes = λ w ns name. refl;
  };
  secrets_by_maps = record {
    keeps_get = λ ns' name' s ns name. refl;
    keeps_create = λ b s ns name. refl;
    keeps_update = λ b s ns name. refl;
  };
  secrets_by_deployments = record {
    keeps_get = λ ns' name' s ns name. refl;
    keeps_create = λ b s ns name. refl;
    keeps_update = λ b s ns name. refl;
  };
  secrets_by_services = record {
    keeps_get = λ ns' name' s ns name. refl;
    keeps_create = λ b s ns name. refl;
    keeps_update = λ b s ns name. refl;
  };
  secrets_by_ingresses = record {
    keeps_get = λ ns' name' s ns name. refl;
    keeps_create = λ b s ns name. refl;
    keeps_update = λ b s ns name. refl;
  };
  maps_untouched = record {
    by_now = λ w ns name. refl;
    by_sleep = λ n w ns name. refl;
    by_get = λ ns' name' w ns name. refl;
    by_status = λ kn w ns name. refl;
    by_nodes = λ w ns name. refl;
  };
  maps_by_deployments = record {
    keeps_get = λ ns' name' s ns name. refl;
    keeps_create = λ b s ns name. refl;
    keeps_update = λ b s ns name. refl;
  };
  maps_by_services = record {
    keeps_get = λ ns' name' s ns name. refl;
    keeps_create = λ b s ns name. refl;
    keeps_update = λ b s ns name. refl;
  };
  maps_by_ingresses = record {
    keeps_get = λ ns' name' s ns name. refl;
    keeps_create = λ b s ns name. refl;
    keeps_update = λ b s ns name. refl;
  };
  deployments_untouched = record {
    by_now = λ w ns name. refl;
    by_sleep = λ n w ns name. refl;
    by_get = λ ns' name' w ns name. refl;
    by_status = λ kn w ns name. refl;
    by_nodes = λ w ns name. refl;
  };
  deployments_by_maps = record {
    keeps_get = λ ns' name' s ns name. refl;
    keeps_create = λ b s ns name. refl;
    keeps_update = λ b s ns name. refl;
  };
  deployments_by_ingresses = record {
    keeps_get = λ ns' name' s ns name. refl;
    keeps_create = λ b s ns name. refl;
    keeps_update = λ b s ns name. refl;
  };
  deployment_read = λ ns' name' s ns name. refl;
}

count_of :
    (d : Deployment) (o : Option ℤ)
    → elim o as (λ _. Bool) [ none ↦ false | some _ ↦ true ] ≡ true
    → (want : ℤ) × (o ≡ some want)
count_of d none h = absurd (ground arith)
count_of d (some want) h = (want, refl)

pub deploying_server-HasReplicas : HasReplicas deploying_server
deploying_server-HasReplicas ns name w d h =
    count_of d d.spec.replicas
      (found_stored (λ a. a.metadata) is_counted ns name w.deployments d h).1.1

reconcile-Realises_example :
    Realises deploying_server deploying_server-ServerLaws nova
      (reconcile deploying_server "nova" "demo" demo_world).0
      (reconcile deploying_server "nova" "demo" demo_world).1
reconcile-Realises_example =
    reconcile-Realises deploying_server deploying_server-ServerLaws nova
      deploying_server-HasReplicas (λ m. Permᴰ.refl m) "nova" "demo" demo_world refl refl refl refl

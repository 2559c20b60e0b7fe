-- ===== src/Controller/Components/Ready.antt =====
-- When the components count as ready (internal/controller/kubenova_controller.go).
use kube_nova_operator.Api.{KubeNova}
use kube_nova_operator.Api.Status.{ComponentStatus}
use kube_nova_operator.Controller.Action.{
  Action, Session, call, crash, modify, on_option, on_reply, pure, self, ◌>>=◌, ◌>>◌,
}
use kube_nova_operator.Controller.Cluster.{Cluster}
use kube_nova_operator.Controller.Components.{
  check_service, check_services, check_web, make_services, put_status, service_names,
  service_status, survey,
}
use kube_nova_operator.Kube.{Time}
use kube_nova_operator.Kube.Workload.{Deployment}
use kube_nova_operator.Prelude.{
  Bool, List, Option, String, [], all, ap, arith, false, none, refl, some, true, ◌&&◌, ◌∙◌, ◌∷◌,
  ◌≡◌,
}
use kube_nova_operator.Prelude.Int.{int_eq, ℤ}
use kube_nova_operator.Prelude.Maps.{Map}
use kube_nova_operator.Prelude.Results.{Reply, got, ok, refused}

-- A Deployment that is read counts by its replicas. One that cannot be read counts as ready.
abbrev pub counts : {E : Type 0} → Reply E Deployment → Bool
counts (refused _) = true
counts (got d) = elim (d.spec.replicas) [ none ↦ false | some want ↦ int_eq d.ready_replicas want ]

-- No other writer comes in between: reads of Deployments and of the clock do not change what a
-- read of a Deployment answers.
pub record Undisturbed (c : Cluster) : Type 0 where
  pub by_get :
      (ns name ns' name' : String) (w : c.World)
      → (c.deployments.get ns name (c.deployments.get ns' name' w).1).0
        ≡ (c.deployments.get ns name w).0
  pub by_now :
      (ns name : String) (w : c.World)
      → (c.deployments.get ns name (c.now w).1).0 ≡ (c.deployments.get ns name w).0

-- Every Deployment that is read in this world has a replica count: the API server fills in a
-- missing one.
abbrev pub CountsAt : (c : Cluster) → c.World → Type 0
CountsAt c w =
    (ns name : String) (d : Deployment)
    → (c.deployments.get ns name w).0 ≡ got d
    → (want : ℤ) × (d.spec.replicas ≡ some want)

conjoined : (a b d : Bool) → ((a && b) && d) ≡ (a && (b && d))
conjoined true b d = refl
conjoined false b d = refl

module _ (c : Cluster) (u : Undisturbed c) (w : c.World) where
  -- Reads answer as in the world `w`, and the map of the component states is there.
  pub record IsAt (s : Session c.World) : Type 0 where
    pub reads :
        (ns name : String) → (c.deployments.get ns name s.world).0 ≡ (c.deployments.get ns name w).0
    pub services :
        (m : Map ComponentStatus) × (s.kube_nova.status.component_status.services ≡ some m)

  -- The method returns this value, and leaves it so.
  record Yields {A : Type 0} (a : A) (m : Action c.World c.ApiError A) : Type 0 where
    returns : (s : Session c.World) → IsAt s → (m s).0 ≡ ok a
    stays : (s : Session c.World) → IsAt s → IsAt (m s).1

  Yields-bind :
      {A B : Type 0} (a : A) (b : B) (m : Action c.World c.ApiError A)
      (f : A → Action c.World c.ApiError B)
      → Yields a m
      → Yields b (f a)
      → Yields b (m >>= f)
  unfolding ◌>>=◌
  Yields-bind a b m f hm hf = record {
    returns = λ s h. rw (hm.returns s h) (hf.returns (m s).1 (hm.stays s h));
    stays = λ s h. rw (hm.returns s h) (hf.stays (m s).1 (hm.stays s h));
  }

  -- An equal value is returned as well.
  Yields-as :
      {A : Type 0} (a b : A) (m : Action c.World c.ApiError A) → a ≡ b → Yields a m → Yields b m
  Yields-as a b m h y = record { returns = λ s p. y.returns s p ∙ ap ok h; stays = y.stays }

  Yields-pure : {A : Type 0} (a : A) → Yields a (pure a)
  unfolding pure
  Yields-pure a = record { returns = λ s h. refl; stays = λ s h. h }

  -- A change of the object that leaves the map there.
  Yields-modify :
      (f : KubeNova → KubeNova)
      → ((s : Session c.World) → IsAt s → IsAt (record s { kube_nova = f s.kube_nova }))
      → Yields tt (modify f)
  unfolding modify
  Yields-modify f h = record { returns = λ s p. refl; stays = h }

  put_status-Yields : (name : String) (st : ComponentStatus) → Yields tt (put_status c name st)
  unfolding put_status self on_option modify ◌>>=◌
  put_status-Yields name st = record {
    returns = λ s h. rw h.services.1 refl;
    stays = λ s h. rw h.services.1 (record { reads = h.reads; services = (_, refl) });
  }

  -- The clock is read, whatever it says.
  after_now :
      {B : Type 0} (b : B) (f : Time → Action c.World c.ApiError B)
      → ((time : Time) → Yields b (f time))
      → Yields b (call c.now >>= f)
  unfolding call ◌>>=◌
  after_now b f h = record {
    returns = λ s p. (h (c.now s.world).0).returns _ (ticked s p);
    stays = λ s p. (h (c.now s.world).0).stays _ (ticked s p);
  }
    where
      ticked : (s : Session c.World) → IsAt s → IsAt (record s { world = (c.now s.world).1 })
      ticked s p = record {
        reads = λ ns name. u.by_now ns name s.world ∙ p.reads ns name;
        services = p.services;
      }

  read-Yields :
      (ns name : String) → Yields (c.deployments.get ns name w).0 (call (c.deployments.get ns name))
  unfolding call
  read-Yields ns name = record {
    returns = λ s p. ap ok (p.reads ns name);
    stays = λ s p. record {
      reads = λ ns' name'. u.by_get ns' name' ns name s.world ∙ p.reads ns' name';
      services = p.services;
    };
  }

  -- The value behind the read of a Deployment.
  abbrev told : (Deployment → ℤ → Bool) → Bool → Reply c.ApiError Deployment → Bool
  told is_ready passed (refused _) = passed
  told is_ready passed (got d) = elim (d.spec.replicas) [
    | none ↦ false
    | some want ↦ is_ready d want
  ]

  counted-Yields :
      (o : Option ℤ) (g : ℤ → Bool) (f : ℤ → Action c.World c.ApiError Bool)
      → (want : ℤ) × (o ≡ some want)
      → ((want : ℤ) → Yields (g want) (f want))
      → Yields (elim o [ none ↦ false | some want ↦ g want ]) (on_option o crash f)
  unfolding on_option
  counted-Yields none g f h hf = absurd (ground (arith, h.1))
  counted-Yields (some want) g f h hf = hf want

  noted-Yields :
      (note : Deployment → ℤ → Time → Action c.World c.ApiError (Unit {0}))
      (is_ready : Deployment → ℤ → Bool) (passed : Bool) (r : Reply c.ApiError Deployment)
      → ((d : Deployment) (want : ℤ) (time : Time) → Yields tt (note d want time))
      → ((d : Deployment) → r ≡ got d → (want : ℤ) × (d.spec.replicas ≡ some want))
      → Yields (told is_ready passed r) (
          on_reply r
            (λ d.
              on_option d.spec.replicas crash
                (λ want. do time ← call c.now; note d want time; pure (is_ready d want)))
            (λ _. pure passed))
  unfolding on_reply
  noted-Yields note is_ready passed (refused e) hn h = Yields-pure passed
  noted-Yields note is_ready passed (got d) hn h =
      counted-Yields d.spec.replicas (is_ready d) _ (h d refl) (λ want.
        after_now (is_ready d want) _
          (λ time. Yields-bind tt _ _ _ (hn d want time) (Yields-pure (is_ready d want))))

  told-counts :
      (b : Bool) (r : Reply c.ApiError Deployment)
      → told (λ d want. b && int_eq d.ready_replicas want) b r ≡ (b && counts r)
  told-counts b (refused e) = ground arith
  told-counts b (got d) = distribute d.spec.replicas
    where
      distribute :
          (o : Option ℤ)
          → elim o [ none ↦ false | some want ↦ b && int_eq d.ready_replicas want ]
            ≡ (b && elim o [ none ↦ false | some want ↦ int_eq d.ready_replicas want ])
      distribute none = ground arith
      distribute (some want) = refl

  module _ (replicas : CountsAt c w) where
    check_service-Yields :
        (ns name : String)
        → Yields (counts (c.deployments.get ns name w).0) (check_service c ns name)
    unfolding check_service
    check_service-Yields ns name = Yields-bind _ _ _ _ (read-Yields ns name) (
        Yields-as _ _ _ (told-counts true (c.deployments.get ns name w).0) (
          noted-Yields
            (λ d want time. put_status c name (service_status d.ready_replicas want time))
            (λ d want. int_eq d.ready_replicas want) true _
            (λ d want time. put_status-Yields name _) (replicas ns name)))

    check_services-Yields :
        (ns : String) (names : List String) (b : Bool)
        → Yields
            (b && all (λ name. counts (c.deployments.get ns name w).0) names)
            (check_services c ns names b)
    unfolding check_services
    check_services-Yields ns [] b = Yields-as b (b && true) (pure b) (ground arith) (Yields-pure b)
    check_services-Yields ns (name ∷ names) b = Yields-bind _ _ _ _ (check_service-Yields ns name) (
        Yields-as _ _ _ (conjoined b _ _)
          (check_services-Yields ns names (b && counts (c.deployments.get ns name w).0)))

    check_web-Yields :
        (ns : String) (b : Bool)
        → Yields (b && counts (c.deployments.get ns "kube-nova-web" w).0) (check_web c ns b)
    unfolding check_web
    check_web-Yields ns b = Yields-bind _ _ _ _ (read-Yields ns "kube-nova-web") (
        Yields-as _ _ _ (told-counts b (c.deployments.get ns "kube-nova-web" w).0) (
          noted-Yields _ (λ d want. b && int_eq d.ready_replicas want) b _
            (λ d want time.
              Yields-modify _ (λ s p. record { reads = p.reads; services = p.services }))
            (replicas ns "kube-nova-web")))

module _ (c : Cluster) (u : Undisturbed c) where
  -- The verdict of a pass: all seven services and the web front end count as ready, as their
  -- Deployments are at the start, where one whose Deployment is missing or cannot be read counts. No
  -- other writer changes a Deployment while they are read, and those that are read have replica counts.
  pub survey_lem :
      (ns : String) (s : Session c.World)
      → CountsAt c s.world
      → (survey c ns s).0
        ≡ ok (
            all (λ name. counts (c.deployments.get ns name s.world).0) service_names
            && counts (c.deployments.get ns "kube-nova-web" s.world).0)
  unfolding survey modify ◌>>=◌
  survey_lem ns s replicas =
      let w = s.world in
      let verdict = all (λ name. counts (c.deployments.get ns name w).0) service_names in
      (Yields-bind c u w verdict _ _ _ (check_services-Yields c u w replicas ns service_names true)
          (check_web-Yields c u w replicas ns verdict)).returns
        (make_services c s).1 (record { reads = λ ns name. refl; services = (_, refl) })

  -- If no Deployment can be read, the pass finds all components ready. No other writer changes that
  -- while they are read.
  pub survey_blind :
      (ns : String) (s : Session c.World)
      → ((ns name : String)
          → (e : c.ApiError) × ((c.deployments.get ns name s.world).0 ≡ refused e))
      → (survey c ns s).0 ≡ ok true
  survey_blind ns s h =
      survey_lem ns s (λ ns' name d e. absurd (ground (arith, e, (h ns' name).1)))
      ∙ ap ok (
          ground (
            arith,
            (h ns "portal-api").1,
            (h ns "portal-rpc").1,
            (h ns "manager-api").1,
            (h ns "manager-rpc").1,
            (h ns "workload-api").1,
            (h ns "console-api").1,
            (h ns "console-rpc").1,
            (h ns "kube-nova-web").1,
          ))

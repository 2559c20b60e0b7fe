-- ===== src/Controller/Reconcile/NilMaps.antt =====
-- The maps and pointers of the status are made before they are written through
-- (checkComponentStatus and updateAccessInfo of internal/controller/kubenova_controller.go).
use kube_nova_operator.Api.{KubeNova}
use kube_nova_operator.Api.Status.{AccessInfo, ComponentStatus}
use kube_nova_operator.Controller.Action.{
  Action, Session, call, crash, modify, on_option, on_reply, pure, self, ◌>>=◌, ◌>>◌,
}
use kube_nova_operator.Controller.Action.Rules.{
  IsPreorder, Relates, Relates-call, Relates-self, action_rules,
}
use kube_nova_operator.Controller.Action.Runs.{
  IsTotal-Runs, Runs, Runs-bind, Runs-call, Runs-modify, Runs-pure, Runs-total,
}
use kube_nova_operator.Controller.Action.Total.{IsTotal, IsTotal-self}
use kube_nova_operator.Controller.Cluster.{Cluster}
use kube_nova_operator.Controller.Components.{
  check_service, check_services, check_web, make_services, put_status, service_names, survey,
}
use kube_nova_operator.Controller.Components.Access.{
  find_node_port_url, find_web_url, make_access_info, make_endpoints, update_access_info,
  write_endpoints, write_info,
}
use kube_nova_operator.Controller.Nodes.{get_node_ip}
use kube_nova_operator.Controller.Reconcile.Stages.{HasReplicas, find_web_url-IsTotal}
use kube_nova_operator.Kube.{Time}
use kube_nova_operator.Kube.Workload.{Deployment}
use kube_nova_operator.Prelude.{
  Bool, List, Option, String, [], ap, arith, none, refl, some, true, ◌&&◌, ◌∙◌, ◌∷◌, ◌≡◌,
}
use kube_nova_operator.Prelude.Int.{ℤ}
use kube_nova_operator.Prelude.Maps.{Map}
use kube_nova_operator.Prelude.Results.{Reply, got, refused}

-- The map of the component states is not nil.
abbrev pub HasServices : {W : Type 0} → Session W → Type 0
HasServices s = (m : Map ComponentStatus) × (s.kube_nova.status.component_status.services ≡ some m)

-- The access information is not nil.
abbrev HasInfo : {W : Type 0} → Session W → Type 0
HasInfo s = (a : AccessInfo) × (s.kube_nova.status.access_info ≡ some a)

-- Nor is its map of the endpoints.
abbrev HasEndpoints : {W : Type 0} → Session W → Type 0
HasEndpoints s =
    (a : AccessInfo) × ((s.kube_nova.status.access_info ≡ some a)
      × ((m : Map String) × (a.service_endpoints ≡ some m)))

-- A write through a pointer, or into a map, that is not nil.
written-Runs :
    {W E A : Type 0} (Q : Session W → Type 0) (o : KubeNova → Option A)
    (g : A → KubeNova → KubeNova)
    → ((a : A) (s : Session W)
        → o s.kube_nova ≡ some a
        → Q (record s { kube_nova = g a s.kube_nova }))
    → Runs {E = E}
        (λ s. (a : A) × (o s.kube_nova ≡ some a))
        Q
        (self >>= (λ kn. on_option (o kn) crash (λ a. modify (g a))))
unfolding self on_option modify ◌>>=◌
written-Runs Q o g h = record { at = λ s (a, e). rw e (h a s e) }

module _ (c : Cluster) where
  make_services-Runs : Runs {E = c.ApiError} (λ _. Unit) HasServices (make_services c)
  make_services-Runs = Runs-modify _ HasServices _ (λ s h. (_, refl))

  put_status-Runs :
      (name : String) (st : ComponentStatus) → Runs HasServices HasServices (put_status c name st)
  unfolding put_status
  put_status-Runs name st =
      written-Runs HasServices (λ kn. kn.status.component_status.services) _ (λ m s e. (_, refl))

  make_access_info-Runs : Runs {E = c.ApiError} (λ _. Unit) HasInfo (make_access_info c)
  make_access_info-Runs = Runs-modify _ HasInfo _ (λ s h. (_, refl))

  write_info-Runs : (f : AccessInfo → AccessInfo) → Runs HasInfo HasInfo (write_info c f)
  unfolding write_info
  write_info-Runs f = written-Runs HasInfo (λ kn. kn.status.access_info) _ (λ a s e. (_, refl))

  make_endpoints-Runs : Runs HasInfo HasEndpoints (make_endpoints c)
  unfolding write_info
  make_endpoints-Runs =
      written-Runs HasEndpoints (λ kn. kn.status.access_info) _ (λ a s e. (_, (refl, (_, refl))))

  write_endpoints-Runs : (ns : String) → Runs HasEndpoints HasInfo (write_endpoints c ns)
  unfolding write_endpoints self on_option modify ◌>>=◌
  write_endpoints-Runs ns = record { at = λ s (a, (e, (m, h))). rw e (rw h (_, refl)) }

  -- The object in memory is the same.
  abbrev SameObject : Session c.World → Session c.World → Type 0
  SameObject s t = t.kube_nova ≡ s.kube_nova

  SameObject-IsPreorder : IsPreorder SameObject
  SameObject-IsPreorder = record { same = λ s. refl; chain = λ s t u h k. k ∙ h }

  asked-SameObject :
      {A : Type 0} (f : c.World → A × c.World) → Relates SameObject (call {E = c.ApiError} f)
  asked-SameObject f = Relates-call SameObject SameObject-IsPreorder f (λ s. refl)

  find_web_url-SameObject :
      (kn : KubeNova) (ns old : String) → Relates SameObject (find_web_url c kn ns old)
  unfolding find_web_url find_node_port_url get_node_ip
  find_web_url-SameObject kn ns old =
      search (asked-SameObject, SameObject-IsPreorder, action_rules) depth 12

  find_web_url-Runs :
      (kn : KubeNova) (ns old : String) → Runs HasInfo HasInfo (find_web_url c kn ns old)
  find_web_url-Runs kn ns old =
      Runs-total HasInfo SameObject _ (find_web_url-IsTotal c kn ns old)
        (find_web_url-SameObject kn ns old)
        (λ s t e (a, h). (a, ap (λ k. k.status.access_info) e ∙ h))

  -- The access information is written without a panic: what is nil is made first.
  pub update_access_info-IsTotal : (ns : String) → IsTotal (update_access_info c ns)
  unfolding update_access_info
  update_access_info-IsTotal ns = IsTotal-Runs HasInfo _ (
      Runs-bind _ HasInfo HasInfo _ _ make_access_info-Runs λ _.
        Runs-bind _ HasInfo HasInfo _ _ self-Runs λ kn.
          Runs-bind _ HasInfo HasInfo _ _ (find_web_url-Runs kn ns _) λ url.
            Runs-bind _ HasInfo HasInfo _ _ (write_info-Runs _) λ _.
              Runs-bind _ HasEndpoints HasInfo _ _ make_endpoints-Runs λ _.
                Runs-bind _ HasInfo HasInfo _ _ (write_endpoints-Runs ns) (λ _. write_info-Runs _))
    where
      self-Runs : Runs {W = c.World} {E = c.ApiError} HasInfo HasInfo self
      self-Runs =
          Runs-total HasInfo SameObject self IsTotal-self
            (Relates-self SameObject SameObject-IsPreorder)
            (λ s t e (a, h). (a, ap (λ k. k.status.access_info) e ∙ h))

  module _ (has_replicas : HasReplicas c) where
    counted-Runs :
        (o : Option ℤ) (f : ℤ → Action c.World c.ApiError Bool)
        → (want : ℤ) × (o ≡ some want)
        → ((want : ℤ) → Runs HasServices HasServices (f want))
        → Runs HasServices HasServices (on_option o crash f)
    unfolding on_option
    counted-Runs none f h hf = absurd (ground (arith, h.1))
    counted-Runs (some want) f h hf = hf want

    -- What follows the read of a Deployment that has a replica count.
    noted-Runs :
        (note : Deployment → ℤ → Time → Action c.World c.ApiError (Unit {0}))
        (is_ready : Deployment → ℤ → Bool) (passed : Bool) (r : Reply c.ApiError Deployment)
        → ((d : Deployment) (want : ℤ) (time : Time)
            → Runs HasServices HasServices (note d want time))
        → ((d : Deployment) → r ≡ got d → (want : ℤ) × (d.spec.replicas ≡ some want))
        → Runs HasServices HasServices (
            on_reply r
              (λ d.
                on_option d.spec.replicas crash
                  (λ want. do time ← call c.now; note d want time; pure (is_ready d want)))
              (λ _. pure passed))
    unfolding on_reply
    noted-Runs note is_ready passed (refused e) hn h = Runs-pure HasServices passed
    noted-Runs note is_ready passed (got d) hn h =
        counted-Runs d.spec.replicas _ (h d refl) (λ want.
          Runs-bind _ HasServices HasServices _ _ (Runs-call HasServices c.now (λ s p. p)) (λ time.
            Runs-bind _ HasServices HasServices _ _ (hn d want time)
              (λ _. Runs-pure HasServices _)))

    -- A read, and what follows its answer.
    asked-Runs :
        {B : Type 0} (ns name : String)
        (f : Reply c.ApiError Deployment → Action c.World c.ApiError B)
        → ((r : Reply c.ApiError Deployment)
            → ((d : Deployment) → r ≡ got d → (want : ℤ) × (d.spec.replicas ≡ some want))
            → Runs HasServices HasServices (f r))
        → Runs HasServices HasServices (call (c.deployments.get ns name) >>= f)
    unfolding call ◌>>=◌
    asked-Runs ns name f h = record {
      at = λ s p.
          (h (c.deployments.get ns name s.world).0 (has_replicas ns name s.world)).at
            (record s { world = (c.deployments.get ns name s.world).1 }) p;
    }

    check_service-Runs : (ns name : String) → Runs HasServices HasServices (check_service c ns name)
    unfolding check_service
    check_service-Runs ns name =
        asked-Runs ns name _ (λ r. noted-Runs _ _ _ r (λ d want time. put_status-Runs name _))

    check_web-Runs : (ns : String) (b : Bool) → Runs HasServices HasServices (check_web c ns b)
    unfolding check_web
    check_web-Runs ns b =
        asked-Runs ns "kube-nova-web" _ (λ r.
          noted-Runs _ _ _ r (λ d want time. Runs-modify HasServices HasServices _ (λ s p. p)))

    check_services-Runs :
        (ns : String) (names : List String) (b : Bool)
        → Runs HasServices HasServices (check_services c ns names b)
    unfolding check_services
    check_services-Runs ns [] b = Runs-pure HasServices b
    check_services-Runs ns (name ∷ names) b =
        Runs-bind _ HasServices HasServices _ _ (check_service-Runs ns name)
          (λ r. check_services-Runs ns names (b && r))

    -- The loop over the services writes into a map that is not nil, and so does the web front end.
    pub survey-IsTotal : (ns : String) → IsTotal (survey c ns)
    unfolding survey
    survey-IsTotal ns = IsTotal-Runs HasServices _ (
        Runs-bind _ HasServices HasServices _ _ make_services-Runs λ _.
          Runs-bind _ HasServices HasServices _ _ (check_services-Runs ns service_names true)
            (λ b. check_web-Runs ns b))

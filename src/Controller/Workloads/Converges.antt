-- ===== src/Controller/Workloads/Converges.antt =====
-- A Deployment of a back-end service is what was built, behind its round of the loop
-- (reconcileServices of internal/controller/kubenova_controller.go).
use kube_nova_operator.Controller.Action.{
  Action, Session, call, on_reply, or_wrap, pure, raise, ◌>>=◌,
}
use kube_nova_operator.Controller.Action.Ensures.{
  Ensures, Ensures-bind, Ensures-pure, Ensures-raise,
}
use kube_nova_operator.Controller.Cluster.{Cluster}
use kube_nova_operator.Controller.Compare.{deployment_spec_equal}
use kube_nova_operator.Controller.Compare.Sound.{
  SameFirst, SameSpec, deployment_spec_equal_sound, has_volume,
}
use kube_nova_operator.Controller.Ensure.{Texts, create, ensure, write}
use kube_nova_operator.Controller.Ensure.Converges.{KeepsNames, own-names}
use kube_nova_operator.Controller.Ensure.Laws.{IsNamed}
use kube_nova_operator.Controller.Workloads.{
  ensure_deployment, merge_deployment, merge_web_deployment,
}
use kube_nova_operator.Controller.Workloads.Deployed.{
  Deployed, DeploymentLaws, Done, Placed, Seen, StoredAs, create-Done, rewritten-Done, seen,
}
use kube_nova_operator.Kube.Workload.{Deployment, DeploymentSpec}
use kube_nova_operator.Prelude.{
  Bool-cases, String, all, if◌then◌else◌, inl, inr, length, refl, some, subst, true, ◌∙◌, ◌≡◌,
}
use kube_nova_operator.Prelude.Int.{ℤ}
use kube_nova_operator.Prelude.Results.{Reply, api, got, refused, wrapped}

module _ (c : Cluster) (keeps : KeepsNames c) (laws : DeploymentLaws c) (ns : String)
    (d : Deployment) (Good : DeploymentSpec → Type 0) (merge : Deployment → Deployment → Deployment)
    (hm : (latest : Deployment) → (merge latest d).metadata ≡ latest.metadata)
    (built : (x : DeploymentSpec) → StoredAs x d.spec → Good x)
    (merged : (latest : Deployment) (x : DeploymentSpec)
      → StoredAs x (merge latest d).spec
      → Good x)
    (equal_enough : (a : DeploymentSpec)
      → deployment_spec_equal c.quantity_equal a d.spec ≡ true
      → Good a)
    (texts : Texts) (regetting : String) where
  abbrev Seen_ : Reply c.ApiError Deployment → Session c.World → Type 0
  Seen_ = Seen c laws ns d.metadata.name Good

  abbrev Done_ : Unit {0} → Session c.World → Type 0
  Done_ = Done c laws ns d.metadata.name Good

  -- What follows the first read of the Deployment.
  abbrev present : Deployment → Action c.World c.ApiError (Unit {0})
  present existing =
      if deployment_spec_equal c.quantity_equal existing.spec d.spec then pure tt else do
        found ← call (c.deployments.get ns d.metadata.name)
        latest ← or_wrap regetting found
        write c c.deployments texts (merge latest d)

  present-Done : (existing : Deployment) → Ensures (Seen_ (got existing)) Done_ (present existing)
  present-Done existing =
      elim (Bool-cases (deployment_spec_equal c.quantity_equal existing.spec d.spec)) [
        | inl equal ↦
            rw equal
              (Ensures-pure _ Done_ tt (λ s h. (existing, (h.0, equal_enough existing.spec equal))))
        | inr differs ↦ rw differs (record {
          at = λ s h.
              (Ensures-bind _ Seen_ Done_ _ _ (seen c laws ns d.metadata.name Good) (
                  rewritten-Done c laws ns d.metadata.name Good texts regetting
                    (λ latest. merge latest d) hm merged)).at
                s tt;
        })
      ]

  found-Done :
      (obj : Deployment)
      → IsNamed ns d.metadata.name obj.metadata
      → obj.spec ≡ d.spec
      → (r : Reply c.ApiError Deployment)
      → Ensures (Seen_ r) Done_ (
          on_reply r present (λ x.
            if c.is_not_found x
            then create c c.deployments texts obj
            else raise (wrapped texts.getting (api x))))
  unfolding on_reply
  found-Done obj n e (got a) = present-Done a
  found-Done obj n e (refused x) = elim (Bool-cases (c.is_not_found x)) [
    | inl missing ↦ rw missing (
        create-Done c laws ns d.metadata.name Good obj n (λ x k. built x (subst (StoredAs x) e k))
          texts)
    | inr other ↦ rw other (Ensures-raise _ Done_ _)
  ]

  -- One round: a Deployment is stored that has what `StoredAs` says of the one that was built.
  pub ensure_deployment-Done :
      d.metadata.namespace ≡ ns
      → Ensures (λ _. Unit) Done_ (ensure_deployment c texts regetting merge ns d)
  unfolding ensure_deployment ensure
  ensure_deployment-Done e =
      Ensures-bind _ (λ m _. IsNamed d.metadata.namespace d.metadata.name m) _ _ _
        (own-names c keeps "设置 OwnerReference 失败" d.metadata)
        λ m. record {
          at = λ s n.
              (Ensures-bind _ Seen_ Done_ _ _ (seen c laws ns d.metadata.name Good) (
                  found-Done (record d { metadata = m })
                    (subst (λ x. IsNamed x d.metadata.name m) e n) refl)).at
                s tt;
        }

-- What is found equal to it will do.
SameSpec-StoredAs : (a b : DeploymentSpec) → SameSpec a b → StoredAs a b
SameSpec-StoredAs a b h = record {
  replicas = λ n e. h.replicas ∙ e;
  count = h.count;
  first = h.first;
  volumes = h.volumes;
  account = h.account;
}

-- The round of a back-end service.
pub service_round :
    (c : Cluster)
    → KeepsNames c
    → (laws : DeploymentLaws c) (ns : String) (texts : Texts) (regetting : String) (d : Deployment)
    → d.metadata.namespace ≡ ns
    → Ensures
        (λ _. Unit)
        (λ _ s. Deployed c laws ns d s.world)
        (ensure_deployment c texts regetting merge_deployment ns d)
service_round c keeps laws ns texts regetting d =
    ensure_deployment-Done c keeps laws ns d (λ x. StoredAs x d.spec) merge_deployment
      (λ latest. refl) (λ x h. h)
      (λ latest x h. record {
        replicas = h.replicas;
        count = h.count;
        first = h.first;
        volumes = h.volumes;
        account = h.account;
      })
      (λ a h. SameSpec-StoredAs a d.spec (deployment_spec_equal_sound c.quantity_equal a d.spec h))
      texts regetting

-- What the web front end has of the specification that was built: the same but for the service
-- account, which an update leaves.
pub record WebStoredAs (kept sent : DeploymentSpec) : Type 0 where
  pub replicas : (n : ℤ) → sent.replicas ≡ some n → kept.replicas ≡ some n
  pub count : length kept.template.spec.containers ≡ length sent.template.spec.containers
  pub first : SameFirst kept.template.spec.containers sent.template.spec.containers
  pub volumes :
      all (λ v. has_volume kept.template.spec.volumes v.name) sent.template.spec.volumes ≡ true

StoredAs-WebStoredAs : (a b : DeploymentSpec) → StoredAs a b → WebStoredAs a b
StoredAs-WebStoredAs a b h = record {
  replicas = h.replicas;
  count = h.count;
  first = h.first;
  volumes = h.volumes;
}

abbrev pub WebDeployed : (c : Cluster) → DeploymentLaws c → String → Deployment → c.World → Type 0
WebDeployed c laws ns d = Placed c laws ns d.metadata.name (λ x. WebStoredAs x d.spec)

-- The round of the web front end.
pub web_round :
    (c : Cluster)
    → KeepsNames c
    → (laws : DeploymentLaws c) (ns : String) (texts : Texts) (regetting : String) (d : Deployment)
    → d.metadata.namespace ≡ ns
    → Ensures
        (λ _. Unit)
        (λ _ s. WebDeployed c laws ns d s.world)
        (ensure_deployment c texts regetting merge_web_deployment ns d)
web_round c keeps laws ns texts regetting d =
    ensure_deployment-Done c keeps laws ns d (λ x. WebStoredAs x d.spec) merge_web_deployment
      (λ latest. refl) (λ x. StoredAs-WebStoredAs x d.spec)
      (λ latest x h. record {
        replicas = h.replicas;
        count = h.count;
        first = h.first;
        volumes = h.volumes;
      })
      (λ a h.
        StoredAs-WebStoredAs a d.spec
          (SameSpec-StoredAs a d.spec (deployment_spec_equal_sound c.quantity_equal a d.spec h)))
      texts regetting

-- ===== src/Controller/Workloads/Deployed.antt =====
-- A Deployment is what was built, behind its round of the loop
-- (reconcileServices of internal/controller/kubenova_controller.go).
use kube_nova_operator.Api.{KubeNova}
use kube_nova_operator.Controller.Action.{Session, call, on_reply, or_wrap, ◌>>=◌}
use kube_nova_operator.Controller.Action.Ensures.{
  Ensures, Ensures-bind, Ensures-call, Ensures-pure, Ensures-raise,
}
use kube_nova_operator.Controller.Cluster.{Cluster}
use kube_nova_operator.Controller.Compare.Sound.{SameFirst, has_volume}
use kube_nova_operator.Controller.Ensure.{Texts, create, write}
use kube_nova_operator.Controller.Ensure.Apart.{NamesApart}
use kube_nova_operator.Controller.Ensure.Laws.{IsNamed}
use kube_nova_operator.Kube.Network.{Service}
use kube_nova_operator.Kube.Workload.{Container, Deployment, DeploymentSpec}
use kube_nova_operator.Prelude.{
  Bool, List, Option, String, [], all, any, arith, eq_refl, length, refl, some, subst, sym, true,
  ◌&&◌, ◌==◌, ◌∷◌, ◌≡◌,
}
use kube_nova_operator.Prelude.Int.{ℤ}
use kube_nova_operator.Prelude.Results.{Reply, got, refused}

-- What a stored specification (`kept`) has of the one that was sent: the replicas, if it gave any, the number
-- of containers, of the first one the image, the variables with a value and the paths of the
-- mounts, the names of the volumes, and the service account. What was left open may have been filled in.
pub record StoredAs (kept sent : DeploymentSpec) : Type 0 where
  pub replicas : (n : ℤ) → sent.replicas ≡ some n → kept.replicas ≡ some n
  pub count : length kept.template.spec.containers ≡ length sent.template.spec.containers
  pub first : SameFirst kept.template.spec.containers sent.template.spec.containers
  pub volumes :
      all (λ v. has_volume kept.template.spec.volumes v.name) sent.template.spec.volumes ≡ true
  pub account : kept.template.spec.service_account_name ≡ sent.template.spec.service_account_name

-- What the API server stores of Deployments: `view namespace name w` is the Deployment of that name
-- in the world `w`. A read returns it, behind a successful write one is stored that has what
-- `StoredAs` says of the one that was sent, and calls for another name, or on Services, leave it as it
-- is.
pub record DeploymentLaws (c : Cluster) : Type 0 where
  pub view : String → String → c.World → Option Deployment
  pub got_is :
      (ns name : String) (w : c.World) (a : Deployment)
      → (c.deployments.get ns name w).0 ≡ got a
      → (view ns name (c.deployments.get ns name w).1 ≡ some a) × IsNamed ns name a.metadata
  pub created :
      (ns name : String) (a : Deployment) (w : c.World)
      → IsNamed ns name a.metadata
      → (c.deployments.create a w).0 ≡ got tt
      → (b : Deployment) × ((view ns name (c.deployments.create a w).1 ≡ some b)
          × StoredAs b.spec a.spec)
  pub updated :
      (ns name : String) (a x : Deployment) (w : c.World)
      → IsNamed ns name a.metadata
      → (c.deployments.update a w).0 ≡ got x
      → (b : Deployment) × ((view ns name (c.deployments.update a w).1 ≡ some b)
          × StoredAs b.spec a.spec)
  pub apart : NamesApart c.World c.ApiError Deployment (λ a. a.metadata) c.deployments view
  pub service_get :
      (ns name ns' name' : String) (w : c.World)
      → view ns name (c.services.get ns' name' w).1 ≡ view ns name w
  pub service_create :
      (ns name : String) (svc : Service) (w : c.World)
      → view ns name (c.services.create svc w).1 ≡ view ns name w
  pub service_update :
      (ns name : String) (svc : Service) (w : c.World)
      → view ns name (c.services.update svc w).1 ≡ view ns name w

module _ {ℓ} {A : Type ℓ} (p : A → A → Bool) where
  all-any_cons :
      (z : A) (xs l : List A)
      → all (λ x. any (λ y. p y x) xs) l ≡ true
      → all (λ x. any (λ y. p y x) (z ∷ xs)) l ≡ true
  all-any_cons z xs [] h = refl
  all-any_cons z xs (x ∷ l) h = ground (arith, all-any_cons z xs l)

  -- Each element is found, if the test finds an element at itself.
  all-any_self : ((x : A) → p x x ≡ true) → (xs : List A) → all (λ x. any (λ y. p y x) xs) xs ≡ true
  all-any_self r [] = refl
  all-any_self r (x ∷ xs) = ground (arith, r x, all-any_cons x xs xs, all-any_self r xs)

SameFirst-refl : (ks : List Container) → SameFirst ks ks
SameFirst-refl [] = tt
SameFirst-refl (k ∷ ks) = record {
  image = refl;
  env = λ x. refl;
  mounts =
      all-any_self (λ m vm. m.name == vm.name && m.mount_path == vm.mount_path)
        (λ vm. ground (arith, eq_refl vm.name, eq_refl vm.mount_path)) k.volume_mounts;
  mount_count = refl;
}

pub StoredAs-refl : (a : DeploymentSpec) → StoredAs a a
StoredAs-refl a = record {
  replicas = λ n e. e;
  count = refl;
  first = SameFirst-refl a.template.spec.containers;
  volumes = all-any_self (λ y x. y.name == x.name) (λ x. eq_refl x.name) a.template.spec.volumes;
  account = refl;
}

module _ (c : Cluster) (laws : DeploymentLaws c) (ns name : String)
    (Good : DeploymentSpec → Type 0) where
  -- A Deployment of this name is stored, with a good specification.
  abbrev pub Placed : c.World → Type 0
  Placed w = (b : Deployment) × ((laws.view ns name w ≡ some b) × Good b.spec)

  abbrev pub Done : Unit {0} → Session c.World → Type 0
  Done _ s = Placed s.world

  -- An answer to a write, behind which the Deployment is right if the answer is no error.
  abbrev Accepted : {B : Type 0} → Reply c.ApiError B → Session c.World → Type 0
  Accepted (got _) s = Placed s.world
  Accepted (refused _) s = Unit

  -- An answer to a read.
  abbrev pub Seen : Reply c.ApiError Deployment → Session c.World → Type 0
  Seen (got a) s = (laws.view ns name s.world ≡ some a) × IsNamed ns name a.metadata
  Seen (refused _) s = Unit

  sent_spec :
      (w : c.World) (a : Deployment)
      → ((x : DeploymentSpec) → StoredAs x a.spec → Good x)
      → (b : Deployment) × ((laws.view ns name w ≡ some b) × StoredAs b.spec a.spec)
      → Placed w
  sent_spec w a h (b, (v, e)) = (b, (v, h b.spec e))

  module _ (a : Deployment) (n : IsNamed ns name a.metadata)
      (h : (x : DeploymentSpec) → StoredAs x a.spec → Good x) (texts : Texts) where
    create-Accepted :
        (w : c.World) (kn : KubeNova) (r : Reply c.ApiError (Unit {0}))
        → (c.deployments.create a w).0 ≡ r
        → Accepted r (record { world = (c.deployments.create a w).1; kube_nova = kn })
    create-Accepted w kn (got tt) k = sent_spec _ a h (laws.created ns _ a w n k)
    create-Accepted w kn (refused _) k = tt

    update-Accepted :
        (w : c.World) (kn : KubeNova) (r : Reply c.ApiError Deployment)
        → (c.deployments.update a w).0 ≡ r
        → Accepted r (record { world = (c.deployments.update a w).1; kube_nova = kn })
    update-Accepted w kn (got b) k = sent_spec _ a h (laws.updated ns _ a b w n k)
    update-Accepted w kn (refused _) k = tt

    wrapped-Done :
        {B : Type 0} (prefix : String) (r : Reply c.ApiError B)
        → Ensures (Accepted r) (λ _ s. Placed s.world) (or_wrap prefix r)
    unfolding on_reply
    wrapped-Done prefix (got b) = Ensures-pure _ _ _ (λ s k. k)
    wrapped-Done prefix (refused x) = Ensures-raise _ _ _

    pub create-Done : Ensures (λ _. Unit) Done (create c c.deployments texts a)
    unfolding create
    create-Done =
        Ensures-bind _ Accepted Done _ _
          (Ensures-call _ Accepted _ (λ s _. create-Accepted s.world s.kube_nova _ refl))
          (wrapped-Done texts.creating)

    pub write-Done : Ensures (λ _. Unit) Done (write c c.deployments texts a)
    unfolding write
    write-Done =
        Ensures-bind _ Accepted Done _ _
          (Ensures-call _ Accepted _ (λ s _. update-Accepted s.world s.kube_nova _ refl))
          (λ r.
            Ensures-bind _ (λ _ s. Placed s.world) Done _ _ (wrapped-Done texts.updating r)
              (λ b. Ensures-pure _ Done _ (λ s k. k)))

  named :
      (regetting : String) (r : Reply c.ApiError Deployment)
      → Ensures (Seen r) (λ latest _. IsNamed ns name latest.metadata) (or_wrap regetting r)
  unfolding on_reply
  named regetting (got a) = Ensures-pure _ _ _ (λ s h. h.1)
  named regetting (refused e) = Ensures-raise _ _ _

  -- The update, from the Deployment that a second read has found.
  pub rewritten-Done :
      (texts : Texts) (regetting : String) (merge : Deployment → Deployment)
      → ((latest : Deployment) → (merge latest).metadata ≡ latest.metadata)
      → ((latest : Deployment) (x : DeploymentSpec) → StoredAs x (merge latest).spec → Good x)
      → (r : Reply c.ApiError Deployment)
      → Ensures
          (Seen r)
          Done
          (or_wrap regetting r >>= (λ latest. write c c.deployments texts (merge latest)))
  rewritten-Done texts regetting merge hm hs r =
      Ensures-bind _ (λ latest _. IsNamed ns name latest.metadata) Done _ _ (named regetting r)
        (λ latest. record {
          at = λ s n.
              (write-Done (merge latest) (subst (IsNamed ns name) (sym (hm latest)) n) (hs latest)
                  texts).at
                s tt;
        })

  pub get-Seen :
      (w : c.World) (kn : KubeNova) (r : Reply c.ApiError Deployment)
      → (c.deployments.get ns name w).0 ≡ r
      → Seen r (record { world = (c.deployments.get ns name w).1; kube_nova = kn })
  get-Seen w kn (got a) k = laws.got_is ns name w a k
  get-Seen w kn (refused _) k = tt

  pub seen : Ensures {E = c.ApiError} (λ _. Unit) Seen (call (c.deployments.get ns name))
  seen = Ensures-call _ Seen _ (λ s _. get-Seen s.world s.kube_nova _ refl)

-- A Deployment is stored that has what `StoredAs` says of the one that was built.
abbrev pub Deployed : (c : Cluster) → DeploymentLaws c → String → Deployment → c.World → Type 0
Deployed c laws ns d = Placed c laws ns d.metadata.name (λ x. StoredAs x d.spec)

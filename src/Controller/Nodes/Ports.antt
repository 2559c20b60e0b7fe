-- ===== src/Controller/Nodes/Ports.antt =====
-- The port that `getWebNodePort` takes (internal/controller/kubenova_controller.go).
use kube_nova_operator.Api.Spec.{NodePortConfig, WebConfig}
use kube_nova_operator.Controller.Nodes.{
  choose_node_port, configured_port, http_or_configured, is_assigned,
}
use kube_nova_operator.Kube.Network.{ServicePort}
use kube_nova_operator.Prelude.{
  Bool, Bool-cases, List, Option, Option-cases, String, [], arith, find_first, inl, inr, none, refl,
  some, subst, true, ◌∷◌, ◌≡◌,
}
use kube_nova_operator.Prelude.Int.{is_pos}

find_first_holds :
    {A : Type 0} (p : A → Bool) (xs : List A) (a : A) → find_first p xs ≡ some a → p a ≡ true
find_first_holds p [] a h = absurd (ground arith)
find_first_holds p (x ∷ xs) a h = elim (Bool-cases (p x)) [
  | inl yes_x ↦ let same : x ≡ a = ground arith in subst (λ y. p y ≡ true) same yes_x
  | inr no_x ↦ find_first_holds p xs a (ground arith)
]

assigned_positive :
    (name : String) (ports : List ServicePort) (p : ServicePort)
    → find_first (is_assigned name) ports ≡ some p
    → is_pos p.node_port ≡ true
assigned_positive name ports p h = ground (arith, find_first_holds (is_assigned name) ports p h)

configured_positive : (o : Option NodePortConfig) → is_pos (configured_port o) ≡ true
configured_positive none = refl
configured_positive (some n) = ground arith

http_positive :
    (w : WebConfig) (ports : List ServicePort) → is_pos (http_or_configured w ports) ≡ true
http_positive w ports = elim (Option-cases (find_first (is_assigned "http") ports)) [
  | inl absent ↦ ground (arith, configured_positive w.node_port)
  | inr (p, found) ↦ ground (arith, assigned_positive "http" ports p found)
]

-- The port is positive, whatever the Service and the configuration are: a port that the cluster has
-- not assigned and one that is configured as 0 or less are never taken.
pub choose_node_port_positive :
    (w : WebConfig) (ports : List ServicePort) → is_pos (choose_node_port w ports) ≡ true
unfolding choose_node_port
choose_node_port_positive w ports = elim (Option-cases (find_first (is_assigned "https") ports)) [
  | inl absent ↦ ground (arith, http_positive w ports)
  | inr (p, found) ↦ ground (arith, http_positive w ports, assigned_positive "https" ports p found)
]

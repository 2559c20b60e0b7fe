-- ===== src/Controller/Nodes/Laws.antt =====
-- Which address `getNodeIP` takes (internal/controller/kubenova_controller.go).
use kube_nova_operator.Controller.Nodes.{
  address_text, choose_node_ip, fallback_address, node_address, node_is_ready, ready_address,
}
use kube_nova_operator.Kube.{Node, NodeAddress}
use kube_nova_operator.Prelude.{
  All, Bool, Bool-cases, List, Option, String, [], any, ap, arith, false, find_first, inl, inr,
  none, refl, some, true, ◌&&◌, ◌++◌, ◌==◌, ◌||◌, ◌∷◌, ◌≡◌, ◌⊎◌,
}

-- An element of a list that passes a test, before which none does.
pub record IsFirst {A : Type 0} (test : A → Bool) (l : List A) (a : A) : Type 0 where
  pub front : List A
  pub back : List A
  pub split : l ≡ front ++ a ∷ back
  pub passes : test a ≡ true
  pub before : All (λ b. test b ≡ false) front

abbrev pub PassesNone : {A : Type 0} → (A → Bool) → List A → Type 0
PassesNone test l = All (λ a. test a ≡ false) l

-- What a search finds.
abbrev Finds : {A : Type 0} → (A → Bool) → List A → Option A → Type 0
Finds test l none = PassesNone test l
Finds test l (some a) = IsFirst test l a

module _ {A : Type 0} (test : A → Bool) where
  skip_one :
      (a : A) (l : List A) (o : Option A) → test a ≡ false → Finds test l o → Finds test (a ∷ l) o
  skip_one a l none h t = (h, t)
  skip_one a l (some b) h t = record {
    front = a ∷ t.front;
    back = t.back;
    split = ap (λ m. a ∷ m) t.split;
    passes = t.passes;
    before = (h, t.before);
  }

  find_first-Finds : (l : List A) → Finds test l (find_first test l)
  find_first-Finds [] = tt
  find_first-Finds (a ∷ l) = elim (Bool-cases (test a)) [
    | inl hit ↦ rw hit (record { front = []; back = l; split = refl; passes = hit; before = tt })
    | inr miss ↦ rw miss (skip_one a l _ miss (find_first-Finds l))
  ]

-- The tests on the kind of an address, and on the conditions of a node.
abbrev pub of_kind : String → NodeAddress → Bool
of_kind kind a = a.kind == kind

abbrev pub reports_ready : Node → Bool
reports_ready n = any (λ k. k.kind == "Ready" && k.status == "True") n.conditions

-- The address that speaks for a node: its first external one, or, if it has none of these, its
-- first internal one.
abbrev pub SpeaksFor : Node → NodeAddress → Type 0
SpeaksFor n a =
    IsFirst (of_kind "ExternalIP") n.addresses a
    ⊎ (PassesNone (of_kind "ExternalIP") n.addresses × IsFirst (of_kind "InternalIP") n.addresses a)

-- A node without an address of either kind.
abbrev pub IsSilent : Node → Type 0
IsSilent n =
    PassesNone (of_kind "ExternalIP") n.addresses × PassesNone (of_kind "InternalIP") n.addresses

-- The node that is passed over.
abbrev pub IsSkipped : Node → Type 0
IsSkipped n = reports_ready n ≡ true → IsSilent n

-- The address speaks for a ready node, before which no ready node has one.
pub record IsOfFirstReady (nodes : List Node) (a : NodeAddress) : Type 0 where
  pub front : List Node
  pub node : Node
  pub back : List Node
  pub split : nodes ≡ front ++ node ∷ back
  pub passed : All IsSkipped front
  pub is_ready : reports_ready node ≡ true
  pub speaks : SpeaksFor node a

-- The address of a cluster in which no ready node has one: of the first node of the list, ready or
-- not, the first address of either kind, or the empty text.
abbrev pub IsLastResort : List Node → String → Type 0
IsLastResort [] ip = ip ≡ ""
IsLastResort (n ∷ _) ip =
    (IsSilent n × (ip ≡ ""))
    ⊎ ((a : NodeAddress) × (IsFirst (λ b. of_kind "ExternalIP" b || of_kind "InternalIP" b)
            n.addresses a
          × (ip ≡ a.address)))

abbrev pub Chosen : List Node → String → Type 0
Chosen nodes ip =
    ((a : NodeAddress) × (IsOfFirstReady nodes a × (ip ≡ a.address)))
    ⊎ (All IsSkipped nodes × IsLastResort nodes ip)

-- What the loops over the addresses of a node find.
abbrev Speaks : Node → Option NodeAddress → Type 0
Speaks n none = IsSilent n
Speaks n (some a) = SpeaksFor n a

node_address-Speaks : (n : Node) → Speaks n (node_address n)
unfolding node_address
node_address-Speaks n =
    either_kind _ _ (find_first-Finds (of_kind "ExternalIP") n.addresses)
      (find_first-Finds (of_kind "InternalIP") n.addresses)
  where
    either_kind :
        (o p : Option NodeAddress)
        → Finds (of_kind "ExternalIP") n.addresses o
        → Finds (of_kind "InternalIP") n.addresses p
        → Speaks n (elim o [ some a ↦ some a | none ↦ p ])
    either_kind none none h k = (h, k)
    either_kind none (some a) h k = inr (h, k)
    either_kind (some a) p h k = inl h

-- What the loop over the nodes finds.
abbrev Taken : List Node → Option NodeAddress → Type 0
Taken nodes none = All IsSkipped nodes
Taken nodes (some a) = IsOfFirstReady nodes a

skip_node :
    (n : Node) (ns : List Node) (o : Option NodeAddress)
    → IsSkipped n
    → Taken ns o
    → Taken (n ∷ ns) o
skip_node n ns none h t = (h, t)
skip_node n ns (some a) h t = record {
  front = n ∷ t.front;
  node = t.node;
  back = t.back;
  split = ap (λ l. n ∷ l) t.split;
  passed = (h, t.passed);
  is_ready = t.is_ready;
  speaks = t.speaks;
}

ready_node :
    (n : Node) (ns : List Node) (o rest : Option NodeAddress)
    → reports_ready n ≡ true
    → Speaks n o
    → Taken ns rest
    → Taken (n ∷ ns) (elim o [ some a ↦ some a | none ↦ rest ])
ready_node n ns none rest r h t = skip_node n ns rest (λ _. h) t
ready_node n ns (some a) rest r h t = record {
  front = [];
  node = n;
  back = ns;
  split = refl;
  passed = tt;
  is_ready = r;
  speaks = h;
}

ready_address-Taken : (nodes : List Node) → Taken nodes (ready_address nodes)
unfolding ready_address
ready_address-Taken [] = tt
ready_address-Taken (n ∷ ns) = elim (Bool-cases (node_is_ready n)) [
  | inl r ↦ rw r (ready_node n ns _ _ r (node_address-Speaks n) (ready_address-Taken ns))
  | inr busy ↦ rw busy (skip_node n ns _ (λ r. absurd (ground arith)) (ready_address-Taken ns))
]

neither :
    (l : List NodeAddress)
    → PassesNone (λ b. of_kind "ExternalIP" b || of_kind "InternalIP" b) l
    → PassesNone (of_kind "ExternalIP") l × PassesNone (of_kind "InternalIP") l
neither [] h = (tt, tt)
neither (a ∷ l) h =
    let rest = neither l h.1 in ((ground (arith, h.0), rest.0), (ground (arith, h.0), rest.1))

first_of_either :
    (n : Node) (o : Option NodeAddress)
    → Finds (λ b. of_kind "ExternalIP" b || of_kind "InternalIP" b) n.addresses o
    → IsLastResort (n ∷ []) (address_text o)
first_of_either n none h = inl (neither n.addresses h, refl)
first_of_either n (some a) h = inr (a, (h, refl))

last_resort : (nodes : List Node) → IsLastResort nodes (address_text (fallback_address nodes))
unfolding fallback_address
last_resort [] = refl
last_resort (n ∷ _) =
    first_of_either n _
      (find_first-Finds (λ b. of_kind "ExternalIP" b || of_kind "InternalIP" b) n.addresses)

chosen :
    (nodes : List Node) (o : Option NodeAddress)
    → Taken nodes o
    → Chosen nodes (elim o [ some a ↦ a.address | none ↦ address_text (fallback_address nodes) ])
chosen nodes none t = inr (t, last_resort nodes)
chosen nodes (some a) t = inl (a, (t, refl))

-- The address that is chosen is that of the first node that is ready and has one: its first external
-- address or, if it has no external one, its first internal one. If no ready node has an address of
-- either kind, it is the first address of either kind of the first node of the list, ready or not;
-- and if that has none, or there is no node, it is the empty text.
pub choose_node_ip-Chosen : (nodes : List Node) → Chosen nodes (choose_node_ip nodes)
unfolding choose_node_ip
choose_node_ip-Chosen nodes = chosen nodes (ready_address nodes) (ready_address-Taken nodes)

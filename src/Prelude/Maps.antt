-- ===== src/Prelude/Maps.antt =====
-- Go's maps with text keys, as association lists. Iteration order is the order of the list, and
-- no theorem about the operator depends on it.
use kube_nova_operator.Prelude.{
  Bool, List, Option, String, [], arith, eq-false_of_ne, eq_iff, eq_refl, false, if◌then◌else◌,
  length, nat_eq, none, refl, some, true, ◌&&◌, ◌==◌, ◌∷◌, ◌≡◌, ◌≢◌,
}

abbrev pub Map {ℓ} : Type ℓ → Type ℓ
Map V = List (String × V)

module _ {ℓ} {V : Type ℓ} where
  -- `m[k]`, with its `ok`.
  abbrev pub lookup : String → Map V → Option V
  lookup k [] = none
  lookup k ((j, v) ∷ m) = if j == k then some v else lookup k m

  -- `m[k] = v`
  abbrev pub insert : String → V → Map V → Map V
  insert k v [] = (k, v) ∷ []
  insert k v ((j, w) ∷ m) = if j == k then (k, v) ∷ m else (j, w) ∷ insert k v m

  -- `for k, v := range extra { m[k] = v }`
  abbrev pub insert_all : Map V → Map V → Map V
  insert_all [] m = m
  insert_all ((k, v) ∷ extra) m = insert_all extra (insert k v m)

  pub lookup-insert :
      (k j : String) (v : V) (m : Map V)
      → lookup j (insert k v m) ≡ (if k == j then some v else lookup j m)
  lookup-insert k j v [] = refl
  lookup-insert k j v ((i, w) ∷ m) =
      ground (arith, eq_iff k j, eq_iff i k, eq_iff i j, lookup-insert k j v m)

  pub lookup-insert_self : (k : String) (v : V) (m : Map V) → lookup k (insert k v m) ≡ some v
  lookup-insert_self k v m = simp (lookup-insert, eq_refl)

  pub lookup-insert_ne :
      (k j : String) (v : V) (m : Map V) → k ≢ j → lookup j (insert k v m) ≡ lookup j m
  lookup-insert_ne k j v m h = rw lookup-insert (rw (eq-false_of_ne k j h))

  -- Every key of `a` has in `b` a value that `same` accepts.
  abbrev pub agrees : (V → V → Bool) → Map V → Map V → Bool
  agrees same [] b = true
  agrees same ((k, v) ∷ a) b =
      elim (lookup k b) [ none ↦ false | some w ↦ same v w ] && agrees same a b

-- `reflect.DeepEqual` on two maps that are not nil, whose keys are distinct.
abbrev pub maps_equal {ℓ} : {V : Type ℓ} → (V → V → Bool) → Map V → Map V → Bool
maps_equal same a b = nat_eq (length a) (length b) && agrees same a b

-- ===== src/Prelude/MapLaws.antt =====
-- Maps with distinct keys, which every Go map has, and their comparison.
use kube_nova_operator.Prelude.{
  All, Bool, Option, Option-cases, String, [], arith, eq_iff, eq_refl, false, if◌then◌else◌, inl,
  inr, length, none, refl, some, true, ◌&&◌, ◌+◌, ◌==◌, ◌∷◌, ◌≡◌, ◌≢◌, ◌≤◌,
}
use kube_nova_operator.Prelude.Maps.{Map, agrees, insert, lookup, lookup-insert, maps_equal}

module _ {ℓ} {V : Type ℓ} where
  abbrev pub HasDistinctKeys : Map V → Type ℓ
  HasDistinctKeys [] = Unit
  HasDistinctKeys ((k, _) ∷ m) = (lookup k m ≡ none) × HasDistinctKeys m

  pub insert-HasDistinctKeys :
      (k : String) (v : V) (m : Map V) → HasDistinctKeys m → HasDistinctKeys (insert k v m)
  insert-HasDistinctKeys k v [] h = (refl, tt)
  insert-HasDistinctKeys k v ((j, w) ∷ m) h =
      ground
        (arith, eq_iff j k, eq_iff k j, lookup-insert k j v m, insert-HasDistinctKeys k v m h.1)

  -- A test that no key occurs twice.
  abbrev pub has_key_once : Map V → Bool
  has_key_once [] = true
  has_key_once ((k, _) ∷ m) = elim (lookup k m) [ none ↦ true | some _ ↦ false ] && has_key_once m

  none_of_test : (o : Option V) → elim o [ none ↦ true | some _ ↦ false ] ≡ true → o ≡ none
  none_of_test none e = refl
  none_of_test (some s) e = absurd (ground arith)

  pub has_key_once-HasDistinctKeys : (m : Map V) → has_key_once m ≡ true → HasDistinctKeys m
  has_key_once-HasDistinctKeys [] h = tt
  has_key_once-HasDistinctKeys ((k, v) ∷ m) h =
      (none_of_test (lookup k m) (ground arith), has_key_once-HasDistinctKeys m (ground arith))

  -- Every pair of `a` is found in `m`.
  abbrev pub IsWithin : Map V → Map V → Type ℓ
  IsWithin a m = All (λ p. lookup p.0 m ≡ some p.1) a

  IsWithin-cons :
      (a m : Map V) (k : String) (v : V)
      → lookup k m ≡ none
      → IsWithin a m
      → IsWithin a ((k, v) ∷ m)
  IsWithin-cons [] m k v h w = tt
  IsWithin-cons ((j, x) ∷ a) m k v h w = (ground (arith, eq_iff k j), IsWithin-cons a m k v h w.1)

  pub IsWithin-self : (m : Map V) → HasDistinctKeys m → IsWithin m m
  IsWithin-self [] h = tt
  IsWithin-self ((k, v) ∷ m) h =
      (ground (arith, eq_refl k), IsWithin-cons m m k v h.0 (IsWithin-self m h.1))

  agrees_of_IsWithin :
      (same : V → V → Bool) (refl_same : (v : V) → same v v ≡ true) (a m : Map V)
      → IsWithin a m
      → agrees same a m ≡ true
  agrees_of_IsWithin same r [] m w = refl
  agrees_of_IsWithin same r ((k, v) ∷ a) m w = rw (w.0, r) (agrees_of_IsWithin same r a m w.1)

  -- A map equals itself.
  pub maps_equal_refl :
      (same : V → V → Bool) (refl_same : (v : V) → same v v ≡ true) (m : Map V)
      → HasDistinctKeys m
      → maps_equal same m m ≡ true
  maps_equal_refl same r m h = rw (agrees_of_IsWithin same r m m (IsWithin-self m h)) (ground arith)

  -- The map without a key.
  erase : String → Map V → Map V
  erase k [] = []
  erase k ((j, v) ∷ m) = let rest = erase k m in if j == k then m else (j, v) ∷ rest

  length-erase :
      (k : String) (v : V) (m : Map V) → lookup k m ≡ some v → length m ≡ length (erase k m) + 1
  unfolding erase
  length-erase k v [] h = absurd (ground arith)
  length-erase k v ((j, w) ∷ m) h = ground (arith, length-erase k v m)

  lookup-erase_ne : (k j : String) (m : Map V) → k ≢ j → lookup j (erase k m) ≡ lookup j m
  unfolding erase
  lookup-erase_ne k j [] h = refl
  lookup-erase_ne k j ((i, w) ∷ m) h =
      ground (arith, eq_iff i k, eq_iff i j, lookup-erase_ne k j m h)

  lookup-erase_self : (k : String) (m : Map V) → HasDistinctKeys m → lookup k (erase k m) ≡ none
  unfolding erase
  lookup-erase_self k [] d = refl
  lookup-erase_self k ((j, w) ∷ m) d = ground (arith, eq_iff j k, lookup-erase_self k m d.1)

  erase-HasDistinctKeys : (k : String) (m : Map V) → HasDistinctKeys m → HasDistinctKeys (erase k m)
  unfolding erase
  erase-HasDistinctKeys k [] d = tt
  erase-HasDistinctKeys k ((j, w) ∷ m) d =
      ground (arith, eq_iff j k, eq_iff k j, lookup-erase_ne k j m, erase-HasDistinctKeys k m d.1)

  agrees-erase :
      (same : V → V → Bool) (k : String) (a b : Map V)
      → lookup k a ≡ none
      → agrees same a b ≡ true
      → agrees same a (erase k b) ≡ true
  agrees-erase same k [] b h g = refl
  agrees-erase same k ((j, v) ∷ a) b h g =
      ground (arith, eq_iff j k, eq_iff k j, lookup-erase_ne k j b, agrees-erase same k a b)

  module _ (same : V → V → Bool) (exact : (v w : V) → same v w ≡ true → v ≡ w) where
    agrees-lookup :
        (a b : Map V)
        → HasDistinctKeys a
        → HasDistinctKeys b
        → length b ≤ length a
        → agrees same a b ≡ true
        → (k : String) → lookup k a ≡ lookup k b
    agrees-lookup [] [] da db l g k = refl
    agrees-lookup [] (p ∷ b) da db l g k = absurd (ground arith)
    agrees-lookup ((j, v) ∷ a) b da db l g k = elim (Option-cases (lookup j b)) [
      | inl absent ↦ absurd (ground arith)
      | inr (w, found) ↦
          let shorter : length (erase j b) ≤ length a = ground (arith, length-erase j w b found) in
          let kept : agrees same a (erase j b) ≡ true =
            ground (arith, agrees-erase same j a b da.0) in
          let ih = agrees-lookup a (erase j b) da.1 (erase-HasDistinctKeys j b db) shorter kept k in
          ground (arith, exact v w, eq_iff j k, lookup-erase_ne j k b, lookup-erase_self j b db)
    ]

    -- Two maps that are found equal have the same value under every key.
    pub maps_equal-lookup :
        (a b : Map V)
        → HasDistinctKeys a
        → HasDistinctKeys b
        → maps_equal same a b ≡ true
        → (k : String) → lookup k a ≡ lookup k b
    maps_equal-lookup a b da db h = agrees-lookup a b da db (ground arith) (ground arith)

-- ===== src/Builder/Checksum/Laws.antt =====
-- The checksums of internal/builder/common.go do not depend on the order of a map.
use Prim.Native.Nat.{Ordering}
use Prim.Native.String.{compare}
use Prim.Native.String.compare
use text.Mathlib.TextEquality.{path_by_compare, IsScalar-prop}
use mathlib.Core.List.{Perm, Permᴰ}
use mathlib.Core.Logic.{∥∥₁_elim}
use kube_nova_operator.Builder.Checksum.{
  calculate_config_map_checksum, checksum_of, concatenate, keys, precedes, sort_insert,
  sort_strings,
}
use kube_nova_operator.Kube.{ConfigMap}
use kube_nova_operator.Prelude.{List, String, [], ap, arith, false, refl, some, true, ◌∙◌, ◌∷◌, ◌≡◌}
use kube_nova_operator.Prelude.Maps.{Map, lookup}

abbrev swapped : Ordering → Ordering
swapped Ordering.lt = Ordering.gt
swapped Ordering.eq = Ordering.eq
swapped Ordering.gt = Ordering.lt

compare-swapped : (s t : String) → compare t s ≡ swapped (compare s t)
compare-swapped String.[] String.[] = refl
compare-swapped String.[] (String.◌∷◌ d t) =
    ground (arith, compare.nil-cons d t, compare.cons-nil d t)
compare-swapped (String.◌∷◌ c s) String.[] =
    ground (arith, compare.nil-cons c s, compare.cons-nil c s)
compare-swapped (String.◌∷◌ c s) (String.◌∷◌ d t) =
    ground (arith, compare.cons-cons c d s t, compare.cons-cons d c t s, compare-swapped s t)

precedes_trans : (s t u : String) → precedes s t ≡ true → precedes t u ≡ true → precedes s u ≡ true
precedes_trans String.[] String.[] u h k = k
precedes_trans String.[] (String.◌∷◌ d t) String.[] h k = refl
precedes_trans String.[] (String.◌∷◌ d t) (String.◌∷◌ e u) h k =
    ground (arith, compare.nil-cons e u)
precedes_trans (String.◌∷◌ c s) String.[] u h k = ground (arith, compare.cons-nil c s)
precedes_trans (String.◌∷◌ c s) (String.◌∷◌ d t) String.[] h k =
    ground (arith, compare.cons-nil d t)
precedes_trans (String.◌∷◌ c s) (String.◌∷◌ d t) (String.◌∷◌ e u) h k = ground (
  arith,
  compare.cons-cons c d s t,
  compare.cons-cons d e t u,
  compare.cons-cons c e s u,
  precedes_trans s t u,
)

precedes_total : (s t : String) → precedes s t ≡ false → precedes t s ≡ true
precedes_total s t h = ground (arith, compare-swapped s t)

precedes_antisymm : (s t : String) → precedes s t ≡ true → precedes t s ≡ true → s ≡ t
precedes_antisymm s t h k = ground (arith, compare-swapped s t, path_by_compare s t)

-- Inserting two texts in either order gives the same list.
sort_insert_comm :
    (a b : String) (l : List String)
    → sort_insert a (sort_insert b l) ≡ sort_insert b (sort_insert a l)
unfolding sort_insert
sort_insert_comm a b [] = ground (arith, precedes_total a b, precedes_antisymm a b)
sort_insert_comm a b (c ∷ l) = ground (
  arith,
  sort_insert_comm a b l,
  precedes_total a b,
  precedes_antisymm a b,
  precedes_trans a b c,
  precedes_trans b a c,
)

-- Sorting forgets the order.
sort_strings-permᴰ : {l m : List String} → Permᴰ l m → sort_strings l ≡ sort_strings m
unfolding sort_strings
sort_strings-permᴰ Permᴰ.nil = refl
sort_strings-permᴰ (Permᴰ.cons e h) = cc (e, sort_strings-permᴰ h)
sort_strings-permᴰ (Permᴰ.swap {a} {b} {l} e f) =
    rw (← e, ← f) (sort_insert_comm a b (sort_strings l))
sort_strings-permᴰ (Permᴰ.trans h k) = sort_strings-permᴰ h ∙ sort_strings-permᴰ k

texts_set : IsSet (List String)
texts_set = hlevel IsScalar-prop

sort_strings-perm : (l m : List String) → Perm l m → sort_strings l ≡ sort_strings m
sort_strings-perm l m h = ∥∥₁_elim h (texts_set _ _) sort_strings-permᴰ

-- Two lists that are one Go map: the keys of one are a rearrangement of those of the other, and
-- each key has the same value.
pub record IsSameMap (m n : Map String) : Type 0 where
  pub keys_perm : Perm (keys m) (keys n)
  pub values : (k : String) → lookup k m ≡ lookup k n

concatenate_congr :
    (ks : List String) (m n : Map String)
    → ((k : String) → lookup k m ≡ lookup k n)
    → concatenate ks m ≡ concatenate ks n
unfolding concatenate
concatenate_congr [] m n h = refl
concatenate_congr (k ∷ ks) m n h = cc (h k, concatenate_congr ks m n h)

-- The checksum of a ConfigMap is that of the map, however it is listed: the same keys with the same
-- values give the same checksum, for every hash.
pub calculate_config_map_checksum_order :
    (sha256 : String → String) (a b : ConfigMap)
    → IsSameMap a.entries b.entries
    → calculate_config_map_checksum sha256 (some a) ≡ calculate_config_map_checksum sha256 (some b)
unfolding calculate_config_map_checksum checksum_of
calculate_config_map_checksum_order sha256 a b h = ap sha256 (
    ap (λ ks. concatenate ks a.entries) (sort_strings-perm _ _ h.keys_perm)
    ∙ concatenate_congr (sort_strings (keys b.entries)) a.entries b.entries h.values)

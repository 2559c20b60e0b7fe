-- ===== src/Builder/Checksum.antt =====
-- The checksums of internal/builder/common.go. The hash, `fmt.Sprintf("%x", sha256.Sum256(s))`, is
-- a parameter: the program hands it a text and compares or prints what comes back.
pub mod Laws
pub mod Collision
use Prim.Native.Nat.{Ordering}
use Prim.Native.String.{compare}
use kube_nova_operator.Kube.{ConfigMap, Secret}
use kube_nova_operator.Prelude.{
  Bool, List, Option, String, [], false, if◌then◌else◌, join, map, none, some, true, ◌∷◌,
}
use kube_nova_operator.Prelude.Maps.{Map, lookup}

-- `sort.Strings`: the texts in byte order, by insertion.
abbrev pub precedes : String → String → Bool
precedes s t = elim (compare s t) [ Ordering.gt ↦ false | _ ↦ true ]

pub sort_insert : String → List String → List String
sort_insert k [] = k ∷ []
sort_insert k (j ∷ js) =
    let rest = sort_insert k js in if precedes k j then k ∷ j ∷ js else j ∷ rest

pub sort_strings : List String → List String
sort_strings [] = []
sort_strings (k ∷ ks) = sort_insert k (sort_strings ks)

abbrev pub keys {ℓ} : {V : Type ℓ} → Map V → List String
keys [] = []
keys ((k, _) ∷ m) = k ∷ keys m

-- `cm.Data[k]`, the empty text if there is no such key.
abbrev pub entry : String → Map String → String
entry k m = elim (lookup k m) [ none ↦ "" | some v ↦ v ]

-- The text that is hashed: a line `k=v` for each key.
pub concatenate : List String → Map String → String
concatenate [] m = ""
concatenate (k ∷ ks) m = join (k ∷ "=" ∷ entry k m ∷ "\n" ∷ concatenate ks m ∷ [])

-- `strings.Join`
pub join_with : String → List String → String
join_with sep [] = ""
join_with sep (s ∷ []) = s
join_with sep (s ∷ t ∷ ss) = join (s ∷ sep ∷ join_with sep (t ∷ ss) ∷ [])

module _ (sha256 : String → String) where
  unfoldable pub checksum_of : Option (Map String) → String
  unfolding sort_strings sort_insert concatenate
  checksum_of none = ""
  checksum_of (some m) = sha256 (concatenate (sort_strings (keys m)) m)

  -- `none` stands for a nil object and for one whose data is nil: both give the empty text.
  pub calculate_config_map_checksum : Option ConfigMap → String
  unfolding checksum_of
  calculate_config_map_checksum none = checksum_of none
  calculate_config_map_checksum (some cm) = checksum_of (some cm.entries)

  pub calculate_secret_checksum : Option Secret → String
  unfolding checksum_of
  calculate_secret_checksum none = checksum_of none
  calculate_secret_checksum (some s) = checksum_of (some s.entries)

  pub calculate_config_map_list_checksum : List ConfigMap → String
  unfolding calculate_config_map_checksum join_with
  calculate_config_map_list_checksum cms =
      sha256 (join_with "|" (map (λ cm. calculate_config_map_checksum (some cm)) cms))

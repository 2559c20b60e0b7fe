-- ===== src/Builder/Checksum/Collision.antt =====
-- Two different ConfigMaps with one checksum (internal/builder/common.go): the text that is hashed
-- has no mark that tells a newline in a value from the end of an entry.
use text.Mathlib.TextLemmas.{append-nil, append_assoc}
use kube_nova_operator.Builder.Checksum.{
  checksum_of, concatenate, entry, precedes, sort_insert, sort_strings,
}
use kube_nova_operator.Prelude.{
  String, [], ap, arith, eq-false_of_ne, eq_refl, join, length, refl, some, sym, true, ◌∙◌, ◌∷◌,
  ◌≡◌, ◌≢◌,
}
use kube_nova_operator.Prelude.Maps.{Map}

-- One entry, whose value holds a line `k=w` for the key of the second map.
abbrev pub folded : String → String → String → String → Map String
folded j v k w = (j, join (v ∷ "\n" ∷ k ∷ "=" ∷ w ∷ [])) ∷ []

abbrev pub spread_out : String → String → String → String → Map String
spread_out j v k w = (j, v) ∷ (k, w) ∷ []

entry-folded : (j v k w : String) → entry j (folded j v k w) ≡ join (v ∷ "\n" ∷ k ∷ "=" ∷ w ∷ [])
entry-folded j v k w = ground (arith, eq_refl j)

entry-first : (j v k w : String) → entry j (spread_out j v k w) ≡ v
entry-first j v k w = ground (arith, eq_refl j)

entry-second : (j v k w : String) → j ≢ k → entry k (spread_out j v k w) ≡ w
entry-second j v k w ne = ground (arith, eq-false_of_ne j k, eq_refl k)

-- Two keys in order stay so.
sort_pair : (j k : String) → precedes j k ≡ true → sort_strings (j ∷ k ∷ []) ≡ j ∷ k ∷ []
unfolding sort_strings sort_insert
sort_pair j k h = rw h refl

-- The two texts are one, whatever the values.
same_line :
    (j v k w : String)
    → join (j ∷ "=" ∷ join (v ∷ "\n" ∷ k ∷ "=" ∷ w ∷ []) ∷ "\n" ∷ "" ∷ [])
      ≡ join (j ∷ "=" ∷ v ∷ "\n" ∷ join (k ∷ "=" ∷ w ∷ "\n" ∷ "" ∷ []) ∷ [])
same_line j v k w = simp (append_assoc, append-nil)

same_text :
    (j v k w : String)
    → j ≢ k
    → concatenate (j ∷ []) (folded j v k w) ≡ concatenate (j ∷ k ∷ []) (spread_out j v k w)
unfolding concatenate
same_text j v k w ne =
    rw (entry-folded j v k w, entry-first j v k w, entry-second j v k w ne) (same_line j v k w)

-- For two distinct keys in order, one entry whose value continues with a newline and `k=w` has the
-- checksum of two entries, whatever the hash, although the maps have different sizes.
pub checksum_collides :
    (sha256 : String → String) (j v k w : String)
    → j ≢ k
    → precedes j k ≡ true
    → (checksum_of sha256 (some (folded j v k w)) ≡ checksum_of sha256 (some (spread_out j v k w)))
      × (length (folded j v k w) ≢ length (spread_out j v k w))
unfolding checksum_of
checksum_collides sha256 j v k w ne h = (
  ap sha256 (
      same_text j v k w ne
      ∙ ap (λ ks. concatenate ks (spread_out j v k w)) (sym (sort_pair j k h))),
  λ e. absurd (ground arith),
)

-- ===== src/Builder/Web/Nginx/Braces.antt =====
-- The braces of the web server's configuration are balanced (internal/builder/nginx.go).
use Prim.Native.String
use text.Mathlib.TextLemmas.{append-nil}
use Prim.Native.String.append
use Prim.Native.Char.{Char, code}
use kube_nova_operator.Builder.ConfigMaps.Sections.{lines}
use kube_nova_operator.Prelude.{
  List, Option, String, [], ap, if◌then◌else◌, join, nat_eq, none, refl, some, suc, sym, zero, ℕ,
  ◌++◌, ◌∙◌, ◌∷◌, ◌≡◌,
}

-- The nesting behind a character; nothing if a block is closed that was not opened.
abbrev next_depth : Char → ℕ → Option ℕ
next_depth c n =
    if nat_eq (code c) b'{'
    then some (suc n)
    else if nat_eq (code c) b'}'
    then elim n [ zero ↦ none | suc m ↦ some m ]
    else some n

-- The nesting at the end of a text.
unfoldable pub depth : String → ℕ → Option ℕ
depth String.[] n = some n
depth (String.◌∷◌ c s) n = elim (next_depth c n) [ none ↦ none | some m ↦ depth s m ]

-- The rest of a text behind a nesting, if there is one.
abbrev then_depth : Option ℕ → (ℕ → Option ℕ) → Option ℕ
then_depth none f = none
then_depth (some m) f = f m

then_depth_assoc :
    (o : Option ℕ) (f g h : ℕ → Option ℕ)
    → ((m : ℕ) → h m ≡ then_depth (f m) g)
    → elim o [ none ↦ none | some m ↦ h m ] ≡ then_depth (elim o [ none ↦ none | some m ↦ f m ]) g
then_depth_assoc none f g h e = refl
then_depth_assoc (some m) f g h e = e m

depth-append : (s t : String) (n : ℕ) → depth (String.◌++◌ s t) n ≡ then_depth (depth s n) (depth t)
unfolding depth
depth-append String.[] t n = ap (λ u. depth u n) (append.nil t)
depth-append (String.◌∷◌ c s) t n =
    ap (λ u. depth u n) (append.cons c s t)
    ∙ then_depth_assoc (next_depth c n) (depth s) (depth t) _ (depth-append s t)

-- The nesting behind each of the lines.
unfoldable pub depth_lines : List String → ℕ → Option ℕ
unfolding depth
depth_lines [] n = some n
depth_lines (l ∷ ls) n = elim (depth l n) [ none ↦ none | some m ↦ depth_lines ls m ]

then_depth_cong :
    (o : Option ℕ) (f g : ℕ → Option ℕ)
    → ((m : ℕ) → f m ≡ g m)
    → then_depth o f ≡ elim o [ none ↦ none | some m ↦ g m ]
then_depth_cong none f g e = refl
then_depth_cong (some m) f g e = e m

pub depth-lines : (ls : List String) (n : ℕ) → depth (lines ls) n ≡ depth_lines ls n
unfolding depth_lines
depth-lines [] n = refl
depth-lines (l ∷ ls) n =
    depth-append l _ n
    ∙ then_depth_cong (depth l n) _ _ λ m.
      ap (λ u. depth (String.◌++◌ "\n" u) m) (append-nil (lines ls))
      ∙ depth-append "\n" (lines ls) m
      ∙ depth-lines ls m

depth_lines-append :
    (a b : List String) (n : ℕ)
    → depth_lines (a ++ b) n ≡ then_depth (depth_lines a n) (depth_lines b)
unfolding depth_lines
depth_lines-append [] b n = refl
depth_lines-append (l ∷ a) b n =
    then_depth_assoc (depth l n) (depth_lines a) (depth_lines b) _ (depth_lines-append a b)

-- The text opens and closes no block.
abbrev pub IsPlain : String → Type 0
IsPlain s = (n : ℕ) → depth s n ≡ some n

-- The lines lead from a nesting to another.
pub record Nests (ls : List String) (n m : ℕ) : Type 0 where
  pub at : depth_lines ls n ≡ some m

module _ {a b : List String} {n m k : ℕ} where
  -- Lines, and lines behind them.
  pub Nests-append : Nests a n m → Nests b m k → Nests (a ++ b) n k
  Nests-append h g = record {
    at = depth_lines-append a b n ∙ ap (λ o. then_depth o (depth_lines b)) h.at ∙ g.at;
  }

module _ {l : String} {ls : List String} {n m k : ℕ} where
  -- A line, and lines behind it.
  pub Nests-cons : depth l n ≡ some m → Nests ls m k → Nests (l ∷ ls) n k
  unfolding depth_lines
  Nests-cons h g = record {
    at =
        sym (then_depth_cong (depth l n) (depth_lines ls) (depth_lines ls) (λ _. refl))
        ∙ ap (λ o. then_depth o (depth_lines ls)) h
        ∙ g.at;
  }

-- A plain text between two others.
pub depth-around :
    (a p b : String) (n m : ℕ)
    → IsPlain p
    → depth a n ≡ some m
    → depth (join (a ∷ p ∷ b ∷ [])) n ≡ depth b m
depth-around a p b n m hp ha =
    depth-append a _ n
    ∙ ap (λ o. then_depth o (depth (join (p ∷ b ∷ [])))) ha
    ∙ depth-append p _ m
    ∙ ap (λ o. then_depth o (depth (join (b ∷ [])))) (hp m)
    ∙ ap (λ u. depth u m) (append-nil b)

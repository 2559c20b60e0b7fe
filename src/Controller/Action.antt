-- ===== src/Controller/Action.antt =====
-- A method of the reconciler: it runs in the world and on the KubeNova that it holds in memory,
-- which it may write to, and it returns, fails or panics.
pub mod Rules
pub mod Ensures
pub mod Total
pub mod Sure
pub mod Runs
use kube_nova_operator.Api.{KubeNova}
use kube_nova_operator.Prelude.{Option, String, none, some}
use kube_nova_operator.Prelude.Results.{
  Error, Outcome, Reply, api, err, got, ok, panic, refused, wrapped,
}

pub record Session (W : Type 0) : Type 0 where
  pub world : W
  pub kube_nova : KubeNova

abbrev pub Action : Type 0 → Type 0 → Type 0 → Type 0
Action W E A = Session W → Outcome (Error E) A × Session W

-- The rest of a method behind a call, by how the call ended.
abbrev pub resume :
    {W E A B : Type 0}
    → Outcome (Error E) A
    → (A → Action W E B)
    → Session W
    → Outcome (Error E) B × Session W
resume (ok a) f s = f a s
resume (err e) f s = (err e, s)
resume panic f s = (panic, s)

-- `err := m()`: the error as a value, for a caller that goes on.
abbrev pub settle :
    {W E A : Type 0}
    → Outcome (Error E) A
    → Session W
    → Outcome (Error E) (Option (Error E)) × Session W
settle (ok _) s = (ok none, s)
settle (err e) s = (ok (some e), s)
settle panic s = (panic, s)

module _ {W E : Type 0} where
  unfoldable pub pure : {A : Type 0} → A → Action W E A
  pure a s = (ok a, s)

  unfoldable pub raise : {A : Type 0} → Error E → Action W E A
  raise e s = (err e, s)

  unfoldable pub crash : {A : Type 0} → Action W E A
  crash s = (panic, s)

  -- The KubeNova in memory.
  unfoldable pub self : Action W E KubeNova
  self s = (ok s.kube_nova, s)

  unfoldable pub modify : (KubeNova → KubeNova) → Action W E (Unit {0})
  modify f s = (ok tt, record s { kube_nova = f s.kube_nova })

  -- A call that leaves the KubeNova in memory alone.
  unfoldable pub call : {A : Type 0} → (W → A × W) → Action W E A
  call f s = let (a, w) = f s.world in (ok a, record s { world = w })

  unfoldable pub attempt : {A : Type 0} → Action W E A → Action W E (Option (Error E))
  attempt m s = let (r, s') = m s in settle r s'

  module _ {A B : Type 0} where
    unfoldable pub on_reply : Reply E A → (A → Action W E B) → (E → Action W E B) → Action W E B
    on_reply (got a) f g = f a
    on_reply (refused e) f g = g e

    unfoldable pub on_option : Option A → Action W E B → (A → Action W E B) → Action W E B
    on_option none m f = m
    on_option (some a) m f = f a

    infixl 5 ◌>>=◌ ◌>>◌
    -- Opening this opens the others.
    unfoldable pub ◌>>=◌ : Action W E A → (A → Action W E B) → Action W E B
    unfolding pure raise crash self modify call attempt on_reply on_option
    ◌>>=◌ m f s = let (r, s') = m s in resume r f s'

    abbrev pub ◌>>◌ : Action W E A → Action W E B → Action W E B
    m >> k = m >>= λ _. k

  -- `if err != nil { return fmt.Errorf("prefix: %w", err) }`
  abbrev pub or_wrap : {A : Type 0} → String → Reply E A → Action W E A
  or_wrap prefix r = on_reply r pure (λ e. raise (wrapped prefix (api e)))

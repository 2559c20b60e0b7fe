-- ===== src/Controller/Action/Ensures.antt =====
-- What a method has achieved if it returns a value: a condition before, a condition on the value
-- and the session after, and one rule for each way to build a method.
use kube_nova_operator.Api.{KubeNova}
use kube_nova_operator.Controller.Action.{
  Action, Session, attempt, call, modify, pure, raise, resume, self, settle, ◌>>=◌,
}
use kube_nova_operator.Controller.Action.Rules.{Relates}
use kube_nova_operator.Prelude.{All, List, Option, [], none, some, subst, ◌∷◌, ◌≡◌}
use kube_nova_operator.Prelude.Results.{Error, Outcome, err, ok, panic}

-- Nothing is said of a method that fails.
abbrev pub Post {ℓ} :
    {W E A : Type 0} → (A → Session W → Type ℓ) → Outcome (Error E) A × Session W → Type ℓ
Post Q (ok a, s) = Q a s
Post Q (err _, s) = Unit
Post Q (panic, s) = Unit

-- The condition of a method whose error is taken as a value.
abbrev pub Attempted {ℓ} :
    {W E A : Type 0} → (A → Session W → Type ℓ) → Option (Error E) → Session W → Type ℓ
Attempted {A} Q none s = (a : A) × Q a s
Attempted Q (some _) s = Unit

pub record Ensures {ℓ} {W E A : Type 0} (P : Session W → Type ℓ) (Q : A → Session W → Type ℓ)
    (m : Action W E A) : Type ℓ where
  pub at : (s : Session W) → P s → Post Q (m s)

module _ {ℓ} {W : Type 0} (P : Session W → Type ℓ) {E : Type 0} where
  module _ {A : Type 0} (Q : A → Session W → Type ℓ) where
    pub Ensures-pure : (a : A) → ((s : Session W) → P s → Q a s) → Ensures P Q (pure {E = E} a)
    unfolding pure
    Ensures-pure a h = record { at = h }

    pub Ensures-raise : (e : Error E) → Ensures P Q (raise e)
    unfolding raise
    Ensures-raise e = record { at = λ s h. tt }

    pub Ensures-call :
        (f : W → A × W)
        → ((s : Session W) → P s → Q (f s.world).0 (record s { world = (f s.world).1 }))
        → Ensures P Q (call {E = E} f)
    unfolding call
    Ensures-call f h = record { at = h }

  pub Ensures-modify :
      (Q : Unit {0} → Session W → Type ℓ) (f : KubeNova → KubeNova)
      → ((s : Session W) → P s → Q tt (record s { kube_nova = f s.kube_nova }))
      → Ensures P Q (modify {E = E} f)
  unfolding modify
  Ensures-modify Q f h = record { at = h }

  pub Ensures-self :
      (Q : KubeNova → Session W → Type ℓ)
      → ((s : Session W) → P s → Q s.kube_nova s)
      → Ensures P Q (self {E = E})
  unfolding self
  Ensures-self Q h = record { at = h }

  nothing-Post :
      {A : Type 0} (r : Outcome (Error E) A) (s : Session W) → Post {ℓ} (λ _ _. Unit) (r, s)
  nothing-Post (ok _) s = tt
  nothing-Post (err _) s = tt
  nothing-Post panic s = tt

  -- A condition that always holds is ensured by any method.
  pub Ensures-nothing : {A : Type 0} (m : Action W E A) → Ensures P (λ _ _. Unit) m
  Ensures-nothing m = record { at = λ s h. nothing-Post (m s).0 (m s).1 }

  -- What follows from a relation between the start and the end.
  pub Ensures-Relates :
      {A : Type 0} (R : Session W → Session W → Type 0) (Q : A → Session W → Type ℓ)
      (m : Action W E A)
      → Relates R m
      → ((a : A) (s t : Session W) → R s t → P s → Q a t)
      → Ensures P Q m
  Ensures-Relates {A} R Q m h k = record {
    at = λ s p. ended (m s).0 (m s).1 (λ a. k a s _ (h.at s) p);
  }
    where
      ended : (r : Outcome (Error E) A) (t : Session W) → ((a : A) → Q a t) → Post {E = E} Q (r, t)
      ended (ok a) t f = f a
      ended (err _) t f = tt
      ended panic t f = tt

  module _ {A B : Type 0} (Q : A → Session W → Type ℓ) (R : B → Session W → Type ℓ) where
    resume-Post :
        (r : Outcome (Error E) A) (f : A → Action W E B) (s : Session W)
        → ((a : A) → Ensures (Q a) R (f a))
        → Post Q (r, s)
        → Post R (resume r f s)
    resume-Post (ok a) f s hf h = (hf a).at s h
    resume-Post (err e) f s hf h = tt
    resume-Post panic f s hf h = tt

    pub Ensures-bind :
        (m : Action W E A) (f : A → Action W E B)
        → Ensures P Q m
        → ((a : A) → Ensures (Q a) R (f a))
        → Ensures P R (m >>= f)
    unfolding ◌>>=◌
    Ensures-bind m f hm hf = record { at = λ s h. resume-Post (m s).0 f (m s).1 hf (hm.at s h) }

  module _ {A : Type 0} (Q : A → Session W → Type ℓ) where
    settle-Post :
        (r : Outcome (Error E) A) (s : Session W) → Post Q (r, s) → Post (Attempted Q) (settle r s)
    settle-Post (ok a) s h = (a, h)
    settle-Post (err _) s h = tt
    settle-Post panic s h = tt

    pub Ensures-attempt : (m : Action W E A) → Ensures P Q m → Ensures P (Attempted Q) (attempt m)
    unfolding attempt
    Ensures-attempt m h = record { at = λ s p. settle-Post (m s).0 (m s).1 (h.at s p) }

  module _ {A : Type 0} (Q R : A → Session W → Type ℓ)
      (weaker : (a : A) (s : Session W) → Q a s → R a s) where
    Post-weaker :
        (r : Outcome (Error E) A) (s : Session W) → Post {E = E} Q (r, s) → Post {E = E} R (r, s)
    Post-weaker (ok a) s h = weaker a s h
    Post-weaker (err _) s h = tt
    Post-weaker panic s h = tt

    pub Ensures-weaker : (m : Action W E A) → Ensures P Q m → Ensures P R m
    Ensures-weaker m h = record { at = λ s p. Post-weaker (m s).0 (m s).1 (h.at s p) }

  -- A condition on a value that is known to be another.
  pub Ensures-along :
      {X A : Type 0} (Q : X → A → Session W → Type ℓ) (x y : X) (m : Action W E A)
      → Ensures P (Q x) m
      → Ensures (λ s. P s × (x ≡ y)) (Q y) m
  Ensures-along Q x y m h = record { at = λ s p. subst (λ z. Post (Q z) (m s)) p.1 (h.at s p.0) }

module _ {ℓ} {W : Type 0} (P P' : Session W → Type ℓ) {E A : Type 0}
    (Q Q' : A → Session W → Type ℓ) where
  and-Post :
      (r : Outcome (Error E) A) (s : Session W)
      → Post {E = E} Q (r, s)
      → Post {E = E} Q' (r, s)
      → Post {E = E} (λ a s. Q a s × Q' a s) (r, s)
  and-Post (ok a) s h k = (h, k)
  and-Post (err _) s h k = tt
  and-Post panic s h k = tt

  pub Ensures-and :
      (m : Action W E A)
      → Ensures P Q m
      → Ensures P' Q' m
      → Ensures (λ s. P s × P' s) (λ a s. Q a s × Q' a s) m
  Ensures-and m h k = record { at = λ s p. and-Post (m s).0 (m s).1 (h.at s p.0) (k.at s p.1) }

module _ {W : Type 0} (P : Session W → Type 0) {E A X : Type 0} (H : X → Session W → Type 0)
    (m : Action W E A) where
  -- What holds of each element of a list.
  pub Ensures-All :
      (l : List X)
      → All (λ x. Ensures (λ s. P s × H x s) (λ _. H x) m) l
      → Ensures (λ s. P s × All (λ x. H x s) l) (λ _ s. All (λ x. H x s) l) m
  Ensures-All [] h = record { at = λ s p. (Ensures-nothing P m).at s p.0 }
  Ensures-All (x ∷ l) h = record {
    at = λ s p. (Ensures-and _ _ _ _ m h.0 (Ensures-All l h.1)).at s ((p.0, p.1.0), (p.0, p.1.1));
  }

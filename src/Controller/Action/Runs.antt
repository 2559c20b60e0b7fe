-- ===== src/Controller/Action/Runs.antt =====
-- Methods that never panic from the sessions of a condition, and what holds where they return.
use kube_nova_operator.Api.{KubeNova}
use kube_nova_operator.Controller.Action.{Action, Session, call, modify, pure, resume, self, ◌>>=◌}
use kube_nova_operator.Controller.Action.Rules.{Relates}
use kube_nova_operator.Controller.Action.Total.{IsTotal, Returns}
use kube_nova_operator.Prelude.{refl, ◌≡◌}
use kube_nova_operator.Prelude.Results.{Error, Outcome, err, ok, panic}

-- A value is returned and the condition holds, or an error is.
abbrev pub Lands :
    {W E A : Type 0} → (Session W → Type 0) → Outcome (Error E) A × Session W → Type 0
Lands Q (ok _, s) = Q s
Lands Q (err _, s) = Unit
Lands Q (panic, s) = ⊥

pub record Runs {W E A : Type 0} (P Q : Session W → Type 0) (m : Action W E A) : Type 0 where
  pub at : (s : Session W) → P s → Lands Q (m s)

module _ {W E : Type 0} where
  pub Runs-pure : {A : Type 0} (P : Session W → Type 0) (a : A) → Runs P P (pure {W = W} {E = E} a)
  unfolding pure
  Runs-pure P a = record { at = λ s h. h }

  pub Runs-call :
      {A : Type 0} (P : Session W → Type 0) (f : W → A × W)
      → ((s : Session W) → P s → P (record s { world = (f s.world).1 }))
      → Runs P P (call {E = E} f)
  unfolding call
  Runs-call P f h = record { at = h }

  pub Runs-modify :
      (P Q : Session W → Type 0) (f : KubeNova → KubeNova)
      → ((s : Session W) → P s → Q (record s { kube_nova = f s.kube_nova }))
      → Runs P Q (modify {W = W} {E = E} f)
  unfolding modify
  Runs-modify P Q f h = record { at = h }

  -- The object in memory is read, and what follows may use it.
  pub Runs-self :
      {B : Type 0} (P Q : Session W → Type 0) (f : KubeNova → Action W E B)
      → ((kn : KubeNova) → Runs (λ s. P s × (s.kube_nova ≡ kn)) Q (f kn))
      → Runs P Q (self >>= f)
  unfolding ◌>>=◌
  Runs-self P Q f h = record { at = λ s p. (h s.kube_nova).at s (p, refl) }

  module _ {A B : Type 0} (P Q R : Session W → Type 0) where
    resume-Lands :
        (r : Outcome (Error E) A) (f : A → Action W E B) (s : Session W)
        → ((a : A) → Runs Q R (f a))
        → Lands Q (r, s)
        → Lands R (resume r f s)
    resume-Lands (ok a) f s hf h = (hf a).at s h
    resume-Lands (err _) f s hf h = tt
    resume-Lands panic f s hf h = h

    pub Runs-bind :
        (m : Action W E A) (f : A → Action W E B)
        → Runs P Q m
        → ((a : A) → Runs Q R (f a))
        → Runs P R (m >>= f)
    unfolding ◌>>=◌
    Runs-bind m f hm hf = record { at = λ s p. resume-Lands (m s).0 f (m s).1 hf (hm.at s p) }

  -- A method that never panics, and keeps a relation that keeps the condition.
  pub Runs-total :
      {A : Type 0} (P : Session W → Type 0) (R : Session W → Session W → Type 0) (m : Action W E A)
      → IsTotal m
      → Relates R m
      → ((s t : Session W) → R s t → P s → P t)
      → Runs P P m
  Runs-total {A} P R m h r k = record {
    at = λ s p. lands (m s).0 (m s).1 (h.at s) (k s _ (r.at s) p);
  }
    where
      lands : (o : Outcome (Error E) A) (t : Session W) → Returns o → P t → Lands {E = E} P (o, t)
      lands (ok _) t u p = p
      lands (err _) t u p = tt
      lands panic t u p = absurd u

  pub IsTotal-Runs :
      {A : Type 0} (Q : Session W → Type 0) (m : Action W E A) → Runs (λ _. Unit) Q m → IsTotal m
  IsTotal-Runs {A} Q m h = record { at = λ s. returned (m s).0 (m s).1 (h.at s tt) }
    where
      returned : (o : Outcome (Error E) A) (t : Session W) → Lands {E = E} Q (o, t) → Returns o
      returned (ok _) t u = tt
      returned (err _) t u = tt
      returned panic t u = u

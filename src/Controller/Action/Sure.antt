-- ===== src/Controller/Action/Sure.antt =====
-- Methods that neither fail nor panic, one rule for each way to build a method.
use kube_nova_operator.Api.{KubeNova}
use kube_nova_operator.Controller.Action.{
  Action, Session, attempt, call, modify, on_option, on_reply, pure, resume, self, settle, ◌>>=◌,
}
use kube_nova_operator.Controller.Action.Ensures.{Post}
use kube_nova_operator.Controller.Action.Total.{IsTotal, Returns}
use kube_nova_operator.Prelude.{Bool, Option, false, if◌then◌else◌, none, some, true}
use kube_nova_operator.Prelude.Results.{Error, Outcome, Reply, err, got, ok, panic, refused}

abbrev pub Succeeds : {E A : Type 0} → Outcome E A → Type 0
Succeeds (ok _) = Unit
Succeeds (err _) = ⊥
Succeeds panic = ⊥

-- What holds of the end of a method that succeeds, whatever it returns.
pub Post-Succeeds {ℓ} :
    {W E A : Type 0} (Q : Session W → Type ℓ) (r : Outcome (Error E) A) (t : Session W)
    → Succeeds r
    → Post {E = E} {A = A} (λ _. Q) (r, t)
    → Q t
Post-Succeeds Q (ok a) t h p = p
Post-Succeeds Q (err e) t h p = absurd h
Post-Succeeds Q panic t h p = absurd h

pub record IsSure {W E A : Type 0} (m : Action W E A) : Type 0 where
  pub at : (s : Session W) → Succeeds (m s).0

module _ {W E : Type 0} where
  module _ {A : Type 0} where
    pub IsSure-pure : (a : A) → IsSure (pure {W = W} {E = E} a)
    unfolding pure
    IsSure-pure a = record { at = λ s. tt }

    settle-Succeeds :
        (r : Outcome (Error E) A) (s : Session W) → Returns r → Succeeds (settle r s).0
    settle-Succeeds (ok _) s h = tt
    settle-Succeeds (err _) s h = tt
    settle-Succeeds panic s h = h

    -- An error that is taken as a value is none.
    pub IsSure-attempt : (m : Action W E A) → IsTotal m → IsSure (attempt m)
    unfolding attempt
    IsSure-attempt m h = record { at = λ s. settle-Succeeds (m s).0 (m s).1 (h.at s) }

    pub IsSure-if :
        (b : Bool) (m n : Action W E A) → IsSure m → IsSure n → IsSure (if b then m else n)
    IsSure-if true m n hm hn = hm
    IsSure-if false m n hm hn = hn

  pub IsSure-self : IsSure (self {W = W} {E = E})
  unfolding self
  IsSure-self = record { at = λ s. tt }

  pub IsSure-modify : (f : KubeNova → KubeNova) → IsSure (modify {W = W} {E = E} f)
  unfolding modify
  IsSure-modify f = record { at = λ s. tt }

  pub IsSure-call : {A : Type 0} (f : W → A × W) → IsSure (call {E = E} f)
  unfolding call
  IsSure-call f = record { at = λ s. tt }

  -- A call of whose answer something is known, and what follows for such an answer.
  pub IsSure-asked :
      {A B : Type 0} (f : W → A × W) (P : A → Type 0) (k : A → Action W E B)
      → ((w : W) → P (f w).0)
      → ((a : A) → P a → IsSure (k a))
      → IsSure (call f >>= k)
  unfolding ◌>>=◌
  IsSure-asked f P k p h = record { at = λ s. (h (f s.world).0 (p s.world)).at _ }

  module _ {A B : Type 0} where
    pub IsSure-on_reply :
        (r : Reply E A) (f : A → Action W E B) (g : E → Action W E B)
        → ((a : A) → IsSure (f a))
        → ((e : E) → IsSure (g e))
        → IsSure (on_reply r f g)
    unfolding on_reply
    IsSure-on_reply (got a) f g hf hg = hf a
    IsSure-on_reply (refused e) f g hf hg = hg e

    pub IsSure-on_option :
        (o : Option A) (m : Action W E B) (f : A → Action W E B)
        → IsSure m
        → ((a : A) → IsSure (f a))
        → IsSure (on_option o m f)
    unfolding on_option
    IsSure-on_option none m f hm hf = hm
    IsSure-on_option (some a) m f hm hf = hf a

    resume-Succeeds :
        (r : Outcome (Error E) A) (f : A → Action W E B) (s : Session W)
        → Succeeds r
        → ((a : A) → IsSure (f a))
        → Succeeds (resume r f s).0
    resume-Succeeds (ok a) f s h hf = (hf a).at s
    resume-Succeeds (err e) f s h hf = absurd h
    resume-Succeeds panic f s h hf = h

    pub IsSure-bind :
        (m : Action W E A) (f : A → Action W E B)
        → IsSure m
        → ((a : A) → IsSure (f a))
        → IsSure (m >>= f)
    unfolding ◌>>=◌
    IsSure-bind m f hm hf = record { at = λ s. resume-Succeeds (m s).0 f (m s).1 (hm.at s) hf }

pub ruleset sure_rules = (
  IsSure-pure, IsSure-self, IsSure-modify, IsSure-call, IsSure-on_reply, IsSure-on_option,
  IsSure-bind, IsSure-attempt, IsSure-if,
)

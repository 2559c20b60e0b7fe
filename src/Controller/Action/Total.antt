-- ===== src/Controller/Action/Total.antt =====
-- Methods that never panic, one rule for each way to build a method.
use kube_nova_operator.Api.{KubeNova}
use kube_nova_operator.Controller.Action.{
  Action, Session, attempt, call, modify, on_option, on_reply, pure, raise, resume, self, settle,
  ◌>>=◌,
}
use kube_nova_operator.Prelude.{Bool, Option, false, if◌then◌else◌, none, some, true}
use kube_nova_operator.Prelude.Results.{Error, Outcome, Reply, err, got, ok, panic, refused}

abbrev pub Returns : {E A : Type 0} → Outcome E A → Type 0
Returns (ok _) = Unit
Returns (err _) = Unit
Returns panic = ⊥

pub record IsTotal {W E A : Type 0} (m : Action W E A) : Type 0 where
  pub at : (s : Session W) → Returns (m s).0

module _ {W E : Type 0} where
  module _ {A : Type 0} where
    pub IsTotal-pure : (a : A) → IsTotal (pure {W = W} {E = E} a)
    unfolding pure
    IsTotal-pure a = record { at = λ s. tt }

    pub IsTotal-raise : (e : Error E) → IsTotal (raise {W = W} {A = A} e)
    unfolding raise
    IsTotal-raise e = record { at = λ s. tt }

    pub IsTotal-call : (f : W → A × W) → IsTotal (call {E = E} f)
    unfolding call
    IsTotal-call f = record { at = λ s. tt }

    settle-Returns : (r : Outcome (Error E) A) (s : Session W) → Returns r → Returns (settle r s).0
    settle-Returns (ok _) s h = tt
    settle-Returns (err _) s h = tt
    settle-Returns panic s h = h

    pub IsTotal-attempt : (m : Action W E A) → IsTotal m → IsTotal (attempt m)
    unfolding attempt
    IsTotal-attempt m h = record { at = λ s. settle-Returns (m s).0 (m s).1 (h.at s) }

    pub IsTotal-if :
        (b : Bool) (m n : Action W E A) → IsTotal m → IsTotal n → IsTotal (if b then m else n)
    IsTotal-if true m n hm hn = hm
    IsTotal-if false m n hm hn = hn

  pub IsTotal-self : IsTotal (self {W = W} {E = E})
  unfolding self
  IsTotal-self = record { at = λ s. tt }

  pub IsTotal-modify : (f : KubeNova → KubeNova) → IsTotal (modify {W = W} {E = E} f)
  unfolding modify
  IsTotal-modify f = record { at = λ s. tt }

  module _ {A B : Type 0} where
    pub IsTotal-on_reply :
        (r : Reply E A) (f : A → Action W E B) (g : E → Action W E B)
        → ((a : A) → IsTotal (f a))
        → ((e : E) → IsTotal (g e))
        → IsTotal (on_reply r f g)
    unfolding on_reply
    IsTotal-on_reply (got a) f g hf hg = hf a
    IsTotal-on_reply (refused e) f g hf hg = hg e

    pub IsTotal-on_option :
        (o : Option A) (m : Action W E B) (f : A → Action W E B)
        → IsTotal m
        → ((a : A) → IsTotal (f a))
        → IsTotal (on_option o m f)
    unfolding on_option
    IsTotal-on_option none m f hm hf = hm
    IsTotal-on_option (some a) m f hm hf = hf a

    resume-Returns :
        (r : Outcome (Error E) A) (f : A → Action W E B) (s : Session W)
        → Returns r
        → ((a : A) → IsTotal (f a))
        → Returns (resume r f s).0
    resume-Returns (ok a) f s h hf = (hf a).at s
    resume-Returns (err e) f s h hf = tt
    resume-Returns panic f s h hf = h

    pub IsTotal-bind :
        (m : Action W E A) (f : A → Action W E B)
        → IsTotal m
        → ((a : A) → IsTotal (f a))
        → IsTotal (m >>= f)
    unfolding ◌>>=◌
    IsTotal-bind m f hm hf = record { at = λ s. resume-Returns (m s).0 f (m s).1 (hm.at s) hf }

pub ruleset total_rules = (
  IsTotal-pure, IsTotal-raise, IsTotal-call, IsTotal-self, IsTotal-modify, IsTotal-on_reply,
  IsTotal-on_option, IsTotal-bind, IsTotal-attempt, IsTotal-if,
)

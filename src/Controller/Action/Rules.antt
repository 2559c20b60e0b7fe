-- ===== src/Controller/Action/Rules.antt =====
-- What holds from the start of a method to its end, one rule for each way to build a method.
use kube_nova_operator.Api.{KubeNova}
use kube_nova_operator.Controller.Action.{
  Action, Session, attempt, call, crash, modify, on_option, on_reply, pure, raise, resume, self,
  settle, ◌>>=◌,
}
use kube_nova_operator.Prelude.{
  Bool, Option, false, if◌then◌else◌, none, refl, some, subst, sym, true, ◌≡◌,
}
use kube_nova_operator.Prelude.Results.{Error, Outcome, Reply, err, got, ok, panic, refused}

-- A relation between sessions that may be chained.
pub record IsPreorder {S : Type 0} (R : S → S → Type 0) : Type 0 where
  pub same : (s : S) → R s s
  pub chain : (s t u : S) → R s t → R t u → R s u

-- However `m` ends, it has led to a related session.
pub record Relates {W E A : Type 0} (R : Session W → Session W → Type 0) (m : Action W E A)
    : Type 0 where
  pub at : (s : Session W) → R s (m s).1

module _ {W : Type 0} (R : Session W → Session W → Type 0) (p : IsPreorder R) {E : Type 0} where
  module _ {A : Type 0} where
    pub Relates-pure : (a : A) → Relates R (pure {W = W} {E = E} a)
    unfolding pure
    Relates-pure a = record { at = p.same }

    pub Relates-raise : (e : Error E) → Relates R (raise {W = W} {A = A} e)
    unfolding raise
    Relates-raise e = record { at = p.same }

    pub Relates-crash : Relates R (crash {W = W} {E = E} {A = A})
    unfolding crash
    Relates-crash = record { at = p.same }

    pub Relates-call :
        (f : W → A × W)
        → ((s : Session W) → R s (record s { world = (f s.world).1 }))
        → Relates R (call {E = E} f)
    unfolding call
    Relates-call f h = record { at = h }

  pub Relates-self : Relates R (self {W = W} {E = E})
  unfolding self
  Relates-self = record { at = p.same }

  pub Relates-modify :
      (f : KubeNova → KubeNova)
      → ((s : Session W) → R s (record s { kube_nova = f s.kube_nova }))
      → Relates R (modify {W = W} {E = E} f)
  unfolding modify
  Relates-modify f h = record { at = h }

  module _ {A B : Type 0} where
    pub Relates-on_reply :
        (r : Reply E A) (f : A → Action W E B) (g : E → Action W E B)
        → ((a : A) → Relates R (f a))
        → ((e : E) → Relates R (g e))
        → Relates R (on_reply r f g)
    unfolding on_reply
    Relates-on_reply (got a) f g hf hg = hf a
    Relates-on_reply (refused e) f g hf hg = hg e

    pub Relates-on_option :
        (o : Option A) (m : Action W E B) (f : A → Action W E B)
        → Relates R m
        → ((a : A) → Relates R (f a))
        → Relates R (on_option o m f)
    unfolding on_option
    Relates-on_option none m f hm hf = hm
    Relates-on_option (some a) m f hm hf = hf a

    resume_at :
        (r : Outcome (Error E) A) (f : A → Action W E B) (s : Session W)
        → ((a : A) → Relates R (f a))
        → R s (resume r f s).1
    resume_at (ok a) f s hf = (hf a).at s
    resume_at (err e) f s hf = p.same s
    resume_at panic f s hf = p.same s

    pub Relates-bind :
        (m : Action W E A) (f : A → Action W E B)
        → Relates R m
        → ((a : A) → Relates R (f a))
        → Relates R (m >>= f)
    unfolding ◌>>=◌
    Relates-bind m f hm hf = record {
      at = λ s. let (r, s') = m s in p.chain s s' _ (hm.at s) (resume_at r f s' hf);
    }

  module _ {A : Type 0} where
    settle_at : (r : Outcome (Error E) A) (s : Session W) → (settle r s).1 ≡ s
    settle_at (ok _) s = refl
    settle_at (err _) s = refl
    settle_at panic s = refl

    pub Relates-attempt : (m : Action W E A) → Relates R m → Relates R (attempt m)
    unfolding attempt
    Relates-attempt m h = record {
      at = λ s. let (r, s') = m s in subst (λ t. R s t) (sym (settle_at r s')) (h.at s);
    }

    pub Relates-if :
        (b : Bool) (m n : Action W E A) → Relates R m → Relates R n → Relates R (if b then m else n)
    Relates-if true m n hm hn = hm
    Relates-if false m n hm hn = hn

pub ruleset action_rules = (
  Relates-pure, Relates-raise, Relates-crash, Relates-self, Relates-on_reply, Relates-on_option,
  Relates-bind, Relates-attempt, Relates-if,
)

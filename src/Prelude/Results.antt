-- ===== src/Prelude/Results.antt =====
-- Go's errors as values, the outcome of a call, and the verbs that print an error.
use kube_nova_operator.Prelude.{Option, String, [], inl, inr, join, refl, ◌∷◌, ◌≡◌, ◌⊎◌}

-- What a Go function of this program does: it returns a value, it returns an error, or it panics.
pub data Outcome {ℓ κ} (E : Type ℓ) (A : Type κ) : Type (ℓ ⊔ κ) where
  ok : A → Outcome E A
  err : E → Outcome E A
  panic : Outcome E A

-- `plain` is `fmt.Errorf` with no `%w`, `wrapped` is `fmt.Errorf("prefix: %w", e)`, and `api` is
-- an error of the Kubernetes client.
pub data Error {ℓ} (E : Type ℓ) : Type ℓ where
  plain : String → Error E
  wrapped : String → Error E → Error E
  api : E → Error E

-- `%v` of an error.
abbrev pub error_text {ℓ} : {E : Type ℓ} → (E → String) → Error E → String
error_text show (plain s) = s
error_text show (wrapped s e) = join (s ∷ ": " ∷ error_text show e ∷ [])
error_text show (api e) = show e

-- Errors that no call of the client is behind: what the validators return.
abbrev pub Check {ℓ} : Type ℓ → Type ℓ
Check E = Option (Error E)

-- What a call of the client answers.
pub data Reply {ℓ κ} (E : Type ℓ) (A : Type κ) : Type (ℓ ⊔ κ) where
  got : A → Reply E A
  refused : E → Reply E A

pub Reply-cases {ℓ κ} :
    {E : Type ℓ} {A : Type κ} (r : Reply E A)
    → ((a : A) × (r ≡ got a)) ⊎ ((e : E) × (r ≡ refused e))
Reply-cases (got a) = inl (a, refl)
Reply-cases (refused e) = inr (e, refl)

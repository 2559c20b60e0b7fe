-- ===== src/Prelude/Int.antt =====
-- The values of Go's int32 and int64 fields, which the operator only compares and prints.
use kube_nova_operator.Prelude.{
  Bool, String, [], arith, false, if◌then◌else◌, join, ltb, nat_eq, refl, suc, true, zero, ℕ, ◌%◌,
  ◌/◌, ◌↔◌, ◌∷◌, ◌≡◌,
}

-- `negsuc n` is -(n + 1).
pub data ℤ : Type 0 where
  pos : ℕ → ℤ
  negsuc : ℕ → ℤ

abbrev pub is_pos : ℤ → Bool
is_pos (pos n) = ltb 0 n
is_pos (negsuc _) = false

abbrev pub int_eq : ℤ → ℤ → Bool
int_eq (pos m) (pos n) = nat_eq m n
int_eq (negsuc m) (negsuc n) = nat_eq m n
int_eq (pos _) (negsuc _) = false
int_eq (negsuc _) (pos _) = false

-- `a > b` for a number b.
abbrev pub gt_ℕ : ℤ → ℕ → Bool
gt_ℕ (pos n) b = ltb b n
gt_ℕ (negsuc _) _ = false

pub int_eq_iff : (a b : ℤ) → (int_eq a b ≡ true) ↔ (a ≡ b)
int_eq_iff (pos m) (pos n) = ground arith
int_eq_iff (negsuc m) (negsuc n) = ground arith
int_eq_iff (pos m) (negsuc n) = ground arith
int_eq_iff (negsuc m) (pos n) = ground arith

digit : ℕ → String
digit n = elim n [
  | zero ↦ "0"
  | suc zero ↦ "1"
  | suc (suc zero) ↦ "2"
  | suc (suc (suc zero)) ↦ "3"
  | suc (suc (suc (suc zero))) ↦ "4"
  | suc (suc (suc (suc (suc zero)))) ↦ "5"
  | suc (suc (suc (suc (suc (suc zero))))) ↦ "6"
  | suc (suc (suc (suc (suc (suc (suc zero)))))) ↦ "7"
  | suc (suc (suc (suc (suc (suc (suc (suc zero))))))) ↦ "8"
  | _ ↦ "9"
]

-- Decimal digits on fuel: a value below 2 ^ 64 has at most twenty.
decimal_from : ℕ → ℕ → String → String
decimal_from zero n out = out
decimal_from (suc fuel) n out =
    let longer = join (digit (n % 10) ∷ out ∷ []) in
    let rest = decimal_from fuel (n / 10) longer in if ltb n 10 then longer else rest

-- The verb `%d`.
unfoldable pub decimal : ℤ → String
unfolding decimal_from digit
decimal (pos n) = decimal_from 20 n ""
decimal (negsuc n) = join ("-" ∷ decimal_from 20 (suc n) "" ∷ [])

-- The verb `%t`.
abbrev pub bool_text : Bool → String
bool_text true = "true"
bool_text false = "false"

decimal_tests :
    (decimal (pos 30080) ≡ "30080") × (decimal (negsuc 6) ≡ "-7") × (decimal (pos 0) ≡ "0")
unfolding decimal
decimal_tests = (refl, refl, refl)

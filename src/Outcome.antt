-- ===== src/Outcome.antt =====
-- Results of C++ code that may run into undefined behaviour: a null or dangling pointer that is
-- used, or a stream that is closed twice.

pub data Outcome {ℓ} (A : Type ℓ) : Type ℓ where
  value : A → Outcome A
  undefined : Outcome A

infixl 5 ◌>>=◌
abbrev pub ◌>>=◌ {ℓ κ} : {A : Type ℓ} {B : Type κ} → Outcome A → (A → Outcome B) → Outcome B
value a >>= f = f a
undefined >>= f = undefined

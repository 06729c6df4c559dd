-- ===== src/Common/Outcome.antt =====
-- The result of C code: a value, or undefined behaviour (an access outside an array, a division by
-- zero, a null dereference). Models no code of its own.

pub data Outcome {ℓ} (A : Type ℓ) : Type ℓ where
  done : A → Outcome A
  fault : Outcome A

infixl 5 ◌>>=◌
abbrev pub ◌>>=◌ {ℓ κ} : {A : Type ℓ} {B : Type κ} → Outcome A → (A → Outcome B) → Outcome B
done a >>= f = f a
fault >>= f = fault

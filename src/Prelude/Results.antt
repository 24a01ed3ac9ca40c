-- ===== src/Prelude/Results.antt =====
-- `Result<A, E>`, and the outcome of a call that can panic.
pub data Result {ℓ κ} (E : Type ℓ) (A : Type κ) : Type (ℓ ⊔ κ) where
  ok : A → Result E A
  err : E → Result E A

-- `undefined` is a read or a write through a pointer to nothing; `out_of_fuel` is a loop whose fuel
-- in the model was too little.
pub data Outcome {ℓ} (A : Type ℓ) : Type ℓ where
  returned : A → Outcome A
  panicked : Outcome A
  undefined : Outcome A
  out_of_fuel : Outcome A

-- A call that panics, or goes through a dangling pointer, ends its caller too.
infixl 5 ◌>>=◌
abbrev pub ◌>>=◌ {ℓ κ} : {A : Type ℓ} {B : Type κ} → Outcome A → (A → Outcome B) → Outcome B
returned a >>= f = f a
panicked >>= f = panicked
undefined >>= f = undefined
out_of_fuel >>= f = out_of_fuel

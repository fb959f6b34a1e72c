-- ===== src/Base/Outcome.antt =====
-- Rust's `Result<A, E>`, with a third case for a panic of the running task.

pub data Outcome {ℓ κ} (E : Type κ) (A : Type ℓ) : Type (ℓ ⊔ κ) where
  ok : A → Outcome E A
  err : E → Outcome E A
  panic : Outcome E A

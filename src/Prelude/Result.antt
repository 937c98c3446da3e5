-- ===== src/Prelude/Result.antt =====
-- `Result`, and the `?` operator on it.
pub data Result {ℓ κ} (A : Type ℓ) (E : Type κ) : Type (ℓ ⊔ κ) where
  ok : A → Result A E
  err : E → Result A E

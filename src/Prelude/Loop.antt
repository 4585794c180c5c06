-- ===== src/Prelude/Loop.antt =====
-- Counted loops, `for (i = from; k rounds; i++)`, with the rule for an invariant.
use Prim.Native.Nat.{ℕ, zero, suc, ◌+◌, ◌<◌, ◌≤◌}
use mathlib.Core.Path.{subst}
use native.Mathlib.Omega.{arith}

module _ {ℓ} {S : Type ℓ} where
  -- `loop k i body s` runs the rounds i, i + 1, ... , i + k - 1.
  unfoldable pub loop : ℕ → ℕ → (ℕ → S → S) → S → S
  loop zero i body s = s
  loop (suc k) i body s = loop k (suc i) body (body i s)

  pub loop_inv {κ} :
      (P : ℕ → S → Type κ) (k i : ℕ) (body : ℕ → S → S) (s : S)
      → ((j : ℕ) (t : S) → i ≤ j → j < i + k → P j t → P (suc j) (body j t))
      → P i s
      → P (i + k) (loop k i body s)
  unfolding loop
  loop_inv P zero i body s keep h = subst (λ j. P j s) (omega arith) h
  loop_inv P (suc k) i body s keep h =
      subst (λ j. P j (loop k (suc i) body (body i s))) (omega arith)
        (loop_inv P k (suc i) body (body i s) (λ j t lo hi. keep j t (omega arith) (omega arith))
          (keep i s (omega arith) (omega arith) h))

  -- The same for a loop from 0.
  pub loop_inv_zero {κ} :
      (P : ℕ → S → Type κ) (k : ℕ) (body : ℕ → S → S) (s : S)
      → ((j : ℕ) (t : S) → j < k → P j t → P (suc j) (body j t))
      → P 0 s
      → P k (loop k 0 body s)
  loop_inv_zero P k body s keep h =
      subst (λ j. P j (loop k 0 body s)) (omega arith)
        (loop_inv P k 0 body s (λ j t lo hi. keep j t (omega arith)) h)

-- ===== src/Common/Tables.antt =====
-- A test of every number below a bound, for the facts on bytes that are checked by running them.
use Prim.Native.Nat.{ℕ, zero, suc, ◌<◌}
use mathlib.Core.Path.{◌≡◌}
use mathlib.Core.Bool.{Bool, true, ◌&&◌}
use native.Mathlib.Decide.{dec_le}
use native.Mathlib.Omega.{arith}

-- A test of every number below a bound.
unfoldable pub all_below : (ℕ → Bool) → ℕ → Bool
all_below f zero = true
all_below f (suc n) = f n && all_below f n

pub all_below_lem : (f : ℕ → Bool) (n i : ℕ) → all_below f n ≡ true → i < n → f i ≡ true
unfolding all_below
all_below_lem f zero i h p = absurd (omega arith)
all_below_lem f (suc n) i h p = elim (dec_le n i) [
  | yes e ↦ let q : i ≡ n = omega arith in rw q (ground (arith, h))
  | no e ↦ all_below_lem f n i (ground (arith, h)) (omega arith)
]

unfoldable pub all_pairs : (ℕ → ℕ → Bool) → ℕ → ℕ → Bool
all_pairs f m n = all_below (λ a. all_below (f a) n) m

pub all_pairs_lem :
    (f : ℕ → ℕ → Bool) (m n a b : ℕ) → all_pairs f m n ≡ true → a < m → b < n → f a b ≡ true
unfolding all_pairs
all_pairs_lem f m n a b h p q =
    all_below_lem (f a) n b (all_below_lem (λ a. all_below (f a) n) m a h p) q

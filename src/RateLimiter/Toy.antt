-- ===== src/RateLimiter/Toy.antt =====
-- The rate limiter's numbers as whole numbers, for the tests.
use Prim.Native.Nat.{min}
use pqc_gateway.Common.{ℕ, ◌+◌, ◌-◌, ◌*◌, ◌/◌, ◌≡◌, refl, true, arith, leb}
use pqc_gateway.RateLimiter.{Float}

pub min_le : (a n : ℕ) → leb (min a n) n ≡ true
min_le a n = ground arith

pub sub_one_le : (a n : ℕ) → leb a n ≡ true → leb (a - 1) n ≡ true
sub_one_le a n h = ground arith

pub nothing : (k n w : ℕ) → k + 0 / 1_000_000_000 * (n / w) ≡ k
nothing k n w = omega arith

abbrev pub whole : Float
whole = record {
  F = ℕ;
  of_ℕ = λ n. n;
  as_secs = λ n. n / 1_000_000_000;
  fadd = λ a b. a + b;
  fsub = λ a b. a - b;
  fmul = λ a b. a * b;
  fdiv = λ a b. a / b;
  fmin = λ a b. min a b;
  fle = λ a b. leb a b;
  fmin_le = λ a n _. min_le a n;
  fsub_one_le = λ a n _ h. sub_one_le a n h;
  fsub_one = λ k _. omega arith;
  fle_exact = λ a b _ _. refl;
  fmin_exact = λ a b h _. omega arith;
  no_refill = λ k n w _ _ _. nothing k n w;
}

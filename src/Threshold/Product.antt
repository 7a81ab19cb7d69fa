-- ===== src/Threshold/Product.antt =====
-- The loop of `gf256_mul` as a sum over the digits of one factor, linear in both.
use pqc_gateway.Common.{
  ℕ, zero, suc, ◌/◌, ◌%◌, ◌<◌, if◌then◌else◌, ◌==◌, true, ◌≡◌, refl, sym, ap, ◌∙◌, ltb, arith,
  Bool-cases, ltb→lt, ==_iff, inl, inr, ◌⊎◌,
}
use pqc_gateway.Common.Xor.{
  zero-xor, xor-zero, xor_comm, xor_assoc, xor_self, xor-lt, xor-half, xor-parity,
}
use pqc_gateway.Threshold.Gf256.{double, mul_loop}
use pqc_gateway.Common.Tables.{all_below, all_pairs, all_below_lem, all_pairs_lem}
use native.Mathlib.Decide.{dec_le}
use mathlib.Core.Path.{ap₂}
use Prim.Native.Nat.{bit_xor}

double_table :
    all_pairs (λ a b. double (bit_xor a b) == bit_xor (double a) (double b)) 256 256 ≡ true
unfolding all_pairs all_below double
double_table = refl

double_small : all_below (λ a. ltb (double a) 256) 256 ≡ true
unfolding all_below double
double_small = refl

double-xor : (a b : ℕ) → a < 256 → b < 256 → double (bit_xor a b) ≡ bit_xor (double a) (double b)
double-xor a b p q = (==_iff (double (bit_xor a b)) (bit_xor (double a) (double b))).0 (
    all_pairs_lem (λ a b. double (bit_xor a b) == bit_xor (double a) (double b)) 256 256 a b
      double_table p q)

pub double-lt : (a : ℕ) → a < 256 → double a < 256
double-lt a p = ltb→lt (double a) 256 (all_below_lem (λ a. ltb (double a) 256) 256 a double_small p)

-- `a` where the digit is one.
unfoldable pub pick : ℕ → ℕ → ℕ
pick a d = if d == 1 then a else 0

-- The product as the sum of the doubled `a` at the digits of `b`.
unfoldable pub mulf : ℕ → ℕ → ℕ → ℕ
mulf zero a b = 0
mulf (suc n) a b = bit_xor (pick a (b % 2)) (mulf n (double a) (b / 2))

pub mulf-zero : (n a : ℕ) → mulf n a 0 ≡ 0
unfolding mulf pick
mulf-zero zero a = refl
mulf-zero (suc n) a = zero-xor _ ∙ mulf-zero n (double a)

pub mul_loop-mulf : (n a b r : ℕ) → mul_loop n a b r ≡ bit_xor r (mulf n a b)
unfolding mul_loop mulf pick
mul_loop-mulf zero a b r = sym (xor-zero r)
mul_loop-mulf (suc n) a b r = elim (Bool-cases (b == 0)) [
  | inl z ↦
      let e = (==_iff b 0).0 z in
      rw e (sym (ap (bit_xor r) (zero-xor _ ∙ mulf-zero n (double a)) ∙ xor-zero r))
  | inr z ↦ elim (Bool-cases (b % 2 == 1)) [
    | inl h ↦ rw (z, h) (mul_loop-mulf n (double a) (b / 2) (bit_xor r a) ∙ xor_assoc r a _)
    | inr h ↦ rw (z, h) (mul_loop-mulf n (double a) (b / 2) r ∙ ap (bit_xor r) (sym (zero-xor _)))
  ]
]

pub mulf-lt : (n a b : ℕ) → a < 256 → mulf n a b < 256
unfolding mulf pick
mulf-lt zero a b p = omega arith
mulf-lt (suc n) a b p = elim (Bool-cases (b % 2 == 1)) [
  | inl h ↦ rw h (xor-lt 8 a _ p (mulf-lt n (double a) (b / 2) (double-lt a p)))
  | inr h ↦ rw h (xor-lt 8 0 _ (omega arith) (mulf-lt n (double a) (b / 2) (double-lt a p)))
]

-- (a + b) + (c + d) = (a + c) + (b + d)
pub xor_four :
    (a b c d : ℕ) → bit_xor (bit_xor a b) (bit_xor c d) ≡ bit_xor (bit_xor a c) (bit_xor b d)
xor_four a b c d =
    xor_assoc a b (bit_xor c d)
    ∙ ap (bit_xor a)
        (sym (xor_assoc b c d) ∙ ap (λ t. bit_xor t d) (xor_comm b c) ∙ xor_assoc c b d)
    ∙ sym (xor_assoc a c (bit_xor b d))

pick-xor : (a b d : ℕ) → pick (bit_xor a b) d ≡ bit_xor (pick a d) (pick b d)
unfolding pick
pick-xor a b d = elim (Bool-cases (d == 1)) [ inl h ↦ rw h refl | inr h ↦ rw h (sym (zero-xor 0)) ]

pub mulf-xor_left :
    (n a b c : ℕ) → a < 256 → b < 256 → mulf n (bit_xor a b) c ≡ bit_xor (mulf n a c) (mulf n b c)
unfolding mulf
mulf-xor_left zero a b c p q = sym (zero-xor 0)
mulf-xor_left (suc n) a b c p q =
    ap₂ bit_xor (pick-xor a b (c % 2)) (
      ap (λ t. mulf n t (c / 2)) (double-xor a b p q)
      ∙ mulf-xor_left n (double a) (double b) (c / 2) (double-lt a p) (double-lt b q))
    ∙ xor_four _ _ _ _

digit : (b : ℕ) → (b % 2 ≡ 0) ⊎ (b % 2 ≡ 1)
digit b = elim (dec_le (b % 2) 0) [ yes p ↦ inl (omega arith) | no p ↦ inr (omega arith) ]

pick-parity : (a b c : ℕ) → pick a (bit_xor b c % 2) ≡ bit_xor (pick a (b % 2)) (pick a (c % 2))
unfolding pick
pick-parity a b c = elim (digit b) [
  | inl h ↦ elim (digit c) [
    | inl k ↦
        let e : bit_xor b c % 2 ≡ 0 = omega (arith, xor-parity b c) in
        rw (e, h, k) (sym (zero-xor 0))
    | inr k ↦
        let e : bit_xor b c % 2 ≡ 1 = omega (arith, xor-parity b c) in
        rw (e, h, k) (sym (zero-xor a))
  ]
  | inr h ↦ elim (digit c) [
    | inl k ↦
        let e : bit_xor b c % 2 ≡ 1 = omega (arith, xor-parity b c) in
        rw (e, h, k) (sym (xor-zero a))
    | inr k ↦
        let e : bit_xor b c % 2 ≡ 0 = omega (arith, xor-parity b c) in
        rw (e, h, k) (sym (xor_self a))
  ]
]

pub mulf-xor_right : (n a b c : ℕ) → mulf n a (bit_xor b c) ≡ bit_xor (mulf n a b) (mulf n a c)
unfolding mulf
mulf-xor_right zero a b c = sym (zero-xor 0)
mulf-xor_right (suc n) a b c =
    ap₂ bit_xor (pick-parity a b c)
      (ap (mulf n (double a)) (xor-half b c) ∙ mulf-xor_right n (double a) (b / 2) (c / 2))
    ∙ xor_four _ _ _ _

pick-double : (a d : ℕ) → double (pick a d) ≡ pick (double a) d
unfolding pick double
pick-double a d = elim (Bool-cases (d == 1)) [ inl h ↦ rw h refl | inr h ↦ rw h refl ]

pick-lt : (a d : ℕ) → a < 256 → pick a d < 256
unfolding pick
pick-lt a d p = elim (Bool-cases (d == 1)) [ inl h ↦ rw h p | inr h ↦ rw h (omega arith) ]

pub mulf-double : (n a b : ℕ) → a < 256 → mulf n (double a) b ≡ double (mulf n a b)
unfolding mulf double
mulf-double zero a b p = refl
mulf-double (suc n) a b p =
    ap₂ bit_xor (sym (pick-double a (b % 2))) (mulf-double n (double a) (b / 2) (double-lt a p))
    ∙ sym (
        double-xor (pick a (b % 2)) (mulf n (double a) (b / 2)) (pick-lt a (b % 2) p)
          (mulf-lt n (double a) (b / 2) (double-lt a p)))

pub mulf-pick : (n a b d : ℕ) → mulf n a (pick b d) ≡ pick (mulf n a b) d
unfolding pick
mulf-pick n a b d = elim (Bool-cases (d == 1)) [ inl h ↦ rw h refl | inr h ↦ rw h (mulf-zero n a) ]

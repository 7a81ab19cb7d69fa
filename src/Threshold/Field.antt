-- ===== src/Threshold/Field.antt =====
-- GF(256) as `gf256_mul` computes it is a field, with `gf256_pow a 254` as the inverse of `a`.
use pqc_gateway.Common.{
  ℕ, zero, suc, ◌*◌, ◌/◌, ◌%◌, ◌+◌, ◌<◌, ◌==◌, true, ◌≡◌, refl, sym, ap, ◌∙◌, ◌&&◌, arith,
  Bool-cases, ltb→lt, ==_iff, inl, inr, ◌≢◌,
}
use pqc_gateway.Common.Xor.{zero-xor, xor-zero, xor_comm, xor_assoc, xor_self, xor-lt}
use pqc_gateway.Threshold.Gf256.{double, mul_loop, gf256_mul, gf256_pow, pow_loop}
use pqc_gateway.Common.Tables.{all_below, all_pairs, all_below_lem, all_pairs_lem}
use pqc_gateway.Threshold.Product.{
  double-lt, mulf-zero, mulf-lt, mulf-xor_left, mulf-xor_right, mulf-double, mulf-pick,
  mul_loop-mulf, xor_four, mulf, pick,
}
use mathlib.Core.Path.{ap₂}
use mathlib.Core.HLevel.{Σ_prop_path}
use native.Mathlib.Bridge.{le_prop}
use pqc_gateway.Threshold.Interpolation.{Field2}
use Prim.Native.Nat.{bit_xor}

-- The laws of the product.
mul-mulf : (a b : ℕ) → gf256_mul a b ≡ mulf 8 a b
unfolding gf256_mul
mul-mulf a b = mul_loop-mulf 8 a b 0 ∙ zero-xor _

pub mul-lt : (a b : ℕ) → a < 256 → gf256_mul a b < 256
mul-lt a b p = rw (mul-mulf a b) (mulf-lt 8 a b p)

pub mul-xor_left :
    (a b c : ℕ)
    → a < 256
    → b < 256
    → gf256_mul (bit_xor a b) c ≡ bit_xor (gf256_mul a c) (gf256_mul b c)
mul-xor_left a b c p q =
    mul-mulf _ c ∙ mulf-xor_left 8 a b c p q ∙ sym (ap₂ bit_xor (mul-mulf a c) (mul-mulf b c))

pub mul-xor_right :
    (a b c : ℕ) → gf256_mul a (bit_xor b c) ≡ bit_xor (gf256_mul a b) (gf256_mul a c)
mul-xor_right a b c =
    mul-mulf a _ ∙ mulf-xor_right 8 a b c ∙ sym (ap₂ bit_xor (mul-mulf a b) (mul-mulf a c))

nibbles_table :
    all_pairs
      (λ a b.
        gf256_mul (16 * a) (16 * b) == gf256_mul (16 * b) (16 * a)
        && (gf256_mul (16 * a) b == gf256_mul b (16 * a) && gf256_mul a b == gf256_mul b a))
      16
      16
    ≡ true
unfolding all_pairs all_below gf256_mul mul_loop double
nibbles_table = refl

split_table : all_below (λ a. bit_xor (16 * (a / 16)) (a % 16) == a) 256 ≡ true
unfolding all_below
split_table = refl

inv_table : all_below (λ a. gf256_mul (a + 1) (gf256_pow (a + 1) 254) == 1) 255 ≡ true
unfolding all_below gf256_mul mul_loop double gf256_pow pow_loop
inv_table = refl

one_table : all_below (λ a. gf256_mul a 1 == a) 256 ≡ true
unfolding all_below gf256_mul mul_loop double
one_table = refl

module _ (A a B b : ℕ) (Ap : A < 256) (ap_ : a < 256) (Bp : B < 256) (bp : b < 256) where
  mul_comm_split :
      gf256_mul A B ≡ gf256_mul B A
      → gf256_mul A b ≡ gf256_mul b A
      → gf256_mul B a ≡ gf256_mul a B
      → gf256_mul a b ≡ gf256_mul b a
      → gf256_mul (bit_xor A a) (bit_xor B b) ≡ gf256_mul (bit_xor B b) (bit_xor A a)
  mul_comm_split e f g h =
      mul-xor_left A a (bit_xor B b) Ap ap_
      ∙ ap₂ bit_xor (mul-xor_right A B b ∙ ap₂ bit_xor e f)
          (mul-xor_right a B b ∙ ap₂ bit_xor (sym g) h)
      ∙ xor_four _ _ _ _
      ∙ sym (
          mul-xor_left B b (bit_xor A a) Bp bp
          ∙ ap₂ bit_xor (mul-xor_right B A a) (mul-xor_right b A a))

nibbles :
    (a b : ℕ)
    → a < 16
    → b < 16
    → (gf256_mul (16 * a) (16 * b) ≡ gf256_mul (16 * b) (16 * a))
      × (gf256_mul (16 * a) b ≡ gf256_mul b (16 * a))
      × (gf256_mul a b ≡ gf256_mul b a)
nibbles a b p q =
    let t =
      all_pairs_lem
        (λ a b.
          gf256_mul (16 * a) (16 * b) == gf256_mul (16 * b) (16 * a)
          && (gf256_mul (16 * a) b == gf256_mul b (16 * a) && gf256_mul a b == gf256_mul b a))
        16 16 a b nibbles_table p q in
    ground (arith, t)

bytes_split : (a : ℕ) → a < 256 → a ≡ bit_xor (16 * (a / 16)) (a % 16)
bytes_split a p = sym (
    (==_iff _ _).0 (all_below_lem (λ a. bit_xor (16 * (a / 16)) (a % 16) == a) 256 a split_table p))

pub gf256_mul_comm : (a b : ℕ) → a < 256 → b < 256 → gf256_mul a b ≡ gf256_mul b a
gf256_mul_comm a b p q =
    let (e, f, _) = nibbles (a / 16) (b / 16) (omega arith) (omega arith) in
    let (_, f, _) = nibbles (a / 16) (b % 16) (omega arith) (omega arith) in
    let (_, g, _) = nibbles (b / 16) (a % 16) (omega arith) (omega arith) in
    let (_, _, h) = nibbles (a % 16) (b % 16) (omega arith) (omega arith) in
    ap₂ gf256_mul (bytes_split a p) (bytes_split b q)
    ∙ mul_comm_split (16 * (a / 16)) (a % 16) (16 * (b / 16)) (b % 16) (omega arith) (omega arith)
        (omega arith) (omega arith) e f g h
    ∙ sym (ap₂ gf256_mul (bytes_split b q) (bytes_split a p))

mul-double : (a b : ℕ) → a < 256 → b < 256 → gf256_mul a (double b) ≡ double (gf256_mul a b)
mul-double a b p q =
    gf256_mul_comm a (double b) p (double-lt b q)
    ∙ mul-mulf (double b) a
    ∙ mulf-double 8 b a q
    ∙ ap double (sym (mul-mulf b a) ∙ gf256_mul_comm b a q p)

pub mul-zero : (a : ℕ) → gf256_mul a 0 ≡ 0
mul-zero a = mul-mulf a 0 ∙ mulf-zero 8 a

mulf-mul : (n a b c : ℕ) → a < 256 → b < 256 → mulf n (gf256_mul a b) c ≡ gf256_mul a (mulf n b c)
unfolding mulf
mulf-mul zero a b c p q = sym (mul-zero a)
mulf-mul (suc n) a b c p q =
    ap₂ bit_xor
      (ap (λ t. pick t (c % 2)) (mul-mulf a b)
        ∙ sym (mulf-pick 8 a b (c % 2))
        ∙ sym (mul-mulf a (pick b (c % 2))))
      (ap (λ t. mulf n t (c / 2)) (sym (mul-double a b p q))
        ∙ mulf-mul n a (double b) (c / 2) p (double-lt b q))
    ∙ sym (mul-xor_right a (pick b (c % 2)) (mulf n (double b) (c / 2)))

pub gf256_mul_assoc :
    (a b c : ℕ) → a < 256 → b < 256 → gf256_mul (gf256_mul a b) c ≡ gf256_mul a (gf256_mul b c)
gf256_mul_assoc a b c p q =
    mul-mulf (gf256_mul a b) c ∙ mulf-mul 8 a b c p q ∙ ap (gf256_mul a) (sym (mul-mulf b c))

pub mul-one : (a : ℕ) → a < 256 → gf256_mul a 1 ≡ a
mul-one a p = (==_iff _ _).0 (all_below_lem (λ a. gf256_mul a 1 == a) 256 a one_table p)

-- What `gf256_inv` returns for a byte that is not zero is its inverse.
pub mul-pow : (a : ℕ) → a < 256 → a ≢ 0 → gf256_mul a (gf256_pow a 254) ≡ 1
mul-pow zero p n = absurd (n refl)
mul-pow (suc a) p n =
    let e : suc a ≡ a + 1 = omega arith in
    ap (λ t. gf256_mul t (gf256_pow t 254)) e
    ∙ (==_iff _ _).0 (
        all_below_lem (λ a. gf256_mul (a + 1) (gf256_pow (a + 1) 254) == 1) 255 a inv_table
          (omega arith))

pow_loop-lt : (n base exp result : ℕ) → base < 256 → result < 256 → pow_loop n base exp result < 256
unfolding pow_loop
pow_loop-lt zero base exp result p q = q
pow_loop-lt (suc n) base exp result p q = elim (Bool-cases (exp == 0)) [
  | inl z ↦ rw z q
  | inr z ↦ elim (Bool-cases (exp % 2 == 1)) [
    | inl h ↦
        rw (z, h)
          (pow_loop-lt n (gf256_mul base base) (exp / 2) (gf256_mul result base)
            (mul-lt base base p) (mul-lt result base q))
    | inr h ↦
        rw (z, h) (pow_loop-lt n (gf256_mul base base) (exp / 2) result (mul-lt base base p) q)
  ]
]

pub pow-lt : (a e : ℕ) → a < 256 → gf256_pow a e < 256
unfolding gf256_pow
pow-lt a e p = pow_loop-lt 8 a e 1 p (omega arith)

-- A `u8`.
abbrev pub Byte : Type 0
Byte = (n : ℕ) × (n < 256)

pub Byte_path : {a b : Byte} → a.0 ≡ b.0 → a ≡ b
Byte_path {a} {b} e = Σ_prop_path (λ n. le_prop) e

abbrev pub byte_field : Field2 Byte
byte_field = record {
  add = λ a b. (bit_xor a.0 b.0, xor-lt 8 a.0 b.0 a.1 b.1);
  mul = λ a b. (gf256_mul a.0 b.0, mul-lt a.0 b.0 a.1);
  zero = (0, ltb→lt 0 256 refl);
  one = (1, ltb→lt 1 256 refl);
  inv = λ a. (gf256_pow a.0 254, pow-lt a.0 254 a.1);
  add_assoc = λ a b c. Byte_path (xor_assoc a.0 b.0 c.0);
  add_comm = λ a b. Byte_path (xor_comm a.0 b.0);
  add_zero = λ a. Byte_path (xor-zero a.0);
  add_self = λ a. Byte_path (xor_self a.0);
  mul_assoc = λ a b c. Byte_path (gf256_mul_assoc a.0 b.0 c.0 a.1 b.1);
  mul_comm = λ a b. Byte_path (gf256_mul_comm a.0 b.0 a.1 b.1);
  mul_one = λ a. Byte_path (mul-one a.0 a.1);
  mul_zero = λ a. Byte_path (mul-zero a.0);
  mul_add = λ a b c. Byte_path (mul-xor_right a.0 b.0 c.0);
  mul_inv = λ a n. Byte_path (mul-pow a.0 a.1 (λ e. n (Byte_path e)));
}

-- ===== src/Threshold/Gf256.antt =====
-- crates/pqc-tls/src/threshold.rs: the arithmetic of GF(256), with the polynomial of AES. A `u8` is
-- a number below 256.
use pqc_gateway.Common.{
  ℕ, zero, suc, List, [], ◌∷◌, ◌*◌, ◌/◌, ◌%◌, ◌+◌, if◌then◌else◌, ◌==◌, not, Outcome, done, panic,
}
use Prim.Native.Nat.{bit_xor, bit_and}

-- The end of the loop of `gf256_mul`: `a <<= 1`, and the reduction where a bit was carried out.
unfoldable pub double : ℕ → ℕ
double a =
    let shifted = a * 2 % 256 in if not (bit_and a 128 == 0) then bit_xor shifted 27 else shifted

-- The loop of `gf256_mul`, on fuel. `b` has 8 bits and is halved each time.
unfoldable pub mul_loop : ℕ → ℕ → ℕ → ℕ → ℕ
mul_loop zero a b result = result
mul_loop (suc n) a b result =
    let added = if b % 2 == 1 then bit_xor result a else result in
    let rest = mul_loop n (double a) (b / 2) added in if b == 0 then result else rest

unfoldable pub gf256_mul : ℕ → ℕ → ℕ
gf256_mul a b = mul_loop 8 a b 0

-- The loop of `gf256_pow`, on fuel. `exp` has 8 bits and is halved each time.
unfoldable pub pow_loop : ℕ → ℕ → ℕ → ℕ → ℕ
pow_loop zero base exp result = result
pow_loop (suc n) base exp result =
    let times = if exp % 2 == 1 then gf256_mul result base else result in
    let rest = pow_loop n (gf256_mul base base) (exp / 2) times in if exp == 0 then result else rest

unfoldable pub gf256_pow : ℕ → ℕ → ℕ
gf256_pow base exp = pow_loop 8 base exp 1

unfoldable pub gf256_inv : ℕ → Outcome ℕ
gf256_inv a = if a == 0 then panic else done (gf256_pow a 254)

-- The loop of `gf256_poly_eval`.
unfoldable pub poly_loop : List ℕ → ℕ → ℕ → ℕ → ℕ
poly_loop [] x result x_power = result
poly_loop (c ∷ coeffs) x result x_power =
    poly_loop coeffs x (bit_xor result (gf256_mul c x_power)) (gf256_mul x_power x)

unfoldable pub gf256_poly_eval : List ℕ → ℕ → ℕ
gf256_poly_eval coeffs x = poly_loop coeffs x 0 1

-- The inner loop of `gf256_lagrange_interpolate_zero`, from the point `j` on: the numerator and the
-- denominator for the point `i`.
unfoldable pub basis_loop : ℕ → ℕ → ℕ → List (ℕ × ℕ) → ℕ → ℕ → ℕ × ℕ
basis_loop i x_i j [] numerator denominator = (numerator, denominator)
basis_loop i x_i j ((x_j, y_j) ∷ points) numerator denominator =
    basis_loop i x_i (j + 1) points (if i == j then numerator else gf256_mul numerator x_j)
      (if i == j then denominator else gf256_mul denominator (bit_xor x_i x_j))

-- What the outer loop does with the inverse of the denominator.
unfoldable pub add_term : ℕ → ℕ → ℕ → Outcome ℕ → Outcome ℕ
add_term result y_i numerator panic = panic
add_term result y_i numerator (done inverse) =
    done (bit_xor result (gf256_mul y_i (gf256_mul numerator inverse)))

-- The outer loop, from the point `i` on.
unfoldable pub lagrange_loop : List (ℕ × ℕ) → ℕ → List (ℕ × ℕ) → Outcome ℕ → Outcome ℕ
lagrange_loop points i [] result = result
lagrange_loop points i ((x_i, y_i) ∷ rest) panic = panic
lagrange_loop points i ((x_i, y_i) ∷ rest) (done result) =
    let (numerator, denominator) = basis_loop i x_i 0 points 1 1 in
    lagrange_loop points (i + 1) rest (add_term result y_i numerator (gf256_inv denominator))

unfoldable pub gf256_lagrange_interpolate_zero : List (ℕ × ℕ) → Outcome ℕ
gf256_lagrange_interpolate_zero points = lagrange_loop points 0 points (done 0)

-- ===== src/Threshold/Lagrange.antt =====
-- `gf256_poly_eval` and `gf256_lagrange_interpolate_zero` compute what the algebra says.
use pqc_gateway.Common.{
  ℕ, ◌+◌, ◌<◌, ◌≤◌, ◌≡◌, refl, sym, ap, ◌∙◌, ◌≢◌, List, [], ◌∷◌, ◌++◌, map, All, All-append,
  length-append, arith, length, done, ◌==◌, if◌then◌else◌, ==_iff, true, false, Bool,
}
use pqc_gateway.Threshold.Gf256.{
  gf256_mul, gf256_inv, poly_loop, gf256_poly_eval, basis_loop, add_term, lagrange_loop,
  gf256_lagrange_interpolate_zero,
}
use pqc_gateway.Threshold.Interpolation.{
  Field2, factor, weight, total, total-ext, All-always, eval, total-eval, Apart, mul_four, one_mul,
  zero_add, sum_ne,
}
use pqc_gateway.Threshold.Field.{Byte, Byte_path, byte_field}
use mathlib.Core.Path.{ap₂}
use pqc_gateway.Common.Xor.{xor-zero}
use mathlib.Core.List.{append_assoc}
use Prim.Native.Nat.{bit_xor}

-- The products that the inner loop of the interpolation builds up, in any field.
module _ {F : Type 0} (k : Field2 F) where
  open k use {add, mul, zero, one, inv, mul_assoc, mul_comm, mul_one, mul_zero, mul_inv}

  pub nums : F → List F → F
  nums a [] = a
  nums a (y ∷ ys) = nums (mul a y) ys

  pub dens : F → F → List F → F
  dens x a [] = a
  dens x a (y ∷ ys) = dens x (mul a (add x y)) ys

  mul_ne : (a b : F) → a ≢ zero → b ≢ zero → mul a b ≢ zero
  mul_ne a b p q e = q (
      sym (mul_one b)
      ∙ ap (mul b) (sym (mul_inv a p))
      ∙ sym (mul_assoc b a (inv a))
      ∙ ap (λ t. mul t (inv a)) (mul_comm b a ∙ e)
      ∙ mul_comm zero (inv a)
      ∙ mul_zero (inv a))

  -- 1/(a b) = 1/a 1/b
  inv-mul : (a b : F) → a ≢ zero → b ≢ zero → inv (mul a b) ≡ mul (inv a) (inv b)
  inv-mul a b p q =
      sym (mul_one (inv (mul a b)))
      ∙ ap (mul (inv (mul a b)))
          (sym (mul_four k a b (inv a) (inv b) ∙ ap₂ mul (mul_inv a p) (mul_inv b q) ∙ mul_one one))
      ∙ sym (mul_assoc (inv (mul a b)) (mul a b) (mul (inv a) (inv b)))
      ∙ ap (λ t. mul t (mul (inv a) (inv b))) (mul_comm _ _ ∙ mul_inv (mul a b) (mul_ne a b p q))
      ∙ one_mul k _

  pub dens_ne : (x a : F) (ys : List F) → a ≢ zero → All (λ y. y ≢ x) ys → dens x a ys ≢ zero
  unfolding dens
  dens_ne x a [] p _ = p
  dens_ne x a (y ∷ ys) p (n, ns) =
      dens_ne x (mul a (add x y)) ys (mul_ne a (add x y) p (sum_ne k x y (λ e. n (sym e)))) ns

  -- The quotient of the two products is the weight.
  pub nums-dens :
      (x a b : F) (ys : List F)
      → b ≢ zero
      → All (λ y. y ≢ x) ys
      → mul (nums a ys) (inv (dens x b ys)) ≡ mul (mul a (inv b)) (weight k x ys)
  unfolding nums dens weight factor
  nums-dens x a b [] p _ = sym (mul_one _)
  nums-dens x a b (y ∷ ys) p (n, ns) =
      let q = sum_ne k x y (λ e. n (sym e)) in
      nums-dens x (mul a y) (mul b (add x y)) ys (mul_ne b (add x y) p q) ns
      ∙ ap (λ t. mul t (weight k x ys))
          (ap (mul (mul a y)) (inv-mul b (add x y) p q) ∙ mul_four k a y (inv b) (inv (add x y)))
      ∙ mul_assoc _ _ _

  pub weight-append :
      (x : F) (ys zs : List F) → weight k x (ys ++ zs) ≡ mul (weight k x ys) (weight k x zs)
  unfolding weight
  weight-append x [] zs = sym (one_mul k _)
  weight-append x (y ∷ ys) zs =
      ap (mul (factor k x y)) (weight-append x ys zs) ∙ sym (mul_assoc _ _ _)

ne_test : (i j : ℕ) → i ≢ j → (i == j) ≡ false
ne_test i j n = ground arith

module _ (i x j a b : ℕ) (points : List (ℕ × ℕ)) (n d : ℕ) where
  basis_step :
      (t : Bool)
      → (i == j) ≡ t
      → basis_loop i x j ((a, b) ∷ points) n d
        ≡ basis_loop i x
            (j + 1)
            points
            (if t then n else gf256_mul n a)
            (if t then d else gf256_mul d (bit_xor x a))
  unfolding basis_loop
  basis_step t e =
      ap
        (λ t.
          basis_loop i x (j + 1) points (if t then n else gf256_mul n a)
            (if t then d else gf256_mul d (bit_xor x a)))
        e

-- Polynomials: the coefficients' bytes, and the points with the value of `h` at each.
unfoldable pub raw : List Byte → List ℕ
raw xs = map (λ x. x.0) xs

unfoldable pub points_of : (Byte → Byte) → List Byte → List (ℕ × ℕ)
points_of h xs = map (λ x. (x.0, (h x).0)) xs

module _ where
  open byte_field use {
    add, mul, zero, one, inv, add_assoc, add_zero, mul_assoc, mul_add, mul_comm, mul_one, mul_zero,
    mul_inv,
  }

  poly_loop_lem :
      (cs : List Byte) (x r p : Byte)
      → poly_loop (raw cs) x.0 r.0 p.0 ≡ (add r (mul p (eval byte_field cs x))).0
  unfolding raw poly_loop eval
  poly_loop_lem [] x r p = sym (ap (λ t. t.0) (ap (add r) (mul_zero p) ∙ add_zero r))
  poly_loop_lem (c ∷ cs) x r p =
      poly_loop_lem cs x (add r (mul c p)) (mul p x)
      ∙ ap (λ t. t.0)
          (add_assoc _ _ _
            ∙ ap (add r) (
                ap₂ add (mul_comm c p) (mul_assoc p x (eval byte_field cs x))
                ∙ sym (mul_add p c (mul x (eval byte_field cs x)))))

  pub poly_eval_lem :
      (cs : List Byte) (x : Byte) → gf256_poly_eval (raw cs) x.0 ≡ (eval byte_field cs x).0
  unfolding gf256_poly_eval
  poly_eval_lem cs x =
      poly_loop_lem cs x zero one
      ∙ ap (λ t. t.0)
          (zero_add byte_field (mul one (eval byte_field cs x))
            ∙ one_mul byte_field (eval byte_field cs x))

  module _ (h : Byte → Byte) (x : Byte) where
    -- The points after the one at `x`.
    basis_after :
        (i j : ℕ) (ys : List Byte) (a b : Byte)
        → i < j
        → basis_loop i x.0 j (points_of h ys) a.0 b.0
          ≡ ((nums byte_field a ys).0, (dens byte_field x b ys).0)
    unfolding basis_loop points_of nums dens
    basis_after i j [] a b p = refl
    basis_after i j (y ∷ ys) a b p =
        basis_step i x.0 j y.0 (h y).0 (points_of h ys) a.0 b.0 false (ne_test i j (omega arith))
        ∙ (basis_after i (j + 1) ys (mul a y) (mul b (add x y)) (omega arith))

    -- All points, from one before or at `x` on.
    basis_lem :
        (i j : ℕ) (pre ys : List Byte) (a b : Byte)
        → i ≡ j + length pre
        → basis_loop i x.0 j (points_of h (pre ++ x ∷ ys)) a.0 b.0 ≡ (
          (nums byte_field (nums byte_field a pre) ys).0,
          (dens byte_field x (dens byte_field x b pre) ys).0,
        )
    unfolding basis_loop points_of nums dens
    basis_lem i j [] ys a b p =
        let e : (i == j) ≡ true = (==_iff i j).1 (omega (arith, p)) in
        basis_step i x.0 j x.0 (h x).0 (points_of h ys) a.0 b.0 true e
        ∙ (basis_after i (j + 1) ys a b (omega (arith, p)))
    basis_lem i j (y ∷ pre) ys a b p =
        basis_step i x.0 j y.0 (h y).0 (points_of h (pre ++ x ∷ ys)) a.0 b.0 false
          (ne_test i j (omega (arith, p)))
        ∙ (basis_lem i (j + 1) pre ys (mul a y) (mul b (add x y)) (omega (arith, p)))

  -- The inverse that the code takes of a denominator that is not zero.
  inv_lem : (b : Byte) → b ≢ zero → gf256_inv b.0 ≡ done (inv b).0
  unfolding gf256_inv
  inv_lem b n = let e : (b.0 == 0) ≡ false = ne_test b.0 0 (λ q. n (Byte_path q)) in rw e refl

  one_ne : one ≢ zero
  one_ne e = let q : 1 ≡ 0 = ap (λ (t : Byte). t.0) e in absurd (omega (arith, q))

  module _ (h : Byte → Byte) where
    -- One turn of the outer loop, for the point at `x` between those of `pre` and `ys`.
    term_lem :
        (pre ys : List Byte) (x r : Byte)
        → All (λ y. y ≢ x) pre
        → All (λ y. y ≢ x) ys
        → let (numerator, denominator) =
            basis_loop (length pre) x.0 0 (points_of h (pre ++ x ∷ ys)) 1 1 in
          add_term r.0 (h x).0 numerator (gf256_inv denominator)
          ≡ done (add r (mul (mul (h x) (weight byte_field x pre)) (weight byte_field x ys))).0
    unfolding add_term
    term_lem pre ys x r p q =
        ap (λ t. add_term r.0 (h x).0 t.0 (gf256_inv t.1))
          (basis_lem h x (length pre) 0 pre ys one one (omega arith))
        ∙ ap (add_term r.0 (h x).0 (nums byte_field (nums byte_field one pre) ys).0) (
            inv_lem (dens byte_field x (dens byte_field x one pre) ys) (
              dens_ne byte_field x (dens byte_field x one pre) ys
                (dens_ne byte_field x one pre one_ne p) q))
        ∙ ap (λ (t : Byte). done (add r (mul (h x) t)).0)
            (nums-dens byte_field x (nums byte_field one pre) (dens byte_field x one pre) ys
                (dens_ne byte_field x one pre one_ne p) q
              ∙ ap (λ t. mul t (weight byte_field x ys))
                  (nums-dens byte_field x one one pre one_ne p
                    ∙ ap (λ t. mul t (weight byte_field x pre)) (mul_inv one one_ne)
                    ∙ one_mul byte_field (weight byte_field x pre)))
        ∙ ap (λ (t : Byte). done (add r t).0)
            (sym (mul_assoc (h x) (weight byte_field x pre) (weight byte_field x ys)))

    outer_lem :
        (pre ys : List Byte) (r : Byte) (points : List (ℕ × ℕ))
        → points ≡ points_of h (pre ++ ys)
        → All (λ x. All (λ y. y ≢ x) pre) ys
        → Apart byte_field ys
        → lagrange_loop points (length pre) (points_of h ys) (done r.0)
          ≡ done (add r (total byte_field (λ y. mul (h y) (weight byte_field y pre)) ys)).0
    unfolding lagrange_loop points_of total weight
    outer_lem pre [] r points e p d = ap done (sym (xor-zero r.0))
    outer_lem pre (x ∷ ys) r points e (p, ps) (n, d) =
        ap
          (λ ps. lagrange_loop points (length pre + 1) (points_of h ys) (
            add_term r.0 (h x).0 (basis_loop (length pre) x.0 0 ps 1 1).0
              (gf256_inv (basis_loop (length pre) x.0 0 ps 1 1).1)))
          e
        ∙ ap (lagrange_loop points (length pre + 1) (points_of h ys)) (term_lem pre ys x r p n)
        ∙ ap (λ i. lagrange_loop points i (points_of h ys) (done (add r term).0))
            (sym (length-append pre (x ∷ [])))
        ∙ outer_lem (pre ++ x ∷ []) ys (add r term) points
            (e ∙ ap (points_of h) (sym (append_assoc pre (x ∷ []) ys))) (apart ys ps n) d
        ∙ ap (λ (t : Byte). done t.0)
            (ap (add (add r term)) (
                total-ext byte_field _ _ ys (
                  All-always byte_field (λ y. mul (h y) (weight byte_field y (pre ++ x ∷ [])))
                    (λ y. mul (mul (h y) (weight byte_field y pre)) (factor byte_field y x)) ys
                    snoc))
              ∙ add_assoc r term _)
      where
        term : Byte
        term = mul (mul (h x) (weight byte_field x pre)) (weight byte_field x ys)

        snoc :
            (y : Byte)
            → mul (h y) (weight byte_field y (pre ++ x ∷ []))
              ≡ mul (mul (h y) (weight byte_field y pre)) (factor byte_field y x)
        snoc y =
            ap (mul (h y)) (
              weight-append byte_field y pre (x ∷ [])
              ∙ ap (mul (weight byte_field y pre)) (mul_one (factor byte_field y x)))
            ∙ sym (mul_assoc (h y) (weight byte_field y pre) (factor byte_field y x))

        apart :
            (ys : List Byte)
            → All (λ z. All (λ y. y ≢ z) pre) ys
            → All (λ y. y ≢ x) ys
            → All (λ z. All (λ y. y ≢ z) (pre ++ x ∷ [])) ys
        apart [] _ _ = tt
        apart (z ∷ zs) (p, ps) (m, ms) =
            (All-append (λ y. y ≢ z) pre (x ∷ []) p ((λ e. m (sym e)), tt), apart zs ps ms)

-- For distinct points, at least as many as the polynomial has coefficients, the interpolation
-- returns the constant of the polynomial.
pub lagrange_lem :
    (cs xs : List Byte)
    → length cs ≤ length xs
    → Apart byte_field xs
    → gf256_lagrange_interpolate_zero (points_of (eval byte_field cs) xs)
      ≡ done (eval byte_field cs (byte_field.zero)).0
unfolding gf256_lagrange_interpolate_zero weight
lagrange_lem cs xs h d =
    outer_lem (eval byte_field cs) [] xs byte_field.zero (points_of (eval byte_field cs) xs) refl
      (nothing_before xs) d
    ∙ ap (λ (t : Byte). done t.0)
        (zero_add byte_field _
          ∙ total-ext byte_field _ _ xs (
              All-always byte_field (λ y. byte_field.mul (eval byte_field cs y) byte_field.one)
                (eval byte_field cs) xs (λ y. byte_field.mul_one (eval byte_field cs y)))
          ∙ total-eval byte_field cs xs h d)
  where
    nothing_before : (ys : List Byte) → All (λ x. All (λ y. y ≢ x) []) ys
    nothing_before [] = tt
    nothing_before (y ∷ ys) = (tt, nothing_before ys)

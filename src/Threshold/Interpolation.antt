-- ===== src/Threshold/Interpolation.antt =====
-- Lagrange interpolation at zero in any field where x + x is zero: the algebra behind
-- `gf256_lagrange_interpolate_zero`.
use pqc_gateway.Common.{◌≤◌, ◌≡◌, refl, sym, ap, ◌∙◌, ◌≢◌, List, [], ◌∷◌, All, arith, length}
use mathlib.Core.Path.{ap₂}

pub record Field2 (F : Type 0) : Type 0 where
  pub add : F → F → F
  pub mul : F → F → F
  pub zero : F
  pub one : F
  pub inv : F → F
  pub add_assoc : (a b c : F) → add (add a b) c ≡ add a (add b c)
  pub add_comm : (a b : F) → add a b ≡ add b a
  pub add_zero : (a : F) → add a zero ≡ a
  pub add_self : (a : F) → add a a ≡ zero
  pub mul_assoc : (a b c : F) → mul (mul a b) c ≡ mul a (mul b c)
  pub mul_comm : (a b : F) → mul a b ≡ mul b a
  pub mul_one : (a : F) → mul a one ≡ a
  pub mul_zero : (a : F) → mul a zero ≡ zero
  pub mul_add : (a b c : F) → mul a (add b c) ≡ add (mul a b) (mul a c)
  pub mul_inv : (a : F) → a ≢ zero → mul a (inv a) ≡ one

module _ {F : Type 0} (k : Field2 F) where
  open k use {
    add, mul, zero, one, inv, add_assoc, add_comm, add_zero, add_self, mul_assoc, mul_comm, mul_one,
    mul_zero, mul_add, mul_inv,
  }

  pub zero_add : (a : F) → add zero a ≡ a
  zero_add a = add_comm zero a ∙ add_zero a

  pub one_mul : (a : F) → mul one a ≡ a
  one_mul a = mul_comm one a ∙ mul_one a

  add_mul : (a b c : F) → mul (add a b) c ≡ add (mul a c) (mul b c)
  add_mul a b c = mul_comm (add a b) c ∙ mul_add c a b ∙ ap₂ add (mul_comm c a) (mul_comm c b)

  mul_swap : (a b c : F) → mul a (mul b c) ≡ mul b (mul a c)
  mul_swap a b c = sym (mul_assoc a b c) ∙ ap (λ t. mul t c) (mul_comm a b) ∙ mul_assoc b a c

  add_swap : (a b c : F) → add a (add b c) ≡ add b (add a c)
  add_swap a b c = sym (add_assoc a b c) ∙ ap (λ t. add t c) (add_comm a b) ∙ add_assoc b a c

  -- (a + b) + (a + c) = b + c
  add_cancel : (a b c : F) → add (add a b) (add a c) ≡ add b c
  add_cancel a b c =
      ap (λ t. add t (add a c)) (add_comm a b)
      ∙ add_assoc b a (add a c)
      ∙ ap (add b) (sym (add_assoc a a c) ∙ ap (λ t. add t c) (add_self a) ∙ zero_add c)

  -- (a + b) + (c + d) = (a + c) + (b + d)
  add_four : (a b c d : F) → add (add a b) (add c d) ≡ add (add a c) (add b d)
  add_four a b c d =
      add_assoc a b (add c d) ∙ ap (add a) (add_swap b c d) ∙ sym (add_assoc a c (add b d))

  add-zero_eq : (a b : F) → add a b ≡ zero → a ≡ b
  add-zero_eq a b h =
      sym (add_zero a)
      ∙ ap (add a) (sym (add_self b))
      ∙ sym (add_assoc a b b)
      ∙ ap (λ t. add t b) h
      ∙ zero_add b

  -- The factor of the point at `y` for the other point at `x`, as the code multiplies it in.
  unfoldable pub factor : F → F → F
  factor y x = mul x (inv (add y x))

  unfoldable pub weight : F → List F → F
  weight y [] = one
  weight y (x ∷ xs) = mul (factor y x) (weight y xs)

  -- The sum over the points of `h` at the point, times its weight for the other points.
  unfoldable pub total : (F → F) → List F → F
  total h [] = zero
  total h (x ∷ xs) = add (mul (h x) (weight x xs)) (total (λ y. mul (h y) (factor y x)) xs)

  pub total-ext : (h g : F → F) (xs : List F) → All (λ x. h x ≡ g x) xs → total h xs ≡ total g xs
  unfolding total
  total-ext h g [] e = refl
  total-ext h g (x ∷ xs) (e, es) =
      ap₂ add (ap (λ t. mul t (weight x xs)) e)
        (total-ext (λ y. mul (h y) (factor y x)) (λ y. mul (g y) (factor y x)) xs (all xs es))
    where
      all :
          (xs : List F)
          → All (λ y. h y ≡ g y) xs
          → All (λ y. mul (h y) (factor y x) ≡ mul (g y) (factor y x)) xs
      all [] _ = tt
      all (y ∷ ys) (d, ds) = (ap (λ t. mul t (factor y x)) d, all ys ds)

  pub All-always : (h g : F → F) (xs : List F) → ((x : F) → h x ≡ g x) → All (λ x. h x ≡ g x) xs
  All-always h g [] e = tt
  All-always h g (x ∷ xs) e = (e x, All-always h g xs e)

  total-add :
      (h g : F → F) (xs : List F) → total (λ y. add (h y) (g y)) xs ≡ add (total h xs) (total g xs)
  unfolding total
  total-add h g [] = sym (add_zero zero)
  total-add h g (x ∷ xs) =
      ap₂ add (add_mul (h x) (g x) (weight x xs)) (
        total-ext (λ y. mul (add (h y) (g y)) (factor y x))
          (λ y. add (mul (h y) (factor y x)) (mul (g y) (factor y x))) xs
          (All-always _ _ xs (λ y. add_mul (h y) (g y) (factor y x)))
        ∙ total-add (λ y. mul (h y) (factor y x)) (λ y. mul (g y) (factor y x)) xs)
      ∙ add_four _ _ _ _

  total-mul : (c : F) (h : F → F) (xs : List F) → total (λ y. mul c (h y)) xs ≡ mul c (total h xs)
  unfolding total
  total-mul c h [] = sym (mul_zero c)
  total-mul c h (x ∷ xs) =
      ap₂ add (mul_assoc c (h x) (weight x xs)) (
        total-ext (λ y. mul (mul c (h y)) (factor y x)) (λ y. mul c (mul (h y) (factor y x))) xs
          (All-always _ _ xs (λ y. mul_assoc c (h y) (factor y x)))
        ∙ total-mul c (λ y. mul (h y) (factor y x)) xs)
      ∙ sym (mul_add c _ _)

  -- (a b) (c d) = (a c) (b d)
  pub mul_four : (a b c d : F) → mul (mul a b) (mul c d) ≡ mul (mul a c) (mul b d)
  mul_four a b c d =
      mul_assoc a b (mul c d) ∙ ap (mul a) (mul_swap b c d) ∙ sym (mul_assoc a c (mul b d))

  inv_times : (s t : F) → t ≢ zero → s ≡ mul (mul s (inv t)) t
  inv_times s t h =
      sym (mul_one s)
      ∙ ap (mul s) (sym (mul_inv t h) ∙ mul_comm t (inv t))
      ∙ sym (mul_assoc s (inv t) t)

  module _ (y a b : F) (ya : add y a ≢ zero) (yb : add y b ≢ zero) (ba : add b a ≢ zero) where
    inv_sum :
        add (inv (add y b)) (inv (add y a)) ≡ mul (mul (inv (add y a)) (inv (add y b))) (add b a)
    inv_sum =
        ap₂ add
          (inv_times (inv (add y b)) (add y a) ya
            ∙ ap (λ t. mul t (add y a)) (mul_comm (inv (add y b)) (inv (add y a))))
          (inv_times (inv (add y a)) (add y b) yb)
        ∙ sym (mul_add _ _ _)
        ∙ ap (mul (mul (inv (add y a)) (inv (add y b)))) (add_cancel y a b ∙ add_comm a b)

    -- 1/(b + a) * (1/(y + b) + 1/(y + a)) = 1/(y + a) * 1/(y + b)
    inv_fractions :
        mul (inv (add b a)) (add (inv (add y b)) (inv (add y a)))
        ≡ mul (inv (add y a)) (inv (add y b))
    inv_fractions =
        ap (mul (inv (add b a))) inv_sum
        ∙ mul_comm _ _
        ∙ sym (inv_times' (mul (inv (add y a)) (inv (add y b))))
      where
        inv_times' : (s : F) → s ≡ mul (mul s (add b a)) (inv (add b a))
        inv_times' s =
            sym (mul_one s)
            ∙ ap (mul s) (sym (mul_inv (add b a) ba))
            ∙ sym (mul_assoc s (add b a) (inv (add b a)))

    factor_fractions :
        mul (factor y a) (factor y b)
        ≡ add (mul (factor b a) (factor y b)) (mul (factor a b) (factor y a))
    unfolding factor
    factor_fractions =
        mul_four a (inv (add y a)) b (inv (add y b))
        ∙ ap (mul (mul a b)) (sym inv_fractions ∙ mul_add _ _ _)
        ∙ mul_add _ _ _
        ∙ ap₂ add (mul_four a b (inv (add b a)) (inv (add y b))) (
            ap₂ mul (mul_comm a b) (ap (λ t. mul (inv t) (inv (add y a))) (add_comm b a))
            ∙ mul_four b a (inv (add a b)) (inv (add y a)))

  factor_sum : (a b : F) → add b a ≢ zero → add (factor a b) (factor b a) ≡ one
  unfolding factor
  factor_sum a b h =
      ap₂ add (ap (λ t. mul b (inv t)) (add_comm a b)) refl
      ∙ sym (add_mul b a (inv (add b a)))
      ∙ mul_inv (add b a) h

  -- No point stands twice.
  abbrev pub Apart : List F → Type 0
  Apart [] = Unit
  Apart (x ∷ xs) = All (λ y. y ≢ x) xs × Apart xs

  pub sum_ne : (a b : F) → a ≢ b → add a b ≢ zero
  sum_ne a b n h = n (add-zero_eq a b h)

  -- The weights of all points sum to one.
  weights_sum :
      (a : F) (xs : List F)
      → All (λ y. y ≢ a) xs
      → Apart xs
      → add (weight a xs) (total (λ y. factor y a) xs) ≡ one
  unfolding weight total
  weights_sum a [] _ _ = add_zero one
  weights_sum a (b ∷ ys) (ba, na) (nb, ds) =
      ap (add (mul (factor a b) (weight a ys))) (
        ap (add (mul (factor b a) (weight b ys))) (
          total-ext (λ y. mul (factor y a) (factor y b))
            (λ y. add (mul (factor b a) (factor y b)) (mul (factor a b) (factor y a))) ys
            (fractions ys na nb)
          ∙ total-add (λ y. mul (factor b a) (factor y b)) (λ y. mul (factor a b) (factor y a)) ys
          ∙ ap₂ add (total-mul (factor b a) (λ y. factor y b) ys)
              (total-mul (factor a b) (λ y. factor y a) ys)))
      ∙ regroup _ _ _ _
      ∙ ap₂ add (sym (mul_add _ _ _) ∙ ap (mul (factor a b)) (weights_sum a ys na ds) ∙ mul_one _)
          (sym (mul_add _ _ _) ∙ ap (mul (factor b a)) (weights_sum b ys nb ds) ∙ mul_one _)
      ∙ factor_sum a b (sum_ne b a ba)
    where
      fractions :
          (ys : List F)
          → All (λ y. y ≢ a) ys
          → All (λ y. y ≢ b) ys
          → All
              (λ y.
                mul (factor y a) (factor y b)
                ≡ add (mul (factor b a) (factor y b)) (mul (factor a b) (factor y a)))
              ys
      fractions [] _ _ = tt
      fractions (y ∷ ys) (p, ps) (q, qs) =
          (factor_fractions y a b (sum_ne y a p) (sum_ne y b q) (sum_ne b a ba), fractions ys ps qs)

      regroup : (s t u v : F) → add s (add t (add u v)) ≡ add (add s v) (add t u)
      regroup s t u v =
          ap (add s) (sym (add_assoc t u v) ∙ add_comm (add t u) v) ∙ sym (add_assoc s v (add t u))

  -- A polynomial by its coefficients, the constant first.
  unfoldable pub eval : List F → F → F
  eval [] x = zero
  eval (c ∷ cs) x = add c (mul x (eval cs x))

  -- The quotient of a polynomial by x + a.
  quotient : F → List F → List F
  quotient a [] = []
  quotient a (c ∷ []) = []
  quotient a (c ∷ d ∷ cs) = eval (d ∷ cs) a ∷ quotient a (d ∷ cs)

  length-quotient : (a c : F) (cs : List F) → length (quotient a (c ∷ cs)) ≡ length cs
  unfolding quotient
  length-quotient a c [] = refl
  length-quotient a c (d ∷ cs) = omega (arith, length-quotient a d cs)

  -- c + x (r + (x + a) s) = (c + a r) + (x + a) (r + x s)
  divide :
      (c x a r s : F)
      → add c (mul x (add r (mul (add x a) s)))
        ≡ add (add c (mul a r)) (mul (add x a) (add r (mul x s)))
  divide c x a r s =
      ap (add c) (
        mul_add x r (mul (add x a) s)
        ∙ ap (add (mul x r)) (mul_swap x (add x a) s)
        ∙ sym (
            add_swap (mul a r) (mul x r) _
            ∙ ap (add (mul x r)) (
                sym (add_assoc (mul a r) (mul a r) _)
                ∙ ap (λ t. add t (mul (add x a) (mul x s))) (add_self (mul a r))
                ∙ zero_add _)))
      ∙ sym (add_assoc c (mul a r) _)
      ∙ ap (add (add c (mul a r))) (
          sym (
            mul_add (add x a) r (mul x s)
            ∙ ap (λ t. add t (mul (add x a) (mul x s))) (add_mul x a r)
            ∙ add_assoc (mul x r) (mul a r) _))

  eval-quotient :
      (a : F) (p : List F) (x : F)
      → eval p x ≡ add (eval p a) (mul (add x a) (eval (quotient a p) x))
  unfolding eval quotient
  eval-quotient a [] x = sym (zero_add _ ∙ mul_zero _)
  eval-quotient a (c ∷ []) x =
      ap (add c) (mul_zero x)
      ∙ sym (ap₂ add (ap (add c) (mul_zero a)) (mul_zero (add x a)) ∙ add_zero _)
  eval-quotient a (c ∷ d ∷ cs) x =
      ap (λ t. add c (mul x t)) (eval-quotient a (d ∷ cs) x)
      ∙ divide c x a (eval (d ∷ cs) a) (eval (quotient a (d ∷ cs)) x)

  -- p(y) times the factor for x is p(x) times it, plus x times the quotient at y.
  eval-factor :
      (p : List F) (x y : F)
      → y ≢ x
      → mul (eval p y) (factor y x)
        ≡ add (mul (eval p x) (factor y x)) (mul x (eval (quotient x p) y))
  unfolding factor
  eval-factor p x y n =
      ap (λ t. mul t (mul x (inv (add y x)))) (eval-quotient x p y)
      ∙ add_mul _ _ _
      ∙ ap (add (mul (eval p x) (mul x (inv (add y x))))) (
          ap (λ t. mul t (mul x (inv (add y x)))) (mul_comm (add y x) q)
          ∙ mul_four q (add y x) x (inv (add y x))
          ∙ ap (mul (mul q x)) (mul_inv (add y x) (sum_ne y x n))
          ∙ mul_one _
          ∙ mul_comm q x)
    where
      q : F
      q = eval (quotient x p) y

  -- A polynomial with no more coefficients than there are points is recovered at zero.
  pub total-eval :
      (p xs : List F) → length p ≤ length xs → Apart xs → total (eval p) xs ≡ eval p zero
  unfolding total eval
  total-eval [] xs h d =
      total-ext (λ _. zero) (λ _. mul zero zero) xs (All-always _ _ xs (λ _. sym (mul_zero zero)))
      ∙ total-mul zero (λ _. zero) xs
      ∙ mul_comm _ _
      ∙ mul_zero _
  total-eval (c ∷ cs) [] h d = absurd (omega (arith, h))
  total-eval (c ∷ cs) (x ∷ xs) h (n, d) =
      ap (add (mul px (weight x xs))) (
        total-ext (λ y. mul (eval p y) (factor y x))
          (λ y. add (mul px (factor y x)) (mul x (eval q y))) xs (factors xs n)
        ∙ total-add (λ y. mul px (factor y x)) (λ y. mul x (eval q y)) xs
        ∙ ap₂ add (total-mul px (λ y. factor y x) xs) (
            total-mul x (eval q) xs
            ∙ ap (mul x) (total-eval q xs (omega (arith, h, length-quotient x c cs)) d)))
      ∙ sym (add_assoc _ _ _)
      ∙ ap₂ add (sym (mul_add px _ _) ∙ ap (mul px) (weights_sum x xs n d) ∙ mul_one px)
          (ap (λ t. mul t (eval q zero)) (sym (zero_add x)))
      ∙ sym (eval-quotient x p zero)
    where
      p : List F
      p = c ∷ cs

      px : F
      px = eval p x

      q : List F
      q = quotient x p

      factors :
          (ys : List F)
          → All (λ y. y ≢ x) ys
          → All (λ y. mul (eval p y) (factor y x) ≡ add (mul px (factor y x)) (mul x (eval q y))) ys
      factors [] _ = tt
      factors (y ∷ ys) (m, ms) = (eval-factor p x y m, factors ys ms)

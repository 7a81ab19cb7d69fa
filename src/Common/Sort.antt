-- ===== src/Common/Sort.antt =====
-- A stable sort by a number, as `sort_by_key` and `sort` are.
use Prim.Native.Nat.{ℕ, suc, ◌≤◌}
use mathlib.Core.Path.{◌≡◌, refl, sym}
use mathlib.Core.Logic.{◌≢◌, inl, inr}
use mathlib.Core.List.{List, [], ◌∷◌}
use native.Mathlib.Omega.{arith}
use pqc_gateway.Common.Tests.{leb, leb→le, if◌then◌else◌, Bool-cases}
use pqc_gateway.Common.Lists.{All, All-imp, AllDifferent, length}

module _ {ℓ} {A : Type ℓ} (f : A → ℕ) where
  unfoldable pub insert_by : A → List A → List A
  insert_by x [] = x ∷ []
  insert_by x (y ∷ ys) =
      let rest = insert_by x ys in if leb (f x) (f y) then x ∷ y ∷ ys else y ∷ rest

  unfoldable pub sort_by_key : List A → List A
  sort_by_key [] = []
  sort_by_key (x ∷ xs) = insert_by x (sort_by_key xs)

  insert_by-All {κ} :
      (P : A → Type κ) (x : A) (xs : List A) → P x → All P xs → All P (insert_by x xs)
  unfolding insert_by
  insert_by-All P x [] p _ = (p, tt)
  insert_by-All P x (y ∷ ys) p (q, qs) = elim (Bool-cases (leb (f x) (f y))) [
    | inl h ↦ rw h (p, (q, qs))
    | inr h ↦ rw h (q, insert_by-All P x ys p qs)
  ]

  pub sort_by_key-All {κ} : (P : A → Type κ) (xs : List A) → All P xs → All P (sort_by_key xs)
  unfolding sort_by_key
  sort_by_key-All P [] _ = tt
  sort_by_key-All P (x ∷ xs) (p, ps) =
      insert_by-All P x (sort_by_key xs) p (sort_by_key-All P xs ps)

  length-insert_by : (x : A) (xs : List A) → length (insert_by x xs) ≡ suc (length xs)
  unfolding insert_by
  length-insert_by x [] = refl
  length-insert_by x (y ∷ ys) = ground (arith, length-insert_by x ys)

  pub length-sort_by_key : (xs : List A) → length (sort_by_key xs) ≡ length xs
  unfolding sort_by_key
  length-sort_by_key [] = refl
  length-sort_by_key (x ∷ xs) =
      omega (arith, length-insert_by x (sort_by_key xs), length-sort_by_key xs)

  abbrev pub IsAscending : List A → Type 0
  IsAscending [] = Unit
  IsAscending (x ∷ xs) = All (λ y. f x ≤ f y) xs × IsAscending xs

  insert_by-IsAscending : (x : A) (xs : List A) → IsAscending xs → IsAscending (insert_by x xs)
  unfolding insert_by
  insert_by-IsAscending x [] _ = (tt, tt)
  insert_by-IsAscending x (y ∷ ys) (b, s) = elim (Bool-cases (leb (f x) (f y))) [
    | inl h ↦
        let le = leb→le (f x) (f y) h in rw h ((le, All-imp _ _ ys (λ z q. omega arith) b), (b, s))
    | inr h ↦
        rw h
          (insert_by-All (λ z. f y ≤ f z) x ys (ground (arith, h)) b, insert_by-IsAscending x ys s)
  ]

  pub sort_by_key-IsAscending : (xs : List A) → IsAscending (sort_by_key xs)
  unfolding sort_by_key
  sort_by_key-IsAscending [] = tt
  sort_by_key-IsAscending (x ∷ xs) =
      insert_by-IsAscending x (sort_by_key xs) (sort_by_key-IsAscending xs)

  insert_by-AllDifferent :
      (x : A) (xs : List A) → All (λ y. y ≢ x) xs → AllDifferent xs → AllDifferent (insert_by x xs)
  unfolding insert_by
  insert_by-AllDifferent x [] h d = (tt, tt)
  insert_by-AllDifferent x (y ∷ ys) (h, hs) (d, ds) = elim (Bool-cases (leb (f x) (f y))) [
    | inl b ↦ rw b ((h, hs), (d, ds))
    | inr b ↦
        rw b (insert_by-All (λ z. z ≢ y) x ys (λ q. h (sym q)) d, insert_by-AllDifferent x ys hs ds)
  ]

  pub sort_by_key-AllDifferent : (xs : List A) → AllDifferent xs → AllDifferent (sort_by_key xs)
  unfolding sort_by_key
  sort_by_key-AllDifferent [] d = tt
  sort_by_key-AllDifferent (x ∷ xs) (d, ds) =
      insert_by-AllDifferent x (sort_by_key xs) (sort_by_key-All (λ y. y ≢ x) xs d)
        (sort_by_key-AllDifferent xs ds)

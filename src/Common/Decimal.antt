-- ===== src/Common/Decimal.antt =====
-- Numbers as the standard library prints them.
use Prim.Native.Nat.{ℕ, zero, suc, ◌+◌, ◌-◌, ◌*◌, ◌/◌, ◌%◌, ◌^◌, ◌<◌}
use native.Mathlib.Nat.{pow-suc}
use native.Mathlib.Omega.{arith}
use mathlib.Core.Path.{◌≡◌, refl, sym, ap, ◌∙◌}
use mathlib.Core.Bool.{false}
use mathlib.Core.Logic.{inl, inr}
use mathlib.Core.List.{[], ◌∷◌, ◌++◌, append_assoc}
use pqc_gateway.Common.Tests.{ltb, ◌==◌, Bool-cases, if◌then◌else◌}
use pqc_gateway.Common.Text.{Str}

-- The decimal digits of a `u64`, which are 20 at most.
unfoldable pub decimal_loop : ℕ → ℕ → Str
decimal_loop zero x = []
decimal_loop (suc n) x =
    let more = decimal_loop n (x / 10) in
    if ltb x 10 then (48 + x) ∷ [] else more ++ ((48 + x % 10) ∷ [])

unfoldable pub decimal : ℕ → Str
decimal x = decimal_loop 20 x

-- A reader of the digits up to a dash.
digits_value : ℕ → Str → ℕ
digits_value acc [] = acc
digits_value acc (c ∷ s) =
    let rest = digits_value (acc * 10 + (c - 48)) s in if c == b'-' then acc else rest

digits_value_step :
    (acc d : ℕ) (s : Str) → digits_value acc ((48 + d) ∷ s) ≡ digits_value (acc * 10 + d) s
unfolding digits_value
digits_value_step acc d s =
    let t : ((48 + d) == b'-') ≡ false = ground arith in
    let e : acc * 10 + (48 + d - 48) ≡ acc * 10 + d = omega arith in rw (t, e) refl

digits_value-decimal_loop :
    (n x : ℕ) (s : Str) → x < 10 ^ n → digits_value 0 (decimal_loop n x ++ s) ≡ digits_value x s
unfolding decimal_loop
digits_value-decimal_loop zero x s h = let e : x ≡ 0 = omega arith in rw e refl
digits_value-decimal_loop (suc n) x s h = elim (Bool-cases (ltb x 10)) [
  | inl p ↦ rw p (digits_value_step 0 x s ∙ ap (λ t. digits_value t s) (omega arith))
  | inr p ↦ rw p (
      ap (digits_value 0) (append_assoc (decimal_loop n (x / 10)) ((48 + x % 10) ∷ []) s)
      ∙ digits_value-decimal_loop n (x / 10) ((48 + x % 10) ∷ s) (omega (arith, pow-suc 10 n))
      ∙ digits_value_step (x / 10) (x % 10) s
      ∙ ap (λ t. digits_value t s) (omega arith))
]

-- Different numbers of 64 bits, each followed by a dash, are different texts.
pub decimal-inj :
    (x y : ℕ) (s t : Str)
    → x < 2 ^ 64
    → y < 2 ^ 64
    → decimal x ++ (b'-' ∷ s) ≡ decimal y ++ (b'-' ∷ t)
    → x ≡ y
unfolding decimal digits_value
decimal-inj x y s t p q e =
    sym (digits_value-decimal_loop 20 x (b'-' ∷ s) (omega arith))
    ∙ ap (digits_value 0) e
    ∙ digits_value-decimal_loop 20 y (b'-' ∷ t) (omega arith)

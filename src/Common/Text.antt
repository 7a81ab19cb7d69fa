-- ===== src/Common/Text.antt =====
-- Texts and byte strings as lists of bytes, with the string functions of the standard library that
-- the program calls.
use Prim.Native.Nat.{ℕ, ◌-◌}
use Prim.Native.Char.{code}
use Prim.Native.String.{String}
use mathlib.Core.Path.{◌≡◌, refl}
use mathlib.Core.Logic.{◌↔◌}
use mathlib.Core.Bool.{Bool, true, false, ◌&&◌}
use mathlib.Core.List.{List, [], ◌∷◌, ◌++◌, map}
use mathlib.Core.Option.{Option, none, some}
use native.Mathlib.Omega.{arith}
use pqc_gateway.Common.Tests.{◌==◌, leb, if◌then◌else◌, Eq}

abbrev pub Bytes : Type 0
Bytes = List ℕ

-- A text is its UTF-8 bytes.
abbrev pub Str : Type 0
Str = List ℕ

-- The bytes of an ASCII text.
abbrev pub codes : String → Str
codes String.[] = []
codes (String.◌∷◌ c s) = code c ∷ codes s

unfoldable pub str_eq : Str → Str → Bool
str_eq [] [] = true
str_eq (x ∷ xs) (y ∷ ys) = x == y && str_eq xs ys
str_eq [] (y ∷ ys) = false
str_eq (x ∷ xs) [] = false

pub str_eq_iff : (s t : Str) → (str_eq s t ≡ true) ↔ (s ≡ t)
unfolding str_eq
str_eq_iff [] [] = (λ _. refl, λ _. refl)
str_eq_iff [] (y ∷ ys) = (λ h. cc, λ h. cc)
str_eq_iff (x ∷ xs) [] = (λ h. cc, λ h. cc)
str_eq_iff (x ∷ xs) (y ∷ ys) = ground (arith, str_eq_iff xs ys)

pub str_eq_refl : (s : Str) → str_eq s s ≡ true
str_eq_refl s = (str_eq_iff s s).1 refl

instance abbrev pub str_instance : Eq Str
str_instance = record { beq = str_eq; beq_iff = str_eq_iff }

unfoldable pub starts_with : Str → Str → Bool
starts_with s [] = true
starts_with [] (p ∷ ps) = false
starts_with (c ∷ s) (p ∷ ps) = c == p && starts_with s ps

-- `s.strip_prefix(p)`.
unfoldable pub strip_prefix : Str → Str → Option Str
strip_prefix s [] = some s
strip_prefix [] (p ∷ ps) = none
strip_prefix (c ∷ s) (p ∷ ps) = let rest = strip_prefix s ps in if c == p then rest else none

pub strip_prefix_iff : (s p r : Str) → (strip_prefix s p ≡ some r) ↔ (s ≡ p ++ r)
unfolding strip_prefix
strip_prefix_iff s [] r = (λ h. cc, λ h. cc)
strip_prefix_iff [] (p ∷ ps) r = (λ h. cc, λ h. cc)
strip_prefix_iff (c ∷ s) (p ∷ ps) r = ground (arith, strip_prefix_iff s ps r)

-- A text starts with `p` exactly when stripping `p` succeeds.
pub starts_with-strip_prefix :
    (s p : Str) → starts_with s p ≡ true → (r : Str) × (strip_prefix s p ≡ some r)
unfolding starts_with strip_prefix
starts_with-strip_prefix s [] h = (s, refl)
starts_with-strip_prefix [] (p ∷ ps) h = cc
starts_with-strip_prefix (c ∷ s) (p ∷ ps) h =
    let (r, e) = starts_with-strip_prefix s ps (ground arith) in (r, ground arith)

pub starts_with-append : (p r : Str) → starts_with (p ++ r) p ≡ true
unfolding starts_with
starts_with-append [] r = refl
starts_with-append (c ∷ p) r = ground (arith, starts_with-append p r)

pub starts_with_iff : (s p : Str) → (starts_with s p ≡ true) ↔ ((r : Str) × (s ≡ p ++ r))
starts_with_iff s p = (
  (λ h. let (r, e) = starts_with-strip_prefix s p h in (r, (strip_prefix_iff s p r).0 e)),
  (λ (r, e). rw e (starts_with-append p r)),
)

-- One character in front of a text that is trimmed already.
cons_trimmed : ℕ → ℕ → Str → Str
cons_trimmed c x [] = if x == c then [] else x ∷ []
cons_trimmed c x (y ∷ r) = x ∷ y ∷ r

-- `s.trim_end_matches(c)`: the trailing occurrences of `c` are dropped.
unfoldable pub trim_end_matches : ℕ → Str → Str
unfolding cons_trimmed
trim_end_matches c [] = []
trim_end_matches c (x ∷ s) = cons_trimmed c x (trim_end_matches c s)

-- `to_uppercase` on ASCII bytes; others are left as they are.
unfoldable pub upper : ℕ → ℕ
upper c = if leb b'a' c && leb c b'z' then c - 32 else c

unfoldable pub to_uppercase : Str → Str
unfolding upper
to_uppercase = map upper

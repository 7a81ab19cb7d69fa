-- ===== src/VersionedKeys/Deactivation.antt =====
-- crates/pqc-tls/src/versioned_keys.rs: what `rotate` does to the old current key, and the names of keys.
use pqc_gateway.Common.{
  ℕ, ◌^◌, ◌<◌, [], ◌∷◌, Str, str_eq, str_eq_iff, str_instance, Bool-cases, true, false, some, ◌≡◌,
  ◌≢◌, inl, inr, refl, sym, ap, ◌∙◌, length, drop, All, All-imp, All-and, arith, if◌then◌else◌,
}
use pqc_gateway.Common.Map.{Map, lookup, contains_key, Distinct}
use pqc_gateway.Common.MapLaws.{keys_ne}
use pqc_gateway.Common.Decimal.{decimal-inj}
use pqc_gateway.VersionedKeys.{KeyVersion, kid_of, deactivate}

pub deactivate-All {κ} :
    (P : Str × KeyVersion → Type κ) (kid : Str) (keys : Map Str KeyVersion)
    → Distinct keys
    → All (λ p. (p.0 ≡ kid → P (p.0, record p.1 { active = false })) × (p.0 ≢ kid → P p)) keys
    → All P (deactivate kid keys)
unfolding deactivate
deactivate-All P kid [] d h = tt
deactivate-All P kid ((j, k) ∷ keys) (n, d) (h, hs) = elim (Bool-cases (str_eq j kid)) [
  | inl b ↦
      let e : j ≡ kid = (str_eq_iff j kid).0 b in
      rw b (
        h.0 e,
        All-imp
            (λ p.
              ((p.0 ≡ kid → P (p.0, record p.1 { active = false })) × (p.0 ≢ kid → P p))
              × (p.0 ≢ j))
            P keys (λ p q. q.0.1 (λ w. q.1 (w ∙ sym e)))
            (All-and _ (λ p. p.0 ≢ j) keys hs (keys_ne j keys n)),
      )
  | inr b ↦ rw b (
    h.1 (λ q. let t : true ≡ false = sym ((str_eq_iff j kid).1 q) ∙ b in cc),
    deactivate-All P kid keys d hs,
  )
]

pub length-deactivate :
    (kid : Str) (keys : Map Str KeyVersion) → length (deactivate kid keys) ≡ length keys
unfolding deactivate
length-deactivate kid [] = refl
length-deactivate kid ((j, k) ∷ keys) = ground (arith, length-deactivate kid keys)

pub contains_key-deactivate :
    (i kid : Str) (keys : Map Str KeyVersion)
    → contains_key i (deactivate kid keys) ≡ contains_key i keys
unfolding deactivate contains_key
contains_key-deactivate i kid [] = refl
contains_key-deactivate i kid ((j, k) ∷ keys) = ground (arith, contains_key-deactivate i kid keys)

pub deactivate-Distinct :
    (kid : Str) (keys : Map Str KeyVersion) → Distinct keys → Distinct (deactivate kid keys)
unfolding deactivate
deactivate-Distinct kid [] d = tt
deactivate-Distinct kid ((j, k) ∷ keys) (n, d) = elim (Bool-cases (str_eq j kid)) [
  | inl b ↦ rw b (n, d)
  | inr b ↦ rw b (contains_key-deactivate j kid keys ∙ n, deactivate-Distinct kid keys d)
]

pub lookup-deactivate :
    (kid : Str) (k : KeyVersion) (keys : Map Str KeyVersion)
    → lookup kid keys ≡ some k
    → lookup kid (deactivate kid keys) ≡ some (record k { active = false })
unfolding deactivate lookup
lookup-deactivate kid k [] h = cc
lookup-deactivate kid k ((j, w) ∷ keys) h = elim (Bool-cases (str_eq j kid)) [
  | inl b ↦
      let s : some w ≡ some k = ap (λ c. if c then some w else lookup kid keys) (sym b) ∙ h in
      let same : w ≡ k = cc in rw (same, b) (rw b refl)
  | inr b ↦ rw b (
      rw b (
        lookup-deactivate kid k keys (ap (λ c. if c then some w else lookup kid keys) (sym b) ∙ h)))
]

pub kid_of-inj : (v w : ℕ) (s t : Str) → v < 2 ^ 64 → w < 2 ^ 64 → kid_of v s ≡ kid_of w t → v ≡ w
unfolding kid_of
kid_of-inj v w s t p q e = decimal-inj v w _ _ p q (ap (drop 7) e)

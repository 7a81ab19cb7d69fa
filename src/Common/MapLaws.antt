-- ===== src/Common/MapLaws.antt =====
-- Laws of finite maps: what holds of every entry, how many entries there are, and no key twice.
use Prim.Native.Nat.{suc}
use mathlib.Core.Path.{◌≡◌, refl, sym, ap, ◌∙◌, subst}
use mathlib.Core.Bool.{true, false, ◌||◌}
use mathlib.Core.Logic.{◌≢◌, inl, inr}
use mathlib.Core.List.{[], ◌∷◌}
use mathlib.Core.Option.{none, some}
use native.Mathlib.Omega.{arith}
use pqc_gateway.Common.Tests.{Eq, if◌then◌else◌, Bool-cases}
use pqc_gateway.Common.Lists.{All, All-imp, length}
use pqc_gateway.Common.Map.{
  Map, lookup, contains_key, insert, remove, Distinct, lookup_of_not_contains_key,
}

module _ {ℓ κ} {K : Type ℓ} {V : Type κ} ⦃e : Eq K⦄ where
  pub All-lookup {μ} :
      (P : K → V → Type μ) (k : K) (v : V) (m : Map K V)
      → All (λ p. P p.0 p.1) m
      → lookup k m ≡ some v
      → P k v
  unfolding lookup
  All-lookup P k v [] h q = cc
  All-lookup P k v ((j, w) ∷ m) (h, hs) q = elim (Bool-cases (e.beq j k)) [
    | inl b ↦
        let s : some w ≡ some v = ap (λ c. if c then some w else lookup k m) (sym b) ∙ q in
        let same : w ≡ v = cc in subst (λ x. P x v) ((e.beq_iff j k).0 b) (subst (P j) same h)
    | inr b ↦ All-lookup P k v m hs (ap (λ c. if c then some w else lookup k m) (sym b) ∙ q)
  ]

  -- In a map without repetitions every entry is found.
  pub lookup-All : (m : Map K V) → Distinct m → All (λ p. lookup p.0 m ≡ some p.1) m
  unfolding lookup
  lookup-All [] d = tt
  lookup-All ((j, w) ∷ m) (n, d) = (
    (let b : e.beq j j ≡ true = (e.beq_iff j j).1 refl in rw b refl),
    All-imp (λ p. lookup p.0 m ≡ some p.1) (λ p. lookup p.0 ((j, w) ∷ m) ≡ some p.1) m
        (λ p q. later j w p.0 p.1 n q) (lookup-All m d),
  )
    where
      later :
          (j : K) (w : V) (k : K) (v : V)
          → contains_key j m ≡ false
          → lookup k m ≡ some v
          → lookup k ((j, w) ∷ m) ≡ some v
      later j w k v n q = elim (Bool-cases (e.beq j k)) [
        | inl b ↦
            let s : none ≡ some v =
              sym (lookup_of_not_contains_key j m n)
              ∙ ap (λ x. lookup x m) ((e.beq_iff j k).0 b)
              ∙ q in
            cc
        | inr b ↦ rw b q
      ]

  pub contains_key_of_lookup :
      (k : K) (v : V) (m : Map K V) → lookup k m ≡ some v → contains_key k m ≡ true
  contains_key_of_lookup k v m q = elim (Bool-cases (contains_key k m)) [
    | inl h ↦ h
    | inr h ↦ let s : none ≡ some v = sym (lookup_of_not_contains_key k m h) ∙ q in cc
  ]

  contains_key-remove :
      (j k : K) (m : Map K V) → contains_key j m ≡ false → contains_key j (remove k m) ≡ false
  unfolding contains_key remove
  contains_key-remove j k [] h = refl
  contains_key-remove j k ((i, w) ∷ m) h = ground (arith, contains_key-remove j k m)

  pub remove-Distinct : (k : K) (m : Map K V) → Distinct m → Distinct (remove k m)
  unfolding remove
  remove-Distinct k [] d = tt
  remove-Distinct k ((j, w) ∷ m) (n, d) = elim (Bool-cases (e.beq j k)) [
    | inl b ↦ rw b (remove-Distinct k m d)
    | inr b ↦ rw b (contains_key-remove j k m n, remove-Distinct k m d)
  ]

  pub remove-All {μ} : (P : K × V → Type μ) (k : K) (m : Map K V) → All P m → All P (remove k m)
  unfolding remove
  remove-All P k [] h = tt
  remove-All P k ((j, w) ∷ m) (h, hs) = elim (Bool-cases (e.beq j k)) [
    | inl b ↦ rw b (remove-All P k m hs)
    | inr b ↦ rw b (h, remove-All P k m hs)
  ]

  pub insert-All {μ} :
      (P : K × V → Type μ) (k : K) (v : V) (m : Map K V) → All P m → P (k, v) → All P (insert k v m)
  unfolding insert
  insert-All P k v [] h p = (p, tt)
  insert-All P k v ((j, w) ∷ m) (h, hs) p = elim (Bool-cases (e.beq j k)) [
    | inl b ↦ rw b (p, hs)
    | inr b ↦ rw b (h, insert-All P k v m hs p)
  ]

  length-remove_absent :
      (k : K) (m : Map K V) → contains_key k m ≡ false → length (remove k m) ≡ length m
  unfolding contains_key remove
  length-remove_absent k [] h = refl
  length-remove_absent k ((j, w) ∷ m) h = ground (arith, length-remove_absent k m)

  pub length-remove :
      (k : K) (m : Map K V)
      → Distinct m
      → contains_key k m ≡ true
      → suc (length (remove k m)) ≡ length m
  unfolding contains_key remove
  length-remove k [] d h = cc
  length-remove k ((j, w) ∷ m) (n, d) h = elim (Bool-cases (e.beq j k)) [
    | inl b ↦ rw b (
        ap suc (
          length-remove_absent k m (subst (λ x. contains_key x m ≡ false) ((e.beq_iff j k).0 b) n)))
    | inr b ↦ rw b (ap suc (length-remove k m d (sym (ap (λ c. c || contains_key k m) b) ∙ h)))
  ]

  pub length-insert_absent :
      (k : K) (v : V) (m : Map K V)
      → contains_key k m ≡ false
      → length (insert k v m) ≡ suc (length m)
  unfolding contains_key insert
  length-insert_absent k v [] h = refl
  length-insert_absent k v ((j, w) ∷ m) h = ground (arith, length-insert_absent k v m)

  -- A key that no entry has is not in the map.
  pub contains_key_of_All :
      (k : K) (m : Map K V) → All (λ p. e.beq p.0 k ≡ false) m → contains_key k m ≡ false
  unfolding contains_key
  contains_key_of_All k [] h = refl
  contains_key_of_All k ((j, w) ∷ m) (h, hs) = rw (h, contains_key_of_All k m hs) refl

  pub keys_ne : (k : K) (m : Map K V) → contains_key k m ≡ false → All (λ p. p.0 ≢ k) m
  unfolding contains_key
  keys_ne k [] h = tt
  keys_ne k ((j, w) ∷ m) h = elim (Bool-cases (e.beq j k)) [
    | inl b ↦ let t : true ≡ false = sym (ap (λ c. c || contains_key k m) b) ∙ h in cc
    | inr b ↦ (
      (λ q. let t : true ≡ false = sym ((e.beq_iff j k).1 q) ∙ b in cc),
      keys_ne k m (sym (ap (λ c. c || contains_key k m) b) ∙ h),
    )
  ]

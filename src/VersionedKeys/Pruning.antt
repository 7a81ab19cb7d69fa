-- ===== src/VersionedKeys/Pruning.antt =====
-- crates/pqc-tls/src/versioned_keys.rs: which key the end of `rotate` prunes.
use pqc_gateway.Common.{
  str_instance, ℕ, suc, ◌≤◌, ◌<◌, List, [], ◌∷◌, Str, str_eq, str_eq_iff, Bool-cases, true, false,
  ◌≡◌, ◌≢◌, inl, inr, refl, sym, ap, ◌∙◌, length, ltb, All, All-imp, some, AllDifferent, arith,
}
use mathlib.Core.Path.{subst}
use native.Mathlib.Decide.{dec_le}
use pqc_gateway.Common.Map.{lookup-remove, Map, lookup, contains_key, remove, Distinct}
use pqc_gateway.Common.MapLaws.{
  remove-Distinct, remove-All, keys_ne, length-remove, lookup-All, contains_key_of_lookup,
}
use pqc_gateway.Common.Sort.{
  IsAscending, sort_by_key, sort_by_key-All, length-sort_by_key, sort_by_key-IsAscending,
  sort_by_key-AllDifferent,
}
use pqc_gateway.VersionedKeys.{KeyVersion, other_versions, prune_loop, prune}

other_versions-All {κ} :
    (P : Str × ℕ → Type κ) (current : Str) (keys : Map Str KeyVersion)
    → All (λ p. p.0 ≢ current → P (p.0, p.1.version)) keys
    → All P (other_versions current keys)
unfolding other_versions
other_versions-All P current [] h = tt
other_versions-All P current ((kid, k) ∷ keys) (h, hs) = elim (Bool-cases (str_eq kid current)) [
  | inl b ↦ rw b (other_versions-All P current keys hs)
  | inr b ↦ rw b (
    h (λ q. let t : true ≡ false = sym ((str_eq_iff kid current).1 q) ∙ b in cc),
    other_versions-All P current keys hs,
  )
]

other_versions-AllDifferent :
    (current : Str) (keys : Map Str KeyVersion)
    → Distinct keys
    → AllDifferent (other_versions current keys)
unfolding other_versions
other_versions-AllDifferent current [] d = tt
other_versions-AllDifferent current ((kid, k) ∷ keys) (n, d) =
    elim (Bool-cases (str_eq kid current)) [
      | inl b ↦ rw b (other_versions-AllDifferent current keys d)
      | inr b ↦ rw b (
        other_versions-All (λ y. y ≢ (kid, k.version)) current keys
            (All-imp (λ p. p.0 ≢ kid) (λ p. p.0 ≢ current → (p.0, p.1.version) ≢ (kid, k.version))
              keys (λ p n _ q. n (ap (λ x. x.0) q)) (keys_ne kid keys n)),
        other_versions-AllDifferent current keys d,
      )
    ]

length-other_versions_absent :
    (current : Str) (keys : Map Str KeyVersion)
    → contains_key current keys ≡ false
    → length (other_versions current keys) ≡ length keys
unfolding other_versions contains_key
length-other_versions_absent current [] h = refl
length-other_versions_absent current ((kid, k) ∷ keys) h =
    ground (arith, length-other_versions_absent current keys)

length-other_versions :
    (current : Str) (keys : Map Str KeyVersion)
    → Distinct keys
    → contains_key current keys ≡ true
    → suc (length (other_versions current keys)) ≡ length keys
unfolding other_versions contains_key
length-other_versions current [] d h = cc
length-other_versions current ((kid, k) ∷ keys) (n, d) h = elim (Bool-cases (str_eq kid current)) [
  | inl b ↦
      let e : kid ≡ current = (str_eq_iff kid current).0 b in
      let n' : contains_key current keys ≡ false = ap (λ x. contains_key x keys) (sym e) ∙ n in
      rw b (ap suc (length-other_versions_absent current keys n'))
  | inr b ↦ rw b (ap suc (length-other_versions current keys d (ground (arith, h, b))))
]

-- The entries that are candidates are in the map and are not the current one.
candidates :
    (current : Str) (keys : Map Str KeyVersion)
    → Distinct keys
    → All (λ c. (contains_key c.0 keys ≡ true) × (c.0 ≢ current)) (other_versions current keys)
candidates current keys d =
    other_versions-All (λ c. (contains_key c.0 keys ≡ true) × (c.0 ≢ current)) current keys
      (All-imp (λ p. lookup p.0 keys ≡ some p.1)
        (λ p. p.0 ≢ current → (contains_key p.0 keys ≡ true) × (p.0 ≢ current)) keys
        (λ p q n. (contains_key_of_lookup p.0 p.1 keys q, n)) (lookup-All keys d))

pub sorted_versions : Str → Map Str KeyVersion → List (Str × ℕ)
sorted_versions current keys = sort_by_key (λ p. p.1) (other_versions current keys)

prune_loop_once :
    (limit v : ℕ) (kid : Str) (versions : List (Str × ℕ)) (keys : Map Str KeyVersion)
    → length keys ≡ suc limit
    → length (remove kid keys) ≡ limit
    → prune_loop limit ((kid, v) ∷ versions) keys ≡ remove kid keys
unfolding prune_loop
prune_loop_once limit v kid [] keys h r =
    let t : ltb limit (length keys) ≡ true = ground (arith, h) in rw t refl
prune_loop_once limit v kid ((kid', v') ∷ versions) keys h r =
    let t : ltb limit (length keys) ≡ true = ground (arith, h) in
    let f : ltb limit (length (remove kid keys)) ≡ false = ground (arith, r) in rw (t, f) refl

-- One key too many: the first of the other keys by version is removed, and nothing else.
pub prune_one :
    (limit : ℕ) (current : Str) (keys : Map Str KeyVersion)
    → Distinct keys
    → contains_key current keys ≡ true
    → 1 ≤ limit
    → length keys ≡ suc limit
    → (e : Str × ℕ) × (rest : List (Str × ℕ)) × (sorted_versions current keys ≡ e ∷ rest)
      × (prune limit current keys ≡ remove e.0 keys)
      × (e.0 ≢ current)
      × (length (remove e.0 keys) ≡ limit)
unfolding sorted_versions prune
prune_one limit current keys d c low h =
    first (sorted_versions current keys) refl
      (sort_by_key-All (λ p. p.1) _ (other_versions current keys) (candidates current keys d))
      (length-sort_by_key (λ p. p.1) (other_versions current keys))
  where
    first :
        (versions : List (Str × ℕ))
        → sorted_versions current keys ≡ versions
        → All (λ c. (contains_key c.0 keys ≡ true) × (c.0 ≢ current)) versions
        → length versions ≡ length (other_versions current keys)
        → (e : Str × ℕ) × (rest : List (Str × ℕ)) × (sorted_versions current keys ≡ e ∷ rest)
          × (prune limit current keys ≡ remove e.0 keys)
          × (e.0 ≢ current)
          × (length (remove e.0 keys) ≡ limit)
    first [] q a l = absurd (omega (arith, length-other_versions current keys d c))
    first ((kid, v) ∷ rest) q ((p, n), a) l =
        let r : length (remove kid keys) ≡ limit = omega (arith, length-remove kid keys d p) in
        let t : ltb limit (length keys) ≡ true = ground (arith, h) in
        (
          (kid, v),
          rest,
          q,
          rw t (ap (λ vs. prune_loop limit vs keys) q ∙ prune_loop_once limit v kid rest keys h r),
          n,
          r,
        )

pub prune_none :
    (limit : ℕ) (current : Str) (keys : Map Str KeyVersion)
    → length keys ≤ limit
    → prune limit current keys ≡ keys
unfolding prune
prune_none limit current keys h =
    let f : ltb limit (length keys) ≡ false = ground (arith, h) in rw f refl

-- The key with the highest version of the others is not pruned if another one is there.
pub prune_keeps_newest :
    (limit newest : ℕ) (current old : Str) (keys : Map Str KeyVersion) (e : Str × ℕ)
    (rest : List (Str × ℕ))
    → Distinct keys
    → contains_key current keys ≡ true
    → 2 ≤ limit
    → length keys ≡ suc limit
    → All
        (λ p.
          p.0 ≢ current → ((p.0 ≡ old → p.1.version ≡ newest) × (p.0 ≢ old → p.1.version < newest)))
        keys
    → sorted_versions current keys ≡ e ∷ rest
    → e.0 ≢ old
unfolding sorted_versions
prune_keeps_newest limit newest current old keys e rest d c low h a q =
    second rest q
      (subst (All _) q (
        sort_by_key-All (λ p. p.1) (λ x. (x.0 ≡ old → x.1 ≡ newest) × (x.0 ≢ old → x.1 < newest)) _
          (other_versions-All _ current keys a)))
      (subst (IsAscending (λ p. p.1)) q (sort_by_key-IsAscending (λ p. p.1) _))
      (subst AllDifferent q
        (sort_by_key-AllDifferent (λ p. p.1) _ (other_versions-AllDifferent current keys d)))
      (sym (ap length q) ∙ length-sort_by_key (λ p. p.1) (other_versions current keys))
  where
    second :
        (rest : List (Str × ℕ))
        → sorted_versions current keys ≡ e ∷ rest
        → All (λ x. (x.0 ≡ old → x.1 ≡ newest) × (x.0 ≢ old → x.1 < newest)) (e ∷ rest)
        → IsAscending (λ p. p.1) (e ∷ rest)
        → AllDifferent (e ∷ rest)
        → length (e ∷ rest) ≡ length (other_versions current keys)
        → e.0 ≢ old
    second [] q b s u l z = absurd (omega (arith, length-other_versions current keys d c))
    second (x ∷ rest) q (b, (bx, bs)) ((s, ss), sss) ((u, us), uus) l z =
        elim (Bool-cases (str_eq x.0 old)) [
          | inl t ↦
              let zx : x.0 ≡ old = (str_eq_iff x.0 old).0 t in
              u (λ i. ((zx ∙ sym z) i, (bx.0 zx ∙ sym (b.0 z)) i))
          | inr t ↦
              let big : e.1 ≡ newest = b.0 z in
              let small : x.1 < newest =
                bx.1 (λ w. let f : true ≡ false = sym ((str_eq_iff x.0 old).1 w) ∙ t in cc) in
              omega arith
        ]

-- Pruning with one key too many at most: the limit holds, and the current key stays.
pub prune_keeps {κ} :
    (P : Str × KeyVersion → Type κ) (limit : ℕ) (current : Str) (k : KeyVersion)
    (keys : Map Str KeyVersion)
    → Distinct keys
    → lookup current keys ≡ some k
    → 1 ≤ limit
    → length keys ≤ suc limit
    → All P keys
    → Distinct (prune limit current keys)
      × (length (prune limit current keys) ≤ limit)
      × All P (prune limit current keys)
      × (lookup current (prune limit current keys) ≡ some k)
prune_keeps P limit current k keys d c low h a = elim (dec_le (length keys) limit) [
  | yes le ↦ rw (prune_none limit current keys le) (d, le, a, c)
  | no gt ↦
      let (e, rest, _, q, n, r) =
        prune_one limit current keys d (contains_key_of_lookup current k keys c) low
          (omega arith) in
      let other : str_eq e.0 current ≡ false = elim (Bool-cases (str_eq e.0 current)) [
        | inl t ↦ absurd (n ((str_eq_iff e.0 current).0 t))
        | inr f ↦ f
      ] in
      rw q (
        remove-Distinct e.0 keys d,
        omega arith,
        remove-All P e.0 keys a,
        lookup-remove e.0 current keys ∙ rw other c,
      )
]

-- Pruning keeps the newest of the other keys if at least two of the others may stay.
pub prune_keeps_old :
    (limit newest : ℕ) (current old : Str) (k : KeyVersion) (keys : Map Str KeyVersion)
    → Distinct keys
    → contains_key current keys ≡ true
    → 2 ≤ limit
    → length keys ≤ suc limit
    → All
        (λ p.
          p.0 ≢ current → ((p.0 ≡ old → p.1.version ≡ newest) × (p.0 ≢ old → p.1.version < newest)))
        keys
    → lookup old keys ≡ some k
    → lookup old (prune limit current keys) ≡ some k
prune_keeps_old limit newest current old k keys d c low h a q = elim (dec_le (length keys) limit) [
  | yes le ↦ rw (prune_none limit current keys le) q
  | no gt ↦
      let (e, rest, s, p, n, r) = prune_one limit current keys d c (omega arith) (omega arith) in
      let ne = prune_keeps_newest limit newest current old keys e rest d c low (omega arith) a s in
      let other : str_eq e.0 old ≡ false = elim (Bool-cases (str_eq e.0 old)) [
        | inl t ↦ absurd (ne ((str_eq_iff e.0 old).0 t))
        | inr f ↦ f
      ] in
      rw p (lookup-remove e.0 old keys ∙ rw other q)
]

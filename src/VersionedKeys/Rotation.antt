-- ===== src/VersionedKeys/Rotation.antt =====
-- crates/pqc-tls/src/versioned_keys.rs: what `rotate` keeps. The versions are below 2^64 - 1, which
-- `next_version` reaches after 2^64 rotations.
use pqc_gateway.Common.{
  ℕ, suc, ◌+◌, ◌%◌, ◌^◌, ◌≤◌, ◌<◌, List, [], ◌∷◌, Bytes, Str, str_eq, str_eq_iff, str_eq_refl,
  str_instance, Bool-cases, true, false, Option, none, some, done, ◌≡◌, ◌≢◌, inl, inr, refl, sym,
  ap, ◌∙◌, length, All, All-imp, All-and, arith,
}
use pqc_gateway.Common.Map.{
  Map, lookup, contains_key, insert, Distinct, insert-Distinct, lookup-insert_self,
}
use pqc_gateway.Common.MapLaws.{
  lookup-All, contains_key_of_lookup, contains_key_of_All, insert-All, length-insert_absent,
}
use pqc_gateway.Common.{take}
use pqc_gateway.Threshold.Codes.{hex_encode}
use pqc_gateway.Crypto.{Crypto}
use pqc_gateway.Threshold.Shares.{Share, SharingConfig, split_secret}
use pqc_gateway.VersionedKeys.{
  KeyVersion, VersionedKeyManager, kid_of, deactivate, with_shares, share_seed, install, installed,
  new_key, new, rotate,
}
use pqc_gateway.VersionedKeys.Deactivation.{
  deactivate-All, length-deactivate, contains_key-deactivate, deactivate-Distinct, kid_of-inj,
}
use pqc_gateway.VersionedKeys.Pruning.{prune_keeps}

module _ (cr : Crypto) where
  -- A key as `KeyVersion::new` makes it, under its own name.
  pub record IsKey (p : Str × KeyVersion) : Type 0 where
    pub own_kid : p.1.kid ≡ p.0
    pub kid_def : p.0 ≡ kid_of p.1.version p.1.fingerprint
    pub seed_length : length p.1.seed ≡ 32
    pub own_public : p.1.public_key ≡ cr.ml.public_key_of p.1.seed
    pub own_fingerprint : p.1.fingerprint ≡ hex_encode (take 16 (cr.sha256 p.1.public_key))

  -- The current key is there and active, it has the highest version, every other key is inactive,
  -- and there are at most the retained keys besides the current one.
  pub record IsManager (m : VersionedKeyManager) : Type 0 where
    pub distinct : Distinct m.keys
    pub count : length m.keys ≤ m.max_retained_keys + 1
    pub all_keys : All IsKey m.keys
    pub current :
        (k : KeyVersion) × (lookup m.current_kid m.keys ≡ some k)
        × (k.active ≡ true)
        × (k.version + 1 ≡ m.next_version)
    pub others :
        All
          (λ p. p.0 ≢ m.current_kid → (p.1.active ≡ false) × (p.1.version + 1 < m.next_version))
          m.keys

  pub new-IsManager :
      (seed : Bytes) (now max_retained_keys : ℕ)
      → length seed ≡ 32
      → IsManager (new cr seed now max_retained_keys)
  unfolding new new_key insert lookup contains_key
  new-IsManager seed now max_retained_keys h =
      let k = new_key cr seed now 1 in
      record {
        distinct = (refl, tt);
        count = omega arith;
        all_keys = (
          record {
            own_kid = refl;
            kid_def = refl;
            seed_length = h;
            own_public = refl;
            own_fingerprint = refl;
          },
          tt,
        );
        current = (k, rw (str_eq_refl k.kid) refl, refl, refl);
        others = ((λ n. absurd (n refl)), tt);
      }

  -- What a key of the manager is after the old current key was deactivated.
  IsOld : ℕ → Str × KeyVersion → Type 0
  IsOld next p = IsKey p × (p.1.active ≡ false) × (p.1.version < next)

  deactivated :
      (m : VersionedKeyManager)
      → IsManager m
      → All (IsOld m.next_version) (deactivate m.current_kid m.keys)
  unfolding IsOld
  deactivated m v =
      let (k, found, _, top) = v.current in
      deactivate-All (IsOld m.next_version) m.current_kid m.keys v.distinct (
        All-imp _ _ m.keys
          (λ p (key, (found', other)). (
            (λ q.
                let e : some p.1 ≡ some k = sym found' ∙ ap (λ x. lookup x m.keys) q ∙ found in
                let same : p.1 ≡ k = cc in
                (
                  record {
                    own_kid = key.own_kid;
                    kid_def = key.kid_def;
                    seed_length = key.seed_length;
                    own_public = key.own_public;
                    own_fingerprint = key.own_fingerprint;
                  },
                  refl,
                  (let same_version : p.1.version ≡ k.version = ap (λ x. x.version) same in
                      omega arith),
                )),
            (λ n. let (i, low) = other n in (key, i, omega arith)),
          ))
          (All-and _ _ m.keys v.all_keys
            (All-and _ _ m.keys (lookup-All m.keys v.distinct) v.others)))

  fresh :
      (next : ℕ) (fingerprint : Str) (keys : Map Str KeyVersion)
      → next < 2 ^ 64
      → All (IsOld next) keys
      → contains_key (kid_of next fingerprint) keys ≡ false
  unfolding IsOld
  fresh next fingerprint keys b h = contains_key_of_All (kid_of next fingerprint) keys (
      All-imp (IsOld next) _ keys
        (λ p (key, _, low). elim (Bool-cases (str_eq p.0 (kid_of next fingerprint))) [
          | inr f ↦ f
          | inl t ↦
              let e : kid_of p.1.version p.1.fingerprint ≡ kid_of next fingerprint =
                sym key.kid_def ∙ (str_eq_iff p.0 (kid_of next fingerprint)).0 t in
              let same : p.1.version ≡ next = kid_of-inj p.1.version next _ _ (omega arith) b e in
              absurd (omega arith)
        ])
        h)

  pub share_seed-done :
      (fill : ℕ → ℕ → Bytes) (seed : Bytes) (config : Option SharingConfig)
      (m : VersionedKeyManager)
      → length seed ≡ 32
      → (shares : Option (List Share)) × (recovery : Option (List Str)) × (share_seed fill seed
            config m
          ≡ done (record m { current_shares = shares; recovery_codes = recovery }))
  unfolding share_seed with_shares split_secret
  share_seed-done fill seed none m h = (m.current_shares, m.recovery_codes, refl)
  share_seed-done fill [] (some config) m h = absurd (omega arith)
  share_seed-done fill (b ∷ seed) (some config) m h = (_, _, refl)

  unfoldable pub with_new : Bytes → ℕ → VersionedKeyManager → Map Str KeyVersion
  with_new seed now m =
      let k = new_key cr seed now m.next_version in insert k.kid k (deactivate m.current_kid m.keys)

  -- The keys before pruning.
  pub record IsGrown (seed : Bytes) (now : ℕ) (m : VersionedKeyManager) (kid : Str) (k : KeyVersion)
      : Type 0 where
    pub distinct : Distinct (with_new seed now m)
    pub size : length (with_new seed now m) ≡ suc (length m.keys)
    pub new_there : lookup kid (with_new seed now m) ≡ some k
    pub entries :
        All
          (λ p. IsKey p × (p.0 ≢ kid → (p.1.active ≡ false) × (p.1.version < m.next_version)))
          (with_new seed now m)
    pub old_ne : kid ≢ m.current_kid

  pub grown :
      (seed : Bytes) (now : ℕ) (m : VersionedKeyManager)
      → IsManager m
      → length seed ≡ 32
      → m.next_version < 2 ^ 64
      → IsGrown seed now m
          (new_key cr seed now m.next_version).kid
          (new_key cr seed now m.next_version)
  unfolding with_new IsOld new_key
  grown seed now m v h b =
      let k = new_key cr seed now m.next_version in
      let old_keys = deactivate m.current_kid m.keys in
      let absent = fresh m.next_version k.fingerprint old_keys b (deactivated m v) in
      record {
        distinct =
            insert-Distinct k.kid k old_keys (deactivate-Distinct m.current_kid m.keys v.distinct);
        size =
            length-insert_absent k.kid k old_keys absent
            ∙ ap suc (length-deactivate m.current_kid m.keys);
        new_there = lookup-insert_self k.kid k old_keys;
        entries =
            insert-All _ k.kid k old_keys
              (All-imp _ _ old_keys (λ p (key, i, low). (key, λ _. (i, low))) (deactivated m v))
              (
                record {
                  own_kid = refl;
                  kid_def = refl;
                  seed_length = h;
                  own_public = refl;
                  own_fingerprint = refl;
                },
                λ n. absurd (n refl),
              );
        old_ne = λ q.
            let t : true ≡ false =
              sym (contains_key_of_lookup m.current_kid _ m.keys v.current.1)
              ∙ sym (contains_key-deactivate m.current_kid m.current_kid m.keys)
              ∙ ap (λ x. contains_key x old_keys) (sym q)
              ∙ absent in
            cc;
      }

  -- From a manager with room in its counters, a rotation with a seed of 32 bytes ends, with a manager
  -- again: the new key, named as the result says and different from the old one, is the current and
  -- only active key, the version grows by one, and at most the retained keys stay besides it.
  pub rotate-IsManager :
      (seed : Bytes) (now : ℕ) (fill : ℕ → ℕ → Bytes) (m : VersionedKeyManager)
      → IsManager m
      → length seed ≡ 32
      → m.next_version + 1 < 2 ^ 64
      → m.max_retained_keys + 1 < 2 ^ 64
      → (m' : VersionedKeyManager) × (kid : Str) × (rotate cr seed now fill m ≡ done (m', kid))
        × IsManager m'
        × (m'.current_kid ≡ kid)
        × (kid ≢ m.current_kid)
        × (m'.next_version ≡ m.next_version + 1)
  unfolding rotate installed install with_new new_key
  rotate-IsManager seed now fill m v h b room =
      let g = grown seed now m v h (omega arith) in
      let k = new_key cr seed now m.next_version in
      let limit = (m.max_retained_keys + 1) % 2 ^ 64 in
      let (shares, recovery, e) =
        share_seed-done fill seed m.threshold_config
          (record m {
            next_version = (m.next_version + 1) % 2 ^ 64;
            keys = deactivate m.current_kid m.keys;
          })
          h in
      let next_lem : (m.next_version + 1) % 2 ^ 64 ≡ m.next_version + 1 = omega arith in
      let (d, le, a, found) =
        prune_keeps _ limit k.kid k (with_new seed now m) g.distinct g.new_there (omega arith)
          (omega (arith, g.size, v.count)) g.entries in
      (
        _,
        k.kid,
        ap (installed k) e,
        record {
          distinct = d;
          count = omega arith;
          all_keys = All-imp _ _ _ (λ p q. q.0) a;
          current = (k, found, refl, sym next_lem);
          others = All-imp _ _ _ (λ p q n. let (i, low) = q.1 n in (i, omega arith)) a;
        },
        refl,
        g.old_ne,
        next_lem,
      )

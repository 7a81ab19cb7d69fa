-- ===== src/VersionedKeys/Sharing.antt =====
-- crates/pqc-tls/src/versioned_keys.rs: a manager that shares the seed of its current key.
use pqc_gateway.Common.{
  ℕ, ◌≤◌, ◌≡◌, refl, ap, ◌∙◌, List, [], ◌∷◌, Bytes, str_instance, some, done, length, le→leb, arith,
}
use pqc_gateway.Common.Map.{lookup}
use pqc_gateway.Common.MapLaws.{All-lookup}
use pqc_gateway.Crypto.{Crypto}
use pqc_gateway.Threshold.Shares.{Share, SharingConfig, new_config, split_secret}
use pqc_gateway.VersionedKeys.{
  KeyVersion, VersionedKeyManager, with_shares, share_current, with_config, with_threshold, new,
}
use pqc_gateway.VersionedKeys.Rotation.{IsKey, IsManager, new-IsManager}

split_secret_total :
    (fill : ℕ → ℕ → Bytes) (seed : Bytes) (config : SharingConfig)
    → length seed ≡ 32
    → (shares : List Share) × (split_secret fill seed config ≡ done shares)
unfolding split_secret
split_secret_total fill [] config h = absurd (omega arith)
split_secret_total fill (b ∷ seed) config h = (_, refl)

new_config_total :
    (threshold total_shares : ℕ)
    → 2 ≤ threshold
    → threshold ≤ total_shares
    → (config : SharingConfig) × (new_config threshold total_shares ≡ done config)
unfolding new_config
new_config_total threshold total_shares p q = (
  record { threshold = threshold; total_shares = total_shares },
  rw (le→leb 2 threshold p, le→leb threshold total_shares q) refl,
)

module _ (cr : Crypto) where
  -- With a threshold that `SharingConfig::new` accepts, the manager is made without a panic, and it
  -- starts in the invariant.
  pub with_threshold-IsManager :
      (seed : Bytes) (now : ℕ) (fill : ℕ → ℕ → Bytes) (max_retained_keys threshold total_shares : ℕ)
      → length seed ≡ 32
      → 2 ≤ threshold
      → threshold ≤ total_shares
      → (m : VersionedKeyManager) × (with_threshold cr seed now fill max_retained_keys threshold
            total_shares
          ≡ done m)
        × IsManager cr m
  unfolding with_threshold with_config share_current with_shares
  with_threshold-IsManager seed now fill max_retained_keys threshold total_shares h p q =
      let m = new cr seed now max_retained_keys in
      let v = new-IsManager cr seed now max_retained_keys h in
      let (config, c) = new_config_total threshold total_shares p q in
      let (k, found, _, _) = v.current in
      let (m', e, v') =
        shared config k (record m { threshold_config = some config }) (seed_of k found)
          (same_keys m v config) in
      (
        m',
        ap (with_config fill m) c
            ∙ ap (λ x. share_current fill config x (record m { threshold_config = some config }))
                found
            ∙ e,
        v',
      )
    where
      same_keys :
          (m : VersionedKeyManager)
          → IsManager cr m
          → (config : SharingConfig) → IsManager cr (record m { threshold_config = some config })
      same_keys m v config = record {
        distinct = v.distinct;
        count = v.count;
        all_keys = v.all_keys;
        current = v.current;
        others = v.others;
      }

      seed_of :
          (k : KeyVersion)
          → lookup
              (new cr seed now max_retained_keys).current_kid
              (new cr seed now max_retained_keys).keys
            ≡ some k
          → length k.seed ≡ 32
      seed_of k found =
          let v = new-IsManager cr seed now max_retained_keys h in
          (All-lookup (λ kid k. IsKey cr (kid, k)) _ k _ v.all_keys found).seed_length

      shared :
          (config : SharingConfig) (k : KeyVersion) (m : VersionedKeyManager)
          → length k.seed ≡ 32
          → IsManager cr m
          → (m' : VersionedKeyManager) × (share_current fill config (some k) m ≡ done m')
            × IsManager cr m'
      shared config k m s v =
          let (shares, e) = split_secret_total fill k.seed config s in
          (
            _,
            ap (with_shares m) e,
            record {
              distinct = v.distinct;
              count = v.count;
              all_keys = v.all_keys;
              current = v.current;
              others = v.others;
            },
          )

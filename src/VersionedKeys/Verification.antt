-- ===== src/VersionedKeys/Verification.antt =====
-- crates/pqc-tls/src/versioned_keys.rs: signatures of the current key, and of the one before it.
use pqc_gateway.Common.{
  ℕ, ◌+◌, ◌%◌, ◌^◌, ◌≤◌, ◌<◌, Bytes, Str, str_eq, str_eq_iff, str_instance, Bool-cases, true, false,
  some, done, ◌≡◌, ◌≢◌, inl, inr, refl, sym, ap, ◌∙◌, length, All, All-imp, All-and, arith,
}
use pqc_gateway.Common.Map.{lookup, lookup-insert_ne}
use pqc_gateway.Common.MapLaws.{lookup-All, All-lookup, contains_key_of_lookup, insert-All}
use pqc_gateway.Crypto.{Crypto}
use pqc_gateway.MlDsa.{ml_dsa_sign_lem, ml_dsa_verify_own}
use pqc_gateway.VersionedKeys.{
  KeyVersion, VersionedKeyManager, deactivate, prune, install, installed, new_key, signature_of,
  sign, verify, rotate, with_kid, sign_by, sign_current, verify_by, verify_by_kid,
}
use pqc_gateway.VersionedKeys.Deactivation.{deactivate-All, lookup-deactivate}
use pqc_gateway.VersionedKeys.Pruning.{prune_keeps_old}
use pqc_gateway.VersionedKeys.Rotation.{IsManager, IsKey, with_new, grown, share_seed-done}

module _ (cr : Crypto) where
  -- The current key of a manager signs every message, and the manager verifies the signature under
  -- the name that comes with it, which is that of the current key.
  pub verify_by_kid-sign_current :
      (m : VersionedKeyManager) (data_ : Bytes)
      → IsManager cr m
      → (signature : Bytes) × (sign_current cr m data_ ≡ some (m.current_kid, signature))
        × (verify_by_kid cr m m.current_kid data_ signature ≡ true)
  unfolding sign_current sign_by sign signature_of with_kid verify_by_kid verify_by verify
  verify_by_kid-sign_current m data_ v =
      let (k, found, _, _) = v.current in
      let key = All-lookup (λ kid k. IsKey cr (kid, k)) m.current_kid k m.keys v.all_keys found in
      (
        cr.ml.sign_with k.seed data_,
        rw (found, ml_dsa_sign_lem cr.ml k.seed data_ key.seed_length, key.own_kid) refl,
        rw (found, key.own_public, ml_dsa_verify_own cr.ml k.seed data_ key.seed_length) refl,
      )

  -- Of the keys but the new one, the old current key has the highest version.
  ranks :
      (seed : Bytes) (now : ℕ) (m : VersionedKeyManager) (k : KeyVersion)
      → IsManager cr m
      → lookup m.current_kid m.keys ≡ some k
      → k.version + 1 ≡ m.next_version
      → All
          (λ p.
            p.0 ≢ (new_key cr seed now m.next_version).kid
            → ((p.0 ≡ m.current_kid → p.1.version ≡ k.version)
                × (p.0 ≢ m.current_kid → p.1.version < k.version)))
          (with_new cr seed now m)
  unfolding with_new
  ranks seed now m k v found top =
      let k' = new_key cr seed now m.next_version in
      insert-All _ k'.kid k' (deactivate m.current_kid m.keys)
        (deactivate-All _ m.current_kid m.keys v.distinct (
          All-imp _ _ m.keys
            (λ p (found', other). (
              (λ q _. (
                (λ _.
                    let e : some p.1 ≡ some k = sym found' ∙ ap (λ x. lookup x m.keys) q ∙ found in
                    let same : p.1 ≡ k = cc in ap (λ x. x.version) same),
                (λ n. absurd (n q)),
              )),
              (λ n _. ((λ q. absurd (n q)), (λ _. let low = (other n).1 in omega arith))),
            ))
            (All-and _ _ m.keys (lookup-All m.keys v.distinct) v.others)))
        (λ n. absurd (n refl))

  -- The old current key, now inactive, is still there after a rotation.
  old_stays :
      (seed : Bytes) (now : ℕ) (m : VersionedKeyManager) (k : KeyVersion)
      → IsManager cr m
      → length seed ≡ 32
      → m.next_version + 1 < 2 ^ 64
      → m.max_retained_keys + 1 < 2 ^ 64
      → 1 ≤ m.max_retained_keys
      → lookup m.current_kid m.keys ≡ some k
      → k.version + 1 ≡ m.next_version
      → lookup m.current_kid (
          prune
            ((m.max_retained_keys + 1) % 2 ^ 64)
            (new_key cr seed now m.next_version).kid
            (with_new cr seed now m))
        ≡ some (record k { active = false })
  unfolding with_new
  old_stays seed now m k v h b room retain found top =
      let g = grown cr seed now m v h (omega arith) in
      let k' = new_key cr seed now m.next_version in
      let other : str_eq k'.kid m.current_kid ≡ false =
        elim (Bool-cases (str_eq k'.kid m.current_kid)) [
          | inl t ↦ absurd (g.old_ne ((str_eq_iff k'.kid m.current_kid).0 t))
          | inr f ↦ f
        ] in
      let there : lookup m.current_kid (with_new cr seed now m)
          ≡ some (record k { active = false }) =
        lookup-insert_ne k'.kid m.current_kid k' _ other
        ∙ lookup-deactivate m.current_kid k m.keys found in
      prune_keeps_old ((m.max_retained_keys + 1) % 2 ^ 64) k.version k'.kid m.current_kid _
        (with_new cr seed now m) g.distinct (contains_key_of_lookup k'.kid k' _ g.new_there)
        (omega arith) (omega (arith, g.size, v.count)) (ranks seed now m k v found top) there

  -- After a rotation of a manager that retains at least one key, what the key that was current before
  -- verifies is as before, so a signature by it stays valid.
  pub verify_by_kid-rotate :
      (seed : Bytes) (now : ℕ) (fill : ℕ → ℕ → Bytes) (m : VersionedKeyManager)
      → IsManager cr m
      → length seed ≡ 32
      → m.next_version + 1 < 2 ^ 64
      → m.max_retained_keys + 1 < 2 ^ 64
      → 1 ≤ m.max_retained_keys
      → (m' : VersionedKeyManager) × (kid : Str) × (rotate cr seed now fill m ≡ done (m', kid))
        × ((data_ signature : Bytes)
            → verify_by_kid cr m' m.current_kid data_ signature
              ≡ verify_by_kid cr m m.current_kid data_ signature)
  unfolding rotate installed install new_key with_new verify_by_kid verify_by verify
  verify_by_kid-rotate seed now fill m v h b room retain =
      let (k, found, _, top) = v.current in
      let (shares, recovery, e) =
        share_seed-done cr fill seed m.threshold_config
          (record m {
            next_version = (m.next_version + 1) % 2 ^ 64;
            keys = deactivate m.current_kid m.keys;
          })
          h in
      (
        _,
        (new_key cr seed now m.next_version).kid,
        ap (installed (new_key cr seed now m.next_version)) e,
        λ data_ signature. rw (old_stays seed now m k v h b room retain found top, found) refl,
      )

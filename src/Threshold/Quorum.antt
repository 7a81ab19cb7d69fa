-- ===== src/Threshold/Quorum.antt =====
-- What the threshold key manager answers to a quorum of share identifiers.
use pqc_gateway.Common.{
  ℕ, ◌+◌, ◌%◌, ◌^◌, ◌<◌, ◌≤◌, ◌≡◌, refl, sym, ap, ◌∙◌, List, [], ◌∷◌, map, Bytes, Outcome, done,
  panic, none, some, true, false, All, AllDifferent, length, length-map, take, arith, ltb, ◌==◌,
  Bool-cases, ==_iff, inl, inr,
}
use pqc_gateway.MlDsa.{MlDsa, ml_dsa_sign_lem, ml_dsa_verify_own}
use pqc_gateway.Threshold.Shares.{Share, SharingConfig, split_secret}
use pqc_gateway.Threshold.Codes.{hex_encode, generate_recovery_codes}
use pqc_gateway.Threshold.Recovery.{reconstruct_secret-split_secret}
use pqc_gateway.Threshold.Manager.{
  ThresholdKeyManager, find_share, get_share, push_found, found_shares, manager_of, new_manager,
  count_signature, sign_with_seed, sign_with_quorum, verify,
}
use mathlib.Core.List.{Memᴰ}
use mathlib.Core.List.Memᴰ.{head, tail}
use mathlib.Core.Path.{ap₂, subst}

find_share_lem :
    (shares : List Share) (id : ℕ)
    → Memᴰ id (map (λ s. s.id) shares)
    → (s : Share) × (find_share shares id ≡ some s) × (s.id ≡ id) × Memᴰ s shares
unfolding find_share
find_share_lem [] id m = elim m [ ]
find_share_lem (s ∷ shares) id (head e) =
    (s, rw ((==_iff s.id id).1 (sym e)) refl, sym e, head refl)
find_share_lem (s ∷ shares) id (tail m) = elim (Bool-cases (s.id == id)) [
  | inl h ↦ (s, rw h refl, (==_iff s.id id).0 h, head refl)
  | inr h ↦
      let (r, found, same, member) = find_share_lem shares id m in
      (r, rw h found, same, tail member)
]

found_shares_lem :
    (m : ThresholdKeyManager) (ids : List ℕ)
    → All (λ id. Memᴰ id (map (λ s. s.id) m.distributed_shares)) ids
    → (map (λ s. s.id) (found_shares m ids) ≡ ids)
      × All (λ s. Memᴰ s m.distributed_shares) (found_shares m ids)
unfolding found_shares get_share push_found
found_shares_lem m [] _ = (refl, tt)
found_shares_lem m (id ∷ ids) (h, hs) =
    let (s, found, same, member) = find_share_lem m.distributed_shares id h in
    let (es, members) = found_shares_lem m ids hs in rw found (ap₂ ◌∷◌ same es, (member, members))

not_below : (a b : ℕ) → b ≤ a → ltb a b ≡ false
not_below a b h = ground (arith, h)

module _ (ml : MlDsa) (sha256 : Bytes → Bytes) where
  -- A new manager holds the shares of the seed, and its public key.
  new_manager_lem :
      (seed : Bytes) (fill : ℕ → ℕ → Bytes) (config : SharingConfig) (m : ThresholdKeyManager)
      → new_manager ml sha256 seed fill config ≡ done m
      → (split_secret fill seed config ≡ done m.distributed_shares)
        × (m.config ≡ config)
        × (m.public_key ≡ ml.public_key_of seed)
  unfolding new_manager manager_of
  new_manager_lem seed fill config m e = made (split_secret fill seed config) refl e
    where
      made :
          (o : Outcome (List Share))
          → split_secret fill seed config ≡ o
          → manager_of ml sha256 (ml.public_key_of seed) config o ≡ done m
          → (split_secret fill seed config ≡ done m.distributed_shares)
            × (m.config ≡ config)
            × (m.public_key ≡ ml.public_key_of seed)
      made panic s e = cc
      made (done shares) s e =
          let q : record {
            public_key = ml.public_key_of seed;
            distributed_shares = shares;
            config = config;
            recovery_codes = generate_recovery_codes shares;
            fingerprint = hex_encode (take 16 (sha256 (ml.public_key_of seed)));
            signature_count = 0;
          }
              ≡ m =
            cc in
          (
            s ∙ ap (λ (x : ThresholdKeyManager). done x.distributed_shares) q,
            sym (ap (λ (x : ThresholdKeyManager). x.config) q),
            sym (ap (λ (x : ThresholdKeyManager). x.public_key) q),
          )

  -- With as many different identifiers of shares as the threshold, or more, a new manager signs as
  -- the whole key does, counts the signature, and verifies it.
  pub sign_with_quorum_lem :
      (seed : Bytes) (fill : ℕ → ℕ → Bytes) (config : SharingConfig) (m : ThresholdKeyManager)
      → length seed ≡ 32
      → All (λ b. b < 256) seed
      → ((i n : ℕ) → (length (fill i n) ≡ n) × All (λ b. b < 256) (fill i n))
      → 1 ≤ config.threshold
      → config.threshold < 256
      → config.total_shares < 256
      → new_manager ml sha256 seed fill config ≡ done m
      → (ids : List ℕ) (message : Bytes)
      → All (λ id. Memᴰ id (map (λ s. s.id) m.distributed_shares)) ids
      → AllDifferent ids
      → config.threshold ≤ length ids
      → (sign_with_quorum ml sha256 m ids message
          ≡ done (
            record m { signature_count = (m.signature_count + 1) % 2 ^ 64 },
            some (ml.sign_with seed message),
          ))
        × (verify ml sha256 m message (ml.sign_with seed message) ≡ true)
  unfolding sign_with_quorum sign_with_seed count_signature verify
  sign_with_quorum_lem seed fill config m len bs fb pos small total made ids message known d n =
      let (split, cfg, pk) = new_manager_lem seed fill config m made in
      let (same, members) = found_shares_lem m ids known in
      let count : length (found_shares m ids) ≡ length ids =
        sym (length-map (λ s. s.id) (found_shares m ids)) ∙ ap length same in
      let enough : config.threshold ≤ length (found_shares m ids) = omega (arith, n, count) in
      let seed_back =
        reconstruct_secret-split_secret fill fb seed bs config pos small total m.distributed_shares
          split (found_shares m ids) members (subst AllDifferent (sym same) d) enough in
      let named : ltb (length ids) m.config.threshold ≡ false =
        ap (λ (c : SharingConfig). ltb (length ids) c.threshold) cfg
        ∙ not_below (length ids) config.threshold n in
      let found : ltb (length (found_shares m ids)) m.config.threshold ≡ false =
        ap (λ (c : SharingConfig). ltb (length (found_shares m ids)) c.threshold) cfg
        ∙ not_below (length (found_shares m ids)) config.threshold enough in
      (
        rw (named, found, seed_back, ml_dsa_sign_lem ml seed message len) refl,
        rw (pk, ml_dsa_verify_own ml seed message len) refl,
      )

  -- With fewer than the threshold of the named shares held, whether too few are named or some are
  -- unknown, nothing is signed and the manager is as it was.
  pub sign_with_quorum_refuses :
      (m : ThresholdKeyManager) (ids : List ℕ) (message : Bytes)
      → length (found_shares m ids) < m.config.threshold
      → sign_with_quorum ml sha256 m ids message ≡ done (m, none)
  unfolding sign_with_quorum
  sign_with_quorum_refuses m ids message h = ground (arith, h)

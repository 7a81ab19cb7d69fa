-- ===== src/VersionedKeys.antt =====
-- crates/pqc-tls/src/versioned_keys.rs: `VersionedKeyManager`, which rotates the signing key and keeps
-- old keys for verification. A new seed and the time are arguments of the operations that draw them.
pub mod Deactivation
pub mod Pruning
pub mod Rotation
pub mod Verification
pub mod Sharing
mod Tests
use pqc_gateway.Common.{
  ℕ, ◌+◌, ◌%◌, ◌^◌, List, [], ◌∷◌, ◌++◌, map, Bytes, Str, codes, str_eq, str_instance, Bool, true,
  false, Option, none, some, Outcome, done, panic, Result, ok, err, length, take, if◌then◌else◌,
  ltb,
}
use pqc_gateway.Common.Map.{Map, lookup, insert, remove}
use pqc_gateway.Common.Decimal.{decimal}
use pqc_gateway.Common.Sort.{sort_by_key}
use pqc_gateway.Crypto.{Crypto}
use pqc_gateway.MlDsa.{MlDsaError, ml_dsa_sign, ml_dsa_verify, or_false}
use pqc_gateway.Threshold.Shares.{Share, SharingConfig, new_config, split_secret}
use pqc_gateway.Threshold.Codes.{hex_encode, generate_recovery_codes}

pub record KeyVersion : Type 0 where
  pub kid : Str
  pub version : ℕ  -- u64
  pub seed : Bytes
  pub public_key : Bytes
  pub created_at : ℕ  -- u64
  pub active : Bool
  pub fingerprint : Str

-- `VersionedKeyManagerInner`.
pub record VersionedKeyManager : Type 0 where
  pub keys : Map Str KeyVersion
  pub current_kid : Str
  pub next_version : ℕ  -- u64
  pub max_retained_keys : ℕ  -- usize
  pub threshold_config : Option SharingConfig
  pub current_shares : Option (List Share)
  pub recovery_codes : Option (List Str)

-- An entry of the key set, with the fields of its JSON object.
pub record Jwk : Type 0 where
  pub kty : Str
  pub alg : Str
  pub kid : Str
  pub use_ : Str
  pub x : Str
  pub fingerprint : Str
  pub created_at : ℕ
  pub active : Bool
  pub version : ℕ

unfoldable pub kid_of : ℕ → Str → Str
kid_of version fingerprint = codes "mldsa-v" ++ (decimal version ++ (b'-' ∷ take 8 fingerprint))

-- `ok()`.
unfoldable pub signature_of : Result Bytes MlDsaError → Option Bytes
signature_of (ok sig) = some sig
signature_of (err e) = none

unfoldable pub deactivate : Str → Map Str KeyVersion → Map Str KeyVersion
deactivate kid [] = []
deactivate kid ((j, k) ∷ keys) =
    let rest = deactivate kid keys in
    if str_eq j kid then (j, record k { active = false }) ∷ keys else (j, k) ∷ rest

-- The pairs of key and version of every key but the current one.
unfoldable pub other_versions : Str → Map Str KeyVersion → List (Str × ℕ)
other_versions current [] = []
other_versions current ((kid, k) ∷ keys) =
    let rest = other_versions current keys in
    if str_eq kid current then rest else (kid, k.version) ∷ rest

unfoldable pub prune_loop : ℕ → List (Str × ℕ) → Map Str KeyVersion → Map Str KeyVersion
prune_loop limit [] keys = keys
prune_loop limit ((kid, v) ∷ versions) keys =
    let rest = prune_loop limit versions (remove kid keys) in
    if ltb limit (length keys) then rest else keys

-- `limit` is `max + 1`, which wraps around.
unfoldable pub prune : ℕ → Str → Map Str KeyVersion → Map Str KeyVersion
prune limit current keys =
    if ltb limit (length keys)
    then prune_loop limit (sort_by_key (λ p. p.1) (other_versions current keys)) keys
    else keys

unfoldable pub with_shares :
    VersionedKeyManager → Outcome (List Share) → Outcome VersionedKeyManager
with_shares m panic = panic
with_shares m (done shares) = done (record m {
  current_shares = some shares;
  recovery_codes = some (generate_recovery_codes shares);
})

-- Splits the seed if sharing is configured.
unfoldable pub share_seed :
    (ℕ → ℕ → Bytes)
    → Bytes
    → Option SharingConfig
    → VersionedKeyManager
    → Outcome VersionedKeyManager
share_seed fill seed none m = done m
share_seed fill seed (some config) m = with_shares m (split_secret fill seed config)

-- The end of `rotate`: the new key is inserted and made current, and old keys are pruned.
unfoldable pub install : KeyVersion → VersionedKeyManager → VersionedKeyManager
install k m = record m {
  keys = prune ((m.max_retained_keys + 1) % 2 ^ 64) k.kid (insert k.kid k m.keys);
  current_kid = k.kid;
}

unfoldable pub installed :
    KeyVersion → Outcome VersionedKeyManager → Outcome (VersionedKeyManager × Str)
installed k panic = panic
installed k (done m) = done (install k m, k.kid)

unfoldable pub share_current :
    (ℕ → ℕ → Bytes)
    → SharingConfig
    → Option KeyVersion
    → VersionedKeyManager
    → Outcome VersionedKeyManager
share_current fill config none m = done m
share_current fill config (some k) m = with_shares m (split_secret fill k.seed config)

unfoldable pub with_config :
    (ℕ → ℕ → Bytes) → VersionedKeyManager → Outcome SharingConfig → Outcome VersionedKeyManager
with_config fill m panic = panic
with_config fill m (done config) =
    share_current fill config (lookup m.current_kid m.keys)
      (record m { threshold_config = some config })

unfoldable pub public_key_or_default : Option KeyVersion → Bytes
public_key_or_default none = []
public_key_or_default (some k) = k.public_key

unfoldable pub current_public_key : VersionedKeyManager → Bytes
current_public_key m = public_key_or_default (lookup m.current_kid m.keys)

unfoldable pub seed_or_default : Option KeyVersion → Bytes
seed_or_default none = []
seed_or_default (some k) = k.seed

unfoldable pub current_seed : VersionedKeyManager → Bytes
current_seed m = seed_or_default (lookup m.current_kid m.keys)

unfoldable pub key_count : VersionedKeyManager → ℕ
key_count m = length m.keys

unfoldable pub key_info : VersionedKeyManager → List (Str × (ℕ × Bool))
key_info m = map (λ p. (p.1.kid, (p.1.version, p.1.active))) m.keys

module _ (cr : Crypto) where
  -- `KeyVersion::new`.
  unfoldable pub new_key : Bytes → ℕ → ℕ → KeyVersion
  new_key seed now version =
      let public_key = cr.ml.public_key_of seed in
      let fingerprint = hex_encode (take 16 (cr.sha256 public_key)) in
      record {
        kid = kid_of version fingerprint;
        version = version;
        seed = seed;
        public_key = public_key;
        created_at = now;
        active = true;
        fingerprint = fingerprint;
      }

  unfoldable pub sign : KeyVersion → Bytes → Option Bytes
  sign k data_ = signature_of (ml_dsa_sign cr.ml k.seed data_)

  unfoldable pub verify : KeyVersion → Bytes → Bytes → Bool
  verify k data_ signature = or_false cr.ml (ml_dsa_verify cr.ml k.public_key data_ signature)

  unfoldable pub to_jwk : KeyVersion → Jwk
  to_jwk k = record {
    kty = codes "PQC";
    alg = codes "ML-DSA-65";
    kid = k.kid;
    use_ = codes "sig";
    x = cr.b64url_encode k.public_key;
    fingerprint = k.fingerprint;
    created_at = k.created_at;
    active = k.active;
    version = k.version;
  }

  unfoldable pub new : Bytes → ℕ → ℕ → VersionedKeyManager
  new seed now max_retained_keys =
      let k = new_key seed now 1 in
      record {
        keys = insert k.kid k [];
        current_kid = k.kid;
        next_version = 2;
        max_retained_keys = max_retained_keys;
        threshold_config = none;
        current_shares = none;
        recovery_codes = none;
      }

  unfoldable pub with_threshold :
      Bytes → ℕ → (ℕ → ℕ → Bytes) → ℕ → ℕ → ℕ → Outcome VersionedKeyManager
  with_threshold seed now fill max_retained_keys threshold total_shares =
      with_config fill (new seed now max_retained_keys) (new_config threshold total_shares)

  unfoldable pub rotate :
      Bytes → ℕ → (ℕ → ℕ → Bytes) → VersionedKeyManager → Outcome (VersionedKeyManager × Str)
  rotate seed now fill m =
      let k = new_key seed now m.next_version in
      installed k (
        share_seed fill seed m.threshold_config (record m {
          next_version = (m.next_version + 1) % 2 ^ 64;
          keys = deactivate m.current_kid m.keys;
        }))

  -- `key.sign(data)?` and its key identifier.
  unfoldable pub with_kid : Str → Option Bytes → Option (Str × Bytes)
  with_kid kid none = none
  with_kid kid (some sig) = some (kid, sig)

  unfoldable pub sign_by : Bytes → Option KeyVersion → Option (Str × Bytes)
  sign_by data_ none = none
  sign_by data_ (some k) = with_kid k.kid (sign k data_)

  unfoldable pub sign_current : VersionedKeyManager → Bytes → Option (Str × Bytes)
  sign_current m data_ = sign_by data_ (lookup m.current_kid m.keys)

  unfoldable pub verify_by : Bytes → Bytes → Option KeyVersion → Bool
  verify_by data_ signature none = false
  verify_by data_ signature (some k) = verify k data_ signature

  unfoldable pub verify_by_kid : VersionedKeyManager → Str → Bytes → Bytes → Bool
  verify_by_kid m kid data_ signature = verify_by data_ signature (lookup kid m.keys)

  unfoldable pub jwks : VersionedKeyManager → List Jwk
  jwks m = map (λ p. to_jwk p.1) m.keys

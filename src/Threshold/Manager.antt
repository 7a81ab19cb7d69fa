-- ===== src/Threshold/Manager.antt =====
-- crates/pqc-tls/src/threshold.rs: `ThresholdKeyManager`, which keeps the shares of a signing key and
-- signs when enough of them are named. `seed` is the seed that `generate_ml_dsa_keypair` returns.
use pqc_gateway.Common.{
  ℕ, ◌+◌, ◌%◌, ◌^◌, List, [], ◌∷◌, Bytes, Str, Outcome, done, panic, Result, ok, err, Option, none,
  some, Bool, length, take, if◌then◌else◌, ◌==◌, ltb,
}
use pqc_gateway.MlDsa.{MlDsa, MlDsaError, ml_dsa_sign, ml_dsa_verify, or_false}
use pqc_gateway.Threshold.Shares.{Share, SharingConfig, split_secret, reconstruct_secret}
use pqc_gateway.Threshold.Codes.{hex_encode, generate_recovery_codes}

pub record ThresholdKeyManager : Type 0 where
  pub public_key : Bytes
  pub distributed_shares : List Share
  pub config : SharingConfig
  pub recovery_codes : List Str
  pub fingerprint : Str
  pub signature_count : ℕ  -- u64

unfoldable pub find_share : List Share → ℕ → Option Share
find_share [] id = none
find_share (s ∷ shares) id = let rest = find_share shares id in if s.id == id then some s else rest

unfoldable pub get_share : ThresholdKeyManager → ℕ → Option Share
get_share m id = find_share m.distributed_shares id

unfoldable pub push_found : Option Share → List Share → List Share
push_found none shares = shares
push_found (some s) shares = s ∷ shares

-- The `filter_map` of `sign_with_quorum`.
unfoldable pub found_shares : ThresholdKeyManager → List ℕ → List Share
found_shares m [] = []
found_shares m (id ∷ share_ids) = push_found (get_share m id) (found_shares m share_ids)

module _ (ml : MlDsa) (sha256 : Bytes → Bytes) where
  unfoldable pub manager_of :
      Bytes → SharingConfig → Outcome (List Share) → Outcome ThresholdKeyManager
  manager_of public_key config panic = panic
  manager_of public_key config (done shares) = done (record {
    public_key = public_key;
    distributed_shares = shares;
    config = config;
    recovery_codes = generate_recovery_codes shares;
    fingerprint = hex_encode (take 16 (sha256 public_key));
    signature_count = 0;
  })

  -- `ThresholdKeyManager::new`.
  unfoldable pub new_manager : Bytes → (ℕ → ℕ → Bytes) → SharingConfig → Outcome ThresholdKeyManager
  new_manager seed fill config =
      manager_of (ml.public_key_of seed) config (split_secret fill seed config)

  unfoldable pub count_signature :
      ThresholdKeyManager → Result Bytes MlDsaError → ThresholdKeyManager × Option Bytes
  count_signature m (ok sig) =
      (record m { signature_count = (m.signature_count + 1) % 2 ^ 64 }, some sig)
  count_signature m (err e) = (m, none)

  unfoldable pub sign_with_seed :
      ThresholdKeyManager → Bytes → Outcome Bytes → Outcome (ThresholdKeyManager × Option Bytes)
  sign_with_seed m message panic = panic
  sign_with_seed m message (done seed) = done (count_signature m (ml_dsa_sign ml seed message))

  unfoldable pub sign_with_quorum :
      ThresholdKeyManager → List ℕ → Bytes → Outcome (ThresholdKeyManager × Option Bytes)
  sign_with_quorum m share_ids message =
      let shares = found_shares m share_ids in
      if ltb (length share_ids) m.config.threshold
      then done (m, none)
      else if ltb (length shares) m.config.threshold
      then done (m, none)
      else sign_with_seed m message (reconstruct_secret shares)

  unfoldable pub verify : ThresholdKeyManager → Bytes → Bytes → Bool
  verify m message signature = or_false ml (ml_dsa_verify ml m.public_key message signature)

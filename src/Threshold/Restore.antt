-- ===== src/Threshold/Restore.antt =====
-- crates/pqc-tls/src/threshold.rs: `ThresholdKeyManager::recover_from_codes`, which makes a manager
-- from recovery codes and splits the seed again, with other random bytes.
use pqc_gateway.Common.{
  ℕ, List, map, ◌<◌, ◌≤◌, ◌≡◌, ap, ◌∙◌, Bytes, Str, Outcome, done, panic, Result, ok, err, All,
  AllDifferent, length, if◌then◌else◌, ◌==◌,
}
use pqc_gateway.MlDsa.{MlDsa}
use pqc_gateway.Threshold.Shares.{Share, SharingConfig, split_secret}
use pqc_gateway.Threshold.Codes.{CodeError, generate_recovery_codes, recover_from_codes}
use pqc_gateway.Threshold.Manager.{ThresholdKeyManager, new_manager}
use pqc_gateway.Threshold.RoundTrip.{recover_from_codes-generate}
use mathlib.Core.List.{Memᴰ}

pub data RestoreError : Type 0 where
  invalid_code : CodeError → RestoreError
  invalid_seed_length : RestoreError

unfoldable pub restored :
    Outcome ThresholdKeyManager → Outcome (Result ThresholdKeyManager RestoreError)
restored panic = panic
restored (done m) = done (ok m)

module _ (ml : MlDsa) (sha256 : Bytes → Bytes) where
  unfoldable pub manager_from :
      (ℕ → ℕ → Bytes)
      → SharingConfig
      → Outcome (Result Bytes CodeError)
      → Outcome (Result ThresholdKeyManager RestoreError)
  manager_from fill config panic = panic
  manager_from fill config (done (err e)) = done (err (invalid_code e))
  manager_from fill config (done (ok seed)) =
      if length seed == 32
      then restored (new_manager ml sha256 seed fill config)
      else done (err invalid_seed_length)

  unfoldable pub manager_from_codes :
      (ℕ → ℕ → Bytes) → List Str → SharingConfig → Outcome (Result ThresholdKeyManager RestoreError)
  manager_from_codes fill codes config = manager_from fill config (recover_from_codes codes)

  -- From the recovery codes of shares of a seed, as many as the threshold and with different
  -- identifiers, comes the manager that a new split of the same seed makes, whatever the new
  -- random bytes and the new configuration are.
  pub manager_from_codes-generate :
      (fill : ℕ → ℕ → Bytes)
      → ((i n : ℕ) → (length (fill i n) ≡ n) × All (λ b. b < 256) (fill i n))
      → (seed : Bytes) → length seed ≡ 32
      → All (λ b. b < 256) seed
      → (config : SharingConfig) → 1 ≤ config.threshold
      → config.threshold < 256
      → config.total_shares < 256
      → (shares : List Share) → split_secret fill seed config ≡ done shares
      → (picked : List Share) → All (λ s. Memᴰ s shares) picked
      → AllDifferent (map (λ s. s.id) picked)
      → config.threshold ≤ length picked
      → (new_fill : ℕ → ℕ → Bytes) (new_config : SharingConfig)
      → manager_from_codes new_fill (generate_recovery_codes picked) new_config
        ≡ restored (new_manager ml sha256 seed new_fill new_config)
  unfolding manager_from_codes manager_from
  manager_from_codes-generate fill fb seed len bs config pos small total shares e picked m d n
        new_fill new_config =
      ap (manager_from new_fill new_config)
        (recover_from_codes-generate fill fb seed bs config pos small total shares e picked m d n)
      ∙ ap
          (λ k.
            if k == 32
            then restored (new_manager ml sha256 seed new_fill new_config)
            else done (err invalid_seed_length))
          len

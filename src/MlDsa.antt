-- ===== src/MlDsa.antt =====
-- crates/pqc-tls/src/certgen.rs, module `pqc`: signatures with ML-DSA-65. The crate `ml_dsa` is the
-- parameter `MlDsa`, with the correctness of FIPS 204: what a key signs, it verifies.
use pqc_gateway.Common.{
  Bytes, Result, ok, err, Bool, true, false, ◌≡◌, refl, length, if◌then◌else◌, ◌==◌,
}

pub record MlDsa : Type 0 where
  pub public_key_of : Bytes → Bytes  -- the encoded key of a seed of 32 bytes
  pub sign_with : Bytes → Bytes → Bytes  -- the encoded signature of a message by a seed
  pub is_signature : Bytes → Bool  -- `Signature::try_from`
  pub is_public_key : Bytes → Bool  -- `VerifyingKey::new_from_slice`
  pub verifies : Bytes → Bytes → Bytes → Bool  -- key, message, signature
  pub own_key : (seed : Bytes) → length seed ≡ 32 → is_public_key (public_key_of seed) ≡ true
  pub own_signature :
      (seed message : Bytes)
      → length seed ≡ 32
      → (is_signature (sign_with seed message) ≡ true)
        × (verifies (public_key_of seed) message (sign_with seed message) ≡ true)

pub data MlDsaError : Type 0 where
  invalid_seed : MlDsaError
  invalid_signature : MlDsaError
  invalid_public_key : MlDsaError

module _ (ml : MlDsa) where
  open ml use {public_key_of, sign_with, is_signature, is_public_key, verifies}

  unfoldable pub ml_dsa_sign : Bytes → Bytes → Result Bytes MlDsaError
  ml_dsa_sign seed message =
      if length seed == 32 then ok (sign_with seed message) else err invalid_seed

  unfoldable pub ml_dsa_verify : Bytes → Bytes → Bytes → Result Bool MlDsaError
  ml_dsa_verify public_key message signature =
      if is_signature signature
      then if is_public_key public_key
        then ok (verifies public_key message signature)
        else err invalid_public_key
      else err invalid_signature

  -- `unwrap_or(false)`.
  abbrev pub or_false : Result Bool MlDsaError → Bool
  or_false (ok b) = b
  or_false (err e) = false

  pub ml_dsa_sign_lem :
      (seed message : Bytes)
      → length seed ≡ 32
      → ml_dsa_sign seed message ≡ ok (sign_with seed message)
  unfolding ml_dsa_sign
  ml_dsa_sign_lem seed message h = rw h refl

  pub ml_dsa_verify_own :
      (seed message : Bytes)
      → length seed ≡ 32
      → ml_dsa_verify (public_key_of seed) message (sign_with seed message) ≡ ok true
  unfolding ml_dsa_verify
  ml_dsa_verify_own seed message h =
      let (well_formed, valid) = ml.own_signature seed message h in
      rw (well_formed, ml.own_key seed h, valid) refl

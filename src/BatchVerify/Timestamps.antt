-- ===== src/BatchVerify/Timestamps.antt =====
-- crates/pqc-tls/src/batch_verify.rs: proofs that a message was there at a time, in seconds.
use pqc_gateway.Common.{
  ℕ, ◌+◌, ◌-◌, ◌%◌, ◌^◌, ◌≤◌, ◌<◌, ◌≡◌, refl, ap, ◌++◌, Bytes, Str, str_eq, str_eq_refl, Result, ok,
  err, Bool, true, false, not, length, ltb, if◌then◌else◌, arith, take,
}
use pqc_gateway.CertChain.{to_le_bytes}
use pqc_gateway.Crypto.{Crypto}
use pqc_gateway.MlDsa.{
  MlDsaError, ml_dsa_sign, ml_dsa_verify, or_false, ml_dsa_sign_lem, ml_dsa_verify_own,
}
use pqc_gateway.Threshold.Codes.{hex_encode}

pub record TimestampProof : Type 0 where
  pub timestamp : ℕ  -- u64
  pub message_hash : Str
  pub signature : Bytes
  pub public_key : Bytes
  pub proof_hash : Str

pub record TimestampAuthority : Type 0 where
  pub seed : Bytes
  pub public_key : Bytes
  pub fingerprint : Str
  pub proofs_issued : ℕ  -- u64

-- The timestamp's bytes and the hash, which the authority signs.
unfoldable pub payload : ℕ → Str → Bytes
payload timestamp message_hash = to_le_bytes 8 timestamp ++ message_hash

module _ (cr : Crypto) where
  -- `TimestampAuthority::new`, with the seed of its new key.
  unfoldable pub new_authority : Bytes → TimestampAuthority
  new_authority seed = record {
    seed = seed;
    public_key = cr.ml.public_key_of seed;
    fingerprint = hex_encode (take 16 (cr.sha256 (cr.ml.public_key_of seed)));
    proofs_issued = 0;
  }

  unfoldable pub proof_hash_of : ℕ → Str → Bytes → Str
  proof_hash_of timestamp message_hash signature =
      hex_encode (cr.sha256 (to_le_bytes 8 timestamp ++ message_hash ++ signature))

  unfoldable pub issue :
      TimestampAuthority
      → ℕ
      → Str
      → Result Bytes MlDsaError
      → TimestampAuthority × Result TimestampProof MlDsaError
  issue a timestamp message_hash (err e) = (a, err e)
  issue a timestamp message_hash (ok signature) = (
    record a { proofs_issued = (a.proofs_issued + 1) % 2 ^ 64 },
    ok (record {
      timestamp = timestamp;
      message_hash = message_hash;
      signature = signature;
      public_key = a.public_key;
      proof_hash = proof_hash_of timestamp message_hash signature;
    }),
  )

  unfoldable pub create_proof :
      ℕ → TimestampAuthority → Bytes → TimestampAuthority × Result TimestampProof MlDsaError
  create_proof now a message =
      let message_hash = hex_encode (cr.sha256 message) in
      issue a now message_hash (ml_dsa_sign cr.ml a.seed (payload now message_hash))

  unfoldable pub verify_timestamp_proof : TimestampProof → Bytes → Bool
  verify_timestamp_proof p message =
      if not (str_eq (hex_encode (cr.sha256 message)) p.message_hash)
      then false
      else if not (
          or_false cr.ml
            (ml_dsa_verify cr.ml p.public_key (payload p.timestamp p.message_hash) p.signature))
      then false
      else str_eq (proof_hash_of p.timestamp p.message_hash p.signature) p.proof_hash

  -- The sum and the difference of `u64` numbers wrap around.
  unfoldable pub verify_timestamp_proof_with_time_check : ℕ → TimestampProof → Bytes → ℕ → Bool
  verify_timestamp_proof_with_time_check now p message max_age_seconds =
      if not (verify_timestamp_proof p message)
      then false
      else if ltb ((now + 60) % 2 ^ 64) p.timestamp
      then false
      else if ltb max_age_seconds ((now + (2 ^ 64 - p.timestamp)) % 2 ^ 64)
      then false
      else true

  -- An authority with the keys that `new` gives it issues a proof for every message, which verifies for
  -- the message, and with the check of its age as long as it is not older than the age allowed.
  pub verify_timestamp_proof-create_proof :
      (created now max_age_seconds : ℕ) (a : TimestampAuthority) (message : Bytes)
      → length a.seed ≡ 32
      → a.public_key ≡ cr.ml.public_key_of a.seed
      → created ≤ now
      → now ≤ created + max_age_seconds
      → now + 60 < 2 ^ 64
      → (a' : TimestampAuthority) × (p : TimestampProof) × (create_proof created a message
          ≡ (a', ok p))
        × (verify_timestamp_proof p message ≡ true)
        × (verify_timestamp_proof_with_time_check now p message max_age_seconds ≡ true)
  unfolding create_proof issue verify_timestamp_proof verify_timestamp_proof_with_time_check
  verify_timestamp_proof-create_proof created now max_age_seconds a message h own past young small =
      let hash = hex_encode (cr.sha256 message) in
      let sig = cr.ml.sign_with a.seed (payload created hash) in
      let good : or_false cr.ml (ml_dsa_verify cr.ml a.public_key (payload created hash) sig)
          ≡ true =
        rw (own, ml_dsa_verify_own cr.ml a.seed (payload created hash) h) refl in
      let not_future : ltb ((now + 60) % 2 ^ 64) created ≡ false = ground arith in
      let not_old : ltb max_age_seconds ((now + (2 ^ 64 - created)) % 2 ^ 64) ≡ false =
        ground arith in
      (
        _,
        record {
          timestamp = created;
          message_hash = hash;
          signature = sig;
          public_key = a.public_key;
          proof_hash = proof_hash_of created hash sig;
        },
        ap (issue a created hash) (ml_dsa_sign_lem cr.ml a.seed (payload created hash) h),
        rw (str_eq_refl hash, good) (str_eq_refl (proof_hash_of created hash sig)),
        rw
            (
              str_eq_refl hash,
              good,
              str_eq_refl (proof_hash_of created hash sig),
              not_future,
              not_old,
            )
            refl,
      )

  -- A proof that is dated in the future is refused by the check of its age, however valid it is and
  -- however small the difference, unless the age allowed is nearly 2^64 seconds.
  pub future_refused :
      (now : ℕ) (p : TimestampProof) (message : Bytes) (max_age_seconds : ℕ)
      → now < p.timestamp
      → p.timestamp < 2 ^ 64
      → max_age_seconds + p.timestamp < 2 ^ 64 + now
      → verify_timestamp_proof_with_time_check now p message max_age_seconds ≡ false
  unfolding verify_timestamp_proof_with_time_check
  future_refused now p message max_age_seconds later small age =
      let old : ltb max_age_seconds ((now + (2 ^ 64 - p.timestamp)) % 2 ^ 64) ≡ true =
        ground arith in
      ground (arith, old)

-- ===== src/BatchVerify/Tests.antt =====
-- A batch of three with one signature that is not valid, two signers, and an authority for times.
use pqc_gateway.Common.{
  ◌≡◌, refl, ◌+◌, length, List, [], ◌∷◌, map, str_eq, Bytes, Str, codes, done, some, ok, true,
  false, arith,
}
use pqc_gateway.Crypto.Toy.{toy, toy_crypto, filled}
use pqc_gateway.BatchVerify.Aggregate.{
  new, position, key_at, add, finalize, verify_all, unique_key_count,
}
use pqc_gateway.BatchVerify.Aggregation.{add_all, verify_all-batch_verify}
use pqc_gateway.BatchVerify.MultiSignature.{
  MultiSignatureBuilder, MultiSignature, new_builder, add_signers, build, verify_multi_signature,
  verify_multi_signature-build,
}
use pqc_gateway.BatchVerify.Timestamps.{
  TimestampProof, TimestampAuthority, create_proof, verify_timestamp_proof,
  verify_timestamp_proof_with_time_check, verify_timestamp_proof-create_proof, future_refused,
}
use pqc_gateway.MlDsa.{ml_dsa_verify}
use pqc_gateway.BatchVerify.{
  SignatureEntry, batch_verify, batch_loop, count_entry, verify_entry, invalid_from,
  batch_verify_lem,
}

abbrev good : SignatureEntry
good = record { message = 5 ∷ []; signature = 8 ∷ 5 ∷ []; public_key = 8 ∷ [] }

abbrev bad : SignatureEntry
bad = record { message = 5 ∷ []; signature = 9 ∷ 5 ∷ []; public_key = 8 ∷ [] }

one_failure : (batch_verify toy (good ∷ bad ∷ good ∷ [])).failed_indices ≡ 1 ∷ []
unfolding batch_verify batch_loop count_entry verify_entry ml_dsa_verify str_eq
one_failure = refl

batch_verify_example :
    ((batch_verify toy (good ∷ bad ∷ good ∷ [])).failed_indices
      ≡ invalid_from toy 0 (good ∷ bad ∷ good ∷ []))
    × ((batch_verify toy (good ∷ bad ∷ good ∷ [])).verified
          + (batch_verify toy (good ∷ bad ∷ good ∷ [])).failed
        ≡ (batch_verify toy (good ∷ bad ∷ good ∷ [])).total)
    × ((batch_verify toy (good ∷ bad ∷ good ∷ [])).failed
        ≡ length (invalid_from toy 0 (good ∷ bad ∷ good ∷ [])))
batch_verify_example = batch_verify_lem toy (good ∷ bad ∷ good ∷ [])

one_key : unique_key_count (finalize (add_all toy_crypto new (good ∷ bad ∷ good ∷ []))) ≡ 1
unfolding unique_key_count finalize add new position key_at str_eq
one_key = refl

verify_all-batch_verify_example :
    verify_all toy_crypto
      (finalize (add_all toy_crypto new (good ∷ bad ∷ good ∷ [])))
      (map (λ e. e.message) (good ∷ bad ∷ good ∷ []))
    ≡ done (batch_verify toy (good ∷ bad ∷ good ∷ []))
verify_all-batch_verify_example = verify_all-batch_verify toy_crypto (good ∷ bad ∷ good ∷ [])

abbrev message : Bytes
message = codes "release"

abbrev signers : List (Str × Bytes)
signers = (codes "alice", filled 32 (1 ∷ [])) ∷ (codes "bob", filled 32 (2 ∷ [])) ∷ []

verify_multi_signature-build_example :
    (b : MultiSignatureBuilder) × (m : MultiSignature) × (add_signers toy_crypto
        (new_builder toy_crypto message 2)
        signers
      ≡ ok b)
    × (build b ≡ some m)
    × (verify_multi_signature toy_crypto m message ≡ true)
verify_multi_signature-build_example =
    verify_multi_signature-build toy_crypto message 2 signers (refl, (refl, tt)) (omega arith)

abbrev authority : TimestampAuthority
authority = record {
  seed = filled 32 (3 ∷ []);
  public_key = filled 32 (3 ∷ []);
  fingerprint = codes "03";
  proofs_issued = 0;
}

verify_timestamp_proof-create_proof_example :
    (a : TimestampAuthority) × (p : TimestampProof) × (create_proof toy_crypto 1000 authority
        message
      ≡ (a, ok p))
    × (verify_timestamp_proof toy_crypto p message ≡ true)
    × (verify_timestamp_proof_with_time_check toy_crypto 1030 p message 60 ≡ true)
verify_timestamp_proof-create_proof_example =
    verify_timestamp_proof-create_proof toy_crypto 1000 1030 60 authority message refl refl
      (omega arith) (omega arith) (omega arith)

-- One second ahead of the clock.
abbrev ahead : TimestampProof
ahead = record {
  timestamp = 1001;
  message_hash = [];
  signature = [];
  public_key = [];
  proof_hash = [];
}

future_refused_example :
    verify_timestamp_proof_with_time_check toy_crypto 1000 ahead message 300 ≡ false
future_refused_example =
    future_refused toy_crypto 1000 ahead message 300 (omega arith) (omega arith) (omega arith)

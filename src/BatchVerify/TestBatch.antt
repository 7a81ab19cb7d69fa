-- ===== src/BatchVerify/TestBatch.antt =====
-- crates/pqc-tls/src/batch_verify.rs: the batches that `generate_test_batch` makes. The seed of the new
-- key is an argument.
use pqc_gateway.Common.{
  ℕ, zero, suc, ◌+◌, ◌≡◌, refl, ap, ◌∙◌, List, [], ◌∷◌, ◌++◌, Bytes, codes, Result, ok, err,
  Outcome, done, panic, length,
}
use pqc_gateway.Common.Decimal.{decimal}
use pqc_gateway.MlDsa.{MlDsa, MlDsaError, ml_dsa_sign, ml_dsa_sign_lem, ml_dsa_verify_own}
use pqc_gateway.BatchVerify.{
  SignatureEntry, Counts, count_entry, verify_entry, batch_loop, batch_verify,
}

pub record MlDsaKeyPair : Type 0 where
  pub public_key : Bytes
  pub seed : Bytes

unfoldable pub test_message : ℕ → Bytes
test_message i = codes "batch test message #" ++ decimal i

module _ (ml : MlDsa) where
  unfoldable pub generate_ml_dsa_keypair : Bytes → MlDsaKeyPair
  generate_ml_dsa_keypair seed = record { public_key = ml.public_key_of seed; seed = seed }

  -- `unwrap` on the signature.
  unfoldable pub with_entry :
      MlDsaKeyPair
      → Bytes
      → Result Bytes MlDsaError
      → Outcome (List SignatureEntry)
      → Outcome (List SignatureEntry)
  with_entry kp message (err e) rest = panic
  with_entry kp message (ok signature) panic = panic
  with_entry kp message (ok signature) (done entries) =
      done (
        (record { message = message; signature = signature; public_key = kp.public_key }) ∷ entries)

  unfoldable pub generate_from : MlDsaKeyPair → ℕ → ℕ → Outcome (List SignatureEntry)
  generate_from kp i zero = done []
  generate_from kp i (suc n) =
      let rest = generate_from kp (i + 1) n in
      with_entry kp (test_message i) (ml_dsa_sign ml kp.seed (test_message i)) rest

  unfoldable pub with_keys :
      MlDsaKeyPair → Outcome (List SignatureEntry) → Outcome (List SignatureEntry × MlDsaKeyPair)
  with_keys kp panic = panic
  with_keys kp (done entries) = done (entries, kp)

  unfoldable pub generate_test_batch : Bytes → ℕ → Outcome (List SignatureEntry × MlDsaKeyPair)
  generate_test_batch seed count =
      let kp = generate_ml_dsa_keypair seed in with_keys kp (generate_from kp 0 count)

  generated :
      (seed : Bytes) (i n : ℕ) (s : Counts)
      → length seed ≡ 32
      → (es : List SignatureEntry) × (generate_from (generate_ml_dsa_keypair seed) i n ≡ done es)
        × (length es ≡ n)
        × ((k : ℕ) → (batch_loop ml k es s).failed ≡ s.failed)
  unfolding generate_from with_entry generate_ml_dsa_keypair batch_loop count_entry verify_entry
  generated seed i zero s h = ([], refl, refl, λ k. refl)
  generated seed i (suc n) s h =
      let (es, e, l, v) = generated seed (i + 1) n (record s { verified = s.verified + 1 }) h in
      let entry : SignatureEntry = record {
        message = test_message i;
        signature = ml.sign_with seed (test_message i);
        public_key = ml.public_key_of seed;
      } in
      (
        entry ∷ es,
        rw (ml_dsa_sign_lem ml seed (test_message i) h, e) refl,
        ap suc l,
        λ k.
            ap (λ r. (batch_loop ml (k + 1) es (count_entry k s r)).failed)
              (ml_dsa_verify_own ml seed (test_message i) h)
            ∙ v (k + 1),
      )

  -- A batch of any size is generated without a panic from a seed of 32 bytes, and all its signatures
  -- are valid.
  generate_test_batch_lem :
      (seed : Bytes) (count : ℕ)
      → length seed ≡ 32
      → (es : List SignatureEntry) × (generate_test_batch seed count
          ≡ done (es, generate_ml_dsa_keypair seed))
        × (length es ≡ count)
        × ((batch_verify ml es).failed ≡ 0)
  unfolding generate_test_batch with_keys batch_verify
  generate_test_batch_lem seed count h =
      let start : Counts = record { verified = 0; failed = 0; failed_indices = [] } in
      let (es, e, l, v) = generated seed 0 count start h in (es, rw e refl, l, v 0)

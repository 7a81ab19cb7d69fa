-- ===== src/BatchVerify.antt =====
-- crates/pqc-tls/src/batch_verify.rs: the sequential verification of a batch of signatures. The time
-- that it took is left out of the result.
pub mod Aggregate
pub mod Aggregation
pub mod MultiSignature
pub mod Timestamps
pub mod TestBatch
mod Tests
use pqc_gateway.Common.{
  ℕ, zero, suc, ◌+◌, ◌≡◌, refl, ap, sym, ◌∙◌, ◌↔◌, List, [], ◌∷◌, ◌++◌, Bytes, Result, ok, err,
  Bool, true, false, length, ◌==◌, arith, if◌then◌else◌, length-append,
}
use mathlib.Core.List.{append_assoc, append-nil}
use pqc_gateway.MlDsa.{MlDsa, MlDsaError, ml_dsa_verify, or_false}

pub record SignatureEntry : Type 0 where
  pub message : Bytes
  pub signature : Bytes
  pub public_key : Bytes

pub record BatchVerificationResult : Type 0 where
  pub total : ℕ
  pub verified : ℕ
  pub failed : ℕ
  pub failed_indices : List ℕ

abbrev pub all_valid : BatchVerificationResult → Bool
all_valid r = r.failed == 0

-- The counters of the loop.
pub record Counts : Type 0 where
  pub verified : ℕ
  pub failed : ℕ
  pub failed_indices : List ℕ

unfoldable pub count_entry : ℕ → Counts → Result Bool MlDsaError → Counts
count_entry i s (ok true) = record s { verified = s.verified + 1 }
count_entry i s (ok false) = record s {
  failed = s.failed + 1;
  failed_indices = s.failed_indices ++ (i ∷ []);
}
count_entry i s (err e) = record s {
  failed = s.failed + 1;
  failed_indices = s.failed_indices ++ (i ∷ []);
}

module _ (ml : MlDsa) where
  unfoldable pub verify_entry : SignatureEntry → Result Bool MlDsaError
  verify_entry e = ml_dsa_verify ml e.public_key e.message e.signature

  -- The loop of `batch_verify`, from the entry `i` on.
  unfoldable pub batch_loop : ℕ → List SignatureEntry → Counts → Counts
  batch_loop i [] s = s
  batch_loop i (e ∷ entries) s = batch_loop (i + 1) entries (count_entry i s (verify_entry e))

  unfoldable pub batch_verify : List SignatureEntry → BatchVerificationResult
  batch_verify entries =
      let s = batch_loop 0 entries (record { verified = 0; failed = 0; failed_indices = [] }) in
      record {
        total = length entries;
        verified = s.verified;
        failed = s.failed;
        failed_indices = s.failed_indices;
      }

  -- The positions, from `i` on, of the entries whose signature is not valid.
  abbrev pub invalid_from : ℕ → List SignatureEntry → List ℕ
  invalid_from i [] = []
  invalid_from i (e ∷ entries) =
      let rest = invalid_from (i + 1) entries in
      if or_false ml (verify_entry e) then rest else i ∷ rest

  -- One turn of the loop, for the state `t` at the end of the others.
  turn :
      (i : ℕ) (s t : Counts) (r : Result Bool MlDsaError) (rest : List ℕ) (n : ℕ)
      → t.failed_indices ≡ (count_entry i s r).failed_indices ++ rest
      → t.verified + t.failed ≡ (count_entry i s r).verified + (count_entry i s r).failed + n
      → t.failed + length (count_entry i s r).failed_indices
        ≡ (count_entry i s r).failed + length t.failed_indices
      → (t.failed_indices ≡ s.failed_indices ++ (if or_false ml r then rest else i ∷ rest))
        × (t.verified + t.failed ≡ s.verified + s.failed + suc n)
        × (t.failed + length s.failed_indices ≡ s.failed + length t.failed_indices)
  unfolding count_entry
  turn i s t (ok true) rest n a b c = (a, omega (arith, b), c)
  turn i s t (ok false) rest n a b c = (
    a ∙ append_assoc s.failed_indices (i ∷ []) rest,
    omega (arith, b),
    omega (arith, c, length-append s.failed_indices (i ∷ [])),
  )
  turn i s t (err e) rest n a b c = (
    a ∙ append_assoc s.failed_indices (i ∷ []) rest,
    omega (arith, b),
    omega (arith, c, length-append s.failed_indices (i ∷ [])),
  )

  batch_loop_lem :
      (i : ℕ) (entries : List SignatureEntry) (s : Counts)
      → let t = batch_loop i entries s in
        (t.failed_indices ≡ s.failed_indices ++ invalid_from i entries)
        × (t.verified + t.failed ≡ s.verified + s.failed + length entries)
        × (t.failed + length s.failed_indices ≡ s.failed + length t.failed_indices)
  unfolding batch_loop
  batch_loop_lem i [] s = (sym (append-nil s.failed_indices), omega arith, refl)
  batch_loop_lem i (e ∷ entries) s =
      let next = count_entry i s (verify_entry e) in
      let (a, b, c) = batch_loop_lem (i + 1) entries next in
      turn i s (batch_loop (i + 1) entries next) (verify_entry e) (invalid_from (i + 1) entries)
        (length entries) a b c

  -- The failed entries are exactly those whose signature is not valid, in order; every entry is
  -- counted once, and as many failures are counted as there are failed entries.
  pub batch_verify_lem :
      (entries : List SignatureEntry)
      → let r = batch_verify entries in
        (r.failed_indices ≡ invalid_from 0 entries)
        × (r.verified + r.failed ≡ r.total)
        × (r.failed ≡ length (invalid_from 0 entries))
  unfolding batch_verify
  batch_verify_lem entries =
      let (a, b, c) =
        batch_loop_lem 0 entries (record { verified = 0; failed = 0; failed_indices = [] }) in
      (a, omega (arith, b), omega (arith, c, ap length a))

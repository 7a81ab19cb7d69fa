-- ===== src/BatchVerify/Aggregate.antt =====
-- crates/pqc-tls/src/batch_verify.rs: signatures aggregated with their public keys stored once. Sizes
-- are `usize`; the time that a verification took is left out.
use pqc_gateway.Common.{
  ℕ, ◌+◌, ◌*◌, ◌%◌, ◌^◌, List, [], ◌∷◌, ◌++◌, map, Bytes, Str, str_eq, Result, ok, Bool, false,
  Option, none, some, Outcome, done, panic, length, get_elem?, if◌then◌else◌, not, ◌==◌,
}
use pqc_gateway.BatchVerify.{BatchVerificationResult, Counts, count_entry}
use pqc_gateway.Crypto.{Crypto}
use pqc_gateway.MlDsa.{MlDsaError, ml_dsa_verify}
use pqc_gateway.RateLimiter.{Float}
use pqc_gateway.Threshold.Codes.{hex_encode}

pub record AggregateEntry : Type 0 where
  pub message_hash : Str
  pub signature : Bytes

pub record SignatureAggregator : Type 0 where
  pub entries : List AggregateEntry
  pub public_keys : List Bytes
  pub key_indices : List ℕ
  pub total_sig_size : ℕ

pub record AggregatedSignatures : Type 0 where
  pub entries : List AggregateEntry
  pub public_keys : List Bytes
  pub key_indices : List ℕ
  pub uncompressed_size : ℕ
  pub compressed_size : ℕ

unfoldable pub new : SignatureAggregator
new = record { entries = []; public_keys = []; key_indices = []; total_sig_size = 0 }

abbrev pub next : Option ℕ → Option ℕ
next none = none
next (some i) = some (i + 1)

-- `iter().position(|k| k == public_key)`.
unfoldable pub position : List Bytes → Bytes → Option ℕ
position [] k = none
position (x ∷ xs) k = let rest = next (position xs k) in if str_eq x k then some 0 else rest

-- The index of the key, and the keys with it.
unfoldable pub key_at : List Bytes → Bytes → Option ℕ → ℕ × List Bytes
key_at keys k (some i) = (i, keys)
key_at keys k none = (length keys, keys ++ (k ∷ []))

unfoldable pub sum_lengths : List Bytes → ℕ
sum_lengths [] = 0
sum_lengths (x ∷ xs) = length x + sum_lengths xs

unfoldable pub finalize : SignatureAggregator → AggregatedSignatures
finalize a = record {
  entries = a.entries;
  public_keys = a.public_keys;
  key_indices = a.key_indices;
  uncompressed_size = a.total_sig_size;
  compressed_size =
      (sum_lengths a.public_keys
        + sum_lengths (map (λ e. e.signature) a.entries)
        + length a.key_indices * 2)
      % 2 ^ 64;
}

unfoldable pub count : AggregatedSignatures → ℕ
count a = length a.entries

unfoldable pub unique_key_count : AggregatedSignatures → ℕ
unique_key_count a = length a.public_keys

unfoldable pub compression_ratio : (fl : Float) → AggregatedSignatures → fl.F
compression_ratio fl a =
    if a.uncompressed_size == 0
    then fl.of_ℕ 1
    else fl.fdiv (fl.of_ℕ a.compressed_size) (fl.of_ℕ a.uncompressed_size)

module _ (cr : Crypto) where
  unfoldable pub message_hash_of : Bytes → Str
  message_hash_of message = hex_encode (cr.sha256 message)

  unfoldable pub add : SignatureAggregator → Bytes → Bytes → Bytes → SignatureAggregator
  add a public_key message signature =
      let (key_idx, keys) = key_at a.public_keys public_key (position a.public_keys public_key) in
      record {
        entries =
            a.entries
            ++ ((record { message_hash = message_hash_of message; signature = signature }) ∷ []);
        public_keys = keys;
        key_indices = a.key_indices ++ (key_idx ∷ []);
        total_sig_size = (a.total_sig_size + (length signature + length public_key)) % 2 ^ 64;
      }

  -- The check of one entry: a hash that differs counts as a signature that is not valid.
  unfoldable pub entry_result : Bytes → AggregateEntry → Bytes → Result Bool MlDsaError
  entry_result public_key e msg =
      if not (str_eq (message_hash_of msg) e.message_hash)
      then ok false
      else ml_dsa_verify cr.ml public_key msg e.signature

  -- One turn of the loop of `verify_all`; an index out of bounds panics.
  unfoldable pub counted : ℕ → AggregateEntry → Bytes → Counts → Option Bytes → Outcome Counts
  counted i e msg s none = panic
  counted i e msg s (some public_key) = done (count_entry i s (entry_result public_key e msg))

  unfoldable pub key_of : AggregatedSignatures → Option ℕ → Option Bytes
  key_of a none = none
  key_of a (some key_idx) = get_elem? a.public_keys key_idx

  unfoldable pub then_counts : Outcome Counts → (Counts → Outcome Counts) → Outcome Counts
  then_counts panic f = panic
  then_counts (done s) f = f s

  unfoldable pub verify_loop :
      AggregatedSignatures → ℕ → List AggregateEntry → List Bytes → Counts → Outcome Counts
  verify_loop a i [] messages s = done s
  verify_loop a i (e ∷ entries) [] s = done s
  verify_loop a i (e ∷ entries) (msg ∷ messages) s =
      then_counts (counted i e msg s (key_of a (get_elem? a.key_indices i)))
        (λ t. verify_loop a (i + 1) entries messages t)

  unfoldable pub result_of : ℕ → Outcome Counts → Outcome BatchVerificationResult
  result_of total panic = panic
  result_of total (done s) = done (record {
    total = total;
    verified = s.verified;
    failed = s.failed;
    failed_indices = s.failed_indices;
  })

  unfoldable pub verify_all : AggregatedSignatures → List Bytes → Outcome BatchVerificationResult
  verify_all a messages =
      if length messages == length a.entries
      then result_of (length a.entries) (
          verify_loop a 0 a.entries messages
            (record { verified = 0; failed = 0; failed_indices = [] }))
      else panic

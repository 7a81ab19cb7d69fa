-- ===== src/Threshold/Shares.antt =====
-- crates/pqc-tls/src/threshold.rs: splitting a secret into shares and putting it together again.
-- `fill i n` is what the `i`-th call of `OsRng.fill_bytes` writes into a buffer of `n` bytes.
use pqc_gateway.Common.{
  ℕ, zero, suc, ◌+◌, ◌%◌, List, [], ◌∷◌, ◌++◌, map, Bytes, Outcome, done, panic, Bool, true, ◌&&◌,
  length, get_elem?, if◌then◌else◌, ◌==◌, leb, Option, none, some,
}
use pqc_gateway.Threshold.Gf256.{gf256_poly_eval, gf256_lagrange_interpolate_zero}

pub record Share : Type 0 where
  pub id : ℕ  -- u8
  pub data_ : Bytes

pub record SharingConfig : Type 0 where
  pub threshold : ℕ  -- u8
  pub total_shares : ℕ  -- u8

-- `SharingConfig::new`, with its two assertions.
unfoldable pub new_config : ℕ → ℕ → Outcome SharingConfig
new_config threshold total_shares =
    if leb 2 threshold
    then if leb threshold total_shares
      then done (record { threshold = threshold; total_shares = total_shares })
      else panic
    else panic

-- `n` identifiers, from `id` on.
unfoldable pub ids_from : ℕ → ℕ → List ℕ
ids_from id zero = []
ids_from id (suc n) = id ∷ ids_from (id + 1) n

unfoldable pub new_shares : ℕ → List Share
new_shares total_shares = map (λ id. record { id = id; data_ = [] }) (ids_from 1 total_shares)

unfoldable pub push_value : List ℕ → Share → Share
push_value coeffs s = record s { data_ = s.data_ ++ (gf256_poly_eval coeffs s.id ∷ []) }

-- The loop of `split_secret` over the bytes of the secret, from the `i`-th on.
-- `threshold - 1` on a `u8` wraps around.
unfoldable pub split_loop : (ℕ → ℕ → Bytes) → ℕ → ℕ → Bytes → List Share → List Share
split_loop fill threshold i [] shares = shares
split_loop fill threshold i (secret_byte ∷ secret) shares =
    let coeffs = secret_byte ∷ fill i ((threshold + 255) % 256) in
    split_loop fill threshold (i + 1) secret (map (push_value coeffs) shares)

unfoldable pub split_secret : (ℕ → ℕ → Bytes) → Bytes → SharingConfig → Outcome (List Share)
split_secret fill [] config = panic
split_secret fill (b ∷ secret) config =
    done (split_loop fill config.threshold 0 (b ∷ secret) (new_shares config.total_shares))

unfoldable pub same_length : ℕ → List Share → Bool
same_length secret_len [] = true
same_length secret_len (s ∷ shares) = length s.data_ == secret_len && same_length secret_len shares

-- `(s.id, s.data[byte_idx])` in front of the points of the other shares.
unfoldable pub point_before : ℕ → Option ℕ → Outcome (List (ℕ × ℕ)) → Outcome (List (ℕ × ℕ))
point_before id none rest = panic
point_before id (some y) panic = panic
point_before id (some y) (done points) = done ((id, y) ∷ points)

unfoldable pub points_at : ℕ → List Share → Outcome (List (ℕ × ℕ))
points_at byte_idx [] = done []
points_at byte_idx (s ∷ shares) =
    point_before s.id (get_elem? s.data_ byte_idx) (points_at byte_idx shares)

unfoldable pub interpolated : Outcome (List (ℕ × ℕ)) → Outcome ℕ
interpolated panic = panic
interpolated (done points) = gf256_lagrange_interpolate_zero points

-- A byte of the secret in front of the others.
unfoldable pub byte_before : Outcome ℕ → Outcome Bytes → Outcome Bytes
byte_before panic rest = panic
byte_before (done b) panic = panic
byte_before (done b) (done rest) = done (b ∷ rest)

-- The loop of `reconstruct_secret`: `n` bytes, from the index `byte_idx` on.
unfoldable pub reconstruct_loop : List Share → ℕ → ℕ → Outcome Bytes
reconstruct_loop shares byte_idx zero = done []
reconstruct_loop shares byte_idx (suc n) =
    byte_before (interpolated (points_at byte_idx shares))
      (reconstruct_loop shares (byte_idx + 1) n)

unfoldable pub reconstruct_secret : List Share → Outcome Bytes
reconstruct_secret [] = panic
reconstruct_secret (s ∷ shares) =
    let secret_len = length s.data_ in
    if same_length secret_len (s ∷ shares)
    then reconstruct_loop (s ∷ shares) 0 secret_len
    else panic

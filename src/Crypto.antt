-- ===== src/Crypto.antt =====
-- The code of other packages that signing uses: the crates `p256`, `base64` and `sha2`, and `ml_dsa`
-- through its own interface. The laws are what their documentation promises: what a key signs, it
-- verifies; what is encoded is decoded again, and the encoded text is printable ASCII, for a URL one
-- without a full stop; a SHA-256 digest has 32 bytes.
pub mod Toy
use pqc_gateway.Common.{
  ℕ, Bytes, Str, Option, some, Bool, true, ◌≡◌, length, All, ◌≤◌, ◌<◌, ◌==◌, false,
}
use pqc_gateway.MlDsa.{MlDsa}

pub record Crypto : Type 0 where
  pub ml : MlDsa
  pub ecdsa_public : Bytes → Bytes  -- the verifying key of a signing key
  pub ecdsa_sign : Bytes → Bytes → Bytes  -- the DER signature of a message by a signing key
  pub ecdsa_verify : Bytes → Bytes → Bytes → Bool  -- key, message, DER bytes; false if malformed
  pub b64_encode : Bytes → Str
  pub b64_decode : Str → Option Bytes
  pub b64url_encode : Bytes → Str
  pub b64url_decode : Str → Option Bytes
  pub sha256 : Bytes → Bytes
  pub ecdsa_own :
      (key message : Bytes)
      → ecdsa_verify (ecdsa_public key) message (ecdsa_sign key message) ≡ true
  pub b64_round : (b : Bytes) → b64_decode (b64_encode b) ≡ some b
  pub b64_visible : (b : Bytes) → All (λ c. (32 ≤ c) × (c < 127)) (b64_encode b)
  pub b64url_round : (b : Bytes) → b64url_decode (b64url_encode b) ≡ some b
  pub b64url_plain : (b : Bytes) → All (λ c. (c == b'.') ≡ false) (b64url_encode b)
  pub sha256_length : (b : Bytes) → length (sha256 b) ≡ 32
  pub sha256_bytes : (b : Bytes) → All (λ c. c < 256) (sha256 b)

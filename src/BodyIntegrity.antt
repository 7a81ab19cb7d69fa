-- ===== src/BodyIntegrity.antt =====
-- crates/pqc-proxy/src/body_integrity.rs: digests and signatures of bodies, and the middleware that
-- checks them. `collect`, which reads a body, is an argument with the bytes or the error.
pub mod Headers
pub mod Requests
pub mod Checked
pub mod Middleware
mod Tests
use pqc_gateway.Common.{
  ℕ, Bytes, Str, [], ◌++◌, codes, str_eq, str_eq_refl, str_eq_iff, Bool, true, false, ◌||◌, not,
  Option, none, some, Result, ok, err, if◌then◌else◌,
}
use pqc_gateway.Crypto.{Crypto}
use pqc_gateway.GatewayError.{ErrorBody}
use pqc_gateway.Http.{Http, set_header, get_header, contains_header}
use pqc_gateway.Threshold.Codes.{hex_encode}
use pqc_gateway.VersionedKeys.{VersionedKeyManager, sign_current, verify_by_kid}

pub data IntegrityResult : Type 0 where
  valid : IntegrityResult
  digest_mismatch : Str → Str → IntegrityResult  -- expected, computed
  invalid_signature : Str → IntegrityResult

-- `Display`.
unfoldable pub to_string : IntegrityResult → Str
to_string valid = codes "valid"
to_string (digest_mismatch expected computed) =
    codes "digest mismatch: expected=" ++ expected ++ codes ", computed=" ++ computed
to_string (invalid_signature msg) = codes "invalid signature: " ++ msg

-- What the middleware does: the next handler runs with a body, or a response is sent.
pub data Verdict : Type 0 where
  run : Result Bytes Str → Verdict
  refuse : ℕ → ErrorBody → Verdict

-- `unwrap_or_default` on a text.
abbrev pub text_or_empty : Option Str → Str
text_or_empty none = []
text_or_empty (some s) = s

module _ (cr : Crypto) (ht : Http) where
  open ht use {Headers}

  unfoldable pub compute_digest : Bytes → Str
  compute_digest data_ = hex_encode (cr.sha256 data_)

  unfoldable pub verify_digest : Bytes → Str → Bool
  verify_digest data_ expected_hex = str_eq (compute_digest data_) expected_hex

  unfoldable pub signed_headers : Str → Option (Str × Bytes) → Headers → Headers
  signed_headers digest none h = h
  signed_headers digest (some (kid, sig)) h =
      set_header ht
        (set_header ht
          (set_header ht (set_header ht h (codes "x-pqc-signature") (cr.b64_encode sig))
            (codes "x-pqc-signature-algorithm") (codes "ML-DSA-65"))
          (codes "x-pqc-content-digest") digest)
        (codes "x-pqc-key-id") kid

  unfoldable pub sign_response_body : VersionedKeyManager → Bytes → Headers → Headers
  sign_response_body m body h = signed_headers (compute_digest body) (sign_current cr m body) h

  -- The check of a signature, after base64.
  unfoldable pub decoded_result : VersionedKeyManager → Bytes → Str → Option Bytes → IntegrityResult
  decoded_result m body kid none = invalid_signature (codes "bad base64")
  decoded_result m body kid (some sig) =
      if not (verify_by_kid cr m kid body sig)
      then invalid_signature (codes "signature verification failed")
      else valid

  unfoldable pub signature_result :
      VersionedKeyManager → Bytes → Headers → Option Str → IntegrityResult
  signature_result m body h none = valid
  signature_result m body h (some sig_b64) =
      decoded_result m body (text_or_empty (get_header ht h (codes "x-pqc-key-id")))
        (cr.b64_decode sig_b64)

  -- The check of the digest, and then of the signature.
  unfoldable pub digest_result :
      VersionedKeyManager → Bytes → Headers → Option Str → IntegrityResult
  digest_result m body h none =
      signature_result m body h (get_header ht h (codes "x-pqc-request-signature"))
  digest_result m body h (some digest_val) =
      if not (str_eq (compute_digest body) digest_val)
      then digest_mismatch digest_val (compute_digest body)
      else signature_result m body h (get_header ht h (codes "x-pqc-request-signature"))

  unfoldable pub verify_request_integrity : VersionedKeyManager → Bytes → Headers → IntegrityResult
  verify_request_integrity m body h =
      digest_result m body h (get_header ht h (codes "x-pqc-content-digest"))

  unfoldable pub has_integrity_headers : Headers → Bool
  has_integrity_headers h =
      contains_header ht h (codes "x-pqc-content-digest")
      || contains_header ht h (codes "x-pqc-request-signature")

  -- The `match` on the result, at the end of the middleware.
  unfoldable pub verdict_of : Bytes → IntegrityResult → Verdict
  verdict_of body valid = run (ok body)
  verdict_of body (digest_mismatch expected computed) = refuse 400 (record {
    error = codes "request body integrity check failed: digest mismatch";
    status = 400;
  })
  verdict_of body (invalid_signature msg) =
      refuse 400
        (record { error = codes "request body integrity check failed: " ++ msg; status = 400 })

  unfoldable pub verdict_of_read : VersionedKeyManager → Headers → Result Bytes Str → Verdict
  verdict_of_read m h (err e) = run (ok [])
  verdict_of_read m h (ok body) = verdict_of body (verify_request_integrity m body h)

  unfoldable pub body_integrity_middleware :
      VersionedKeyManager → Headers → Result Bytes Str → Verdict
  body_integrity_middleware m h body =
      if not (has_integrity_headers h) then run body else verdict_of_read m h body

-- ===== src/Proxy/Signed.antt =====
-- crates/pqc-proxy/src/proxy.rs: the signature headers of a response, which two managers of keys set.
use pqc_gateway.Common.{true, ℕ, ◌≡◌, ◌≢◌, Bytes, codes, str_eq, some, done, ok, refl, sym, ap, ◌∙◌}
use mathlib.Core.Path.{subst}
use pqc_gateway.BodyIntegrity.{compute_digest}
use pqc_gateway.BodyIntegrity.Headers.{
  sign_response_body_lem, signed_headers_lem, compute_digest-Visible, current_kid-Visible,
  colons-Visible, take-All,
}
use pqc_gateway.Http.{Visible, get_header, get_header-set_header}
use pqc_gateway.Proxy.{Outside, ProxyState, Response, bytes}
use pqc_gateway.Proxy.Admission.{Forward}
use pqc_gateway.Proxy.Answers.{sign_total}
use pqc_gateway.Proxy.Completion.{answer_body, signed_response, output_headers}
use pqc_gateway.Proxy.Sound.{IsSound}
use pqc_gateway.Signature.{SignatureMode, classical, hybrid, ml_dsa_only}
use pqc_gateway.Signature.Keys.{
  SignatureKeys, SignatureOutput, sign, IsKeyPair, combined_fingerprint, some_output, sign_hybrid,
  sign_mldsa_only, hybrid_output, mldsa_output,
}
use pqc_gateway.MlDsa.{ml_dsa_sign_lem}
use pqc_gateway.VersionedKeys.{verify_by_kid}

module _ (o : Outside) where
  open o use {cr, ht}

  -- In a sound state, whatever the signature mode, a body that was read is sent back unchanged under
  -- the status of the upstream, and the headers name the current versioned key, carry the digest of the
  -- body and base64 of a signature that the versioned keys verify under that name.
  pub answer_body_lem :
      (s : ProxyState o) (f : Forward o) (status : ℕ) (h : ht.Headers) (body : Bytes)
      → IsSound o s
      → (r : Response o) × (signature : Bytes) × (answer_body o s f status h (ok body)
          ≡ done (s, r))
        × (r.status ≡ status)
        × (r.body ≡ bytes body)
        × (get_header ht r.headers (codes "x-pqc-signature") ≡ some (cr.b64_encode signature))
        × (get_header ht r.headers (codes "x-pqc-key-id") ≡ some s.versioned_keys.current_kid)
        × (verify_by_kid cr s.versioned_keys s.versioned_keys.current_kid body signature ≡ true)
        × (get_header ht r.headers (codes "x-pqc-content-digest")
            ≡ some (compute_digest cr ht body))
        × (get_header ht r.headers (codes "x-pqc-signature-algorithm") ≡ some (codes "ML-DSA-65"))
  unfolding answer_body signed_response
  answer_body_lem s f status h body v =
      let (out, made) = sign_total o s f.sig_mode body v in
      let (sig, a, _, c, good, d, e, _) =
        sign_response_body_lem cr ht s.versioned_keys body (output_headers o h out)
          v.versioned_ok in
      (_, sig, ap (signed_response o s status h body) made, refl, refl, a, c, good, d, e)

  fingerprint_Visible : (k : SignatureKeys) → IsKeyPair cr k → Visible k.fingerprint
  unfolding combined_fingerprint
  fingerprint_Visible k v =
      subst Visible (sym v.own_fingerprint) (colons-Visible _ (take-All _ 16 _ (cr.sha256_bytes _)))

  -- The keys' own fingerprint stands in what they sign.
  sign_fingerprint :
      (k : SignatureKeys) (mode : SignatureMode) (body : Bytes)
      → IsKeyPair cr k
      → mode ≢ classical
      → (out : SignatureOutput) × (sign cr k mode body ≡ done (some out))
        × (out.public_key_fingerprint ≡ k.fingerprint)
  unfolding sign sign_hybrid sign_mldsa_only hybrid_output mldsa_output some_output
  sign_fingerprint k classical body v n = absurd (n refl)
  sign_fingerprint k hybrid body v n = (
    _,
    ap (λ r. some_output cr (hybrid_output cr k body r))
        (ml_dsa_sign_lem cr.ml k.mldsa_seed body v.seed_length),
    refl,
  )
  sign_fingerprint k ml_dsa_only body v n = (
    _,
    ap (λ r. some_output cr (mldsa_output cr k body r))
        (ml_dsa_sign_lem cr.ml k.mldsa_seed body v.seed_length),
    refl,
  )

  -- In the modes that sign with the signature keys, the response names the fingerprint of those keys,
  -- but the algorithm and the signature beside it are those of the current versioned key, which has
  -- replaced what the signature keys had signed.
  pub answer_body_fingerprint :
      (s : ProxyState o) (f : Forward o) (status : ℕ) (h : ht.Headers) (body : Bytes)
      → IsSound o s
      → f.sig_mode ≢ classical
      → (r : Response o) × (signature : Bytes) × (answer_body o s f status h (ok body)
          ≡ done (s, r))
        × (get_header ht r.headers (codes "x-pqc-public-key-fingerprint")
            ≡ some s.signature_keys.fingerprint)
        × (get_header ht r.headers (codes "x-pqc-signature-algorithm") ≡ some (codes "ML-DSA-65"))
        × (get_header ht r.headers (codes "x-pqc-signature") ≡ some (cr.b64_encode signature))
        × (verify_by_kid cr s.versioned_keys s.versioned_keys.current_kid body signature ≡ true)
  unfolding answer_body signed_response output_headers str_eq
  answer_body_fingerprint s f status h body v n =
      let (out, made, own) = sign_fingerprint s.signature_keys f.sig_mode body v.signing_ok n in
      let (sig, a, _, c, good, d, e, all) =
        sign_response_body_lem cr ht s.versioned_keys body (output_headers o h (some out))
          v.versioned_ok in
      let (_, _, _, _, keeps) =
        signed_headers_lem cr ht (output_headers o h (some out)) (compute_digest cr ht body)
          s.versioned_keys.current_kid sig (compute_digest-Visible cr ht body)
          (current_kid-Visible cr ht s.versioned_keys v.versioned_ok) in
      (
        _,
        sig,
        ap (signed_response o s status h body) made,
        ap (λ x. get_header ht x (codes "x-pqc-public-key-fingerprint")) all
            ∙ keeps (codes "x-pqc-public-key-fingerprint") refl refl refl refl
            ∙ get_header-set_header ht _ (codes "x-pqc-public-key-fingerprint")
                out.public_key_fingerprint
                (subst Visible (sym own) (fingerprint_Visible s.signature_keys v.signing_ok))
            ∙ ap some own,
        e,
        a,
        good,
      )

-- ===== src/BodyIntegrity/Requests.antt =====
-- crates/pqc-proxy/src/body_integrity.rs: which requests the middleware lets through.
use pqc_gateway.Common.{
  Bytes, Str, codes, str_eq, str_eq_iff, str_instance, true, false, not, Bool-cases, Option, none,
  some, ◌≡◌, ◌⊎◌, ◌↔◌, inl, inr, refl, sym, ap, ◌∙◌, if◌then◌else◌,
}
use pqc_gateway.Crypto.{Crypto}
use pqc_gateway.Http.{Http, get_header}
use pqc_gateway.VersionedKeys.{VersionedKeyManager, verify_by_kid}
use pqc_gateway.BodyIntegrity.{
  valid, invalid_signature, text_or_empty, compute_digest, decoded_result, signature_result,
  digest_result, verify_request_integrity,
}

module _ (cr : Crypto) (ht : Http) where
  open ht use {Headers}

  abbrev pub kid_header : Headers → Str
  kid_header h = text_or_empty (get_header ht h (codes "x-pqc-key-id"))

  -- The digest in a header, if there is one, is that of the body.
  abbrev pub IsDigestRight : Bytes → Option Str → Type 0
  IsDigestRight body digest = (digest ≡ none) ⊎ (digest ≡ some (compute_digest cr ht body))

  -- The signature in a header, if there is one, is base64 of one that the named key verifies.
  abbrev pub IsSignatureRight : VersionedKeyManager → Bytes → Str → Option Str → Type 0
  IsSignatureRight m body kid signature =
      (signature ≡ none)
      ⊎ ((text : Str) × (sig : Bytes) × (signature ≡ some text)
          × (cr.b64_decode text ≡ some sig)
          × (verify_by_kid cr m kid body sig ≡ true))

  abbrev pub IsIntact : VersionedKeyManager → Headers → Bytes → Type 0
  IsIntact m h body =
      IsDigestRight body (get_header ht h (codes "x-pqc-content-digest"))
      × IsSignatureRight m body (kid_header h) (get_header ht h (codes "x-pqc-request-signature"))

  decoded_iff :
      (m : VersionedKeyManager) (body : Bytes) (kid : Str) (o : Option Bytes)
      → (decoded_result cr ht m body kid o ≡ valid)
        ↔ ((sig : Bytes) × (o ≡ some sig) × (verify_by_kid cr m kid body sig ≡ true))
  unfolding decoded_result
  decoded_iff m body kid none = ((λ h. cc), (λ (sig, h, _). cc))
  decoded_iff m body kid (some sig) = elim (Bool-cases (verify_by_kid cr m kid body sig)) [
    | inl b ↦ ((λ _. (sig, refl, b)), (λ _. rw b refl))
    | inr b ↦ (
      (λ h.
          let f : invalid_signature (codes "signature verification failed") ≡ valid =
            ap
              (λ c.
                if not c then invalid_signature (codes "signature verification failed") else valid)
              (sym b)
            ∙ h in
          cc),
      (λ (s, e, t).
          let same : sig ≡ s = cc in
          let f : false ≡ true = sym b ∙ ap (λ x. verify_by_kid cr m kid body x) same ∙ t in cc),
    )
  ]

  signature_iff :
      (m : VersionedKeyManager) (body : Bytes) (h : Headers) (o : Option Str)
      → (signature_result cr ht m body h o ≡ valid) ↔ IsSignatureRight m body (kid_header h) o
  unfolding signature_result
  signature_iff m body h none = ((λ _. inl refl), (λ _. refl))
  signature_iff m body h (some text) =
      let (to, from) = decoded_iff m body (kid_header h) (cr.b64_decode text) in
      ((λ e. let (sig, d, v) = to e in inr (text, sig, refl, d, v)), back text from)
    where
      back :
          (text : Str)
          → (((sig : Bytes) × (cr.b64_decode text ≡ some sig)
                × (verify_by_kid cr m (kid_header h) body sig ≡ true))
              → decoded_result cr ht m body (kid_header h) (cr.b64_decode text) ≡ valid)
          → IsSignatureRight m body (kid_header h) (some text)
          → decoded_result cr ht m body (kid_header h) (cr.b64_decode text) ≡ valid
      back text from (inl e) = cc
      back text from (inr (t, sig, e, d, v)) =
          let same : text ≡ t = cc in from (sig, ap cr.b64_decode same ∙ d, v)

  -- A request is valid exactly when its digest, if it names one, is that of the body, and its
  -- signature, if it has one, is base64 of a signature of the body by the key that it names.
  pub verify_request_integrity_iff :
      (m : VersionedKeyManager) (body : Bytes) (h : Headers)
      → (verify_request_integrity cr ht m body h ≡ valid) ↔ IsIntact m h body
  unfolding verify_request_integrity digest_result
  verify_request_integrity_iff m body h =
      split (get_header ht h (codes "x-pqc-content-digest"))
        (signature_iff m body h (get_header ht h (codes "x-pqc-request-signature")))
    where
      split :
          (o : Option Str)
          → (signature_result cr ht m body h (get_header ht h (codes "x-pqc-request-signature"))
              ≡ valid)
            ↔ IsSignatureRight m body
                (kid_header h)
                (get_header ht h (codes "x-pqc-request-signature"))
          → (digest_result cr ht m body h o ≡ valid) ↔ (
              IsDigestRight body o
              × IsSignatureRight m body
                  (kid_header h)
                  (get_header ht h (codes "x-pqc-request-signature")))
      split none (to, from) = ((λ e. (inl refl, to e)), (λ (_, s). from s))
      split (some d) (to, from) = elim (Bool-cases (str_eq (compute_digest cr ht body) d)) [
        | inl b ↦
            let e : compute_digest cr ht body ≡ d =
              (str_eq_iff (compute_digest cr ht body) d).0 b in
            rw b ((λ v. (inr (ap some (sym e)), to v)), (λ (_, s). from s))
        | inr b ↦ rw b ((λ v. cc), λ (q, s). absurd (wrong d b q))
      ]
        where
          wrong :
              (d : Str)
              → str_eq (compute_digest cr ht body) d ≡ false
              → ¬ IsDigestRight body (some d)
          wrong d b (inl q) = cc
          wrong d b (inr q) =
              let e : d ≡ compute_digest cr ht body = cc in
              let t : true ≡ false =
                sym ((str_eq_iff (compute_digest cr ht body) d).1 (sym e)) ∙ b in
              cc

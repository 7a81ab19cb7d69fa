-- ===== src/BodyIntegrity/Middleware.antt =====
-- crates/pqc-proxy/src/body_integrity.rs: what the middleware lets through, and that it lets through
-- what the manager of keys signed.
use mathlib.Core.Path.{subst}
use pqc_gateway.Common.{
  [], ℕ, ◌+◌, ◌^◌, ◌≤◌, ◌<◌, Bytes, Str, codes, str_eq, str_instance, true, Bool-cases, some,
  Result, ok, err, done, ◌≡◌, ◌⊎◌, ◌↔◌, inl, inr, refl, sym, ap, ◌∙◌, length,
}
use pqc_gateway.Crypto.{Crypto}
use pqc_gateway.Http.{Http, Visible, set_header, get_header-set_header, get_header-set_header_ne}
use pqc_gateway.VersionedKeys.{VersionedKeyManager, rotate, sign_current, verify_by_kid}
use pqc_gateway.VersionedKeys.Rotation.{IsManager}
use pqc_gateway.VersionedKeys.Verification.{verify_by_kid-sign_current, verify_by_kid-rotate}
use pqc_gateway.BodyIntegrity.{
  IntegrityResult, valid, digest_mismatch, invalid_signature, run, text_or_empty, compute_digest,
  verify_request_integrity, has_integrity_headers, verdict_of, verdict_of_read,
  body_integrity_middleware,
}
use pqc_gateway.BodyIntegrity.Headers.{compute_digest-Visible, current_kid-Visible}
use pqc_gateway.BodyIntegrity.Checked.{HasNone, HasNone-iff, IsChecked, IsIntact-iff}
use pqc_gateway.BodyIntegrity.Requests.{IsIntact, verify_request_integrity_iff}

module _ (cr : Crypto) (ht : Http) where
  open ht use {Headers}

  verdict_iff :
      (body : Bytes) (r : IntegrityResult) (b : Result Bytes Str)
      → (verdict_of cr ht body r ≡ run b) ↔ ((r ≡ valid) × (b ≡ ok body))
  unfolding verdict_of
  verdict_iff body valid b = ((λ h. (refl, cc)), (λ (_, h). ap run (sym h)))
  verdict_iff body (digest_mismatch x y) b = ((λ h. cc), (λ (h, _). cc))
  verdict_iff body (invalid_signature msg) b = ((λ h. cc), (λ (h, _). cc))

  -- The next handler runs in three cases only. The request has neither of the two integrity headers,
  -- and its body is handed on as it is; or its body cannot be read, and an empty one is handed on; or
  -- its body is read, passes the checks of those of the two headers that are text, and is handed on. A
  -- header that is no text is not checked.
  pub body_integrity_middleware_iff :
      (m : VersionedKeyManager) (h : Headers) (read b : Result Bytes Str)
      → (body_integrity_middleware cr ht m h read ≡ run b) ↔ (
          (HasNone cr ht h × (b ≡ read))
          ⊎ (((¬ HasNone cr ht h) × ((e : Str) × (read ≡ err e) × (b ≡ ok [])))
              ⊎ ((¬ HasNone cr ht h)
                  × ((body : Bytes) × (read ≡ ok body)
                      × (b ≡ ok body)
                      × IsChecked cr ht m h body))))
  unfolding body_integrity_middleware verdict_of_read
  body_integrity_middleware_iff m h read b =
      let (none_, some_) = HasNone-iff cr ht h in
      elim (Bool-cases (has_integrity_headers cr ht h)) [
        | inr n ↦
            let absent = none_ n in
            rw n (
              (λ e. inl (absent, cc)),
              (λ x. elim x [
                | inl (_, e) ↦ ap run (sym e)
                | inr (inl (there, _)) ↦ absurd (there absent)
                | inr (inr (there, _)) ↦ absurd (there absent)
              ]),
            )
        | inl y ↦
            let there : ¬ HasNone cr ht h = λ a. cc (sym y ∙ some_ a) in
            rw y (with_headers there read)
      ]
    where
      with_headers :
          ¬ HasNone cr ht h
          → (read : Result Bytes Str)
          → (verdict_of_read cr ht m h read ≡ run b) ↔ (
              (HasNone cr ht h × (b ≡ read))
              ⊎ (((¬ HasNone cr ht h) × ((e : Str) × (read ≡ err e) × (b ≡ ok [])))
                  ⊎ ((¬ HasNone cr ht h)
                      × ((body : Bytes) × (read ≡ ok body)
                          × (b ≡ ok body)
                          × IsChecked cr ht m h body))))
      with_headers there (err e) = (
        (λ q. inr (inl (there, (e, refl, cc)))),
        (λ x. elim x [
          | inl (a, _) ↦ absurd (there a)
          | inr (inl (_, (_, _, q))) ↦ ap run (sym q)
          | inr (inr (_, (_, q, _, _))) ↦ cc
        ]),
      )
      with_headers there (ok body) =
          let (to, from) = verdict_iff body (verify_request_integrity cr ht m body h) b in
          let (into, back) = verify_request_integrity_iff cr ht m body h in
          let (check, checked) = IsIntact-iff cr ht m h body in
          (
            (λ q. let (v, e) = to q in inr (inr (there, (body, refl, e, check (into v))))),
            (λ x. elim x [
              | inl (a, _) ↦ absurd (there a)
              | inr (inl (_, (_, q, _))) ↦ cc
              | inr (inr (_, (found, q, e, c))) ↦
                  let same : found ≡ body = cc in
                  from (back (checked (subst (IsChecked cr ht m h) same c)), e ∙ ap ok same)
            ]),
          )

  -- The headers of a request that a client signs: the digest, the signature and the name of the key.
  abbrev pub signed_request : Headers → Str → Str → Str → Headers
  signed_request h digest kid text =
      set_header ht
        (set_header ht (set_header ht h (codes "x-pqc-content-digest") digest)
          (codes "x-pqc-request-signature") text)
        (codes "x-pqc-key-id") kid

  signed_IsIntact :
      (m : VersionedKeyManager) (h : Headers) (body sig : Bytes) (kid : Str)
      → Visible kid
      → verify_by_kid cr m kid body sig ≡ true
      → IsIntact cr ht m (signed_request h (compute_digest cr ht body) kid (cr.b64_encode sig)) body
  unfolding str_eq
  signed_IsIntact m h body sig kid k good =
      let digest = compute_digest cr ht body in
      let text = cr.b64_encode sig in
      let h₁ = set_header ht h (codes "x-pqc-content-digest") digest in
      let h₂ = set_header ht h₁ (codes "x-pqc-request-signature") text in
      (
        inr (
            get_header-set_header_ne ht h₂ (codes "x-pqc-key-id") (codes "x-pqc-content-digest") kid
              refl
            ∙ get_header-set_header_ne ht h₁ (codes "x-pqc-request-signature")
                (codes "x-pqc-content-digest") text refl
            ∙ get_header-set_header ht h (codes "x-pqc-content-digest") digest
                (compute_digest-Visible cr ht body)),
        inr (
          text,
          sig,
          get_header-set_header_ne ht h₂ (codes "x-pqc-key-id") (codes "x-pqc-request-signature")
                kid refl
              ∙ get_header-set_header ht h₁ (codes "x-pqc-request-signature") text
                  (cr.b64_visible sig),
          cr.b64_round sig,
          ap (λ o. verify_by_kid cr m (text_or_empty o) body sig)
                (get_header-set_header ht h₂ (codes "x-pqc-key-id") kid k)
              ∙ good,
        ),
      )

  -- A body that the manager signed, sent with its digest, signature and key, is valid for the manager,
  -- and after a rotation it still is, if the manager retains at least one key.
  pub verify_request_integrity-sign_current :
      (seed : Bytes) (now : ℕ) (fill : ℕ → ℕ → Bytes) (m : VersionedKeyManager) (h : Headers)
      (body : Bytes)
      → IsManager cr m
      → length seed ≡ 32
      → m.next_version + 1 < 2 ^ 64
      → m.max_retained_keys + 1 < 2 ^ 64
      → 1 ≤ m.max_retained_keys
      → (signature : Bytes) × (m' : VersionedKeyManager) × (kid' : Str) × (sign_current cr m body
          ≡ some (m.current_kid, signature))
        × (rotate cr seed now fill m ≡ done (m', kid'))
        × (let h' =
              signed_request h
                (compute_digest cr ht body)
                m.current_kid
                (cr.b64_encode signature) in
            (verify_request_integrity cr ht m body h' ≡ valid)
            × (verify_request_integrity cr ht m' body h' ≡ valid))
  verify_request_integrity-sign_current seed now fill m h body v s b room retain =
      let (sig, made, good) = verify_by_kid-sign_current cr m body v in
      let (m', kid', rotated, same) = verify_by_kid-rotate cr seed now fill m v s b room retain in
      let k = current_kid-Visible cr ht m v in
      let h' = signed_request h (compute_digest cr ht body) m.current_kid (cr.b64_encode sig) in
      (
        sig,
        m',
        kid',
        made,
        rotated,
        (
          (verify_request_integrity_iff cr ht m body h').1
              (signed_IsIntact m h body sig m.current_kid k good),
          (verify_request_integrity_iff cr ht m' body h').1
              (signed_IsIntact m' h body sig m.current_kid k (same body sig ∙ good)),
        ),
      )

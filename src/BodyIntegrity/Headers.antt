-- ===== src/BodyIntegrity/Headers.antt =====
-- crates/pqc-proxy/src/body_integrity.rs: the headers that a signed response carries. Each of them
-- is printable ASCII, so it is set and it can be read.
use pqc_gateway.Common.{
  ℕ, zero, suc, ◌+◌, ◌/◌, ◌%◌, ◌<◌, List, [], ◌∷◌, Bytes, Str, codes, str_eq, true, false,
  Bool-cases, some, ◌≡◌, inl, inr, refl, ap, ◌∙◌, take, All, All-append, arith, ltb,
}
use mathlib.Core.Path.{subst}
use pqc_gateway.Common.{sym, str_instance}
use pqc_gateway.Common.Decimal.{decimal, decimal_loop}
use pqc_gateway.Common.MapLaws.{All-lookup}
use pqc_gateway.Crypto.{Crypto}
use pqc_gateway.Http.{
  Http, Visible, set_header, get_header, get_header-set_header, get_header-set_header_ne,
}
use pqc_gateway.Signature.Keys.{colons}
use pqc_gateway.Threshold.Codes.{hex_digit, hex_byte, hex_encode}
use pqc_gateway.VersionedKeys.{VersionedKeyManager, kid_of, verify_by_kid}
use pqc_gateway.VersionedKeys.Rotation.{IsManager, IsKey}
use pqc_gateway.VersionedKeys.Verification.{verify_by_kid-sign_current}
use pqc_gateway.BodyIntegrity.{compute_digest, signed_headers, sign_response_body}

pub hex_encode-Visible : (b : Bytes) → All (λ c. c < 256) b → Visible (hex_encode b)
unfolding hex_encode hex_byte hex_digit
hex_encode-Visible [] h = tt
hex_encode-Visible (b ∷ bytes) (h, hs) = (ground arith, (ground arith, hex_encode-Visible bytes hs))

decimal_loop-Visible : (n x : ℕ) → Visible (decimal_loop n x)
unfolding decimal_loop
decimal_loop-Visible zero x = tt
decimal_loop-Visible (suc n) x = elim (Bool-cases (ltb x 10)) [
  | inl h ↦ rw h (ground (arith, h), tt)
  | inr h ↦ rw h (
      All-append _ (decimal_loop n (x / 10)) ((48 + x % 10) ∷ []) (decimal_loop-Visible n (x / 10))
        ((omega arith, omega arith), tt))
]

pub take-All {ℓ κ} :
    {A : Type ℓ} (P : A → Type κ) (n : ℕ) (xs : List A) → All P xs → All P (take n xs)
take-All P zero xs h = tt
take-All P (suc n) [] h = tt
take-All P (suc n) (x ∷ xs) (h, hs) = (h, take-All P n xs hs)

kid_of-Visible : (v : ℕ) (fingerprint : Str) → Visible fingerprint → Visible (kid_of v fingerprint)
unfolding kid_of decimal
kid_of-Visible v fingerprint h = All-append _ (codes "mldsa-v") _ (ground arith) (
    All-append _ (decimal_loop 20 v) _ (decimal_loop-Visible 20 v)
      ((omega arith, omega arith), take-All _ 8 fingerprint h))

pub colons-Visible : (b : Bytes) → All (λ c. c < 256) b → Visible (colons b)
unfolding colons hex_byte hex_digit
colons-Visible [] h = tt
colons-Visible (b ∷ []) (h, hs) = (ground arith, (ground arith, tt))
colons-Visible (b ∷ c ∷ bytes) (h, hs) =
    (ground arith, (ground arith, ((omega arith, omega arith), colons-Visible (c ∷ bytes) hs)))

module _ (cr : Crypto) (ht : Http) where
  open ht use {Headers}

  pub compute_digest-Visible : (data_ : Bytes) → Visible (compute_digest cr ht data_)
  unfolding compute_digest
  compute_digest-Visible data_ = hex_encode-Visible (cr.sha256 data_) (cr.sha256_bytes data_)

  pub current_kid-Visible : (m : VersionedKeyManager) → IsManager cr m → Visible m.current_kid
  current_kid-Visible m v =
      let (k, found, _, _) = v.current in
      let key = All-lookup (λ kid k. IsKey cr (kid, k)) m.current_kid k m.keys v.all_keys found in
      subst Visible (sym key.kid_def) (
        kid_of-Visible k.version k.fingerprint (
          subst Visible (sym key.own_fingerprint) (
            hex_encode-Visible (take 16 (cr.sha256 k.public_key))
              (take-All _ 16 _ (cr.sha256_bytes k.public_key)))))

  -- What is read of the headers after `signed_headers`.
  pub signed_headers_lem :
      (h : Headers) (digest kid : Str) (sig : Bytes)
      → Visible digest
      → Visible kid
      → let h' = signed_headers cr ht digest (some (kid, sig)) h in
        (get_header ht h' (codes "x-pqc-signature") ≡ some (cr.b64_encode sig))
        × (get_header ht h' (codes "x-pqc-signature-algorithm") ≡ some (codes "ML-DSA-65"))
        × (get_header ht h' (codes "x-pqc-content-digest") ≡ some digest)
        × (get_header ht h' (codes "x-pqc-key-id") ≡ some kid)
        × ((name : Str)
            → str_eq (codes "x-pqc-signature") name ≡ false
            → str_eq (codes "x-pqc-signature-algorithm") name ≡ false
            → str_eq (codes "x-pqc-content-digest") name ≡ false
            → str_eq (codes "x-pqc-key-id") name ≡ false
            → get_header ht h' name ≡ get_header ht h name)
  unfolding signed_headers str_eq
  signed_headers_lem h digest kid sig d k =
      let h₁ = set_header ht h (codes "x-pqc-signature") (cr.b64_encode sig) in
      let h₂ = set_header ht h₁ (codes "x-pqc-signature-algorithm") (codes "ML-DSA-65") in
      let h₃ = set_header ht h₂ (codes "x-pqc-content-digest") digest in
      let id = codes "x-pqc-key-id" in
      let dig = codes "x-pqc-content-digest" in
      let alg = codes "x-pqc-signature-algorithm" in
      let sg = codes "x-pqc-signature" in
      (
        get_header-set_header_ne ht h₃ id sg kid refl
            ∙ get_header-set_header_ne ht h₂ dig sg digest refl
            ∙ get_header-set_header_ne ht h₁ alg sg (codes "ML-DSA-65") refl
            ∙ get_header-set_header ht h sg (cr.b64_encode sig) (cr.b64_visible sig),
        get_header-set_header_ne ht h₃ id alg kid refl
            ∙ get_header-set_header_ne ht h₂ dig alg digest refl
            ∙ get_header-set_header ht h₁ alg (codes "ML-DSA-65") (ground arith),
        get_header-set_header_ne ht h₃ id dig kid refl ∙ get_header-set_header ht h₂ dig digest d,
        get_header-set_header ht h₃ id kid k,
        λ name n₁ n₂ n₃ n₄.
            get_header-set_header_ne ht h₃ id name kid n₄
            ∙ get_header-set_header_ne ht h₂ dig name digest n₃
            ∙ get_header-set_header_ne ht h₁ alg name (codes "ML-DSA-65") n₂
            ∙ get_header-set_header_ne ht h sg name (cr.b64_encode sig) n₁,
      )

  -- The headers that a response gets from a manager of keys: they name the current key, carry the
  -- digest of the body, and a signature in base64 that the manager verifies under that name.
  pub sign_response_body_lem :
      (m : VersionedKeyManager) (body : Bytes) (h : Headers)
      → IsManager cr m
      → let h' = sign_response_body cr ht m body h in
        (signature : Bytes) × (get_header ht h' (codes "x-pqc-signature")
          ≡ some (cr.b64_encode signature))
        × (cr.b64_decode (cr.b64_encode signature) ≡ some signature)
        × (get_header ht h' (codes "x-pqc-key-id") ≡ some m.current_kid)
        × (verify_by_kid cr m m.current_kid body signature ≡ true)
        × (get_header ht h' (codes "x-pqc-content-digest") ≡ some (compute_digest cr ht body))
        × (get_header ht h' (codes "x-pqc-signature-algorithm") ≡ some (codes "ML-DSA-65"))
        × (h'
            ≡ signed_headers cr ht (compute_digest cr ht body) (some (m.current_kid, signature)) h)
  unfolding sign_response_body
  sign_response_body_lem m body h v =
      let (sig, made, good) = verify_by_kid-sign_current cr m body v in
      let e = ap (λ o. signed_headers cr ht (compute_digest cr ht body) o h) made in
      let (a, b, c, d, _) =
        signed_headers_lem h (compute_digest cr ht body) m.current_kid sig
          (compute_digest-Visible body) (current_kid-Visible m v) in
      (
        sig,
        ap (λ x. get_header ht x (codes "x-pqc-signature")) e ∙ a,
        cr.b64_round sig,
        ap (λ x. get_header ht x (codes "x-pqc-key-id")) e ∙ d,
        good,
        ap (λ x. get_header ht x (codes "x-pqc-content-digest")) e ∙ c,
        ap (λ x. get_header ht x (codes "x-pqc-signature-algorithm")) e ∙ b,
        e,
      )

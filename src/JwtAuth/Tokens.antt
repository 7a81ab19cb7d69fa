-- ===== src/JwtAuth/Tokens.antt =====
-- crates/pqc-proxy/src/jwt_auth.rs: which tokens are valid.
use pqc_gateway.Common.{
  ℕ, ◌≤◌, ◌≡◌, ◌↔◌, refl, ap, ◌∙◌, List, [], ◌∷◌, Bytes, Str, codes, str_eq, str_eq_iff, Bool, true,
  false, not, ltb, Option, none, some, Result, ok, err, if◌then◌else◌, arith,
}
use pqc_gateway.Crypto.{Crypto}
use pqc_gateway.VersionedKeys.{VersionedKeyManager, verify_by_kid}
use pqc_gateway.JwtAuth.{
  JwtClaims, JwtHeader, JwtError, expired, unsupported_algorithm, invalid_signature, invalid_issuer,
  invalid_audience, Json, split, signing_input, check_token, read_with, decoded_with, verify_parts,
  verify_jwt,
}

-- A chain of five guards ends with a result exactly when every guard is passed.
guards_iff :
    (a b c d e : Bool) (u v w x y : JwtError) (read claims : JwtClaims)
    → ((if not a
          then err u
          else if not b
          then err v
          else if c
          then err w
          else if not d
          then err x
          else if not e
          then err y
          else ok read)
        ≡ ok claims)
      ↔ ((a ≡ true) × (b ≡ true) × (c ≡ false) × (d ≡ true) × (e ≡ true) × (read ≡ claims))
guards_iff false b c d e u v w x y read claims = ((λ h. cc), (λ (p, _, _, _, _, _). cc))
guards_iff true false c d e u v w x y read claims = ((λ h. cc), (λ (_, p, _, _, _, _). cc))
guards_iff true true true d e u v w x y read claims = ((λ h. cc), (λ (_, _, p, _, _, _). cc))
guards_iff true true false false e u v w x y read claims = ((λ h. cc), (λ (_, _, _, p, _, _). cc))
guards_iff true true false true false u v w x y read claims =
    ((λ h. cc), (λ (_, _, _, _, p, _). cc))
guards_iff true true false true true u v w x y read claims =
    ((λ h. (refl, refl, refl, refl, refl, cc)), (λ (_, _, _, _, _, p). ap ok p))

module _ (cr : Crypto) (js : Json) where
  -- What makes the claims those of a valid token.
  pub record IsValidToken (now : ℕ) (m : VersionedKeyManager) (token issuer audience : Str)
      (claims : JwtClaims) : Type 0 where
    pub header_b64 : Str
    pub claims_b64 : Str
    pub sig_b64 : Str
    pub header_bytes : Bytes
    pub claims_bytes : Bytes
    pub sig : Bytes
    pub header : JwtHeader
    pub parts : split b'.' token ≡ header_b64 ∷ claims_b64 ∷ sig_b64 ∷ []
    pub header_decoded : cr.b64url_decode header_b64 ≡ some header_bytes
    pub claims_decoded : cr.b64url_decode claims_b64 ≡ some claims_bytes
    pub sig_decoded : cr.b64url_decode sig_b64 ≡ some sig
    pub header_read : js.read_header header_bytes ≡ some header
    pub claims_read : js.read_claims claims_bytes ≡ some claims
    pub algorithm : header.alg ≡ codes "ML-DSA-65"
    pub signed :
        verify_by_kid cr m header.kid (signing_input cr js header_b64 claims_b64) sig ≡ true
    pub in_time : now ≤ claims.exp
    pub own_issuer : claims.iss ≡ issuer
    pub own_audience : claims.aud ≡ audience

  check_token_iff :
      (now : ℕ) (m : VersionedKeyManager) (issuer audience input : Str) (sig : Bytes)
      (header : JwtHeader) (read claims : JwtClaims)
      → (check_token cr js now m issuer audience input sig header read ≡ ok claims) ↔ (
          (header.alg ≡ codes "ML-DSA-65")
          × (verify_by_kid cr m header.kid input sig ≡ true)
          × (now ≤ read.exp)
          × (read.iss ≡ issuer)
          × (read.aud ≡ audience)
          × (read ≡ claims))
  unfolding check_token
  check_token_iff now m issuer audience input sig header read claims =
      let (alg, alg') = str_eq_iff header.alg (codes "ML-DSA-65") in
      let (iss, iss') = str_eq_iff read.iss issuer in
      let (aud, aud') = str_eq_iff read.aud audience in
      let (to, from) =
        guards_iff (str_eq header.alg (codes "ML-DSA-65")) (verify_by_kid cr m header.kid input sig)
          (ltb read.exp now) (str_eq read.iss issuer) (str_eq read.aud audience)
          (unsupported_algorithm header.alg) invalid_signature expired invalid_issuer
          invalid_audience read claims in
      (
        (λ h. let (a, s, t, i, d, e) = to h in (alg a, s, ground (arith, t), iss i, aud d, e)),
        (λ (a, s, t, i, d, e). from (alg' a, s, ground (arith, t), iss' i, aud' d, e)),
      )

  -- The parts of a token whose claims were returned.
  inverted :
      (now : ℕ) (m : VersionedKeyManager) (token issuer audience : Str) (claims : JwtClaims)
      (parts : List Str)
      → split b'.' token ≡ parts
      → verify_parts cr js now m issuer audience parts ≡ ok claims
      → IsValidToken now m token issuer audience claims
  unfolding verify_parts
  inverted now m token issuer audience claims [] e h = cc
  inverted now m token issuer audience claims (a ∷ []) e h = cc
  inverted now m token issuer audience claims (a ∷ b ∷ []) e h = cc
  inverted now m token issuer audience claims (a ∷ b ∷ c ∷ d ∷ parts) e h = cc
  inverted now m token issuer audience claims (a ∷ b ∷ c ∷ []) e h =
      decoded (cr.b64url_decode a) (cr.b64url_decode b) (cr.b64url_decode c) refl refl refl h
    where
      check : Bytes → JwtHeader → JwtClaims → Result JwtClaims JwtError
      check = check_token cr js now m issuer audience (signing_input cr js a b)

      read :
          (header_bytes claims_bytes sig : Bytes)
          → cr.b64url_decode a ≡ some header_bytes
          → cr.b64url_decode b ≡ some claims_bytes
          → cr.b64url_decode c ≡ some sig
          → (x : Option JwtHeader) → (y : Option JwtClaims) → js.read_header header_bytes ≡ x
          → js.read_claims claims_bytes ≡ y
          → read_with cr js (check sig) x y ≡ ok claims
          → IsValidToken now m token issuer audience claims
      read hb cb sig p q r none y s t h = cc
      read hb cb sig p q r (some header) none s t h = cc
      read hb cb sig p q r (some header) (some found) s t h =
          let (alg, good, time, iss, aud, same) =
            (check_token_iff now m issuer audience (signing_input cr js a b) sig header found
                claims).0
              h in
          record {
            header_b64 = a;
            claims_b64 = b;
            sig_b64 = c;
            header_bytes = hb;
            claims_bytes = cb;
            sig = sig;
            header = header;
            parts = e;
            header_decoded = p;
            claims_decoded = q;
            sig_decoded = r;
            header_read = s;
            claims_read = t ∙ ap some same;
            algorithm = alg;
            signed = good;
            in_time = rw⁻¹ same time;
            own_issuer = rw⁻¹ same iss;
            own_audience = rw⁻¹ same aud;
          }

      decoded :
          (x y z : Option Bytes)
          → cr.b64url_decode a ≡ x
          → cr.b64url_decode b ≡ y
          → cr.b64url_decode c ≡ z
          → decoded_with cr js
              (λ header claims sig.
                read_with cr js (check sig) (js.read_header header) (js.read_claims claims))
              x
              y
              z
            ≡ ok claims
          → IsValidToken now m token issuer audience claims
      decoded none y z p q r h = cc
      decoded (some x) none z p q r h = cc
      decoded (some x) (some y) none p q r h = cc
      decoded (some x) (some y) (some z) p q r h =
          read x y z p q r (js.read_header x) (js.read_claims y) refl refl h

  -- Claims are returned exactly for a token of three parts that decode and are read, whose algorithm
  -- is ML-DSA-65, whose signature is by the key that its header names, whose time is not over, and
  -- whose issuer and audience are the expected ones; they are the claims that the token carries.
  pub verify_jwt_iff :
      (now : ℕ) (m : VersionedKeyManager) (token issuer audience : Str) (claims : JwtClaims)
      → (verify_jwt cr js now m token issuer audience ≡ ok claims)
        ↔ IsValidToken now m token issuer audience claims
  unfolding verify_jwt verify_parts
  verify_jwt_iff now m token issuer audience claims = (
    (λ h. inverted now m token issuer audience claims (split b'.' token) refl h),
    (λ v.
        rw
          (v.parts, v.header_decoded, v.claims_decoded, v.sig_decoded, v.header_read, v.claims_read)
          ((check_token_iff now m issuer audience (signing_input cr js v.header_b64 v.claims_b64)
              v.sig v.header claims claims).1
            (v.algorithm, v.signed, v.in_time, v.own_issuer, v.own_audience, refl))),
  )

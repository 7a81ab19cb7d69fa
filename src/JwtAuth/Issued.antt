-- ===== src/JwtAuth/Issued.antt =====
-- crates/pqc-proxy/src/jwt_auth.rs: the tokens that are issued are valid until they expire.
use pqc_gateway.Common.{
  ℕ, ◌+◌, ◌%◌, ◌^◌, ◌≤◌, ◌<◌, ◌≡◌, refl, ap, ◌∙◌, List, [], ◌∷◌, ◌++◌, All, Bytes, Str, str_eq,
  str_eq_refl, true, false, ltb, ◌==◌, some, ok, err, done, if◌then◌else◌, length, arith,
}
use mathlib.Core.List.{append_assoc}
use pqc_gateway.Crypto.{Crypto}
use pqc_gateway.VersionedKeys.{VersionedKeyManager, rotate, verify_by_kid}
use pqc_gateway.VersionedKeys.Rotation.{IsManager}
use pqc_gateway.VersionedKeys.Verification.{verify_by_kid-sign_current, verify_by_kid-rotate}
use pqc_gateway.JwtAuth.{
  JwtClaims, JwtHeader, expired, Json, split, new_header, new_claims, signing_input, with_signature,
  with_parts, create_jwt, check_token, verify_parts, verify_jwt,
}

-- A part without the separator ends at the next one.
split-append :
    (sep : ℕ) (part s : Str)
    → All (λ c. (c == sep) ≡ false) part
    → split sep (part ++ (sep ∷ s)) ≡ part ∷ split sep s
unfolding split
split-append sep [] s h = ground arith
split-append sep (c ∷ part) s (d, h) = let rest = split-append sep part s h in rw (d, rest) refl

split-plain :
    (sep : ℕ) (part : Str) → All (λ c. (c == sep) ≡ false) part → split sep part ≡ part ∷ []
unfolding split
split-plain sep [] h = refl
split-plain sep (c ∷ part) (d, h) = rw (d, split-plain sep part h) refl

module _ (cr : Crypto) (js : Json) where
  -- A token made of three encoded parts comes to the checks of its header and its claims.
  verify_jwt_parts :
      (now : ℕ) (m : VersionedKeyManager) (issuer audience : Str)
      (header_bytes claims_bytes sig : Bytes) (header : JwtHeader) (claims : JwtClaims)
      → js.read_header header_bytes ≡ some header
      → js.read_claims claims_bytes ≡ some claims
      → (let input =
            signing_input cr js (cr.b64url_encode header_bytes) (cr.b64url_encode claims_bytes) in
          verify_jwt cr js now m (input ++ (b'.' ∷ cr.b64url_encode sig)) issuer audience
          ≡ check_token cr js now m issuer audience input sig header claims)
  unfolding verify_jwt verify_parts signing_input
  verify_jwt_parts now m issuer audience hb cb sig header claims h c =
      let a = cr.b64url_encode hb in
      let b = cr.b64url_encode cb in
      let s = cr.b64url_encode sig in
      let parts : split b'.' ((a ++ (b'.' ∷ b)) ++ (b'.' ∷ s)) ≡ a ∷ b ∷ s ∷ [] =
        ap (split b'.') (append_assoc a (b'.' ∷ b) (b'.' ∷ s))
        ∙ split-append b'.' a (b ++ (b'.' ∷ s)) (cr.b64url_plain hb)
        ∙ ap (◌∷◌ a) (
            split-append b'.' b s (cr.b64url_plain cb)
            ∙ ap (◌∷◌ b) (split-plain b'.' s (cr.b64url_plain sig))) in
      rw (parts, cr.b64url_round hb, cr.b64url_round cb, cr.b64url_round sig, h, c) refl

  -- The checks of claims that the manager issued, for a signature that it verifies.
  check_token_new :
      (now later : ℕ) (m m' : VersionedKeyManager) (jti kid sub : Str) (roles : List Str)
      (issuer audience input : Str) (ttl : ℕ) (sig : Bytes)
      → now + ttl < 2 ^ 64
      → verify_by_kid cr m' kid input sig ≡ true
      → (let claims = new_claims now jti kid sub roles issuer audience ttl in
          check_token cr js later m' issuer audience input sig (new_header kid) claims
          ≡ (if ltb (now + ttl) later then err expired else ok claims))
  unfolding check_token new_claims new_header str_eq
  check_token_new now later m m' jti kid sub roles issuer audience input ttl sig small good =
      let t : (now + ttl) % 2 ^ 64 ≡ now + ttl = ground arith in
      rw (good, t, str_eq_refl issuer, str_eq_refl audience) refl

  -- A manager in order issues a token for every subject and all roles, when the time of its end fits
  -- in 64 bits. Until that time, and at it, the token gives back its claims to the issuer's audience,
  -- and after it the token is refused as expired; the same holds after a rotation of the keys, if the
  -- manager retains at least one key.
  pub verify_jwt-create_jwt :
      (now later rotated ttl : ℕ) (jti sub issuer audience : Str) (roles : List Str) (seed : Bytes)
      (fill : ℕ → ℕ → Bytes) (m : VersionedKeyManager)
      → IsManager cr m
      → now + ttl < 2 ^ 64
      → length seed ≡ 32
      → m.next_version + 1 < 2 ^ 64
      → m.max_retained_keys + 1 < 2 ^ 64
      → 1 ≤ m.max_retained_keys
      → (token : Str) × (m' : VersionedKeyManager) × (kid' : Str) × (create_jwt cr js now jti m sub
            roles issuer audience ttl
          ≡ some token)
        × (rotate cr seed rotated fill m ≡ done (m', kid'))
        × (let claims = new_claims now jti m.current_kid sub roles issuer audience ttl in
            let expected = if ltb (now + ttl) later then err expired else ok claims in
            (verify_jwt cr js later m token issuer audience ≡ expected)
            × (verify_jwt cr js later m' token issuer audience ≡ expected))
  unfolding create_jwt with_parts with_signature
  verify_jwt-create_jwt now later rotated ttl jti sub issuer audience roles seed fill m v small s b
        room retain =
      let kid = m.current_kid in
      let header = new_header kid in
      let claims = new_claims now jti kid sub roles issuer audience ttl in
      let (hb, hw, hr) = js.header_round header in
      let (cb, cw, cread) = js.claims_round claims in
      let input = signing_input cr js (cr.b64url_encode hb) (cr.b64url_encode cb) in
      let (sig, made, good) = verify_by_kid-sign_current cr m input v in
      let (m', kid', e, same) = verify_by_kid-rotate cr seed rotated fill m v s b room retain in
      (
        input ++ (b'.' ∷ cr.b64url_encode sig),
        m',
        kid',
        rw (hw, cw, made) refl,
        e,
        (
          verify_jwt_parts later m issuer audience hb cb sig header claims hr cread
              ∙ check_token_new now later m m jti kid sub roles issuer audience input ttl sig small
                  good,
          verify_jwt_parts later m' issuer audience hb cb sig header claims hr cread
              ∙ check_token_new now later m m' jti kid sub roles issuer audience input ttl sig small
                  (same input sig ∙ good),
        ),
      )

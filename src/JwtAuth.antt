-- ===== src/JwtAuth.antt =====
-- crates/pqc-proxy/src/jwt_auth.rs: tokens signed by the current versioned key, and the middleware that
-- asks for them. The clock and the identifier of a new token are arguments.
pub mod Tokens
pub mod Issued
pub mod Middleware
mod Tests
use pqc_gateway.Common.{
  ℕ, ◌+◌, ◌%◌, ◌^◌, ◌≡◌, List, [], ◌∷◌, ◌++◌, Bytes, Str, codes, str_eq, starts_with, strip_prefix,
  Bool, true, false, not, ltb, ◌==◌, ◌||◌, Option, none, some, Result, ok, err, if◌then◌else◌,
}
use pqc_gateway.Crypto.{Crypto}
use pqc_gateway.GatewayError.{ErrorBody}
use pqc_gateway.Http.{Http, set_header, get_header}
use pqc_gateway.VersionedKeys.{VersionedKeyManager, sign_current, verify_by_kid}

pub record JwtClaims : Type 0 where
  pub sub : Str
  pub iss : Str
  pub aud : Str
  pub exp : ℕ  -- u64
  pub iat : ℕ  -- u64
  pub jti : Str
  pub roles : List Str
  pub kid : Str
  pub alg : Str

pub record JwtHeader : Type 0 where
  pub alg : Str
  pub typ : Str
  pub kid : Str

pub data JwtError : Type 0 where
  malformed_token : JwtError
  unsupported_algorithm : Str → JwtError
  invalid_signature : JwtError
  expired : JwtError
  invalid_issuer : JwtError
  invalid_audience : JwtError
  missing_token : JwtError

-- The crate `serde_json` on the two records: what is written is read again.
pub record Json : Type 0 where
  pub write_header : JwtHeader → Option Bytes
  pub read_header : Bytes → Option JwtHeader
  pub write_claims : JwtClaims → Option Bytes
  pub read_claims : Bytes → Option JwtClaims
  pub header_round :
      (h : JwtHeader) → (b : Bytes) × (write_header h ≡ some b) × (read_header b ≡ some h)
  pub claims_round :
      (c : JwtClaims) → (b : Bytes) × (write_claims c ≡ some b) × (read_claims b ≡ some c)

-- `Display`.
unfoldable pub to_string : JwtError → Str
to_string malformed_token = codes "malformed JWT token"
to_string (unsupported_algorithm alg) = codes "unsupported algorithm: " ++ alg
to_string invalid_signature = codes "invalid signature"
to_string expired = codes "token expired"
to_string invalid_issuer = codes "invalid issuer"
to_string invalid_audience = codes "invalid audience"
to_string missing_token = codes "missing authorization token"

unfoldable pub status_of : JwtError → ℕ
status_of malformed_token = 401
status_of (unsupported_algorithm alg) = 401
status_of invalid_signature = 401
status_of expired = 401
status_of invalid_issuer = 401
status_of invalid_audience = 401
status_of missing_token = 401

unfoldable pub into_response : JwtError → ℕ × ErrorBody
into_response e = (status_of e, record { error = to_string e; status = status_of e })

-- `s.split(sep).collect()`: one part more than there are separators.
abbrev pub push : ℕ → List Str → List Str
push c [] = []
push c (part ∷ parts) = (c ∷ part) ∷ parts

unfoldable pub split : ℕ → Str → List Str
split sep [] = [] ∷ []
split sep (c ∷ s) = let rest = split sep s in if c == sep then [] ∷ rest else push c rest

-- `roles.join(",")`.
unfoldable pub join : Str → List Str → Str
join sep [] = []
join sep (s ∷ []) = s
join sep (s ∷ t ∷ rest) = s ++ sep ++ join sep (t ∷ rest)

unfoldable pub new_header : Str → JwtHeader
new_header kid = record { alg = codes "ML-DSA-65"; typ = codes "JWT"; kid = kid }

unfoldable pub new_claims : ℕ → Str → Str → Str → List Str → Str → Str → ℕ → JwtClaims
new_claims now jti kid sub roles issuer audience ttl_seconds = record {
  sub = sub;
  iss = issuer;
  aud = audience;
  exp = (now + ttl_seconds) % 2 ^ 64;
  iat = now;
  jti = jti;
  roles = roles;
  kid = kid;
  alg = codes "ML-DSA-65";
}

module _ (cr : Crypto) (js : Json) where
  unfoldable pub signing_input : Str → Str → Str
  signing_input header_b64 claims_b64 = header_b64 ++ (b'.' ∷ claims_b64)

  unfoldable pub with_signature : Str → Option (Str × Bytes) → Option Str
  with_signature input none = none
  with_signature input (some (kid, sig)) = some (input ++ (b'.' ∷ cr.b64url_encode sig))

  unfoldable pub with_parts : VersionedKeyManager → Option Bytes → Option Bytes → Option Str
  with_parts m (some header) (some claims) =
      let input = signing_input (cr.b64url_encode header) (cr.b64url_encode claims) in
      with_signature input (sign_current cr m input)
  with_parts m (some header) none = none
  with_parts m none claims = none

  unfoldable pub create_jwt :
      ℕ → Str → VersionedKeyManager → Str → List Str → Str → Str → ℕ → Option Str
  create_jwt now jti m sub roles issuer audience ttl_seconds =
      with_parts m (js.write_header (new_header m.current_kid))
        (js.write_claims (new_claims now jti m.current_kid sub roles issuer audience ttl_seconds))

  -- The checks of a token that was read.
  unfoldable pub check_token :
      ℕ
      → VersionedKeyManager
      → Str
      → Str
      → Str
      → Bytes
      → JwtHeader
      → JwtClaims
      → Result JwtClaims JwtError
  check_token now m issuer audience input sig header claims =
      if not (str_eq header.alg (codes "ML-DSA-65"))
      then err (unsupported_algorithm header.alg)
      else if not (verify_by_kid cr m header.kid input sig)
      then err invalid_signature
      else if ltb claims.exp now
      then err expired
      else if not (str_eq claims.iss issuer)
      then err invalid_issuer
      else if not (str_eq claims.aud audience)
      then err invalid_audience
      else ok claims

  -- Its header and its claims are read.
  abbrev pub read_with :
      (JwtHeader → JwtClaims → Result JwtClaims JwtError)
      → Option JwtHeader
      → Option JwtClaims
      → Result JwtClaims JwtError
  read_with check none claims = err malformed_token
  read_with check (some header) none = err malformed_token
  read_with check (some header) (some claims) = check header claims

  -- Its parts are decoded.
  abbrev pub decoded_with :
      (Bytes → Bytes → Bytes → Result JwtClaims JwtError)
      → Option Bytes
      → Option Bytes
      → Option Bytes
      → Result JwtClaims JwtError
  decoded_with read none claims sig = err malformed_token
  decoded_with read (some header) none sig = err malformed_token
  decoded_with read (some header) (some claims) none = err malformed_token
  decoded_with read (some header) (some claims) (some sig) = read header claims sig

  unfoldable pub verify_parts :
      ℕ → VersionedKeyManager → Str → Str → List Str → Result JwtClaims JwtError
  verify_parts now m issuer audience [] = err malformed_token
  verify_parts now m issuer audience (a ∷ []) = err malformed_token
  verify_parts now m issuer audience (a ∷ b ∷ []) = err malformed_token
  verify_parts now m issuer audience (a ∷ b ∷ c ∷ d ∷ parts) = err malformed_token
  verify_parts now m issuer audience (a ∷ b ∷ c ∷ []) =
      decoded_with
        (λ header claims sig.
          read_with (check_token now m issuer audience (signing_input a b) sig)
            (js.read_header header) (js.read_claims claims))
        (cr.b64url_decode a) (cr.b64url_decode b) (cr.b64url_decode c)

  unfoldable pub verify_jwt : ℕ → VersionedKeyManager → Str → Str → Str → Result JwtClaims JwtError
  verify_jwt now m token issuer audience = verify_parts now m issuer audience (split b'.' token)

pub record AuthState : Type 0 where
  pub key_manager : VersionedKeyManager
  pub issuer : Str
  pub audience : Str
  pub public_paths : List Str

unfoldable pub any_prefix : Str → List Str → Bool
any_prefix path [] = false
any_prefix path (p ∷ ps) = starts_with path p || any_prefix path ps

unfoldable pub is_public_path : AuthState → Str → Bool
is_public_path auth path = any_prefix path auth.public_paths

module _ (cr : Crypto) (js : Json) (ht : Http) where
  open ht use {Headers}

  -- What the middleware does: the next handler runs with these headers, or a response is sent.
  pub data AuthVerdict : Type 0 where
    run : Headers → AuthVerdict
    refuse : ℕ × ErrorBody → AuthVerdict

  abbrev pub bearer : Option Str → Option Str
  bearer none = none
  bearer (some v) = strip_prefix v (codes "Bearer ")

  unfoldable pub with_claims : Headers → JwtClaims → Headers
  with_claims h claims =
      set_header ht
        (set_header ht (set_header ht h (codes "x-auth-subject") claims.sub) (codes "x-auth-roles")
          (join (codes ",") claims.roles))
        (codes "x-auth-kid") claims.kid

  abbrev pub verdict_of : Headers → Result JwtClaims JwtError → AuthVerdict
  verdict_of h (ok claims) = run (with_claims h claims)
  verdict_of h (err e) = refuse (into_response e)

  abbrev pub verdict_of_token : ℕ → AuthState → Headers → Option Str → AuthVerdict
  verdict_of_token now auth h none = refuse (into_response missing_token)
  verdict_of_token now auth h (some token) =
      verdict_of h (verify_jwt cr js now auth.key_manager token auth.issuer auth.audience)

  unfoldable pub jwt_auth_middleware : ℕ → AuthState → Str → Headers → AuthVerdict
  jwt_auth_middleware now auth path h =
      if is_public_path auth path
      then run h
      else verdict_of_token now auth h (bearer (get_header ht h (codes "authorization")))

-- ===== src/JwtAuth/Tests.antt =====
-- A token of a manager with one key, and a request that carries none.
use pqc_gateway.Common.{
  ℕ, zero, suc, ◌+◌, ◌≡◌, ◌↔◌, ◌⊎◌, refl, ap, ◌∙◌, List, [], ◌∷◌, Bytes, Str, codes, true, false,
  some, ok, err, done, ltb, if◌then◌else◌, arith, str_instance, starts_with,
}
use pqc_gateway.Common.Map.{Map}
use pqc_gateway.Crypto.Toy.{toy_crypto, filled}
use pqc_gateway.Http.{get_header}
use pqc_gateway.Http.Toy.{toy_http}
use pqc_gateway.VersionedKeys.{VersionedKeyManager, new, rotate}
use pqc_gateway.VersionedKeys.Rotation.{new-IsManager}
use pqc_gateway.JwtAuth.{
  JwtClaims, JwtHeader, expired, malformed_token, Json, push, split, new_claims, create_jwt,
  verify_jwt, verify_parts, AuthState, any_prefix, is_public_path, run, with_claims,
  jwt_auth_middleware,
}
use pqc_gateway.JwtAuth.Issued.{verify_jwt-create_jwt}
use pqc_gateway.JwtAuth.Middleware.{AreNamed, Carries, jwt_auth_middleware_iff}

-- A format for the tests: the fields in their order, each byte one higher, ended by zeros.
abbrev ended : Str → Bytes → Bytes
ended [] rest = 0 ∷ rest
ended (c ∷ s) rest = suc c ∷ ended s rest

abbrev write : List Str → Bytes
write [] = []
write (s ∷ fields) = ended s (write fields)

abbrev read : Bytes → List Str
read [] = []
read (zero ∷ bytes) = [] ∷ read bytes
read (suc c ∷ bytes) = push c (read bytes)

read-ended : (s : Str) (rest : Bytes) → read (ended s rest) ≡ s ∷ read rest
read-ended [] rest = refl
read-ended (c ∷ s) rest = ap (push c) (read-ended s rest)

read-write : (fields : List Str) → read (write fields) ≡ fields
read-write [] = refl
read-write (s ∷ fields) = read-ended s (write fields) ∙ ap (◌∷◌ s) (read-write fields)

abbrev field : ℕ → List Str → Str
field i [] = []
field zero (s ∷ fields) = s
field (suc i) (s ∷ fields) = field i fields

abbrev number : Str → ℕ
number [] = 0
number (n ∷ s) = n

abbrev after : ℕ → List Str → List Str
after zero fields = fields
after (suc n) [] = []
after (suc n) (s ∷ fields) = after n fields

abbrev header_fields : JwtHeader → List Str
header_fields h = h.alg ∷ h.typ ∷ h.kid ∷ []

abbrev header_of : List Str → JwtHeader
header_of f = record { alg = field 0 f; typ = field 1 f; kid = field 2 f }

abbrev claims_fields : JwtClaims → List Str
claims_fields c =
    c.sub ∷ c.iss ∷ c.aud ∷ (c.exp ∷ []) ∷ (c.iat ∷ []) ∷ c.jti ∷ c.kid ∷ c.alg ∷ c.roles

abbrev claims_of : List Str → JwtClaims
claims_of f = record {
  sub = field 0 f;
  iss = field 1 f;
  aud = field 2 f;
  exp = number (field 3 f);
  iat = number (field 4 f);
  jti = field 5 f;
  roles = after 8 f;
  kid = field 6 f;
  alg = field 7 f;
}

abbrev toy_json : Json
toy_json = record {
  write_header = λ h. some (write (header_fields h));
  read_header = λ b. some (header_of (read b));
  write_claims = λ c. some (write (claims_fields c));
  read_claims = λ b. some (claims_of (read b));
  header_round = λ h.
      (write (header_fields h), refl, ap (λ f. some (header_of f)) (read-write (header_fields h)));
  claims_round = λ c.
      (write (claims_fields c), refl, ap (λ f. some (claims_of f)) (read-write (claims_fields c)));
}

abbrev no_bytes : ℕ → ℕ → Bytes
no_bytes i n = []

abbrev manager : VersionedKeyManager
manager = new toy_crypto (filled 32 (7 ∷ [])) 1000 1

abbrev auth : AuthState
auth = record {
  key_manager = manager;
  issuer = codes "gateway";
  audience = codes "api";
  public_paths = codes "/health" ∷ [];
}

two_parts :
    verify_jwt toy_crypto toy_json 5 manager (codes "a.b") (codes "gateway") (codes "api")
    ≡ err malformed_token
unfolding verify_jwt verify_parts split
two_parts = refl

health_is_public : is_public_path auth (codes "/health/live") ≡ true
unfolding is_public_path any_prefix starts_with
health_is_public = refl

verify_jwt-create_jwt_example :
    (token : Str) × (m' : VersionedKeyManager) × (kid' : Str) × (create_jwt toy_crypto toy_json 1000
        (codes "id")
        manager
        (codes "alice")
        (codes "admin" ∷ [])
        (codes "gateway")
        (codes "api")
        60
      ≡ some token)
    × (rotate toy_crypto (filled 32 (9 ∷ [])) 1010 no_bytes manager ≡ done (m', kid'))
    × (let claims =
          new_claims 1000
            (codes "id")
            manager.current_kid
            (codes "alice")
            (codes "admin" ∷ [])
            (codes "gateway")
            (codes "api")
            60 in
        let expected = if ltb (1000 + 60) 1030 then err expired else ok claims in
        (verify_jwt toy_crypto toy_json 1030 manager token (codes "gateway") (codes "api")
          ≡ expected)
        × (verify_jwt toy_crypto toy_json 1030 m' token (codes "gateway") (codes "api") ≡ expected))
unfolding new
verify_jwt-create_jwt_example =
    verify_jwt-create_jwt toy_crypto toy_json 1000 1030 1010 60 (codes "id") (codes "alice")
      (codes "gateway") (codes "api") (codes "admin" ∷ []) (filled 32 (9 ∷ [])) no_bytes manager
      (new-IsManager toy_crypto (filled 32 (7 ∷ [])) 1000 1 refl) (omega arith) refl (omega arith)
      (omega arith) (omega arith)

-- The headers of a client that names itself.
abbrev some_headers : Map Str Str
some_headers = (codes "x-auth-subject", codes "mallory") ∷ []

jwt_auth_middleware_iff_example :
    (jwt_auth_middleware toy_crypto toy_json toy_http 1030 auth (codes "/api") some_headers
      ≡ run some_headers)
    ↔ (((is_public_path auth (codes "/api") ≡ true) × (some_headers ≡ some_headers))
        ⊎ ((is_public_path auth (codes "/api") ≡ false)
            × ((claims : JwtClaims) × (some_headers
                  ≡ with_claims toy_crypto toy_json toy_http some_headers claims)
                × AreNamed toy_crypto toy_json toy_http some_headers claims some_headers
                × Carries toy_crypto toy_json toy_http 1030 auth
                    (get_header toy_http some_headers (codes "authorization"))
                    claims)))
jwt_auth_middleware_iff_example =
    jwt_auth_middleware_iff toy_crypto toy_json toy_http 1030 auth (codes "/api") some_headers
      some_headers

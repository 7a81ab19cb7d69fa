-- ===== src/JwtAuth/Middleware.antt =====
-- crates/pqc-proxy/src/jwt_auth.rs: whom the middleware lets through, and with which headers.
use mathlib.Core.Path.{subst}
use pqc_gateway.Common.{
  ℕ, ◌≡◌, ◌⊎◌, ◌↔◌, ◌||◌, Bool, refl, sym, ap, ◌∙◌, ◌++◌, Str, codes, str_eq, true, false,
  Bool-cases, inl, inr, Option, none, some, Result, ok, err, str_eq_refl, strip_prefix,
  strip_prefix_iff, if◌then◌else◌,
}
use pqc_gateway.Crypto.{Crypto}
use pqc_gateway.Http.{Http, set_header, get_header, get-set_header_ne}
use pqc_gateway.JwtAuth.{
  JwtClaims, JwtError, Json, verify_jwt, AuthState, is_public_path, AuthVerdict, run, bearer, join,
  with_claims, verdict_of, verdict_of_token, jwt_auth_middleware,
}
use pqc_gateway.JwtAuth.Tokens.{IsValidToken, verify_jwt_iff}

module _ (cr : Crypto) (js : Json) (ht : Http) where
  open ht use {Headers}

  -- The value of the header carries a valid token with these claims.
  abbrev pub Carries : ℕ → AuthState → Option Str → JwtClaims → Type 0
  Carries now auth v claims =
      (token : Str) × (v ≡ some (codes "Bearer " ++ token))
      × IsValidToken cr js now auth.key_manager token auth.issuer auth.audience claims

  verdict_iff :
      (now : ℕ) (auth : AuthState) (h h' : Headers) (v : Option Str)
      → (verdict_of_token cr js ht now auth h (bearer cr js ht v) ≡ run h')
        ↔ ((claims : JwtClaims) × (h' ≡ with_claims cr js ht h claims) × Carries now auth v claims)
  verdict_iff now auth h h' none = ((λ e. cc), (λ (_, _, (_, e, _)). cc))
  verdict_iff now auth h h' (some v) = (token_of (strip_prefix v (codes "Bearer ")) refl, back)
    where
      Allowed : Type 0
      Allowed =
          (claims : JwtClaims) × (h' ≡ with_claims cr js ht h claims)
          × Carries now auth (some v) claims

      result_of :
          (token : Str)
          → v ≡ codes "Bearer " ++ token
          → (r : Result JwtClaims JwtError)
          → verify_jwt cr js now auth.key_manager token auth.issuer auth.audience ≡ r
          → verdict_of cr js ht h r ≡ run h'
          → Allowed
      result_of token p (err e) q e' = cc
      result_of token p (ok claims) q e = (
        claims,
        cc,
        (
          token,
          ap some p,
          (verify_jwt_iff cr js now auth.key_manager token auth.issuer auth.audience claims).0 q,
        ),
      )

      token_of :
          (o : Option Str)
          → strip_prefix v (codes "Bearer ") ≡ o
          → verdict_of_token cr js ht now auth h o ≡ run h'
          → Allowed
      token_of none p e = cc
      token_of (some token) p e =
          result_of token ((strip_prefix_iff v (codes "Bearer ") token).0 p)
            (verify_jwt cr js now auth.key_manager token auth.issuer auth.audience) refl e

      back :
          Allowed → verdict_of_token cr js ht now auth h (strip_prefix v (codes "Bearer ")) ≡ run h'
      back (claims, same, (token, p, valid)) =
          let stripped : strip_prefix v (codes "Bearer ") ≡ some token =
            (strip_prefix_iff v (codes "Bearer ") token).1 cc in
          let verified =
            (verify_jwt_iff cr js now auth.key_manager token auth.issuer auth.audience claims).1
              valid in
          rw (stripped, verified) (ap run (sym same))

  one_header :
      (h : Headers) (n v : Str)
      → ht.get (set_header ht h n v) n ≡ (if ht.is_value v then some v else ht.get h n)
  unfolding set_header
  one_header h n v = elim (Bool-cases (ht.is_value v)) [
    | inl b ↦ rw (b, ht.get_insert h n n v, str_eq_refl n) refl
    | inr b ↦ rw b refl
  ]

  -- What the next handler reads: under the names of the three headers the subject, the roles joined
  -- by commas and the key of the claims, but what the request had where such a text is no header
  -- value; under every other name what the request had.
  abbrev pub AreNamed : Headers → JwtClaims → Headers → Type 0
  AreNamed h claims h' =
      (ht.get h' (codes "x-auth-subject")
        ≡ (if ht.is_value claims.sub then some claims.sub else ht.get h (codes "x-auth-subject")))
      × (ht.get h' (codes "x-auth-roles") ≡ (
          if ht.is_value (join (codes ",") claims.roles)
          then some (join (codes ",") claims.roles)
          else ht.get h (codes "x-auth-roles")))
      × (ht.get h' (codes "x-auth-kid")
          ≡ (if ht.is_value claims.kid then some claims.kid else ht.get h (codes "x-auth-kid")))
      × ((n : Str)
          → ht.get h' n ≡ (
              if str_eq (codes "x-auth-subject") n
                || str_eq (codes "x-auth-roles") n
                || str_eq (codes "x-auth-kid") n
              then ht.get h' n
              else ht.get h n))

  others_kept :
      (h : Headers) (claims : JwtClaims) (n : Str) (a b c : Bool)
      → str_eq (codes "x-auth-subject") n ≡ a
      → str_eq (codes "x-auth-roles") n ≡ b
      → str_eq (codes "x-auth-kid") n ≡ c
      → ht.get (with_claims cr js ht h claims) n
        ≡ (if a || b || c then ht.get (with_claims cr js ht h claims) n else ht.get h n)
  unfolding with_claims
  others_kept h claims n true b c p q r = refl
  others_kept h claims n false true c p q r = refl
  others_kept h claims n false false true p q r = refl
  others_kept h claims n false false false p q r =
      let h₁ = set_header ht h (codes "x-auth-subject") claims.sub in
      let h₂ = set_header ht h₁ (codes "x-auth-roles") (join (codes ",") claims.roles) in
      get-set_header_ne ht h₂ (codes "x-auth-kid") n claims.kid r
      ∙ get-set_header_ne ht h₁ (codes "x-auth-roles") n (join (codes ",") claims.roles) q
      ∙ get-set_header_ne ht h (codes "x-auth-subject") n claims.sub p

  with_claims-AreNamed :
      (h : Headers) (claims : JwtClaims) → AreNamed h claims (with_claims cr js ht h claims)
  unfolding with_claims str_eq
  with_claims-AreNamed h claims =
      let roles = join (codes ",") claims.roles in
      let h₁ = set_header ht h (codes "x-auth-subject") claims.sub in
      let h₂ = set_header ht h₁ (codes "x-auth-roles") roles in
      (
        get-set_header_ne ht h₂ (codes "x-auth-kid") (codes "x-auth-subject") claims.kid refl
            ∙ get-set_header_ne ht h₁ (codes "x-auth-roles") (codes "x-auth-subject") roles refl
            ∙ one_header h (codes "x-auth-subject") claims.sub,
        get-set_header_ne ht h₂ (codes "x-auth-kid") (codes "x-auth-roles") claims.kid refl
            ∙ one_header h₁ (codes "x-auth-roles") roles
            ∙ ap (λ x. if ht.is_value roles then some roles else x)
                (get-set_header_ne ht h (codes "x-auth-subject") (codes "x-auth-roles") claims.sub
                  refl),
        one_header h₂ (codes "x-auth-kid") claims.kid
            ∙ ap (λ x. if ht.is_value claims.kid then some claims.kid else x)
                (get-set_header_ne ht h₁ (codes "x-auth-roles") (codes "x-auth-kid") roles refl
                  ∙ get-set_header_ne ht h (codes "x-auth-subject") (codes "x-auth-kid") claims.sub
                      refl),
        λ n. others_kept h claims n _ _ _ refl refl refl,
      )

  admitted_iff :
      (now : ℕ) (auth : AuthState) (path : Str) (h h' : Headers)
      → (jwt_auth_middleware cr js ht now auth path h ≡ run h') ↔ (
          ((is_public_path auth path ≡ true) × (h' ≡ h))
          ⊎ ((is_public_path auth path ≡ false)
              × ((claims : JwtClaims) × (h' ≡ with_claims cr js ht h claims)
                  × Carries now auth (get_header ht h (codes "authorization")) claims)))
  unfolding jwt_auth_middleware
  admitted_iff now auth path h h' = elim (Bool-cases (is_public_path auth path)) [
    | inl b ↦ rw b ((λ e. inl (refl, cc)), (λ c. public_path c))
    | inr b ↦
        let (to, from) = verdict_iff now auth h h' (get_header ht h (codes "authorization")) in
        rw b ((λ e. inr (refl, to e)), (λ c. private_path from c))
  ]
    where
      Protected : Type 0
      Protected =
          (claims : JwtClaims) × (h' ≡ with_claims cr js ht h claims)
          × Carries now auth (get_header ht h (codes "authorization")) claims

      public_path :
          ((true ≡ true) × (h' ≡ h)) ⊎ ((true ≡ false) × Protected)
          → ◌≡◌ {A = AuthVerdict cr js ht} (run h) (run h')
      public_path (inl (_, e)) = ap run (sym e)
      public_path (inr (e, _)) = cc

      private_path :
          {v : AuthVerdict cr js ht}
          → (Protected → v ≡ run h')
          → ((false ≡ true) × (h' ≡ h)) ⊎ ((false ≡ false) × Protected)
          → v ≡ run h'
      private_path from (inl (e, _)) = cc
      private_path from (inr (_, c)) = from c

  -- The next handler runs in two cases only: on a public path, with the headers of the request, and
  -- with a bearer token that is valid. Then the header for the subject, that for the roles and that for
  -- the key are those of the claims, but each that is no header value is left as the client sent it,
  -- and all other headers are those of the request.
  pub jwt_auth_middleware_iff :
      (now : ℕ) (auth : AuthState) (path : Str) (h h' : Headers)
      → (jwt_auth_middleware cr js ht now auth path h ≡ run h') ↔ (
          ((is_public_path auth path ≡ true) × (h' ≡ h))
          ⊎ ((is_public_path auth path ≡ false)
              × ((claims : JwtClaims) × (h' ≡ with_claims cr js ht h claims)
                  × AreNamed h claims h'
                  × Carries now auth (get_header ht h (codes "authorization")) claims)))
  jwt_auth_middleware_iff now auth path h h' =
      let (to, from) = admitted_iff now auth path h h' in
      (
        (λ e. elim (to e) [
          | inl x ↦ inl x
          | inr (b, (claims, same, c)) ↦ inr (
            b,
            (claims, same, subst (AreNamed h claims) (sym same) (with_claims-AreNamed h claims), c),
          )
        ]),
        (λ x. from (elim x [
          | inl y ↦ inl y
          | inr (b, (claims, same, _, c)) ↦ inr (b, (claims, same, c))
        ])),
      )

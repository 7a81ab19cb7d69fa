-- ===== src/CertChain/Validation.antt =====
-- When `validate_chain` accepts a chain.
use pqc_gateway.Common.{
  ℕ, ◌≤◌, ◌≡◌, refl, sym, ◌≢◌, ◌↔◌, List, [], ◌∷◌, ◌++◌, Bool, true, false, not, Option, none, some,
  Bytes, Str, str_eq, str_eq_iff, ltb, arith, contains, Bool-cases, inl, inr, str_instance,
}
use pqc_gateway.Common.Map.{lookup, contains_key}
use pqc_gateway.MlDsa.{MlDsa}
use pqc_gateway.CertChain.{
  ManagedCertificate, ChainValidationError, TrustStore, is_revoked, push_if, pinning_errors,
  cert_errors, last_of, is_signed_by, link_errors, chain_errors, root_errors, no_errors,
  validate_chain,
}

-- A certificate that is in time, not revoked, and pinned if its subject has pins.
abbrev pub IsPinned : ManagedCertificate → Option (List Str) → Type 0
IsPinned c none = Unit
IsPinned c (some pins) = contains pins c.fingerprint ≡ true

abbrev pub IsUsable : TrustStore → ℕ → ManagedCertificate → Type 0
IsUsable store now c =
    (c.not_before ≤ now)
    × (now ≤ c.not_after)
    × (is_revoked store c.serial ≡ false)
    × IsPinned c (lookup c.subject store.pinned_fingerprints)

no_errors-append :
    (xs ys : List ChainValidationError)
    → (no_errors (xs ++ ys) ≡ true) ↔ ((no_errors xs ≡ true) × (no_errors ys ≡ true))
no_errors-append [] ys = ((λ h. (refl, h)), (λ h. h.1))
no_errors-append (x ∷ xs) ys = ((λ h. cc), (λ h. h.0))

no_errors-push_if :
    (b : Bool) (e : ChainValidationError) → (no_errors (push_if b e) ≡ true) ↔ (b ≡ false)
unfolding push_if
no_errors-push_if true e = ((λ h. sym h), (λ h. sym h))
no_errors-push_if false e = ((λ h. refl), (λ h. refl))

pinning_lem :
    (c : ManagedCertificate) (o : Option (List Str))
    → (no_errors (pinning_errors c o) ≡ true) ↔ IsPinned c o
unfolding pinning_errors
pinning_lem c none = ((λ h. tt), (λ h. refl))
pinning_lem c (some pins) = ground (
  arith,
  no_errors-push_if (not (contains pins c.fingerprint))
      (ChainValidationError.pinning_violation c.subject c.fingerprint),
)

not_before_test : (a b : ℕ) → (ltb a b ≡ false) ↔ (b ≤ a)
not_before_test a b = ground arith

cert_errors_lem :
    (store : TrustStore) (now : ℕ) (c : ManagedCertificate)
    → (no_errors (cert_errors store now c) ≡ true) ↔ IsUsable store now c
unfolding cert_errors
cert_errors_lem store now c =
    let early =
      push_if (ltb now c.not_before) (ChainValidationError.not_yet_valid c.subject c.not_before) in
    let late =
      push_if (ltb c.not_after now)
        (ChainValidationError.expired_certificate c.subject c.not_after) in
    let revoked =
      push_if (is_revoked store c.serial)
        (ChainValidationError.revoked_certificate c.subject c.serial) in
    let pins = pinning_errors c (lookup c.subject store.pinned_fingerprints) in
    let (f, g) = no_errors-append early (late ++ (revoked ++ pins)) in
    let (f', g') = no_errors-append late (revoked ++ pins) in
    let (f'', g'') = no_errors-append revoked pins in
    let (e, e') = no_errors-push_if (ltb now c.not_before) _ in
    let (l, l') = no_errors-push_if (ltb c.not_after now) _ in
    let (r, r') = no_errors-push_if (is_revoked store c.serial) _ in
    let (p, p') = pinning_lem c (lookup c.subject store.pinned_fingerprints) in
    let (nb, nb') = not_before_test now c.not_before in
    let (na, na') = not_before_test c.not_after now in
    (
      (λ h.
          let (a, b) = f h in
          let (b, d) = f' b in let (d, q) = f'' d in (nb (e a), na (l b), r d, p q)),
      (λ h. g (e' (nb' h.0), g' (l' (na' h.1), g'' (r' h.2, p' h.3)))),
    )

other_names : (c : ManagedCertificate) → c.subject ≢ c.issuer → str_eq c.subject c.issuer ≡ false
other_names c n = elim (Bool-cases (str_eq c.subject c.issuer)) [
  | inl h ↦ absurd (n ((str_eq_iff c.subject c.issuer).0 h))
  | inr h ↦ h
]

module _ (ml : MlDsa) (verify_ecdsa_p256 verify_ed25519 : Bytes → Bytes → Bytes → Bool) where
  -- A certificate and its issuer: the names fit, the issuer is a CA, and its key made the signature.
  abbrev pub IsIssuedBy : ManagedCertificate → ManagedCertificate → Type 0
  IsIssuedBy c d =
      (c.issuer ≡ d.subject)
      × (d.is_ca ≡ true)
      × (is_signed_by ml verify_ecdsa_p256 verify_ed25519 c d ≡ true)

  abbrev pub IsChain : TrustStore → ℕ → ManagedCertificate → List ManagedCertificate → Type 0
  IsChain store now c [] = IsUsable store now c
  IsChain store now c (d ∷ chain) =
      IsUsable store now c × IsIssuedBy c d × IsChain store now d chain

  -- A root of the store; one that names itself as its issuer is signed by its own key.
  abbrev pub IsTrustedRoot : TrustStore → ManagedCertificate → Type 0
  IsTrustedRoot store c =
      (c.subject ≡ c.issuer → is_signed_by ml verify_ecdsa_p256 verify_ed25519 c c ≡ true)
      × (contains_key c.fingerprint store.trusted_roots ≡ true)

  not_iff : (b : Bool) → (not b ≡ false) ↔ (b ≡ true)
  not_iff true = ((λ h. refl), (λ h. refl))
  not_iff false = ((λ h. sym h), (λ h. sym h))

  link_errors_lem :
      (c d : ManagedCertificate)
      → (no_errors (link_errors ml verify_ecdsa_p256 verify_ed25519 c d) ≡ true) ↔ IsIssuedBy c d
  unfolding link_errors push_if
  link_errors_lem c d = ground (arith, str_eq_iff c.issuer d.subject)

  root_errors_lem :
      (store : TrustStore) (c : ManagedCertificate)
      → (no_errors (root_errors ml verify_ecdsa_p256 verify_ed25519 store c) ≡ true)
        ↔ IsTrustedRoot store c
  unfolding root_errors push_if
  root_errors_lem store c = elim (Bool-cases (str_eq c.subject c.issuer)) [
    | inl h ↦
        let e = (str_eq_iff c.subject c.issuer).0 h in
        (
          (λ k. ((λ _. ground (arith, h, k)), ground (arith, h, k))),
          (λ k. let own = k.0 e in ground (arith, h, own, k.1)),
        )
    | inr h ↦ (
      (λ k. ((λ e. let q = (str_eq_iff c.subject c.issuer).1 e in cc), ground (arith, h, k))),
      (λ k. ground (arith, h, k.1)),
    )
  ]

  chain_errors_lem :
      (store : TrustStore) (now : ℕ) (c : ManagedCertificate) (chain : List ManagedCertificate)
      → (no_errors (chain_errors ml verify_ecdsa_p256 verify_ed25519 store now c chain) ≡ true)
        ↔ IsChain store now c chain
  unfolding chain_errors
  chain_errors_lem store now c [] = cert_errors_lem store now c
  chain_errors_lem store now c (d ∷ chain) =
      let (f, g) = no_errors-append (cert_errors store now c) _ in
      let (f', g') = no_errors-append (link_errors ml verify_ecdsa_p256 verify_ed25519 c d) _ in
      let (a, a') = cert_errors_lem store now c in
      let (b, b') = link_errors_lem c d in
      let (r, r') = chain_errors_lem store now d chain in
      (
        (λ h. let (x, y) = f h in let (y, z) = f' y in (a x, b y, r z)),
        (λ h. g (a' h.0, g' (b' h.1, r' h.2))),
      )

  -- A chain from a leaf to a root is accepted exactly when every certificate is in time, not revoked
  -- and pinned if its subject has pins, each is issued by the next, and the last is a trusted root.
  pub validate_chain_iff :
      (store : TrustStore) (now : ℕ) (c : ManagedCertificate) (chain : List ManagedCertificate)
      → ((validate_chain ml verify_ecdsa_p256 verify_ed25519 store now (c ∷ chain)).valid ≡ true)
        ↔ (IsChain store now c chain × IsTrustedRoot store (last_of c chain))
  unfolding validate_chain
  validate_chain_iff store now c chain =
      let (f, g) =
        no_errors-append (chain_errors ml verify_ecdsa_p256 verify_ed25519 store now c chain) _ in
      let (a, a') = chain_errors_lem store now c chain in
      let (b, b') = root_errors_lem store (last_of c chain) in
      ((λ h. let (x, y) = f h in (a x, b y)), (λ h. g (a' h.0, b' h.1)))

  -- A single certificate that does not name itself as its issuer is accepted, whatever public key and
  -- signature are put into it, exactly when it is in time, not revoked, pinned if its subject has
  -- pins, and the fingerprint that it carries is that of a trusted root; its errors do not depend on
  -- the key and the signature.
  pub validate_chain_ignores_key :
      (store : TrustStore) (now : ℕ) (c : ManagedCertificate) (key signature : Bytes)
      → c.subject ≢ c.issuer
      → let forged = record c { public_key = key; signature = signature } in
        (((validate_chain ml verify_ecdsa_p256 verify_ed25519 store now (forged ∷ [])).valid ≡ true)
          ↔ (IsUsable store now c × (contains_key c.fingerprint store.trusted_roots ≡ true)))
        × ((validate_chain ml verify_ecdsa_p256 verify_ed25519 store now (forged ∷ [])).errors
            ≡ (validate_chain ml verify_ecdsa_p256 verify_ed25519 store now (c ∷ [])).errors)
  unfolding validate_chain chain_errors cert_errors root_errors last_of pinning_errors
  validate_chain_ignores_key store now c key signature n =
      let e : str_eq c.subject c.issuer ≡ false = other_names c n in
      let forged = record c { public_key = key; signature = signature } in
      let (to, from) = validate_chain_iff store now forged [] in
      (
        (
          (λ h. let (usable, root) = to h in (usable, root.1)),
          (λ (usable, trusted). from (usable, ((λ q. absurd (n q)), trusted))),
        ),
        rw e refl,
      )

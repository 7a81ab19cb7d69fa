-- ===== src/CertChain.antt =====
-- crates/pqc-tls/src/cert_chain.rs: the trust store and the validation of a certificate chain. The
-- clock is the argument `now`; the verification of ECDSA and Ed25519 signatures are parameters. A
-- hash set is a list without repetition. A warning keeps the values that its text shows.
pub mod Validation
mod Tests
use pqc_gateway.Common.{
  ℕ, zero, suc, ◌-◌, ◌/◌, ◌%◌, ◌≡◌, refl, List, [], ◌∷◌, ◌++◌, Bool, true, false, not, ◌&&◌, Option,
  none, some, Bytes, Str, str_eq, leb, ltb, ◌==◌, if◌then◌else◌, length, contains, str_instance,
}
use pqc_gateway.Common.Map.{Map, lookup, insert, remove, contains_key}
use pqc_gateway.MlDsa.{MlDsa, ml_dsa_verify, or_false}

pub data ChainCertAlgorithm : Type 0 where
  ecdsa_p256 : ChainCertAlgorithm
  ed25519 : ChainCertAlgorithm
  ml_dsa65 : ChainCertAlgorithm

pub record ManagedCertificate : Type 0 where
  pub subject : Str
  pub issuer : Str
  pub algorithm : ChainCertAlgorithm
  pub public_key : Bytes
  pub signature : Bytes
  pub issuer_algorithm : ChainCertAlgorithm
  pub not_before : ℕ  -- u64
  pub not_after : ℕ  -- u64
  pub is_ca : Bool
  pub fingerprint : Str
  pub serial : Str

-- `to_le_bytes`, `n` bytes of them.
unfoldable pub to_le_bytes : ℕ → ℕ → Bytes
to_le_bytes zero x = []
to_le_bytes (suc n) x = x % 256 ∷ to_le_bytes n (x / 256)

unfoldable pub tbs_bytes : ManagedCertificate → Bytes
tbs_bytes c =
    c.subject
    ++ (0 ∷ [])
    ++ c.issuer
    ++ (0 ∷ [])
    ++ to_le_bytes 8 c.not_before
    ++ to_le_bytes 8 c.not_after
    ++ c.public_key
    ++ ((if c.is_ca then 1 else 0) ∷ [])
    ++ c.serial

unfoldable pub is_time_valid : ℕ → ManagedCertificate → Bool
is_time_valid now c = leb c.not_before now && leb now c.not_after

abbrev pub is_self_signed : ManagedCertificate → Bool
is_self_signed c = str_eq c.subject c.issuer

unfoldable pub days_until_expiry : ℕ → ManagedCertificate → ℕ
days_until_expiry now c = if leb c.not_after now then 0 else (c.not_after - now) / 86400

pub data ChainValidationError : Type 0 where
  empty_chain : ChainValidationError
  expired_certificate : Str → ℕ → ChainValidationError
  not_yet_valid : Str → ℕ → ChainValidationError
  untrusted_root : Str → ChainValidationError
  revoked_certificate : Str → Str → ChainValidationError
  pinning_violation : Str → Str → ChainValidationError
  signature_verification_failed : Str → Str → ChainValidationError
  chain_broken : Str → Str → ChainValidationError
  non_ca_signed_child : Str → ChainValidationError

pub data ExpiryWarning : Type 0 where
  has_expired : Str → ℕ → ExpiryWarning
  expires_in_days : Str → ℕ → ExpiryWarning

pub record ChainValidationResult : Type 0 where
  pub valid : Bool
  pub errors : List ChainValidationError
  pub warnings : List ExpiryWarning
  pub chain_length : ℕ
  pub algorithms_used : List ChainCertAlgorithm

pub record TrustStore : Type 0 where
  pub trusted_roots : Map Str ManagedCertificate
  pub revoked_serials : List Str
  pub pinned_fingerprints : Map Str (List Str)
  pub expiry_warning_days : ℕ  -- u32

unfoldable pub new_trust_store : ℕ → TrustStore
new_trust_store expiry_warning_days = record {
  trusted_roots = [];
  revoked_serials = [];
  pinned_fingerprints = [];
  expiry_warning_days = expiry_warning_days;
}

-- `HashSet::insert` and `HashSet::remove`.
unfoldable pub set_insert : Str → List Str → List Str
set_insert s set = if contains set s then set else s ∷ set

unfoldable pub set_remove : Str → List Str → List Str
set_remove s [] = []
set_remove s (t ∷ set) = let rest = set_remove s set in if str_eq t s then rest else t ∷ rest

unfoldable pub add_trusted_root : TrustStore → ManagedCertificate → TrustStore
add_trusted_root store c = record store {
  trusted_roots = insert c.fingerprint c store.trusted_roots;
}

unfoldable pub remove_trusted_root : TrustStore → Str → TrustStore × Bool
remove_trusted_root store fingerprint = (
  record store { trusted_roots = remove fingerprint store.trusted_roots },
  contains_key fingerprint store.trusted_roots,
)

unfoldable pub revoke_certificate : TrustStore → Str → TrustStore
revoke_certificate store serial = record store {
  revoked_serials = set_insert serial store.revoked_serials;
}

unfoldable pub unrevoke_certificate : TrustStore → Str → TrustStore
unrevoke_certificate store serial = record store {
  revoked_serials = set_remove serial store.revoked_serials;
}

unfoldable pub is_revoked : TrustStore → Str → Bool
is_revoked store serial = contains store.revoked_serials serial

unfoldable pub pins_or_empty : Option (List Str) → List Str
pins_or_empty none = []
pins_or_empty (some pins) = pins

unfoldable pub pin_certificate : TrustStore → Str → Str → TrustStore
pin_certificate store subject fingerprint =
    let pins = pins_or_empty (lookup subject store.pinned_fingerprints) in
    record store {
      pinned_fingerprints = insert subject (set_insert fingerprint pins) store.pinned_fingerprints;
    }

-- The pins of a subject after one of them was removed; no empty set is kept.
unfoldable pub keep_pins : TrustStore → Str → List Str → TrustStore
keep_pins store subject [] = record store {
  pinned_fingerprints = remove subject store.pinned_fingerprints;
}
keep_pins store subject (p ∷ pins) = record store {
  pinned_fingerprints = insert subject (p ∷ pins) store.pinned_fingerprints;
}

unfoldable pub unpin : TrustStore → Str → Str → Option (List Str) → TrustStore
unpin store subject fingerprint none = store
unpin store subject fingerprint (some pins) = keep_pins store subject (set_remove fingerprint pins)

unfoldable pub unpin_certificate : TrustStore → Str → Str → TrustStore
unpin_certificate store subject fingerprint =
    unpin store subject fingerprint (lookup subject store.pinned_fingerprints)

unfoldable pub check_expiry_warnings : TrustStore → ℕ → ManagedCertificate → List ExpiryWarning
check_expiry_warnings store now c =
    let days = days_until_expiry now c in
    if days == 0
    then has_expired c.subject c.not_after ∷ []
    else if leb days store.expiry_warning_days
    then expires_in_days c.subject days ∷ []
    else []

-- A value that is pushed where the test holds.
unfoldable pub push_if {ℓ} : {A : Type ℓ} → Bool → A → List A
push_if b a = if b then a ∷ [] else []

unfoldable pub pinning_errors : ManagedCertificate → Option (List Str) → List ChainValidationError
pinning_errors c none = []
pinning_errors c (some pins) =
    push_if (not (contains pins c.fingerprint)) (pinning_violation c.subject c.fingerprint)

-- The checks of one certificate in the loop of `validate_chain`.
unfoldable pub cert_errors : TrustStore → ℕ → ManagedCertificate → List ChainValidationError
cert_errors store now c =
    push_if (ltb now c.not_before) (not_yet_valid c.subject c.not_before)
    ++ (push_if (ltb c.not_after now) (expired_certificate c.subject c.not_after)
        ++ (push_if (is_revoked store c.serial) (revoked_certificate c.subject c.serial)
            ++ pinning_errors c (lookup c.subject store.pinned_fingerprints)))

abbrev same_algorithm : ChainCertAlgorithm → ChainCertAlgorithm → Bool
same_algorithm ecdsa_p256 ecdsa_p256 = true
same_algorithm ed25519 ed25519 = true
same_algorithm ml_dsa65 ml_dsa65 = true
same_algorithm _ _ = false

unfoldable pub uses : List ChainCertAlgorithm → ChainCertAlgorithm → Bool
uses [] a = false
uses (b ∷ used) a = if same_algorithm b a then true else uses used a

unfoldable pub track_algorithms :
    List ChainCertAlgorithm → List ManagedCertificate → List ChainCertAlgorithm
track_algorithms used [] = used
track_algorithms used (c ∷ chain) =
    track_algorithms (if uses used c.algorithm then used else used ++ (c.algorithm ∷ [])) chain

unfoldable pub all_warnings : TrustStore → ℕ → List ManagedCertificate → List ExpiryWarning
all_warnings store now [] = []
all_warnings store now (c ∷ chain) =
    check_expiry_warnings store now c ++ all_warnings store now chain

unfoldable pub last_of : ManagedCertificate → List ManagedCertificate → ManagedCertificate
last_of c [] = c
last_of c (d ∷ chain) = last_of d chain

abbrev pub no_errors : List ChainValidationError → Bool
no_errors [] = true
no_errors (e ∷ errors) = false

module _ (ml : MlDsa) (verify_ecdsa_p256 verify_ed25519 : Bytes → Bytes → Bytes → Bool) where
  unfoldable pub verify_signature : ChainCertAlgorithm → Bytes → Bytes → Bytes → Bool
  verify_signature ecdsa_p256 public_key data_ signature =
      verify_ecdsa_p256 public_key data_ signature
  verify_signature ed25519 public_key data_ signature = verify_ed25519 public_key data_ signature
  verify_signature ml_dsa65 public_key data_ signature =
      or_false ml (ml_dsa_verify ml public_key data_ signature)

  -- Whether the key of the issuer verifies the signature of the certificate.
  unfoldable pub is_signed_by : ManagedCertificate → ManagedCertificate → Bool
  is_signed_by c issuer_cert =
      verify_signature c.issuer_algorithm issuer_cert.public_key (tbs_bytes c) c.signature

  -- The checks of a certificate and the next one.
  unfoldable pub link_errors : ManagedCertificate → ManagedCertificate → List ChainValidationError
  link_errors c issuer_cert =
      push_if (not (str_eq c.issuer issuer_cert.subject))
        (chain_broken c.issuer issuer_cert.subject)
      ++ (push_if (not issuer_cert.is_ca) (non_ca_signed_child issuer_cert.subject)
          ++ push_if (not (is_signed_by c issuer_cert))
              (signature_verification_failed c.subject issuer_cert.subject))

  -- The loop of `validate_chain`.
  unfoldable pub chain_errors :
      TrustStore → ℕ → ManagedCertificate → List ManagedCertificate → List ChainValidationError
  chain_errors store now c [] = cert_errors store now c
  chain_errors store now c (d ∷ chain) =
      cert_errors store now c ++ (link_errors c d ++ chain_errors store now d chain)

  unfoldable pub root_errors : TrustStore → ManagedCertificate → List ChainValidationError
  root_errors store root =
      push_if (is_self_signed root && not (is_signed_by root root))
        (signature_verification_failed root.subject root.issuer)
      ++ push_if (not (contains_key root.fingerprint store.trusted_roots))
          (untrusted_root root.subject)

  unfoldable pub validate_chain : TrustStore → ℕ → List ManagedCertificate → ChainValidationResult
  validate_chain store now [] = record {
    valid = false;
    errors = empty_chain ∷ [];
    warnings = [];
    chain_length = 0;
    algorithms_used = [];
  }
  validate_chain store now (c ∷ chain) =
      let errors = chain_errors store now c chain ++ root_errors store (last_of c chain) in
      record {
        valid = no_errors errors;
        errors = errors;
        warnings = all_warnings store now (c ∷ chain);
        chain_length = length (c ∷ chain);
        algorithms_used = track_algorithms [] (c ∷ chain);
      }

-- ===== src/CertChain/Tests.antt =====
-- A store with one root, a chain of two certificates, and the theorems at them.
use pqc_gateway.Common.{
  ◌↔◌, str_instance, ◌≡◌, refl, [], ◌∷◌, Bool, true, false, Bytes, codes, str_eq, arith, contains,
}
use pqc_gateway.Common.Map.{lookup, contains_key}
use pqc_gateway.Crypto.Toy.{toy}
use pqc_gateway.CertChain.{
  ecdsa_p256, ed25519, ManagedCertificate, TrustStore, validate_chain, is_signed_by,
  verify_signature, is_revoked, last_of,
}
use pqc_gateway.CertChain.Validation.{IsUsable, validate_chain_iff, validate_chain_ignores_key}

abbrev first_byte : Bytes → Bytes → Bytes → Bool
first_byte (k ∷ key) message (s ∷ signature) = str_eq (k ∷ []) (s ∷ [])
first_byte _ message _ = false

abbrev root : ManagedCertificate
root = record {
  subject = codes "root";
  issuer = codes "root";
  algorithm = ed25519;
  public_key = 4 ∷ [];
  signature = 4 ∷ 9 ∷ [];
  issuer_algorithm = ed25519;
  not_before = 100;
  not_after = 200;
  is_ca = true;
  fingerprint = codes "aa";
  serial = codes "1";
}

abbrev leaf : ManagedCertificate
leaf = record {
  subject = codes "leaf";
  issuer = codes "root";
  algorithm = ecdsa_p256;
  public_key = 7 ∷ [];
  signature = 4 ∷ 1 ∷ [];
  issuer_algorithm = ed25519;
  not_before = 120;
  not_after = 180;
  is_ca = false;
  fingerprint = codes "bb";
  serial = codes "2";
}

abbrev store : TrustStore
store = record {
  trusted_roots = (codes "aa", root) ∷ [];
  revoked_serials = codes "3" ∷ [];
  pinned_fingerprints = (codes "leaf", codes "bb" ∷ []) ∷ [];
  expiry_warning_days = 30;
}

validate_chain_iff_example :
    (validate_chain toy first_byte first_byte store 150 (leaf ∷ root ∷ [])).valid ≡ true
unfolding is_revoked is_signed_by verify_signature last_of str_eq contains lookup contains_key
validate_chain_iff_example =
    (validate_chain_iff toy first_byte first_byte store 150 leaf (root ∷ [])).1 (
      (
        (omega arith, omega arith, refl, refl),
        (refl, refl, refl),
        (omega arith, omega arith, refl, tt),
      ),
      ((λ _. refl), refl),
    )

abbrev forged : ManagedCertificate
forged = record leaf { fingerprint = codes "aa"; subject = codes "mallory" }

validate_chain_ignores_key_example :
    let other = record forged { public_key = 66 ∷ []; signature = [] } in
    (((validate_chain toy first_byte first_byte store 150 (other ∷ [])).valid ≡ true)
      ↔ (IsUsable store 150 forged × (contains_key forged.fingerprint store.trusted_roots ≡ true)))
    × ((validate_chain toy first_byte first_byte store 150 (other ∷ [])).errors
        ≡ (validate_chain toy first_byte first_byte store 150 (forged ∷ [])).errors)
validate_chain_ignores_key_example =
    validate_chain_ignores_key toy first_byte first_byte store 150 forged (66 ∷ []) [] (λ e. cc)

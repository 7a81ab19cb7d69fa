-- ===== src/Signature/Tests.antt =====
-- Signature modes from the environment, and what a pair of keys signs.
use pqc_gateway.Common.{
  ℕ, ◌<◌, ◌≢◌, ◌↔◌, true, done, All, Bytes, [], ◌∷◌, arith, ◌≡◌, refl, none, some, codes,
}
use pqc_gateway.Crypto.Toy.{toy_crypto, filled}
use pqc_gateway.Threshold.Codes.{hex_encode}
use pqc_gateway.Signature.Keys.{
  SignatureOutput, SignatureKeys, generate, sign, verify, IsKeyPair, generate-IsKeyPair,
  verify-sign,
}
use pqc_gateway.Signature.{classical, hybrid, ml_dsa_only}

abbrev seed_of : ℕ → Bytes
seed_of b = filled 32 (b ∷ [])

abbrev some_keys : SignatureKeys
some_keys = generate toy_crypto (codes "ecdsa key") (seed_of 7)

some_keys-IsKeyPair : IsKeyPair toy_crypto some_keys
some_keys-IsKeyPair = generate-IsKeyPair toy_crypto (codes "ecdsa key") (seed_of 7) refl

hybrid_ne : hybrid ≢ classical
hybrid_ne e = cc

verify-sign_example :
    (out : SignatureOutput) × (sign toy_crypto some_keys hybrid (codes "body") ≡ done (some out))
    × (verify toy_crypto some_keys (codes "body") out ≡ true)
    × ((out.classical_signature ≡ none) ↔ (hybrid ≡ ml_dsa_only))
    × (out.content_digest ≡ hex_encode (toy_crypto.sha256 (codes "body")))
verify-sign_example =
    verify-sign toy_crypto some_keys hybrid (codes "body") some_keys-IsKeyPair hybrid_ne

some_seed_bytes : All (λ b. b < 256) (seed_of 7)
some_seed_bytes = ground arith

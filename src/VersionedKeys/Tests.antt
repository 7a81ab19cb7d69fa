-- ===== src/VersionedKeys/Tests.antt =====
-- Runs of the key manager, and its theorems at a manager with one key.
use pqc_gateway.Common.{
  ℕ, ◌+◌, ◌≡◌, ◌≢◌, refl, [], ◌∷◌, Bytes, Str, true, false, some, done, arith, codes, map, str_eq,
  str_instance,
}
use pqc_gateway.Common.Map.{insert, remove}
use pqc_gateway.Common.Decimal.{decimal, decimal_loop}
use pqc_gateway.Common.Sort.{sort_by_key, insert_by}
use pqc_gateway.Crypto.Toy.{toy_crypto, filled}
use pqc_gateway.Threshold.Codes.{hex_encode, hex_byte, hex_digit}
use pqc_gateway.VersionedKeys.{
  VersionedKeyManager, kid_of, deactivate, other_versions, prune_loop, prune, share_seed, install,
  installed, new_key, new, rotate, key_info, sign_current, verify_by_kid,
}
use pqc_gateway.VersionedKeys.Rotation.{IsManager, new-IsManager, rotate-IsManager}
use pqc_gateway.VersionedKeys.Verification.{verify_by_kid-sign_current, verify_by_kid-rotate}

abbrev no_bytes : ℕ → ℕ → Bytes
no_bytes i n = []

-- A seed of 32 bytes.
abbrev seed_of : ℕ → Bytes
seed_of b = filled 32 (b ∷ [])

abbrev first_manager : VersionedKeyManager
first_manager = new toy_crypto (seed_of 7) 1000 1

first_manager-IsManager : IsManager toy_crypto first_manager
first_manager-IsManager = new-IsManager toy_crypto (seed_of 7) 1000 1 refl

rotate-IsManager_example :
    (m' : VersionedKeyManager) × (kid : Str) × (rotate toy_crypto
        (seed_of 9)
        2000
        no_bytes
        first_manager
      ≡ done (m', kid))
    × IsManager toy_crypto m'
    × (m'.current_kid ≡ kid)
    × (kid ≢ first_manager.current_kid)
    × (m'.next_version ≡ first_manager.next_version + 1)
unfolding new
rotate-IsManager_example =
    rotate-IsManager toy_crypto (seed_of 9) 2000 no_bytes first_manager first_manager-IsManager refl
      (omega arith) (omega arith)

verify_by_kid-sign_current_example :
    (signature : Bytes) × (sign_current toy_crypto first_manager (codes "body")
      ≡ some (first_manager.current_kid, signature))
    × (verify_by_kid toy_crypto first_manager first_manager.current_kid (codes "body") signature
        ≡ true)
verify_by_kid-sign_current_example =
    verify_by_kid-sign_current toy_crypto first_manager (codes "body") first_manager-IsManager

verify_by_kid-rotate_example :
    (m' : VersionedKeyManager) × (kid : Str) × (rotate toy_crypto
        (seed_of 9)
        2000
        no_bytes
        first_manager
      ≡ done (m', kid))
    × ((data_ signature : Bytes)
        → verify_by_kid toy_crypto m' first_manager.current_kid data_ signature
          ≡ verify_by_kid toy_crypto first_manager first_manager.current_kid data_ signature)
unfolding new
verify_by_kid-rotate_example =
    verify_by_kid-rotate toy_crypto (seed_of 9) 2000 no_bytes first_manager first_manager-IsManager
      refl (omega arith) (omega arith) (omega arith)

-- Two rotations of a manager that retains one key: the first key is pruned.
two_rotations :
    (m₁ : VersionedKeyManager) × (m₂ : VersionedKeyManager) × (kid₁ : Str) × (kid₂ : Str) × (rotate
        toy_crypto
        (seed_of 9)
        2000
        no_bytes
        first_manager
      ≡ done (m₁, kid₁))
    × (rotate toy_crypto (seed_of 5) 3000 no_bytes m₁ ≡ done (m₂, kid₂))
    × (map (λ p. p.1) (key_info m₂) ≡ (2, false) ∷ (3, true) ∷ [])
unfolding rotate new new_key installed install share_seed prune prune_loop other_versions deactivate
    kid_of key_info insert remove sort_by_key insert_by decimal decimal_loop hex_encode hex_byte
    hex_digit str_eq
two_rotations = (_, _, _, _, refl, refl, refl)

-- ===== src/Threshold/Tests.antt =====
-- Runs of the secret sharing, and its theorem at one secret.
use pqc_gateway.Common.{
  ℕ, zero, suc, ◌≡◌, ◌<◌, refl, ap, List, [], ◌∷◌, All, length, Bytes, done, panic, arith, codes,
  ok, some, true, ◌++◌,
}
use pqc_gateway.Threshold.Gf256.{
  gf256_mul, mul_loop, double, gf256_pow, pow_loop, gf256_inv, gf256_poly_eval, poly_loop,
  basis_loop, add_term, lagrange_loop, gf256_lagrange_interpolate_zero,
}
use pqc_gateway.Threshold.Shares.{
  Share, SharingConfig, ids_from, new_shares, push_value, split_loop, split_secret, same_length,
  point_before, points_at, interpolated, byte_before, reconstruct_loop, reconstruct_secret,
}
use pqc_gateway.Threshold.Recovery.{reconstruct_secret-split_secret}
use pqc_gateway.Threshold.Codes.{
  hex_digit, hex_byte, hex_encode, recovery_code, generate_recovery_codes, to_digit, push_digit,
  radix_loop, from_str_radix, with_head, split_dash, is_char_boundary, byte_then, parse_pairs,
  share_with, parse_id, parse_parts, parse_recovery_code, recover_from_codes,
}
use pqc_gateway.Threshold.RoundTrip.{recover_from_codes-generate}
use pqc_gateway.Threshold.Manager.{
  ThresholdKeyManager, find_share, get_share, push_found, found_shares, manager_of, new_manager,
  sign_with_quorum, verify,
}
use pqc_gateway.Threshold.Quorum.{sign_with_quorum_lem}
use pqc_gateway.Threshold.Signing.{
  SigningParty, DistributedSignatureResult, distributed_sign, verify_distributed_signature,
  distributed_sign_lem,
}
use pqc_gateway.Crypto.Toy.{toy}
use mathlib.Core.List.Memᴰ.{head, tail}

-- A generator that writes one byte only.
abbrev fixed_bytes : ℕ → ℕ → Bytes
fixed_bytes i zero = []
fixed_bytes i (suc n) = 99 ∷ fixed_bytes i n

fixed_bytes_lem : (i n : ℕ) → (length (fixed_bytes i n) ≡ n) × All (λ b. b < 256) (fixed_bytes i n)
fixed_bytes_lem i zero = (refl, tt)
fixed_bytes_lem i (suc n) = let (e, h) = fixed_bytes_lem i n in (ap suc e, (omega arith, h))

abbrev two_of_three : SharingConfig
two_of_three = record { threshold = 2; total_shares = 3 }

abbrev first_share : Share
first_share = record { id = 1; data_ = 73 ∷ 100 ∷ [] }

abbrev second_share : Share
second_share = record { id = 2; data_ = 236 ∷ 193 ∷ [] }

abbrev third_share : Share
third_share = record { id = 3; data_ = 143 ∷ 162 ∷ [] }

split_secret_run :
    split_secret fixed_bytes (42 ∷ 7 ∷ []) two_of_three
    ≡ done (first_share ∷ second_share ∷ third_share ∷ [])
unfolding split_secret split_loop push_value new_shares ids_from gf256_poly_eval poly_loop gf256_mul
    mul_loop double
split_secret_run = refl

reconstruct_secret-split_secret_example :
    reconstruct_secret (third_share ∷ first_share ∷ []) ≡ done (42 ∷ 7 ∷ [])
reconstruct_secret-split_secret_example =
    reconstruct_secret-split_secret fixed_bytes fixed_bytes_lem (42 ∷ 7 ∷ [])
      (omega arith, (omega arith, tt)) two_of_three (omega arith) (omega arith) (omega arith)
      (first_share ∷ second_share ∷ third_share ∷ []) split_secret_run
      (third_share ∷ first_share ∷ []) (tail (tail (head refl)), (head refl, tt))
      (((λ e. absurd (omega (arith, e))), tt), (tt, tt)) (omega arith)

-- One share too few gives another secret.
one_share_is_not_enough : reconstruct_secret (first_share ∷ []) ≡ done (73 ∷ 100 ∷ [])
unfolding reconstruct_secret same_length reconstruct_loop points_at point_before interpolated
    byte_before gf256_lagrange_interpolate_zero lagrange_loop basis_loop add_term gf256_inv
    gf256_pow pow_loop gf256_mul mul_loop double
one_share_is_not_enough = refl

-- A share that is given twice panics, in the inverse of zero.
same_share_twice : reconstruct_secret (first_share ∷ first_share ∷ []) ≡ panic
unfolding reconstruct_secret same_length reconstruct_loop points_at point_before interpolated
    byte_before gf256_lagrange_interpolate_zero lagrange_loop basis_loop add_term gf256_inv
    gf256_pow pow_loop gf256_mul mul_loop double
same_share_twice = refl

abbrev three_shares : List Share
three_shares = first_share ∷ second_share ∷ third_share ∷ []

recovery_code_run : generate_recovery_codes (first_share ∷ []) ≡ codes "01-4964" ∷ []
unfolding generate_recovery_codes recovery_code hex_encode hex_byte hex_digit
recovery_code_run = refl

odd_digits_panic : parse_recovery_code (codes "01-496") ≡ panic
unfolding parse_recovery_code parse_parts parse_id share_with parse_pairs is_char_boundary byte_then
    split_dash with_head from_str_radix radix_loop push_digit to_digit
odd_digits_panic = refl

recover_from_codes-generate_example :
    recover_from_codes (generate_recovery_codes (third_share ∷ first_share ∷ []))
    ≡ done (ok (42 ∷ 7 ∷ []))
recover_from_codes-generate_example =
    recover_from_codes-generate fixed_bytes fixed_bytes_lem (42 ∷ 7 ∷ [])
      (omega arith, (omega arith, tt)) two_of_three (omega arith) (omega arith) (omega arith)
      three_shares split_secret_run (third_share ∷ first_share ∷ [])
      (tail (tail (head refl)), (head refl, tt)) (((λ e. absurd (omega (arith, e))), tt), (tt, tt))
      (omega arith)

abbrev repeated : ℕ → ℕ → Bytes
repeated b zero = []
repeated b (suc n) = b ∷ repeated b n

repeated_bytes : (b n : ℕ) → b < 256 → All (λ b. b < 256) (repeated b n)
repeated_bytes b zero h = tt
repeated_bytes b (suc n) h = (h, repeated_bytes b n h)

abbrev toy_shares : List Share
toy_shares =
    record { id = 1; data_ = repeated 100 32 }
    ∷ record { id = 2; data_ = repeated 193 32 }
    ∷ record { id = 3; data_ = repeated 162 32 }
    ∷ []

abbrev toy_manager : ThresholdKeyManager
toy_manager = record {
  public_key = repeated 7 32;
  distributed_shares = toy_shares;
  config = two_of_three;
  recovery_codes = generate_recovery_codes toy_shares;
  fingerprint = hex_encode (repeated 7 16);
  signature_count = 0;
}

new_manager_run :
    new_manager toy (λ b. b) (repeated 7 32) fixed_bytes two_of_three ≡ done toy_manager
unfolding new_manager manager_of split_secret split_loop push_value new_shares ids_from
    gf256_poly_eval poly_loop gf256_mul mul_loop double
new_manager_run = refl

sign_with_quorum_example :
    (sign_with_quorum toy (λ b. b) toy_manager (3 ∷ 1 ∷ []) (5 ∷ [])
      ≡ done (record toy_manager { signature_count = 1 }, some (repeated 7 32 ++ (5 ∷ []))))
    × (verify toy (λ b. b) toy_manager (5 ∷ []) (repeated 7 32 ++ (5 ∷ [])) ≡ true)
sign_with_quorum_example =
    sign_with_quorum_lem toy (λ b. b) (repeated 7 32) fixed_bytes two_of_three toy_manager refl
      (repeated_bytes 7 32 (omega arith)) fixed_bytes_lem (omega arith) (omega arith) (omega arith)
      new_manager_run (3 ∷ 1 ∷ []) (5 ∷ []) (tail (tail (head refl)), (head refl, tt))
      (((λ e. absurd (omega (arith, e))), tt), (tt, tt)) (omega arith)

few : length (found_shares toy_manager (3 ∷ 9 ∷ 8 ∷ [])) < 2
unfolding found_shares get_share push_found find_share
few = omega arith

abbrev party : Share → SigningParty
party s = record { party_id = s.id; share = s; public_key = repeated 7 32 }

abbrev share_three : Share
share_three = record { id = 3; data_ = repeated 162 32 }

abbrev share_one : Share
share_one = record { id = 1; data_ = repeated 100 32 }

split_seed_run : split_secret fixed_bytes (repeated 7 32) two_of_three ≡ done toy_shares
unfolding split_secret split_loop push_value new_shares ids_from gf256_poly_eval poly_loop gf256_mul
    mul_loop double
split_seed_run = refl

distributed_sign_example :
    (result : DistributedSignatureResult) × (distributed_sign toy
        (λ b. b)
        (party share_three ∷ party share_one ∷ [])
        (5 ∷ [])
      ≡ done (ok result))
    × (result.signature ≡ repeated 7 32 ++ (5 ∷ []))
    × (result.parties_involved ≡ 3 ∷ 1 ∷ [])
    × (verify_distributed_signature toy (λ b. b) result (5 ∷ []) ≡ true)
distributed_sign_example =
    distributed_sign_lem toy (λ b. b) (repeated 7 32) fixed_bytes two_of_three toy_shares refl
      (repeated_bytes 7 32 (omega arith)) fixed_bytes_lem (omega arith) (omega arith) (omega arith)
      split_seed_run (party share_three) (party share_one ∷ []) (5 ∷ [])
      (tail (tail (head refl)), (head refl, tt)) (((λ e. absurd (omega (arith, e))), tt), (tt, tt))
      (omega arith) refl

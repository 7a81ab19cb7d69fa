-- ===== src/Signature/Parsed.antt =====
-- crates/pqc-tls/src/signature.rs: on which texts `from_seed_hex` does not panic.
use pqc_gateway.Common.{
  ℕ, if_elim, ◌≡◌, refl, ap, ◌∙◌, [], ◌∷◌, Bytes, Str, Option, none, some, Outcome, done, panic,
  Result, ok, err, length, if◌then◌else◌, ◌==◌, All, ◌<◌, ◌%◌, arith,
}
use pqc_gateway.Crypto.{Crypto}
use pqc_gateway.Threshold.Codes.{
  CodeError, parse_pairs, is_char_boundary, byte_then, from_str_radix,
}
use pqc_gateway.Signature.Keys.{SignatureKeys, KeyError, keys_of_seed, from_seed_hex}

-- Every text of ASCII characters, an even number of them, is parsed, if only to an error.
parse_pairs_total :
    (s : Str)
    → All (λ c. c < 128) s
    → length s % 2 ≡ 0
    → (r : Result Bytes CodeError) × (parse_pairs s ≡ done r)
unfolding parse_pairs is_char_boundary byte_then
parse_pairs_total [] h e = (ok [], refl)
parse_pairs_total (c ∷ []) h e = absurd (omega (arith, e))
parse_pairs_total (c ∷ d ∷ s) (_, (_, hs)) e =
    let (r, p) = parse_pairs_total s hs (omega (arith, e)) in
    let (r', q) = byte_then_total (from_str_radix (c ∷ d ∷ [])) r in
    (
      r',
      at_boundary s hs (byte_then (from_str_radix (c ∷ d ∷ [])) (parse_pairs s))
          ∙ ap (byte_then (from_str_radix (c ∷ d ∷ []))) p
          ∙ q,
    )
  where
    byte_then_total :
        (b : Option ℕ) (r : Result Bytes CodeError)
        → (r' : Result Bytes CodeError) × (byte_then b (done r) ≡ done r')
    byte_then_total none r = (_, refl)
    byte_then_total (some b) (ok bytes) = (_, refl)
    byte_then_total (some b) (err e) = (_, refl)

    at_boundary :
        (s : Str)
        → All (λ c. c < 128) s
        → (x : Outcome (Result Bytes CodeError)) → (if is_char_boundary s then x else panic) ≡ x
    at_boundary [] h x = refl
    at_boundary (c ∷ s) (h, _) x = ground (arith, h)

module _ (cr : Crypto) where
  -- On such a text `from_seed_hex` does not panic.
  pub from_seed_hex_total :
      (ecdsa_key : Bytes) (hex : Str)
      → All (λ c. c < 128) hex
      → length hex % 2 ≡ 0
      → (r : Result SignatureKeys KeyError) × (from_seed_hex cr ecdsa_key hex ≡ done r)
  unfolding from_seed_hex keys_of_seed
  from_seed_hex_total ecdsa_key hex h e =
      let (r, p) = parse_pairs_total hex h e in
      let (r', q) = of_bytes r in (r', ap (keys_of_seed cr ecdsa_key) p ∙ q)
    where
      of_bytes :
          (r : Result Bytes CodeError)
          → (r' : Result SignatureKeys KeyError) × (keys_of_seed cr ecdsa_key (done r) ≡ done r')
      of_bytes (err e) = (_, refl)
      of_bytes (ok seed) =
          if_elim {A = Outcome (Result SignatureKeys KeyError)}
            (λ x. (r' : Result SignatureKeys KeyError) × (x ≡ done r')) (length seed == 32) _ _
            (λ _. (_, refl)) (λ _. (_, refl))

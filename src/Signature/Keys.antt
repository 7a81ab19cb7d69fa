-- ===== src/Signature/Keys.antt =====
-- crates/pqc-tls/src/signature.rs: `SignatureKeyManager`, the pair of keys that signs responses. The
-- random ECDSA key and ML-DSA seed are arguments; `expect` panics.
use mathlib.Core.Path.{subst}
use pqc_gateway.Common.{
  if_elim, ==_iff, ◌≡◌, ◌↔◌, refl, ap, ◌∙◌, ◌≢◌, [], ◌∷◌, ◌++◌, Bytes, Str, codes, str_eq,
  str_eq_refl, Bool, true, false, Option, none, some, Outcome, done, panic, Result, ok, err, length,
  take, if◌then◌else◌, ◌==◌, All, ◌<◌, not,
}
use pqc_gateway.Crypto.{Crypto}
use pqc_gateway.MlDsa.{
  MlDsaError, ml_dsa_sign, ml_dsa_verify, or_false, ml_dsa_sign_lem, ml_dsa_verify_own,
}
use pqc_gateway.Signature.{SignatureMode, classical, hybrid, ml_dsa_only}
use pqc_gateway.Threshold.Codes.{CodeError, hex_byte, hex_encode, parse_pairs}
use pqc_gateway.Threshold.RoundTrip.{parse_pairs-hex_encode}

pub record SignatureOutput : Type 0 where
  pub algorithm : Str
  pub pqc_signature : Str
  pub classical_signature : Option Str
  pub content_digest : Str
  pub public_key_fingerprint : Str

-- `Inner`.
pub record SignatureKeys : Type 0 where
  pub ecdsa_signing_key : Bytes
  pub ecdsa_verifying_key : Bytes
  pub mldsa_seed : Bytes
  pub mldsa_public_key : Bytes
  pub fingerprint : Str

pub data KeyError : Type 0 where
  invalid_hex : KeyError
  invalid_seed_length : KeyError

-- `join(":")`, on the texts of the bytes.
unfoldable pub colons : Bytes → Str
colons [] = []
colons (b ∷ []) = hex_byte b
colons (b ∷ c ∷ bytes) = hex_byte b ++ (b':' ∷ colons (c ∷ bytes))

module _ (cr : Crypto) where
  unfoldable pub combined_fingerprint : Bytes → Bytes → Str
  combined_fingerprint ecdsa_pk mldsa_pk = colons (take 16 (cr.sha256 (ecdsa_pk ++ mldsa_pk)))

  unfoldable pub generate : Bytes → Bytes → SignatureKeys
  generate ecdsa_key seed = record {
    ecdsa_signing_key = ecdsa_key;
    ecdsa_verifying_key = cr.ecdsa_public ecdsa_key;
    mldsa_seed = seed;
    mldsa_public_key = cr.ml.public_key_of seed;
    fingerprint = combined_fingerprint (cr.ecdsa_public ecdsa_key) (cr.ml.public_key_of seed);
  }

  unfoldable pub keys_of_seed :
      Bytes → Outcome (Result Bytes CodeError) → Outcome (Result SignatureKeys KeyError)
  keys_of_seed ecdsa_key panic = panic
  keys_of_seed ecdsa_key (done (err e)) = done (err invalid_hex)
  keys_of_seed ecdsa_key (done (ok seed)) =
      if length seed == 32
      then done (ok (generate ecdsa_key seed))
      else done (err invalid_seed_length)

  unfoldable pub from_seed_hex : Bytes → Str → Outcome (Result SignatureKeys KeyError)
  from_seed_hex ecdsa_key hex = keys_of_seed ecdsa_key (parse_pairs hex)

  unfoldable pub seed_hex : SignatureKeys → Str
  seed_hex k = hex_encode k.mldsa_seed

  unfoldable pub hybrid_output :
      SignatureKeys → Bytes → Result Bytes MlDsaError → Outcome SignatureOutput
  hybrid_output k message (err e) = panic
  hybrid_output k message (ok sig) = done (record {
    algorithm = codes "ecdsa-p256+ml-dsa-65";
    pqc_signature = cr.b64_encode sig;
    classical_signature = some (cr.b64_encode (cr.ecdsa_sign k.ecdsa_signing_key message));
    content_digest = hex_encode (cr.sha256 message);
    public_key_fingerprint = k.fingerprint;
  })

  unfoldable pub sign_hybrid : SignatureKeys → Bytes → Outcome SignatureOutput
  sign_hybrid k message = hybrid_output k message (ml_dsa_sign cr.ml k.mldsa_seed message)

  unfoldable pub mldsa_output :
      SignatureKeys → Bytes → Result Bytes MlDsaError → Outcome SignatureOutput
  mldsa_output k message (err e) = panic
  mldsa_output k message (ok sig) = done (record {
    algorithm = codes "ml-dsa-65";
    pqc_signature = cr.b64_encode sig;
    classical_signature = none;
    content_digest = hex_encode (cr.sha256 message);
    public_key_fingerprint = k.fingerprint;
  })

  unfoldable pub sign_mldsa_only : SignatureKeys → Bytes → Outcome SignatureOutput
  sign_mldsa_only k message = mldsa_output k message (ml_dsa_sign cr.ml k.mldsa_seed message)

  unfoldable pub some_output : Outcome SignatureOutput → Outcome (Option SignatureOutput)
  some_output panic = panic
  some_output (done out) = done (some out)

  unfoldable pub sign : SignatureKeys → SignatureMode → Bytes → Outcome (Option SignatureOutput)
  sign k classical message = done none
  sign k hybrid message = some_output (sign_hybrid k message)
  sign k ml_dsa_only message = some_output (sign_mldsa_only k message)

  unfoldable pub mldsa_valid : SignatureKeys → Bytes → Option Bytes → Bool
  mldsa_valid k message none = false
  mldsa_valid k message (some sig) =
      or_false cr.ml (ml_dsa_verify cr.ml k.mldsa_public_key message sig)

  unfoldable pub verify_mldsa : SignatureKeys → Bytes → Str → Bool
  verify_mldsa k message pqc_b64 = mldsa_valid k message (cr.b64_decode pqc_b64)

  unfoldable pub ecdsa_valid : SignatureKeys → Bytes → Option Bytes → Bool
  ecdsa_valid k message none = false
  ecdsa_valid k message (some sig) = cr.ecdsa_verify k.ecdsa_verifying_key message sig

  unfoldable pub verify_ecdsa : SignatureKeys → Bytes → Str → Bool
  verify_ecdsa k message classical_b64 = ecdsa_valid k message (cr.b64_decode classical_b64)

  unfoldable pub verify_classical : SignatureKeys → Bytes → Option Str → Bool
  verify_classical k message none = true
  verify_classical k message (some classical_b64) = verify_ecdsa k message classical_b64

  unfoldable pub verify : SignatureKeys → Bytes → SignatureOutput → Bool
  verify k message out =
      if not (str_eq (hex_encode (cr.sha256 message)) out.content_digest)
      then false
      else if not (verify_mldsa k message out.pqc_signature)
      then false
      else verify_classical k message out.classical_signature

  -- A pair of keys as the constructors make it.
  pub record IsKeyPair (k : SignatureKeys) : Type 0 where
    pub seed_length : length k.mldsa_seed ≡ 32
    pub own_public : k.mldsa_public_key ≡ cr.ml.public_key_of k.mldsa_seed
    pub own_ecdsa : k.ecdsa_verifying_key ≡ cr.ecdsa_public k.ecdsa_signing_key
    pub own_fingerprint :
        k.fingerprint ≡ combined_fingerprint k.ecdsa_verifying_key k.mldsa_public_key

  pub generate-IsKeyPair :
      (ecdsa_key seed : Bytes) → length seed ≡ 32 → IsKeyPair (generate ecdsa_key seed)
  unfolding generate
  generate-IsKeyPair ecdsa_key seed h = record {
    seed_length = h;
    own_public = refl;
    own_ecdsa = refl;
    own_fingerprint = refl;
  }

  verify_mldsa_own :
      (k : SignatureKeys) (message : Bytes)
      → IsKeyPair k
      → verify_mldsa k message (cr.b64_encode (cr.ml.sign_with k.mldsa_seed message)) ≡ true
  unfolding verify_mldsa mldsa_valid
  verify_mldsa_own k message v =
      rw
        (
          cr.b64_round (cr.ml.sign_with k.mldsa_seed message),
          v.own_public,
          ml_dsa_verify_own cr.ml k.mldsa_seed message v.seed_length,
        )
        refl

  verify_ecdsa_own :
      (k : SignatureKeys) (message : Bytes)
      → IsKeyPair k
      → verify_ecdsa k message (cr.b64_encode (cr.ecdsa_sign k.ecdsa_signing_key message)) ≡ true
  unfolding verify_ecdsa ecdsa_valid
  verify_ecdsa_own k message v =
      rw (cr.b64_round (cr.ecdsa_sign k.ecdsa_signing_key message), v.own_ecdsa)
        (cr.ecdsa_own k.ecdsa_signing_key message)

  -- In each mode that signs, the keys sign every message without a panic, the same keys verify the
  -- output, and it has a classical signature in the hybrid mode only.
  pub verify-sign :
      (k : SignatureKeys) (mode : SignatureMode) (message : Bytes)
      → IsKeyPair k
      → mode ≢ classical
      → (out : SignatureOutput) × (sign k mode message ≡ done (some out))
        × (verify k message out ≡ true)
        × ((out.classical_signature ≡ none) ↔ (mode ≡ ml_dsa_only))
        × (out.content_digest ≡ hex_encode (cr.sha256 message))
  unfolding sign sign_hybrid sign_mldsa_only hybrid_output mldsa_output some_output verify
      verify_classical
  verify-sign k classical message v n = absurd (n refl)
  verify-sign k hybrid message v n = (
    record {
      algorithm = codes "ecdsa-p256+ml-dsa-65";
      pqc_signature = cr.b64_encode (cr.ml.sign_with k.mldsa_seed message);
      classical_signature = some (cr.b64_encode (cr.ecdsa_sign k.ecdsa_signing_key message));
      content_digest = hex_encode (cr.sha256 message);
      public_key_fingerprint = k.fingerprint;
    },
    ap (λ r. some_output (hybrid_output k message r))
        (ml_dsa_sign_lem cr.ml k.mldsa_seed message v.seed_length),
    rw
        (
          str_eq_refl (hex_encode (cr.sha256 message)),
          verify_mldsa_own k message v,
          verify_ecdsa_own k message v,
        )
        refl,
    ((λ e. cc), (λ e. cc)),
    refl,
  )
  verify-sign k ml_dsa_only message v n = (
    record {
      algorithm = codes "ml-dsa-65";
      pqc_signature = cr.b64_encode (cr.ml.sign_with k.mldsa_seed message);
      classical_signature = none;
      content_digest = hex_encode (cr.sha256 message);
      public_key_fingerprint = k.fingerprint;
    },
    ap (λ r. some_output (mldsa_output k message r))
        (ml_dsa_sign_lem cr.ml k.mldsa_seed message v.seed_length),
    rw (str_eq_refl (hex_encode (cr.sha256 message)), verify_mldsa_own k message v) refl,
    ((λ _. refl), (λ _. refl)),
    refl,
  )

  -- A manager made from the exported seed of another has its ML-DSA keys; the ECDSA key is new.
  pub from_seed_hex-seed_hex :
      (k : SignatureKeys) (ecdsa_key : Bytes)
      → IsKeyPair k
      → All (λ b. b < 256) k.mldsa_seed
      → from_seed_hex ecdsa_key (seed_hex k) ≡ done (ok (generate ecdsa_key k.mldsa_seed))
  unfolding from_seed_hex seed_hex keys_of_seed
  from_seed_hex-seed_hex k ecdsa_key v h =
      ap (keys_of_seed ecdsa_key) (parse_pairs-hex_encode k.mldsa_seed h) ∙ rw (v.seed_length) refl

  -- Keys that come from a text are a pair.
  pub from_seed_hex-IsKeyPair :
      (ecdsa_key : Bytes) (hex : Str) (k : SignatureKeys)
      → from_seed_hex ecdsa_key hex ≡ done (ok k)
      → IsKeyPair k
  unfolding from_seed_hex keys_of_seed
  from_seed_hex-IsKeyPair ecdsa_key hex k = of_result (parse_pairs hex)
    where
      of_result :
          (r : Outcome (Result Bytes CodeError))
          → keys_of_seed ecdsa_key r ≡ done (ok k)
          → IsKeyPair k
      of_result panic = λ h. cc
      of_result (done (err e)) = λ h. cc
      of_result (done (ok seed)) =
          if_elim {A = Outcome (Result SignatureKeys KeyError)} (λ x. x ≡ done (ok k) → IsKeyPair k)
            (length seed == 32) _ _
            (λ q h.
              let same : generate ecdsa_key seed ≡ k = cc in
              subst IsKeyPair same
                (generate-IsKeyPair ecdsa_key seed ((==_iff (length seed) 32).0 q)))
            (λ _ h. cc)

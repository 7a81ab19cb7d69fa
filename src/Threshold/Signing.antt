-- ===== src/Threshold/Signing.antt =====
-- crates/pqc-tls/src/threshold.rs: distributed signing, where each party holds a share of the seed.
-- `seed` is the seed that `generate_ml_dsa_keypair` returns; `sha256` is the hash of `sha2`.
use pqc_gateway.Common.{
  ℕ, List, [], ◌∷◌, map, ◌<◌, ◌≤◌, ◌≡◌, refl, sym, ap, ◌∙◌, Bytes, Str, Outcome, done, panic,
  Result, ok, err, Bool, true, All, All-map, AllDifferent, length, length-map, arith,
}
use pqc_gateway.MlDsa.{
  MlDsa, MlDsaError, ml_dsa_sign, ml_dsa_verify, or_false, ml_dsa_sign_lem, ml_dsa_verify_own,
}
use pqc_gateway.Threshold.Shares.{Share, SharingConfig, split_secret, reconstruct_secret}
use pqc_gateway.Threshold.Codes.{hex_encode}
use pqc_gateway.Threshold.Recovery.{reconstruct_secret-split_secret}
use mathlib.Core.List.{Memᴰ, map-map}
use mathlib.Core.Path.{subst}

pub record SigningParty : Type 0 where
  pub party_id : ℕ  -- u8
  pub share : Share
  pub public_key : Bytes

pub record DistributedSignatureResult : Type 0 where
  pub signature : Bytes
  pub message_hash : Str
  pub parties_involved : List ℕ
  pub public_key : Bytes

unfoldable pub party_of : Bytes → Share → SigningParty
party_of public_key share = record { party_id = share.id; share = share; public_key = public_key }

module _ (ml : MlDsa) (sha256 : Bytes → Bytes) where
  unfoldable pub parties_of : Bytes → Outcome (List Share) → Outcome (List SigningParty × Bytes)
  parties_of public_key panic = panic
  parties_of public_key (done shares) = done (map (party_of public_key) shares, public_key)

  unfoldable pub setup_distributed_signing :
      Bytes → (ℕ → ℕ → Bytes) → SharingConfig → Outcome (List SigningParty × Bytes)
  setup_distributed_signing seed fill config =
      parties_of (ml.public_key_of seed) (split_secret fill seed config)

  unfoldable pub signed_result :
      SigningParty
      → List SigningParty
      → Bytes
      → Result Bytes MlDsaError
      → Result DistributedSignatureResult MlDsaError
  signed_result first parties message (err e) = err e
  signed_result first parties message (ok signature) = ok (record {
    signature = signature;
    message_hash = hex_encode (sha256 message);
    parties_involved = map (λ p. p.party_id) parties;
    public_key = first.public_key;
  })

  unfoldable pub sign_reconstructed :
      SigningParty
      → List SigningParty
      → Bytes
      → Outcome Bytes
      → Outcome (Result DistributedSignatureResult MlDsaError)
  sign_reconstructed first parties message panic = panic
  sign_reconstructed first parties message (done seed) =
      done (signed_result first parties message (ml_dsa_sign ml seed message))

  unfoldable pub distributed_sign :
      List SigningParty → Bytes → Outcome (Result DistributedSignatureResult MlDsaError)
  distributed_sign [] message = panic
  distributed_sign (p ∷ parties) message =
      sign_reconstructed p (p ∷ parties) message
        (reconstruct_secret (map (λ q. q.share) (p ∷ parties)))

  unfoldable pub verify_distributed_signature : DistributedSignatureResult → Bytes → Bool
  verify_distributed_signature result message =
      or_false ml (ml_dsa_verify ml result.public_key message result.signature)

  -- Parties that hold different shares of one seed, as many as the threshold, sign as the whole key
  -- does, and name themselves in the result; with the public key of the first party, if it is the
  -- key of the seed, the result is verified.
  pub distributed_sign_lem :
      (seed : Bytes) (fill : ℕ → ℕ → Bytes) (config : SharingConfig) (shares : List Share)
      → length seed ≡ 32
      → All (λ b. b < 256) seed
      → ((i n : ℕ) → (length (fill i n) ≡ n) × All (λ b. b < 256) (fill i n))
      → 1 ≤ config.threshold
      → config.threshold < 256
      → config.total_shares < 256
      → split_secret fill seed config ≡ done shares
      → (p : SigningParty) (parties : List SigningParty) (message : Bytes)
      → All (λ q. Memᴰ q.share shares) (p ∷ parties)
      → AllDifferent (map (λ q. q.share.id) (p ∷ parties))
      → config.threshold ≤ length (p ∷ parties)
      → p.public_key ≡ ml.public_key_of seed
      → (result : DistributedSignatureResult) × (distributed_sign (p ∷ parties) message
          ≡ done (ok result))
        × (result.signature ≡ ml.sign_with seed message)
        × (result.parties_involved ≡ map (λ q. q.party_id) (p ∷ parties))
        × (verify_distributed_signature result message ≡ true)
  unfolding distributed_sign sign_reconstructed signed_result verify_distributed_signature
  distributed_sign_lem seed fill config shares len bs fb pos small total split p parties message m d
        n key =
      let picked = map (λ (q : SigningParty). q.share) (p ∷ parties) in
      let enough : config.threshold ≤ length picked =
        omega (arith, n, length-map (λ (q : SigningParty). q.share) parties) in
      let back =
        reconstruct_secret-split_secret fill fb seed bs config pos small total shares split picked
          (All-map (λ s. Memᴰ s shares) (λ (q : SigningParty). q.share) (p ∷ parties) m)
          (subst AllDifferent
            (sym (map-map (λ (s : Share). s.id) (λ (q : SigningParty). q.share) (p ∷ parties))) d)
          enough in
      (
        record {
          signature = ml.sign_with seed message;
          message_hash = hex_encode (sha256 message);
          parties_involved = map (λ (q : SigningParty). q.party_id) (p ∷ parties);
          public_key = p.public_key;
        },
        ap (sign_reconstructed p (p ∷ parties) message) back
            ∙ ap (λ r. done (signed_result p (p ∷ parties) message r))
                (ml_dsa_sign_lem ml seed message len),
        refl,
        refl,
        ap (λ k. or_false ml (ml_dsa_verify ml k message (ml.sign_with seed message))) key
            ∙ ap (or_false ml) (ml_dsa_verify_own ml seed message len),
      )

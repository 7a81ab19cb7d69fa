-- ===== src/BatchVerify/MultiSignature.antt =====
-- crates/pqc-tls/src/batch_verify.rs: several signers sign one message.
use pqc_gateway.Common.{
  ℕ, ◌+◌, ◌≤◌, ◌≡◌, ◌↔◌, refl, ap, sym, ◌∙◌, List, [], ◌∷◌, ◌++◌, Bytes, Str, str_eq, str_eq_iff,
  Result, ok, err, Bool, true, false, not, Option, none, some, length, length-append, ltb,
  if◌then◌else◌, All, All-append, arith, Bool-cases, inl, inr,
}
use pqc_gateway.Crypto.{Crypto}
use pqc_gateway.MlDsa.{
  MlDsaError, ml_dsa_sign, ml_dsa_verify, or_false, ml_dsa_sign_lem, ml_dsa_verify_own,
}
use pqc_gateway.Threshold.Codes.{hex_encode}

pub record SignerContribution : Type 0 where
  pub signer_id : Str
  pub public_key : Bytes
  pub signature : Bytes

pub record MultiSignature : Type 0 where
  pub message_hash : Str
  pub contributions : List SignerContribution
  pub required_signers : ℕ

pub record MultiSignatureBuilder : Type 0 where
  pub message : Bytes
  pub message_hash : Str
  pub contributions : List SignerContribution
  pub required_signers : ℕ

unfoldable pub build : MultiSignatureBuilder → Option MultiSignature
build b =
    if ltb (length b.contributions) b.required_signers
    then none
    else some (record {
      message_hash = b.message_hash;
      contributions = b.contributions;
      required_signers = b.required_signers;
    })

module _ (cr : Crypto) where
  unfoldable pub new_builder : Bytes → ℕ → MultiSignatureBuilder
  new_builder message required_signers = record {
    message = message;
    message_hash = hex_encode (cr.sha256 message);
    contributions = [];
    required_signers = required_signers;
  }

  unfoldable pub push_contribution :
      MultiSignatureBuilder
      → Str
      → Bytes
      → Result Bytes MlDsaError
      → Result MultiSignatureBuilder MlDsaError
  push_contribution b signer_id public_key (err e) = err e
  push_contribution b signer_id public_key (ok signature) = ok (record b {
    contributions =
        b.contributions
        ++ ((record { signer_id = signer_id; public_key = public_key; signature = signature })
            ∷ []);
  })

  -- On an error the builder is as before.
  unfoldable pub add_signer :
      MultiSignatureBuilder → Str → Bytes → Bytes → Result MultiSignatureBuilder MlDsaError
  add_signer b signer_id seed public_key =
      push_contribution b signer_id public_key (ml_dsa_sign cr.ml seed b.message)

  unfoldable pub all_contributions : Bytes → List SignerContribution → Bool
  all_contributions message [] = true
  all_contributions message (c ∷ contributions) =
      let rest = all_contributions message contributions in
      if or_false cr.ml (ml_dsa_verify cr.ml c.public_key message c.signature) then rest else false

  unfoldable pub verify_multi_signature : MultiSignature → Bytes → Bool
  verify_multi_signature m message =
      if not (str_eq (hex_encode (cr.sha256 message)) m.message_hash)
      then false
      else if ltb (length m.contributions) m.required_signers
      then false
      else all_contributions message m.contributions

  abbrev pub IsValidFor : Bytes → SignerContribution → Type 0
  IsValidFor message c =
      or_false cr.ml (ml_dsa_verify cr.ml c.public_key message c.signature) ≡ true

  all_contributions_iff :
      (message : Bytes) (cs : List SignerContribution)
      → (all_contributions message cs ≡ true) ↔ All (IsValidFor message) cs
  unfolding all_contributions
  all_contributions_iff message [] = ((λ _. tt), (λ _. refl))
  all_contributions_iff message (c ∷ cs) =
      one (or_false cr.ml (ml_dsa_verify cr.ml c.public_key message c.signature))
        (all_contributions message cs) (all_contributions_iff message cs)
    where
      one :
          (b rest : Bool)
          → (rest ≡ true) ↔ All (IsValidFor message) cs
          → ((if b then rest else false) ≡ true) ↔ ((b ≡ true) × All (IsValidFor message) cs)
      one true rest (to, from) = ((λ h. (refl, to h)), (λ (_, h). from h))
      one false rest (to, from) = ((λ h. cc), (λ (h, _). cc))

  -- A multi-signature is verified exactly when it was made for a message with the same digest, has at
  -- least the contributions that it requires, and every contribution is valid for the message.
  pub verify_multi_signature_iff :
      (m : MultiSignature) (message : Bytes)
      → (verify_multi_signature m message ≡ true) ↔ (
          (hex_encode (cr.sha256 message) ≡ m.message_hash)
          × (m.required_signers ≤ length m.contributions)
          × All (IsValidFor message) m.contributions)
  unfolding verify_multi_signature
  verify_multi_signature_iff m message =
      let (to, from) = all_contributions_iff message m.contributions in
      let (same, same') = str_eq_iff (hex_encode (cr.sha256 message)) m.message_hash in
      all_tests (str_eq (hex_encode (cr.sha256 message)) m.message_hash) same same'
        (all_contributions message m.contributions) to from
    where
      all_tests :
          (b : Bool)
          → (b ≡ true → hex_encode (cr.sha256 message) ≡ m.message_hash)
          → (hex_encode (cr.sha256 message) ≡ m.message_hash → b ≡ true)
          → (rest : Bool) → (rest ≡ true → All (IsValidFor message) m.contributions)
          → (All (IsValidFor message) m.contributions → rest ≡ true)
          → ((if not b
                then false
                else if ltb (length m.contributions) m.required_signers
                then false
                else rest)
              ≡ true)
            ↔ ((hex_encode (cr.sha256 message) ≡ m.message_hash)
                × (m.required_signers ≤ length m.contributions)
                × All (IsValidFor message) m.contributions)
      all_tests false p q rest to from = ((λ h. cc), (λ (h, _, _). let wrong = q h in cc))
      all_tests true p q rest to from =
          elim (Bool-cases (ltb (length m.contributions) m.required_signers)) [
            | inl few ↦ rw few ((λ h. cc), (λ (_, enough, _). absurd (ground (arith, few, enough))))
            | inr enough ↦
                rw enough ((λ h. (p refl, ground (arith, enough), to h)), (λ (_, _, h). from h))
          ]

  abbrev then_add :
      Result MultiSignatureBuilder MlDsaError
      → (MultiSignatureBuilder → Result MultiSignatureBuilder MlDsaError)
      → Result MultiSignatureBuilder MlDsaError
  then_add (err e) f = err e
  then_add (ok b) f = f b

  -- Signers, each with a name and a seed, whose public key is its own.
  unfoldable pub add_signers :
      MultiSignatureBuilder → List (Str × Bytes) → Result MultiSignatureBuilder MlDsaError
  add_signers b [] = ok b
  add_signers b ((id, seed) ∷ signers) =
      then_add (add_signer b id seed (cr.ml.public_key_of seed)) (λ c. add_signers c signers)

  -- A builder for the message with `n` contributions, all of them valid.
  record IsReady (message : Bytes) (required n : ℕ) (b : MultiSignatureBuilder) : Type 0 where
    same_message : b.message ≡ message
    same_hash : b.message_hash ≡ hex_encode (cr.sha256 message)
    same_required : b.required_signers ≡ required
    number : length b.contributions ≡ n
    all_valid : All (IsValidFor message) b.contributions

  add_signers-IsReady :
      (message : Bytes) (required n : ℕ) (signers : List (Str × Bytes)) (b : MultiSignatureBuilder)
      → All (λ s. length s.1 ≡ 32) signers
      → IsReady message required n b
      → (c : MultiSignatureBuilder) × (add_signers b signers ≡ ok c)
        × IsReady message required (n + length signers) c
  unfolding add_signers add_signer push_contribution
  add_signers-IsReady message required n [] b h r = (
    b,
    refl,
    record {
      same_message = r.same_message;
      same_hash = r.same_hash;
      same_required = r.same_required;
      number = omega (arith, r.number);
      all_valid = r.all_valid;
    },
  )
  add_signers-IsReady message required n ((id, seed) ∷ signers) b (h, hs) r =
      let pk = cr.ml.public_key_of seed in
      let sig = cr.ml.sign_with seed b.message in
      let c : SignerContribution = record { signer_id = id; public_key = pk; signature = sig } in
      let next = record b { contributions = b.contributions ++ (c ∷ []) } in
      let valid : IsValidFor message c =
        rw (r.same_message, ml_dsa_verify_own cr.ml seed message h) refl in
      let ready : IsReady message required (n + 1) next = record {
        same_message = r.same_message;
        same_hash = r.same_hash;
        same_required = r.same_required;
        number = omega (arith, length-append b.contributions (c ∷ []), r.number);
        all_valid =
            All-append (IsValidFor message) b.contributions (c ∷ []) r.all_valid (valid, tt);
      } in
      let (d, e, rest) = add_signers-IsReady message required (n + 1) signers next hs ready in
      (
        d,
        ap (λ x. then_add (push_contribution b id pk x) (λ y. add_signers y signers))
              (ml_dsa_sign_lem cr.ml seed b.message h)
            ∙ e,
        record {
          same_message = rest.same_message;
          same_hash = rest.same_hash;
          same_required = rest.same_required;
          number = omega (arith, rest.number);
          all_valid = rest.all_valid;
        },
      )

  -- As many signers as are required, or more, each with a seed of 32 bytes, build a multi-signature
  -- that is verified for the message.
  pub verify_multi_signature-build :
      (message : Bytes) (required : ℕ) (signers : List (Str × Bytes))
      → All (λ s. length s.1 ≡ 32) signers
      → required ≤ length signers
      → (b : MultiSignatureBuilder) × (m : MultiSignature) × (add_signers
            (new_builder message required)
            signers
          ≡ ok b)
        × (build b ≡ some m)
        × (verify_multi_signature m message ≡ true)
  unfolding new_builder build
  verify_multi_signature-build message required signers h enough =
      let (b, e, r) =
        add_signers-IsReady message required 0 signers (new_builder message required) h (record {
          same_message = refl;
          same_hash = refl;
          same_required = refl;
          number = refl;
          all_valid = tt;
        }) in
      let full : b.required_signers ≤ length b.contributions =
        omega (arith, r.number, r.same_required) in
      let test : ltb (length b.contributions) b.required_signers ≡ false = ground (arith, full) in
      let m : MultiSignature = record {
        message_hash = b.message_hash;
        contributions = b.contributions;
        required_signers = b.required_signers;
      } in
      (
        b,
        m,
        e,
        ap (λ c. if c then none else some m) test,
        (verify_multi_signature_iff m message).1 (sym r.same_hash, full, r.all_valid),
      )

-- ===== src/BodyIntegrity/Checked.antt =====
-- crates/pqc-proxy/src/body_integrity.rs: what the checks of a request mean for its headers as they were
-- sent. A header that is no text is read as if it were missing.
use mathlib.Core.Path.{subst}
use pqc_gateway.Common.{
  Bytes, Str, codes, Bool, true, false, Bool-cases, ◌||◌, Option, none, some, ◌≡◌, ◌⊎◌, ◌↔◌, inl,
  inr, refl, sym, ap, ◌∙◌,
}
use pqc_gateway.Crypto.{Crypto}
use pqc_gateway.Http.{Http, readable, get_header, contains_header, present}
use pqc_gateway.Threshold.Codes.{hex_encode}
use pqc_gateway.VersionedKeys.{VersionedKeyManager, verify_by_kid}
use pqc_gateway.BodyIntegrity.{compute_digest, has_integrity_headers}
use pqc_gateway.BodyIntegrity.Requests.{kid_header, IsIntact}

module _ (cr : Crypto) (ht : Http) where
  open ht use {Headers}

  -- The header is missing, or is no text and is not looked at, or is a text with the property.
  abbrev pub Allows : (Str → Type 0) → Option Str → Type 0
  Allows P o =
      (o ≡ none)
      ⊎ (((v : Str) × (o ≡ some v) × (ht.is_text v ≡ false))
          ⊎ ((v : Str) × (o ≡ some v) × (ht.is_text v ≡ true) × P v))

  -- The digest is that of the body, and the signature is base64 of one of the body by the key that the
  -- request names; each as far as its header is there and is a text.
  abbrev pub IsChecked : VersionedKeyManager → Headers → Bytes → Type 0
  IsChecked m h body =
      Allows (λ v. v ≡ hex_encode (cr.sha256 body)) (ht.get h (codes "x-pqc-content-digest"))
      × Allows
          (λ v.
            (sig : Bytes) × (cr.b64_decode v ≡ some sig)
            × (verify_by_kid cr m (kid_header cr ht h) body sig ≡ true))
          (ht.get h (codes "x-pqc-request-signature"))

  -- Neither of the two headers was sent.
  abbrev pub HasNone : Headers → Type 0
  HasNone h =
      (ht.get h (codes "x-pqc-content-digest") ≡ none)
      × (ht.get h (codes "x-pqc-request-signature") ≡ none)

  Allows-iff :
      (P : Str → Type 0) (o : Option Str)
      → ((readable ht o ≡ none) ⊎ ((v : Str) × (readable ht o ≡ some v) × P v)) ↔ Allows P o
  Allows-iff P none = ((λ _. inl refl), (λ _. inl refl))
  Allows-iff P (some v) = elim (Bool-cases (ht.is_text v)) [
    | inl t ↦ rw t (
      (λ x. elim x [
        | inl e ↦ cc
        | inr (w, e, p) ↦ let same : v ≡ w = cc in inr (inr (v, refl, t, subst P (sym same) p))
      ]),
      (λ x. elim x [
        | inl e ↦ cc
        | inr (inl (w, e, f)) ↦
            let same : v ≡ w = cc in
            let wrong : true ≡ false = sym t ∙ ap (λ s. ht.is_text s) same ∙ f in cc
        | inr (inr (w, e, f, p)) ↦ inr (w, e, p)
      ]),
    )
    | inr f ↦ rw f ((λ x. inr (inl (v, refl, f))), (λ x. inl refl))
  ]

  present_iff : (o : Option Str) → (present ht o ≡ false) ↔ (o ≡ none)
  present_iff none = ((λ _. refl), (λ _. refl))
  present_iff (some v) = ((λ h. cc), (λ h. cc))

  pub HasNone-iff : (h : Headers) → (has_integrity_headers cr ht h ≡ false) ↔ HasNone h
  unfolding has_integrity_headers contains_header
  HasNone-iff h =
      let (a, a') = present_iff (ht.get h (codes "x-pqc-content-digest")) in
      let (b, b') = present_iff (ht.get h (codes "x-pqc-request-signature")) in
      both (present ht (ht.get h (codes "x-pqc-content-digest")))
        (present ht (ht.get h (codes "x-pqc-request-signature"))) a a' b b'
    where
      both :
          (x y : Bool)
          → (x ≡ false → ht.get h (codes "x-pqc-content-digest") ≡ none)
          → (ht.get h (codes "x-pqc-content-digest") ≡ none → x ≡ false)
          → (y ≡ false → ht.get h (codes "x-pqc-request-signature") ≡ none)
          → (ht.get h (codes "x-pqc-request-signature") ≡ none → y ≡ false)
          → ((x || y) ≡ false) ↔ HasNone h
      both true y a a' b b' = ((λ h. cc), (λ (p, q). let w = a' p in cc))
      both false y a a' b b' = ((λ h. (a refl, b h)), (λ (p, q). b' q))

  pub IsIntact-iff :
      (m : VersionedKeyManager) (h : Headers) (body : Bytes)
      → IsIntact cr ht m h body ↔ IsChecked m h body
  unfolding get_header compute_digest
  IsIntact-iff m h body =
      let (d, d') =
        Allows-iff (λ v. v ≡ hex_encode (cr.sha256 body))
          (ht.get h (codes "x-pqc-content-digest")) in
      let (s, s') =
        Allows-iff
          (λ v.
            (sig : Bytes) × (cr.b64_decode v ≡ some sig)
            × (verify_by_kid cr m (kid_header cr ht h) body sig ≡ true))
          (ht.get h (codes "x-pqc-request-signature")) in
      (
        (λ (x, y). (
          d (elim x [ inl e ↦ inl e | inr e ↦ inr (_, e, refl) ]),
          s (elim y [ inl e ↦ inl e | inr (t, g, e, p, q) ↦ inr (t, e, (g, p, q)) ]),
        )),
        (λ (x, y). (
          elim (d' x) [ inl e ↦ inl e | inr (v, e, p) ↦ inr (e ∙ ap some p) ],
          elim (s' y) [ inl e ↦ inl e | inr (t, e, (g, p, q)) ↦ inr (t, g, e, p, q) ],
        )),
      )

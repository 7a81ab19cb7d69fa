-- ===== src/Http.antt =====
-- The crate `http`: header maps and header values, as an interface. A header's name is lower-case
-- text, its value the bytes; `is_value` says that `HeaderValue::from_str` takes a text, `is_text`
-- that `to_str` reads a value. The laws are what the documentation promises: `insert` replaces what
-- stands under its name and nothing else, and printable ASCII is taken and read.
pub mod Toy
use pqc_gateway.Common.{
  ◌≤◌, ◌<◌, ◌≡◌, List, All, Str, Bool, true, false, Option, none, some, str_eq, if◌then◌else◌,
  str_eq_refl, refl, ap, Bool-cases, inl, inr,
}

abbrev pub Visible : Str → Type 0
Visible = All (λ c. (32 ≤ c) × (c < 127))

pub record Http : Type 1 where
  pub Headers : Type 0
  pub get : Headers → Str → Option Str
  pub insert : Headers → Str → Str → Headers
  pub remove : Headers → Str → Headers
  pub json_headers : Headers  -- of the response that axum makes of a JSON body
  pub is_value : Str → Bool
  pub is_text : Str → Bool
  pub get_insert :
      (h : Headers) (n m v : Str) → get (insert h n v) m ≡ (if str_eq n m then some v else get h m)
  pub get_remove :
      (h : Headers) (n m : Str) → get (remove h n) m ≡ (if str_eq n m then none else get h m)
  pub visible_value : (s : Str) → Visible s → is_value s ≡ true
  pub visible_text : (s : Str) → Visible s → is_text s ≡ true

module _ (ht : Http) where
  open ht use {Headers}

  -- `if let Ok(v) = HeaderValue::from_str(value) { headers.insert(name, v); }`.
  unfoldable pub set_header : Headers → Str → Str → Headers
  set_header h name value = if ht.is_value value then ht.insert h name value else h

  abbrev pub readable : Option Str → Option Str
  readable none = none
  readable (some v) = if ht.is_text v then some v else none

  -- `headers.get(name).and_then(|v| v.to_str().ok())`.
  unfoldable pub get_header : Headers → Str → Option Str
  get_header h name = readable (ht.get h name)

  abbrev pub present : Option Str → Bool
  present none = false
  present (some v) = true

  unfoldable pub contains_header : Headers → Str → Bool
  contains_header h name = present (ht.get h name)

  pub get_header-set_header :
      (h : Headers) (n v : Str) → Visible v → get_header (set_header h n v) n ≡ some v
  unfolding get_header set_header
  get_header-set_header h n v s =
      rw (ht.visible_value v s, ht.get_insert h n n v, str_eq_refl n, ht.visible_text v s) refl

  pub get-set_header_ne :
      (h : Headers) (n m v : Str) → str_eq n m ≡ false → ht.get (set_header h n v) m ≡ ht.get h m
  unfolding set_header
  get-set_header_ne h n m v d = elim (Bool-cases (ht.is_value v)) [
    | inl b ↦ rw (b, ht.get_insert h n m v, d) refl
    | inr b ↦ rw b refl
  ]

  pub get_header-set_header_ne :
      (h : Headers) (n m v : Str)
      → str_eq n m ≡ false
      → get_header (set_header h n v) m ≡ get_header h m
  unfolding get_header
  get_header-set_header_ne h n m v d = ap readable (get-set_header_ne h n m v d)

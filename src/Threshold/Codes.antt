-- ===== src/Threshold/Codes.antt =====
-- crates/pqc-tls/src/threshold.rs: recovery codes, which are shares in hexadecimal. A text is its
-- UTF-8 bytes; a slice that ends inside a character, or past the end, panics.
use pqc_gateway.Common.{
  ℕ, ◌+◌, ◌-◌, ◌*◌, ◌/◌, ◌%◌, List, [], ◌∷◌, ◌++◌, map, Bytes, Str, Outcome, done, panic, Result,
  ok, err, Bool, true, ◌||◌, ◌&&◌, Option, none, some, if◌then◌else◌, ◌==◌, leb, ltb,
}
use pqc_gateway.Threshold.Shares.{Share, reconstruct_secret}

-- `format!("{b:02x}")`.
unfoldable pub hex_digit : ℕ → ℕ
hex_digit d = if ltb d 10 then 48 + d else 87 + d

unfoldable pub hex_byte : ℕ → Str
hex_byte b = hex_digit (b / 16) ∷ hex_digit (b % 16) ∷ []

unfoldable pub hex_encode : Bytes → Str
hex_encode [] = []
hex_encode (b ∷ bytes) = hex_byte b ++ hex_encode bytes

unfoldable pub recovery_code : Share → Str
recovery_code s = hex_byte s.id ++ (b'-' ∷ hex_encode s.data_)

unfoldable pub generate_recovery_codes : List Share → List Str
generate_recovery_codes shares = map recovery_code shares

-- `char::to_digit(16)`.
unfoldable pub to_digit : ℕ → Option ℕ
to_digit c =
    if leb 48 c && leb c 57
    then some (c - 48)
    else if leb 97 c && leb c 102
    then some (c - 87)
    else if leb 65 c && leb c 70
    then some (c - 55)
    else none

unfoldable pub push_digit : ℕ → Option ℕ → Option ℕ
push_digit value none = none
push_digit value (some d) = if leb (value * 16 + d) 255 then some (value * 16 + d) else none

unfoldable pub radix_loop : Option ℕ → Str → Option ℕ
radix_loop none s = none
radix_loop (some value) [] = some value
radix_loop (some value) (c ∷ s) = radix_loop (push_digit value (to_digit c)) s

-- `u8::from_str_radix(s, 16)`: a plus sign may stand in front of the digits.
unfoldable pub from_str_radix : Str → Option ℕ
from_str_radix [] = none
from_str_radix (c ∷ []) = push_digit 0 (to_digit c)
from_str_radix (c ∷ d ∷ s) =
    if c == b'+' then radix_loop (some 0) (d ∷ s) else radix_loop (some 0) (c ∷ d ∷ s)

pub data CodeError : Type 0 where
  invalid_format : CodeError
  invalid_id : CodeError
  invalid_hex : CodeError

-- `splitn(2, '-')`, where there are two parts.
unfoldable pub with_head : ℕ → Option (Str × Str) → Option (Str × Str)
with_head c none = none
with_head c (some (first, second)) = some (c ∷ first, second)

unfoldable pub split_dash : Str → Option (Str × Str)
split_dash [] = none
split_dash (c ∷ s) =
    let rest = with_head c (split_dash s) in if c == b'-' then some ([], s) else rest

-- Whether a character begins here.
unfoldable pub is_char_boundary : Str → Bool
is_char_boundary [] = true
is_char_boundary (c ∷ s) = ltb c 128 || leb 192 c

unfoldable pub byte_then :
    Option ℕ → Outcome (Result Bytes CodeError) → Outcome (Result Bytes CodeError)
byte_then none rest = done (err invalid_hex)
byte_then (some b) panic = panic
byte_then (some b) (done (err e)) = done (err e)
byte_then (some b) (done (ok bytes)) = done (ok (b ∷ bytes))

-- The pairs of digits, up to the first that is none.
unfoldable pub parse_pairs : Str → Outcome (Result Bytes CodeError)
parse_pairs [] = done (ok [])
parse_pairs (c ∷ []) = panic
parse_pairs (c ∷ d ∷ s) =
    let rest = parse_pairs s in
    if is_char_boundary s then byte_then (from_str_radix (c ∷ d ∷ [])) rest else panic

unfoldable pub share_with : ℕ → Outcome (Result Bytes CodeError) → Outcome (Result Share CodeError)
share_with id panic = panic
share_with id (done (err e)) = done (err e)
share_with id (done (ok bytes)) = done (ok (record { id = id; data_ = bytes }))

unfoldable pub parse_id : Option ℕ → Str → Outcome (Result Share CodeError)
parse_id none data_hex = done (err invalid_id)
parse_id (some id) data_hex = share_with id (parse_pairs data_hex)

unfoldable pub parse_parts : Option (Str × Str) → Outcome (Result Share CodeError)
parse_parts none = done (err invalid_format)
parse_parts (some (id_hex, data_hex)) = parse_id (from_str_radix id_hex) data_hex

unfoldable pub parse_recovery_code : Str → Outcome (Result Share CodeError)
parse_recovery_code code = parse_parts (split_dash code)

unfoldable pub share_then :
    Outcome (Result Share CodeError)
    → Outcome (Result (List Share) CodeError)
    → Outcome (Result (List Share) CodeError)
share_then panic rest = panic
share_then (done (err e)) rest = done (err e)
share_then (done (ok s)) panic = panic
share_then (done (ok s)) (done (err e)) = done (err e)
share_then (done (ok s)) (done (ok shares)) = done (ok (s ∷ shares))

unfoldable pub parse_codes : List Str → Outcome (Result (List Share) CodeError)
parse_codes [] = done (ok [])
parse_codes (c ∷ codes) = share_then (parse_recovery_code c) (parse_codes codes)

unfoldable pub recovered : Outcome Bytes → Outcome (Result Bytes CodeError)
recovered panic = panic
recovered (done secret) = done (ok secret)

unfoldable pub reconstruct_parsed :
    Outcome (Result (List Share) CodeError) → Outcome (Result Bytes CodeError)
reconstruct_parsed panic = panic
reconstruct_parsed (done (err e)) = done (err e)
reconstruct_parsed (done (ok shares)) = recovered (reconstruct_secret shares)

unfoldable pub recover_from_codes : List Str → Outcome (Result Bytes CodeError)
recover_from_codes codes = reconstruct_parsed (parse_codes codes)

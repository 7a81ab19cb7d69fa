-- ===== src/Threshold/RoundTrip.antt =====
-- Recovery codes are read back as the shares that they were made of.
use pqc_gateway.Common.{
  ℕ, ◌/◌, ◌%◌, ◌<◌, ◌≤◌, ◌≡◌, refl, sym, ap, ◌∙◌, List, [], ◌∷◌, map, All, AllDifferent, All-Mem,
  All-imp, arith, length, Bytes, done, panic, ok, Option, none, some, Bool, true, false, ◌&&◌, ◌==◌,
  ltb, ==_iff, lt→ltb, ltb→lt, if◌then◌else◌,
}
use pqc_gateway.Common.Tables.{all_below, all_below_lem}
use pqc_gateway.Threshold.Shares.{Share, SharingConfig, split_secret}
use pqc_gateway.Threshold.Codes.{
  hex_digit, hex_byte, hex_encode, recovery_code, generate_recovery_codes, to_digit, push_digit,
  radix_loop, from_str_radix, with_head, split_dash, is_char_boundary, byte_then, parse_pairs,
  share_with, parse_id, parse_parts, parse_recovery_code, share_then, parse_codes, recovered,
  reconstruct_parsed, recover_from_codes,
}
use pqc_gateway.Threshold.Recovery.{reconstruct_secret-split_secret, split_secret_bytes}
use mathlib.Core.List.{Memᴰ}
use mathlib.Core.Path.{ap₂}

abbrev is_some_of : ℕ → Option ℕ → Bool
is_some_of b none = false
is_some_of b (some c) = b == c

-- Every byte is read back, its digits are ASCII, and none of them is a dash.
hex_table :
    all_below
      (λ b.
        is_some_of b (from_str_radix (hex_byte b))
        && (ltb (hex_digit (b / 16)) 128
            && (ltb b'-' (hex_digit (b / 16)) && ltb b'-' (hex_digit (b % 16)))))
      256
    ≡ true
unfolding all_below from_str_radix hex_byte hex_digit radix_loop push_digit to_digit
hex_table = refl

is_some_of_lem : (b : ℕ) (o : Option ℕ) → is_some_of b o ≡ true → o ≡ some b
is_some_of_lem b none h = cc
is_some_of_lem b (some c) h = ap some (sym ((==_iff b c).0 h))

split_and : (a b : Bool) → (a && b) ≡ true → (a ≡ true) × (b ≡ true)
split_and a b h = ground (arith, h)

hex_lem :
    (b : ℕ)
    → b < 256
    → (from_str_radix (hex_byte b) ≡ some b)
      × (hex_digit (b / 16) < 128)
      × (b'-' < hex_digit (b / 16))
      × (b'-' < hex_digit (b % 16))
hex_lem b p =
    let all =
      all_below_lem
        (λ b.
          is_some_of b (from_str_radix (hex_byte b))
          && (ltb (hex_digit (b / 16)) 128
              && (ltb b'-' (hex_digit (b / 16)) && ltb b'-' (hex_digit (b % 16)))))
        256 b hex_table p in
    let (read, more) = split_and _ _ all in
    let (ascii, dashes) = split_and _ _ more in
    let (first, second) = split_and _ _ dashes in
    (is_some_of_lem b _ read, ltb→lt _ _ ascii, ltb→lt _ _ first, ltb→lt _ _ second)

is_char_boundary-hex_encode :
    (bytes : Bytes) → All (λ b. b < 256) bytes → is_char_boundary (hex_encode bytes) ≡ true
unfolding is_char_boundary hex_encode hex_byte
is_char_boundary-hex_encode [] _ = refl
is_char_boundary-hex_encode (b ∷ bytes) (h, _) =
    let (_, ascii, _, _) = hex_lem b h in rw (lt→ltb _ _ ascii) refl

pub parse_pairs-hex_encode :
    (bytes : Bytes) → All (λ b. b < 256) bytes → parse_pairs (hex_encode bytes) ≡ done (ok bytes)
unfolding parse_pairs hex_encode hex_byte byte_then
parse_pairs-hex_encode [] _ = refl
parse_pairs-hex_encode (b ∷ bytes) (h, hs) =
    ap
      (λ t.
        if t
        then byte_then (from_str_radix (hex_byte b)) (parse_pairs (hex_encode bytes))
        else panic)
      (is_char_boundary-hex_encode bytes hs)
    ∙ ap₂ byte_then (hex_lem b h).0 (parse_pairs-hex_encode bytes hs)

not_dash : (c : ℕ) → b'-' < c → (c == b'-') ≡ false
not_dash c h = ground (arith, h)

split_dash-recovery_code :
    (s : Share)
    → s.id < 256
    → split_dash (recovery_code s) ≡ some (hex_byte s.id, hex_encode s.data_)
unfolding split_dash recovery_code hex_byte with_head
split_dash-recovery_code s h =
    let (_, _, first, second) = hex_lem s.id h in rw (not_dash _ first, not_dash _ second) refl

-- The code of a share is read back as that share.
pub parse-recovery_code :
    (s : Share)
    → s.id < 256
    → All (λ b. b < 256) s.data_
    → parse_recovery_code (recovery_code s) ≡ done (ok s)
unfolding parse_recovery_code parse_parts parse_id share_with
parse-recovery_code s h hs =
    ap parse_parts (split_dash-recovery_code s h)
    ∙ ap₂ parse_id (hex_lem s.id h).0 refl
    ∙ ap (share_with s.id) (parse_pairs-hex_encode s.data_ hs)

parse_codes-generate :
    (shares : List Share)
    → All (λ s. (s.id < 256) × All (λ b. b < 256) s.data_) shares
    → parse_codes (generate_recovery_codes shares) ≡ done (ok shares)
unfolding parse_codes generate_recovery_codes share_then
parse_codes-generate [] _ = refl
parse_codes-generate (s ∷ shares) ((h, hs), rest) =
    ap₂ share_then (parse-recovery_code s h hs) (parse_codes-generate shares rest)

recovered_done : (secret : Bytes) → recovered (done secret) ≡ done (ok secret)
unfolding recovered
recovered_done secret = refl

-- A secret comes back from the recovery codes of any of its shares, as many as the threshold and
-- with different identifiers. The random generator fills the buffers that it is given with bytes.
pub recover_from_codes-generate :
    (fill : ℕ → ℕ → Bytes)
    → ((i n : ℕ) → (length (fill i n) ≡ n) × All (λ b. b < 256) (fill i n))
    → (secret : Bytes) → All (λ b. b < 256) secret
    → (config : SharingConfig) → 1 ≤ config.threshold
    → config.threshold < 256
    → config.total_shares < 256
    → (shares : List Share) → split_secret fill secret config ≡ done shares
    → (picked : List Share) → All (λ s. Memᴰ s shares) picked
    → AllDifferent (map (λ s. s.id) picked)
    → config.threshold ≤ length picked
    → recover_from_codes (generate_recovery_codes picked) ≡ done (ok secret)
unfolding recover_from_codes reconstruct_parsed
recover_from_codes-generate fill fb secret bs config pos small total shares e picked m d n =
    ap reconstruct_parsed (
      parse_codes-generate picked (
        All-imp (λ s. Memᴰ s shares) _ picked
          (All-Mem _ shares (split_secret_bytes fill fb secret bs config total shares e)) m))
    ∙ ap recovered (
        reconstruct_secret-split_secret fill fb secret bs config pos small total shares e picked m d
          n)
    ∙ recovered_done secret

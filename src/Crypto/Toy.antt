-- ===== src/Crypto/Toy.antt =====
-- Schemes that are easy to run, for the tests: a signature is the key and the message, an encoding
-- a row of ones for each byte, and a digest the first bytes of the message, filled up with zeros.
use pqc_gateway.Common.{
  ℕ, zero, suc, ◌+◌, ◌-◌, false, ◌%◌, ◌≤◌, ◌<◌, ◌∙◌, Option, none, All, arith, Str, ◌==◌,
  if◌then◌else◌, ◌≡◌, refl, ap, [], ◌∷◌, ◌++◌, Bytes, some, true, length, str_eq, str_eq_refl,
}
use pqc_gateway.MlDsa.{MlDsa}
use pqc_gateway.Crypto.{Crypto}

abbrev pub toy : MlDsa
toy = record {
  public_key_of = λ seed. seed;
  sign_with = λ seed message. seed ++ message;
  is_signature = λ s. true;
  is_public_key = λ k. true;
  verifies = λ key message s. str_eq (key ++ message) s;
  own_key = λ seed h. refl;
  own_signature = λ seed message h. (refl, str_eq_refl (seed ++ message));
}

abbrev pub filled : ℕ → Bytes → Bytes
filled zero message = []
filled (suc n) [] = 0 ∷ filled n []
filled (suc n) (b ∷ message) = b % 256 ∷ filled n message

pub length-filled : (n : ℕ) (message : Bytes) → length (filled n message) ≡ n
length-filled zero message = refl
length-filled (suc n) [] = ap suc (length-filled n [])
length-filled (suc n) (b ∷ message) = ap suc (length-filled n message)

pub filled-bytes : (n : ℕ) (message : Bytes) → All (λ c. c < 256) (filled n message)
filled-bytes zero message = tt
filled-bytes (suc n) [] = (omega arith, filled-bytes n [])
filled-bytes (suc n) (b ∷ message) = (omega arith, filled-bytes n message)

-- `n` ones in front of a text.
abbrev pub ones : ℕ → Str → Str
ones zero s = s
ones (suc n) s = b'1' ∷ ones n s

abbrev pub unary : Bytes → Str
unary [] = []
unary (b ∷ bytes) = ones b (b'.' ∷ unary bytes)

abbrev pub prepend : ℕ → Option Bytes → Option Bytes
prepend n none = none
prepend n (some bytes) = some (n ∷ bytes)

abbrev pub read_unary : ℕ → Str → Option Bytes
read_unary n [] = some []
read_unary n (c ∷ s) =
    let end = prepend n (read_unary 0 s) in
    let more = read_unary (suc n) s in if c == b'.' then end else more

read_unary-ones :
    (k n : ℕ) (s : Str) → read_unary n (ones k (b'.' ∷ s)) ≡ prepend (n + k) (read_unary 0 s)
read_unary-ones zero n s = ap (λ m. prepend m (read_unary 0 s)) (omega arith)
read_unary-ones (suc k) n s =
    read_unary-ones k (suc n) s ∙ ap (λ m. prepend m (read_unary 0 s)) (omega arith)

pub read_unary-unary : (b : Bytes) → read_unary 0 (unary b) ≡ some b
read_unary-unary [] = refl
read_unary-unary (b ∷ bytes) =
    read_unary-ones b 0 (unary bytes)
    ∙ ap (λ m. prepend m (read_unary 0 (unary bytes))) (omega arith)
    ∙ ap (prepend b) (read_unary-unary bytes)

ones-visible :
    (n : ℕ) (s : Str)
    → All (λ c. (32 ≤ c) × (c < 127)) s
    → All (λ c. (32 ≤ c) × (c < 127)) (ones n s)
ones-visible zero s h = h
ones-visible (suc n) s h = ((omega arith, omega arith), ones-visible n s h)

pub unary-visible : (b : Bytes) → All (λ c. (32 ≤ c) × (c < 127)) (unary b)
unary-visible [] = tt
unary-visible (b ∷ bytes) =
    ones-visible b (b'.' ∷ unary bytes) ((omega arith, omega arith), unary-visible bytes)

-- Every byte above the full stop.
abbrev pub raised : Bytes → Str
raised [] = []
raised (b ∷ bytes) = (b + 47) ∷ raised bytes

abbrev pub lowered : Str → Bytes
lowered [] = []
lowered (c ∷ s) = (c - 47) ∷ lowered s

pub lowered-raised : (b : Bytes) → lowered (raised b) ≡ b
lowered-raised [] = refl
lowered-raised (b ∷ bytes) =
    ap (◌∷◌ (b + 47 - 47)) (lowered-raised bytes) ∙ ap (λ n. n ∷ bytes) (omega arith)

pub raised-plain : (b : Bytes) → All (λ c. (c == b'.') ≡ false) (raised b)
raised-plain [] = tt
raised-plain (b ∷ bytes) = (ground arith, raised-plain bytes)

abbrev pub toy_crypto : Crypto
toy_crypto = record {
  ml = toy;
  ecdsa_public = λ key. key;
  ecdsa_sign = λ key message. message ++ key;
  ecdsa_verify = λ key message s. str_eq (message ++ key) s;
  b64_encode = unary;
  b64_decode = read_unary 0;
  b64url_encode = raised;
  b64url_decode = λ s. some (lowered s);
  sha256 = filled 32;
  ecdsa_own = λ key message. str_eq_refl (message ++ key);
  b64_round = read_unary-unary;
  b64_visible = unary-visible;
  b64url_round = λ b. ap some (lowered-raised b);
  b64url_plain = raised-plain;
  sha256_length = length-filled 32;
  sha256_bytes = filled-bytes 32;
}

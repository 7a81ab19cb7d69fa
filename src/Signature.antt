-- ===== src/Signature.antt =====
-- crates/pqc-tls/src/signature.rs: the signature modes, and which one applies to a response.
pub mod Keys
pub mod Parsed
mod Tests
use pqc_gateway.Common.{
  ℕ, ◌+◌, ◌-◌, ◌≡◌, refl, Bool, true, false, ◌&&◌, ◌||◌, Option, none, some, map, Str, to_uppercase,
  str_eq, leb, if◌then◌else◌, codes, Result, ok, err, arith,
}

pub data SignatureMode : Type 0 where
  classical hybrid ml_dsa_only : SignatureMode

pub SignatureMode-discrete : Discrete SignatureMode
SignatureMode-discrete = hlevel

-- `to_lowercase` on ASCII bytes.
abbrev lower : ℕ → ℕ
lower c = if leb b'A' c && leb c b'Z' then c + 32 else c

unfoldable pub to_lowercase : Str → Str
to_lowercase = map lower

-- `Display`.
unfoldable pub to_string : SignatureMode → Str
to_string classical = codes "classical"
to_string hybrid = codes "hybrid"
to_string ml_dsa_only = codes "mldsa-only"

-- `from_str`; the error carries the text in lower case, which the message shows.
unfoldable pub from_str : Str → Result SignatureMode Str
unfolding to_lowercase
from_str s =
    let t = to_lowercase s in
    if str_eq t (codes "classical")
    then ok classical
    else if str_eq t (codes "hybrid")
    then ok hybrid
    else if str_eq t (codes "mldsa-only")
        || str_eq t (codes "mldsa_only")
        || str_eq t (codes "mldsaonly")
    then ok ml_dsa_only
    else err t

abbrev pub ok? {ℓ κ} : {A : Type ℓ} {E : Type κ} → Result A E → Option A
ok? (ok a) = some a
ok? (err e) = none

abbrev pub mode_or : Option SignatureMode → SignatureMode → SignatureMode
mode_or none d = d
mode_or (some m) d = m

-- `resolve`: the parsed environment override, if there is one and it parses.
unfoldable pub resolve : Option Str → Option SignatureMode → SignatureMode → SignatureMode
resolve none route_mode global_default = mode_or route_mode global_default
resolve (some env_val) route_mode global_default =
    mode_or (ok? (from_str env_val)) (mode_or route_mode global_default)

-- A mode that is printed is read back, in lower and in upper case.
from_str-to_string :
    (m : SignatureMode)
    → (from_str (to_string m) ≡ ok m) × (from_str (to_uppercase (to_string m)) ≡ ok m)
unfolding from_str to_string str_eq to_uppercase
from_str-to_string classical = (refl, refl)
from_str-to_string hybrid = (refl, refl)
from_str-to_string ml_dsa_only = (refl, refl)

-- An environment value that names a mode, in lower or upper case, decides, whatever the route and
-- the default say.
pub resolve_env :
    (m : SignatureMode) (route_mode : Option SignatureMode) (d : SignatureMode)
    → (resolve (some (to_string m)) route_mode d ≡ m)
      × (resolve (some (to_uppercase (to_string m))) route_mode d ≡ m)
unfolding resolve
resolve_env m route_mode d = let (low, up) = from_str-to_string m in (rw low, rw up)

-- An environment value that names no mode has no effect.
pub resolve_bad_env :
    (env_val e : Str) (route_mode : Option SignatureMode) (d : SignatureMode)
    → from_str env_val ≡ err e
    → resolve (some env_val) route_mode d ≡ resolve none route_mode d
unfolding resolve
resolve_bad_env env_val e route_mode d h = rw h

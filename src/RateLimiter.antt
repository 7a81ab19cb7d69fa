-- ===== src/RateLimiter.antt =====
-- crates/pqc-proxy/src/rate_limiter.rs: a token bucket for each pair of a route and a client IP.
-- The `f64` numbers are the parameter `Float`, with the laws of IEEE 754 that the theorems use.
-- Times are in nanoseconds; `duration_since` stops at zero.
pub mod Bounds
pub mod Burst
pub mod Keys
pub mod Toy
mod Tests
use pqc_gateway.Common.{
  ℕ, List, [], ◌∷◌, suc, ◌+◌, ◌-◌, ◌*◌, ◌^◌, ◌≤◌, ◌<◌, ◌≡◌, refl, Bool, true, false, Option, none,
  some, arith, Str, str_eq, str_eq_iff, ◌&&◌, ltb, leb, if◌then◌else◌, Eq, ◌↔◌,
}
use pqc_gateway.Common.Map.{Map, lookup, insert}

-- Double-precision numbers. `of_ℕ` is the cast of an integer, exact up to 2 ^ 53; `as_secs` is
-- `Duration::as_secs_f64`. The laws hold in IEEE 754 for these arguments: `min` returns its other
-- argument for a NaN; to take one away rounds monotonically; integers up to 2 ^ 32 are added,
-- subtracted and compared exactly; and zero seconds at a finite rate refill nothing.
pub record Float : Type 1 where
  pub F : Type 0
  pub of_ℕ : ℕ → F
  pub as_secs : ℕ → F
  pub fadd : F → F → F
  pub fsub : F → F → F
  pub fmul : F → F → F
  pub fdiv : F → F → F
  pub fmin : F → F → F
  pub fle : F → F → Bool
  pub fmin_le : (a : F) (n : ℕ) → n < 2 ^ 32 → fle (fmin a (of_ℕ n)) (of_ℕ n) ≡ true
  pub fsub_one_le :
      (a : F) (n : ℕ) → n < 2 ^ 32 → fle a (of_ℕ n) ≡ true → fle (fsub a (of_ℕ 1)) (of_ℕ n) ≡ true
  pub fsub_one : (k : ℕ) → suc k < 2 ^ 32 → fsub (of_ℕ (suc k)) (of_ℕ 1) ≡ of_ℕ k
  pub fle_exact : (a b : ℕ) → a < 2 ^ 32 → b < 2 ^ 32 → fle (of_ℕ a) (of_ℕ b) ≡ leb a b
  pub fmin_exact : (a b : ℕ) → a ≤ b → b < 2 ^ 32 → fmin (of_ℕ a) (of_ℕ b) ≡ of_ℕ a
  pub no_refill :
      (k n w : ℕ)
      → k < 2 ^ 32
      → n < 2 ^ 32
      → 0 < w
      → fadd (of_ℕ k) (fmul (as_secs 0) (fdiv (of_ℕ n) (of_ℕ w))) ≡ of_ℕ k

pub record RateLimitKey : Type 0 where
  pub route_id : Str
  pub client_ip : Str

abbrev pub key_eq : RateLimitKey → RateLimitKey → Bool
key_eq a b = str_eq a.route_id b.route_id && str_eq a.client_ip b.client_ip

pub key_eq_iff : (a b : RateLimitKey) → (key_eq a b ≡ true) ↔ (a ≡ b)
key_eq_iff a b =
    ground (arith, str_eq_iff a.route_id b.route_id, str_eq_iff a.client_ip b.client_ip)

instance abbrev pub key_instance : Eq RateLimitKey
key_instance = record { beq = key_eq; beq_iff = key_eq_iff }

module _ (fl : Float) where
  open fl use {F, of_ℕ, as_secs, fadd, fsub, fmul, fdiv, fmin, fle}

  pub record Bucket : Type 0 where
    pub tokens : F
    pub last_refill : ℕ
    pub capacity : F
    pub refill_rate : F  -- tokens per second

  -- `Bucket::new`.
  unfoldable pub new_bucket : ℕ → ℕ → ℕ → Bucket
  new_bucket now capacity window_seconds = record {
    tokens = of_ℕ capacity;
    last_refill = now;
    capacity = of_ℕ capacity;
    refill_rate = fdiv (of_ℕ capacity) (of_ℕ window_seconds);
  }

  unfoldable pub refill : ℕ → Bucket → Bucket
  refill now b =
      let elapsed = as_secs (now - b.last_refill) in
      record b {
        tokens = fmin (fadd b.tokens (fmul elapsed b.refill_rate)) b.capacity;
        last_refill = now;
      }

  -- The test of `try_consume`, after the refill.
  consume : Bucket → Bucket × Bool
  consume b =
      if fle (of_ℕ 1) b.tokens
      then (record b { tokens = fsub b.tokens (of_ℕ 1) }, true)
      else (b, false)

  unfoldable pub try_consume : ℕ → Bucket → Bucket × Bool
  unfolding consume refill
  try_consume now b = consume (refill now b)

  unfoldable pub retry_after : Bucket → F
  retry_after b =
      if fle (of_ℕ 1) b.tokens then of_ℕ 0 else fdiv (fsub (of_ℕ 1) b.tokens) b.refill_rate

  pub data RateLimitResult : Type 0 where
    allowed : RateLimitResult
    limited : F → RateLimitResult

  pub record RateLimiter : Type 0 where
    pub buckets : Map RateLimitKey Bucket
    pub default_capacity : ℕ  -- u32
    pub default_window : ℕ  -- u64

  -- The capacity and window that `check` uses for a new key.
  abbrev pub limits : RateLimiter → Option (ℕ × ℕ) → ℕ × ℕ
  limits l none = (l.default_capacity, l.default_window)
  limits l (some route_limit) = route_limit

  abbrev pub bucket_or : Option Bucket → Bucket → Bucket
  bucket_or none d = d
  bucket_or (some b) d = b

  unfoldable pub check :
      ℕ → RateLimiter → RateLimitKey → Option (ℕ × ℕ) → RateLimiter × RateLimitResult
  check now l key route_limit =
      let (capacity, window) = limits l route_limit in
      let entry = bucket_or (lookup key l.buckets) (new_bucket now capacity window) in
      let (b, granted) = try_consume now entry in
      (
        record l { buckets = insert key b l.buckets },
        if granted then allowed else limited (retry_after b),
      )

  -- `retain`, on the association list.
  keep_young : ℕ → ℕ → Map RateLimitKey Bucket → Map RateLimitKey Bucket
  keep_young now max_age [] = []
  keep_young now max_age ((k, b) ∷ m) =
      let rest = keep_young now max_age m in
      if ltb (now - b.last_refill) max_age then (k, b) ∷ rest else rest

  unfoldable pub cleanup : ℕ → RateLimiter → ℕ → RateLimiter
  unfolding keep_young
  cleanup now l max_age = record l { buckets = keep_young now max_age l.buckets }

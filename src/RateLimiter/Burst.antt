-- ===== src/RateLimiter/Burst.antt =====
-- rate_limiter.rs: how many requests of a burst are let through.
use Prim.Native.Nat.{min}
use pqc_gateway.Common.{
  ℕ, zero, suc, ◌-◌, ◌^◌, ◌≤◌, ◌<◌, ◌≡◌, refl, Bool, true, false, Option, none, arith,
  if◌then◌else◌, ap, ◌∙◌,
}
use pqc_gateway.Common.Map.{lookup, lookup-insert_self}
use pqc_gateway.RateLimiter.{
  Float, RateLimitKey, key_instance, Bucket, new_bucket, refill, consume, try_consume,
  RateLimitResult, allowed, limited, RateLimiter, limits, bucket_or, check,
}

no_time : (now : ℕ) → now - now ≡ 0
no_time now = omega arith

module _ (fl : Float) where
  open fl use {F, of_ℕ, as_secs, fadd, fsub, fmul, fdiv, fmin, fle}

  -- A bucket of `n` tokens a window of `w` seconds that holds `k` at the time `now`.
  record Holds (now n w k : ℕ) (b : Bucket fl) : Type 0 where
    tokens : b.tokens ≡ of_ℕ k
    fresh : b.last_refill ≡ now
    capacity : b.capacity ≡ of_ℕ n
    rate : b.refill_rate ≡ fdiv (of_ℕ n) (of_ℕ w)
    fits : k ≤ n

  module _ (now n w : ℕ) (small : n < 2 ^ 32) (pos : 0 < w) where
    refill-Holds : (k : ℕ) (b : Bucket fl) → Holds now n w k b → Holds now n w k (refill fl now b)
    unfolding refill
    refill-Holds k b h = record {
      tokens =
          rw (h.tokens, h.fresh, h.capacity, h.rate, no_time now)
            (rw (fl.no_refill k n w (omega (arith, h.fits)) small pos)
              (fl.fmin_exact k n h.fits small));
      fresh = refl;
      capacity = h.capacity;
      rate = h.rate;
      fits = h.fits;
    }

    consume-Holds :
        (k : ℕ) (b : Bucket fl)
        → Holds now n w (suc k) b
        → Holds now n w k (consume fl b).0 × ((consume fl b).1 ≡ true)
    unfolding consume
    consume-Holds k b h =
        let enough : fle (of_ℕ 1) b.tokens ≡ true =
          rw h.tokens
            (fl.fle_exact 1 (suc k) (omega arith) (omega (arith, h.fits)) ∙ ground arith) in
        rw enough (
          record {
            tokens = rw h.tokens (fl.fsub_one k (omega (arith, h.fits)));
            fresh = h.fresh;
            capacity = h.capacity;
            rate = h.rate;
            fits = omega (arith, h.fits);
          },
          refl,
        )

    consume-Holds_zero :
        (b : Bucket fl)
        → Holds now n w 0 b
        → Holds now n w 0 (consume fl b).0 × ((consume fl b).1 ≡ false)
    unfolding consume
    consume-Holds_zero b h =
        let short : fle (of_ℕ 1) b.tokens ≡ false =
          rw h.tokens (fl.fle_exact 1 0 (omega arith) (omega arith)) in
        rw short (h, refl)

    try-Holds :
        (k : ℕ) (b : Bucket fl)
        → Holds now n w (suc k) b
        → Holds now n w k (try_consume fl now b).0 × ((try_consume fl now b).1 ≡ true)
    unfolding try_consume
    try-Holds k b h = consume-Holds k (refill fl now b) (refill-Holds (suc k) b h)

    try-Holds_zero :
        (b : Bucket fl)
        → Holds now n w 0 b
        → Holds now n w 0 (try_consume fl now b).0 × ((try_consume fl now b).1 ≡ false)
    unfolding try_consume
    try-Holds_zero b h = consume-Holds_zero (refill fl now b) (refill-Holds 0 b h)

  abbrev is_allowed : RateLimitResult fl → Bool
  is_allowed allowed = true
  is_allowed (limited _) = false

  -- How many of `rounds` requests for a key, all at the time `now`, are allowed.
  unfoldable pub burst : ℕ → RateLimiter fl → RateLimitKey → Option (ℕ × ℕ) → ℕ → ℕ
  burst now l key route_limit zero = 0
  burst now l key route_limit (suc rounds) =
      let (l', r) = check fl now l key route_limit in
      let rest = burst now l' key route_limit rounds in if is_allowed r then suc rest else rest

  module _ (now : ℕ) (key : RateLimitKey) (route_limit : Option (ℕ × ℕ)) where
    -- The bucket that a check of the key starts from.
    abbrev current : RateLimiter fl → Bucket fl
    current l =
        bucket_or fl (lookup key l.buckets)
          (new_bucket fl now (limits fl l route_limit).0 (limits fl l route_limit).1)

    after : RateLimiter fl → RateLimiter fl
    after l = (check fl now l key route_limit).0

    current-after : (l : RateLimiter fl) → current (after l) ≡ (try_consume fl now (current l)).0
    unfolding after check
    current-after l = rw lookup-insert_self

    answer :
        (l : RateLimiter fl) (b : Bool)
        → (try_consume fl now (current l)).1 ≡ b
        → is_allowed (check fl now l key route_limit).1 ≡ b
    unfolding check
    answer l true e = rw e
    answer l false e = rw e

    module _ (n w : ℕ) (small : n < 2 ^ 32) (pos : 0 < w) where
      burst_lem :
          (k rounds : ℕ) (l : RateLimiter fl)
          → Holds now n w k (current l)
          → burst now l key route_limit rounds ≡ min rounds k
      unfolding burst after
      burst_lem k zero l h = omega arith
      burst_lem zero (suc rounds) l h =
          let (h', denied) = try-Holds_zero now n w small pos (current l) h in
          rw (answer l false denied)
            (burst_lem zero rounds (after l) (rw current-after h') ∙ omega arith)
      burst_lem (suc k) (suc rounds) l h =
          let (h', granted) = try-Holds now n w small pos k (current l) h in
          rw (answer l true granted)
            (ap suc (burst_lem k rounds (after l) (rw current-after h')) ∙ omega arith)

  -- Of any number of requests for a new key at one time, as many are allowed as the capacity of its
  -- bucket, and no more; the window is not zero.
  pub burst_new_key :
      (now : ℕ) (l : RateLimiter fl) (key : RateLimitKey) (route_limit : Option (ℕ × ℕ))
      (rounds : ℕ)
      → lookup key l.buckets ≡ none
      → (limits fl l route_limit).0 < 2 ^ 32
      → 0 < (limits fl l route_limit).1
      → burst now l key route_limit rounds ≡ min rounds (limits fl l route_limit).0
  unfolding new_bucket
  burst_new_key now l key route_limit rounds absent small pos =
      let (n, w) = limits fl l route_limit in
      burst_lem now key route_limit n w small pos n rounds l (
        rw absent (record {
          tokens = refl;
          fresh = refl;
          capacity = refl;
          rate = refl;
          fits = omega arith;
        }))

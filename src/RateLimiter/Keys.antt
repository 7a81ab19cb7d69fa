-- ===== src/RateLimiter/Keys.antt =====
-- rate_limiter.rs: the buckets of the keys, one by one.
use pqc_gateway.Common.{ℕ, ◌-◌, ◌≡◌, refl, Option, none, some, arith, [], ◌∷◌, if◌then◌else◌, ltb}
use pqc_gateway.Common.Map.{
  Map, lookup, Distinct, lookup-insert, insert-Distinct, lookup_of_not_contains_key,
}
use pqc_gateway.RateLimiter.{
  Float, RateLimitKey, key_instance, key_eq, key_eq_iff, Bucket, new_bucket, try_consume,
  RateLimiter, limits, bucket_or, check, keep_young, cleanup,
}

module _ (fl : Float) where
  -- A check changes the bucket of its own key only, which is then the bucket it had, or a new one,
  -- refilled to the time of the check and with a token taken if there was one.
  pub lookup-check :
      (now : ℕ) (l : RateLimiter fl) (key other : RateLimitKey) (route_limit : Option (ℕ × ℕ))
      → let (capacity, window) = limits fl l route_limit in
        lookup other (check fl now l key route_limit).0.buckets ≡ (
          if key_eq key other
          then some
              (try_consume fl now
                (bucket_or fl (lookup key l.buckets) (new_bucket fl now capacity window))).0
          else lookup other l.buckets)
  unfolding check
  lookup-check now l key other route_limit = lookup-insert key other _ l.buckets

  -- Once a key has a bucket, the limit that a request brings has no effect on it.
  pub check_ignores_limit :
      (now : ℕ) (l : RateLimiter fl) (key : RateLimitKey) (b : Bucket fl)
      (first second : Option (ℕ × ℕ))
      → lookup key l.buckets ≡ some b
      → check fl now l key first ≡ check fl now l key second
  unfolding check
  check_ignores_limit now l key b first second e = rw e

  pub check-Distinct :
      (now : ℕ) (l : RateLimiter fl) (key : RateLimitKey) (route_limit : Option (ℕ × ℕ))
      → Distinct l.buckets
      → Distinct (check fl now l key route_limit).0.buckets
  unfolding check
  check-Distinct now l key route_limit d = insert-Distinct key _ l.buckets d

  abbrev pub if_young : ℕ → ℕ → Option (Bucket fl) → Option (Bucket fl)
  if_young now max_age none = none
  if_young now max_age (some b) = if ltb (now - b.last_refill) max_age then some b else none

  lookup-keep_young :
      (now max_age : ℕ) (m : Map RateLimitKey (Bucket fl)) (key : RateLimitKey)
      → Distinct m
      → lookup key (keep_young fl now max_age m) ≡ if_young now max_age (lookup key m)
  unfolding lookup keep_young
  lookup-keep_young now max_age [] key d = refl
  lookup-keep_young now max_age ((k, b) ∷ m) key (n, d) = ground (
    arith,
    key_eq_iff k key,
    lookup_of_not_contains_key k m n,
    lookup-keep_young now max_age m key d,
  )

  -- A cleanup keeps exactly the buckets that were refilled less than the given age ago, as they
  -- were. The map holds no key twice.
  pub lookup-cleanup :
      (now max_age : ℕ) (l : RateLimiter fl) (key : RateLimitKey)
      → Distinct l.buckets
      → lookup key (cleanup fl now l max_age).buckets ≡ if_young now max_age (lookup key l.buckets)
  unfolding cleanup
  lookup-cleanup now max_age l key d = lookup-keep_young now max_age l.buckets key d

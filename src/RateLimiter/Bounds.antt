-- ===== src/RateLimiter/Bounds.antt =====
-- rate_limiter.rs: no bucket holds more than its capacity, and how many requests a burst gets.
use pqc_gateway.Common.{
  ℕ, ◌^◌, ◌<◌, ◌≡◌, refl, true, Option, arith, [], ◌∷◌, All, Bool-cases, inl, inr, ◌∙◌,
}
use pqc_gateway.Common.Map.{Map, lookup, insert}
use pqc_gateway.RateLimiter.{
  Float, RateLimitKey, key_instance, key_eq, Bucket, new_bucket, refill, consume, try_consume,
  RateLimiter, limits, bucket_or, check,
}

module _ (fl : Float) where
  open fl use {F, of_ℕ, as_secs, fadd, fsub, fmul, fdiv, fmin, fle}

  -- The capacity of a bucket is a `u32`, and it holds at most that many tokens.
  pub record IsBucket (b : Bucket fl) : Type 0 where
    pub size : ℕ
    pub size_u32 : size < 2 ^ 32
    pub capacity_size : b.capacity ≡ of_ℕ size
    pub within : fle b.tokens (of_ℕ size) ≡ true

  new_bucket-IsBucket :
      (now capacity window : ℕ) → capacity < 2 ^ 32 → IsBucket (new_bucket fl now capacity window)
  unfolding new_bucket
  new_bucket-IsBucket now capacity window h = record {
    size = capacity;
    size_u32 = h;
    capacity_size = refl;
    within = fl.fle_exact capacity capacity h h ∙ ground arith;
  }

  refill-IsBucket : (now : ℕ) (b : Bucket fl) → IsBucket b → IsBucket (refill fl now b)
  unfolding refill
  refill-IsBucket now b i = record {
    size = i.size;
    size_u32 = i.size_u32;
    capacity_size = i.capacity_size;
    within = rw i.capacity_size (fl.fmin_le _ i.size i.size_u32);
  }

  consume-IsBucket : (b : Bucket fl) → IsBucket b → IsBucket (consume fl b).0
  unfolding consume
  consume-IsBucket b i = elim (Bool-cases (fle (of_ℕ 1) b.tokens)) [
    | inl enough ↦ rw enough (record {
      size = i.size;
      size_u32 = i.size_u32;
      capacity_size = i.capacity_size;
      within = fl.fsub_one_le b.tokens i.size i.size_u32 i.within;
    })
    | inr short ↦ rw short i
  ]

  pub try_consume-IsBucket :
      (now : ℕ) (b : Bucket fl) → IsBucket b → IsBucket (try_consume fl now b).0
  unfolding try_consume
  try_consume-IsBucket now b i = consume-IsBucket (refill fl now b) (refill-IsBucket now b i)

  abbrev pub AllBuckets : Map RateLimitKey (Bucket fl) → Type 0
  AllBuckets = All (λ e. IsBucket e.1)

  lookup-AllBuckets :
      (key : RateLimitKey) (m : Map RateLimitKey (Bucket fl)) (d : Bucket fl)
      → AllBuckets m
      → IsBucket d
      → IsBucket (bucket_or fl (lookup key m) d)
  unfolding lookup
  lookup-AllBuckets key [] d hs h = h
  lookup-AllBuckets key ((k, b) ∷ m) d (i, hs) h = elim (Bool-cases (key_eq k key)) [
    | inl same ↦ rw same i
    | inr other ↦ rw other (lookup-AllBuckets key m d hs h)
  ]

  insert-AllBuckets :
      (key : RateLimitKey) (b : Bucket fl) (m : Map RateLimitKey (Bucket fl))
      → AllBuckets m
      → IsBucket b
      → AllBuckets (insert key b m)
  unfolding insert
  insert-AllBuckets key b [] hs h = (h, tt)
  insert-AllBuckets key b ((k, c) ∷ m) (i, hs) h = elim (Bool-cases (key_eq k key)) [
    | inl same ↦ rw same (h, hs)
    | inr other ↦ rw other (i, insert-AllBuckets key b m hs h)
  ]

  -- Where the limits are `u32`, a check at any time keeps every bucket at or below its capacity.
  pub check-AllBuckets :
      (now : ℕ) (l : RateLimiter fl) (key : RateLimitKey) (route_limit : Option (ℕ × ℕ))
      → (limits fl l route_limit).0 < 2 ^ 32
      → AllBuckets l.buckets
      → AllBuckets (check fl now l key route_limit).0.buckets
  unfolding check
  check-AllBuckets now l key route_limit h hs =
      let (capacity, window) = limits fl l route_limit in
      let d = new_bucket fl now capacity window in
      insert-AllBuckets key _ l.buckets hs (
        try_consume-IsBucket now (bucket_or fl (lookup key l.buckets) d)
          (lookup-AllBuckets key l.buckets d hs (new_bucket-IsBucket now capacity window h)))

-- ===== src/RateLimiter/Tests.antt =====
-- The rate limiter with whole numbers for its `f64`, and the scenarios of rate_limiter.rs.
use Prim.Native.Nat.{min}
use pqc_gateway.Common.{◌≡◌, refl, none, some, [], ◌∷◌, arith, codes, str_eq}
use pqc_gateway.Common.Map.{lookup, insert}
use pqc_gateway.RateLimiter.{
  RateLimitKey, key_instance, Bucket, new_bucket, try_consume, RateLimiter, check,
}
use pqc_gateway.RateLimiter.Toy.{whole}
use pqc_gateway.RateLimiter.Bounds.{AllBuckets, check-AllBuckets}
use pqc_gateway.RateLimiter.Burst.{burst, burst_new_key}

abbrev client : RateLimitKey
client = record { route_id = codes "r1"; client_ip = codes "1.2.3.4" }

abbrev other_client : RateLimitKey
other_client = record { route_id = codes "r1"; client_ip = codes "2.2.2.2" }

abbrev limiter : RateLimiter whole
limiter = record { buckets = []; default_capacity = 3; default_window = 60 }

abbrev used_bucket : Bucket whole
used_bucket = record { tokens = 2; last_refill = 5; capacity = 3; refill_rate = 0 }

abbrev used : RateLimiter whole
used = record limiter { buckets = (client, used_bucket) ∷ [] }

first_check : (check whole 5 limiter client none).0 ≡ used
unfolding check lookup insert try_consume new_bucket
first_check = refl

blocks_over_limit : burst whole 5 limiter client none 10 ≡ 3
unfolding burst check lookup insert try_consume new_bucket str_eq
blocks_over_limit = refl

check-AllBuckets_example : AllBuckets whole (check whole 5 limiter client none).0.buckets
check-AllBuckets_example = check-AllBuckets whole 5 limiter client none (omega arith) tt

burst_new_key_example : burst whole 5 limiter client (some (2, 60)) 10 ≡ min 10 2
burst_new_key_example =
    burst_new_key whole 5 limiter client (some (2, 60)) 10 (unfold lookup in refl) (omega arith)
      (omega arith)

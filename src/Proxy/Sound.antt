-- ===== src/Proxy/Sound.antt =====
-- crates/pqc-proxy/src/proxy.rs: the invariant of the gateway's state, and that a request, an answer
-- and a reload keep it and end without a panic.
use pqc_gateway.Common.{
  ℕ, ◌^◌, ◌<◌, ◌≡◌, List, [], ◌∷◌, Str, if_elim, Option, none, some, Outcome, done, Result, refl,
  ap, length, All,
}
use pqc_gateway.Common.Map.{Distinct}
use pqc_gateway.CircuitBreaker.{CircuitState}
use pqc_gateway.CircuitBreaker.Manager.{CircuitBreakerManager, check_request}
use pqc_gateway.CircuitBreaker.Sound.{IsBreaker, check_request-IsBreaker}
use pqc_gateway.GatewayError.{body_too_large}
use pqc_gateway.Metrics.{
  GatewayMetrics, record_rate_limit_rejection, record_circuit_breaker_rejection,
}
use pqc_gateway.Metrics.Counting.{
  IsConsistent, apply, apply-IsConsistent, rate_limit_rejection, circuit_breaker_rejection,
}
use pqc_gateway.Proxy.{Outside, ProxyState, error_response}
use pqc_gateway.Proxy.Admission.{
  Request, Decision, respond, is_rejected, guarded, admit_upstream, balanced, pick_upstream,
  limited_by, limit_key, admit_rate, admit_route, admit, too_large, max_body, content_length,
}
use pqc_gateway.RateLimiter.{key_instance, RateLimiter, RateLimitResult, check, limits}
use pqc_gateway.RateLimiter.RateLimitResult.{allowed, limited}
use pqc_gateway.RateLimiter.Bounds.{AllBuckets, check-AllBuckets}
use pqc_gateway.RateLimiter.Keys.{check-Distinct}
use pqc_gateway.Router.{Route, next_upstream, match_route}
use pqc_gateway.Router.Matching.{IsFirst, here, later, match_route-IsFirst_iff}
use pqc_gateway.Router.Balance.{next_upstream_total}
use pqc_gateway.Signature.Keys.{IsKeyPair}
use pqc_gateway.VersionedKeys.Rotation.{IsManager}

-- The limit of a route is a `u32`.
abbrev pub IsLimit : Option (ℕ × ℕ) → Type 0
IsLimit none = Unit
IsLimit (some (requests, window)) = requests < 2 ^ 32

pub record IsRoute (r : Route) : Type 0 where
  pub has_upstream : 0 < length r.upstreams
  pub limit_u32 : IsLimit r.rate_limit

module _ (o : Outside) where
  open o use {cr, ht, fl}

  pub record IsSound (s : ProxyState o) : Type 1 where
    pub breaker : IsBreaker s.circuit_breaker
    pub buckets_ok : AllBuckets fl s.rate_limiter.buckets
    pub bucket_keys : Distinct s.rate_limiter.buckets
    pub capacity_u32 : s.rate_limiter.default_capacity < 2 ^ 32
    pub routes_ok : All IsRoute s.matcher
    pub counts : IsConsistent s.metrics
    pub versioned_ok : IsManager cr s.versioned_keys
    pub signing_ok : IsKeyPair cr s.signature_keys

  -- The computation ends, in a state that is sound.
  abbrev pub EndsSound : {D : Type 0} → Outcome (ProxyState o × D) → Type 1
  EndsSound {D} x = (s : ProxyState o) × (d : D) × (x ≡ done (s, d)) × IsSound s

  pub with_breaker :
      (s : ProxyState o) (b : CircuitBreakerManager)
      → IsSound s
      → IsBreaker b
      → IsSound (record s { circuit_breaker = b })
  with_breaker s b v h = record {
    breaker = h;
    buckets_ok = v.buckets_ok;
    bucket_keys = v.bucket_keys;
    capacity_u32 = v.capacity_u32;
    routes_ok = v.routes_ok;
    counts = v.counts;
    versioned_ok = v.versioned_ok;
    signing_ok = v.signing_ok;
  }

  pub with_metrics :
      (s : ProxyState o) (m : GatewayMetrics)
      → IsSound s
      → IsConsistent m
      → IsSound (record s { metrics = m })
  with_metrics s m v h = record {
    breaker = v.breaker;
    buckets_ok = v.buckets_ok;
    bucket_keys = v.bucket_keys;
    capacity_u32 = v.capacity_u32;
    routes_ok = v.routes_ok;
    counts = h;
    versioned_ok = v.versioned_ok;
    signing_ok = v.signing_ok;
  }

  with_balance : (s : ProxyState o) (n : ℕ) → IsSound s → IsSound (record s { balance = n })
  with_balance s n v = record {
    breaker = v.breaker;
    buckets_ok = v.buckets_ok;
    bucket_keys = v.bucket_keys;
    capacity_u32 = v.capacity_u32;
    routes_ok = v.routes_ok;
    counts = v.counts;
    versioned_ok = v.versioned_ok;
    signing_ok = v.signing_ok;
  }

  guarded-IsSound :
      (s : ProxyState o) (req : Request o) (r : Route) (path upstream : Str)
      (answer : CircuitBreakerManager × Result (Unit {0}) CircuitState)
      → IsSound s
      → IsBreaker answer.0
      → IsSound (guarded o s req r path upstream answer).0
  unfolding guarded apply
  guarded-IsSound s req r path upstream (b, result) v h =
      if_elim {A = ProxyState o × Decision o} (λ x. IsSound x.0) (is_rejected result) _ _
        (λ _.
          with_metrics (record s { circuit_breaker = b })
            (record_circuit_breaker_rejection s.metrics) (with_breaker s b v h)
            (apply-IsConsistent s.metrics circuit_breaker_rejection v.counts))
        (λ _. with_breaker s b v h)

  admit_upstream-IsSound :
      (now : ℕ) (s : ProxyState o) (req : Request o) (r : Route) (path upstream : Str)
      → IsSound s
      → IsSound (admit_upstream o now s req r path upstream).0
  unfolding admit_upstream
  admit_upstream-IsSound now s req r path upstream v =
      if_elim {A = ProxyState o × Decision o} (λ x. IsSound x.0) s.config.circuit_breaker.enabled _
        _
        (λ _.
          guarded-IsSound s req r path upstream (check_request now s.circuit_breaker upstream) v
            (check_request-IsBreaker now s.circuit_breaker upstream v.breaker))
        (λ _. v)

  pick_upstream_sound :
      (now : ℕ) (s : ProxyState o) (req : Request o) (r : Route) (path : Str)
      → IsSound s
      → IsRoute r
      → EndsSound (pick_upstream o now s req r path)
  unfolding pick_upstream balanced
  pick_upstream_sound now s req r path v h =
      let (i, u, _, e) = next_upstream_total r.upstreams s.balance h.has_upstream in
      let counter = (next_upstream s.balance r.upstreams).0 in
      let s' = record s { balance = counter } in
      (
        (admit_upstream o now s' req r path u).0,
        (admit_upstream o now s' req r path u).1,
        ap (λ x. balanced o now s req r path (counter, x)) e,
        admit_upstream-IsSound now s' req r path u (with_balance s counter v),
      )

  -- The rate limiter that a check leaves.
  with_limiter :
      (now : ℕ) (s : ProxyState o) (req : Request o) (r : Route)
      → IsSound s
      → IsRoute r
      → IsSound (record s {
        rate_limiter = (check fl now s.rate_limiter (limit_key o req r) r.rate_limit).0;
      })
  unfolding check
  with_limiter now s req r v h = record {
    breaker = v.breaker;
    buckets_ok =
        check-AllBuckets fl now s.rate_limiter (limit_key o req r) r.rate_limit
          (limit r.rate_limit h.limit_u32) v.buckets_ok;
    bucket_keys =
        check-Distinct fl now s.rate_limiter (limit_key o req r) r.rate_limit v.bucket_keys;
    capacity_u32 = v.capacity_u32;
    routes_ok = v.routes_ok;
    counts = v.counts;
    versioned_ok = v.versioned_ok;
    signing_ok = v.signing_ok;
  }
    where
      limit : (l : Option (ℕ × ℕ)) → IsLimit l → (limits fl s.rate_limiter l).0 < 2 ^ 32
      limit none _ = v.capacity_u32
      limit (some (requests, window)) q = q

  limited_sound :
      (now : ℕ) (s : ProxyState o) (req : Request o) (r : Route) (path : Str)
      (answer : RateLimiter fl × RateLimitResult fl)
      → IsSound (record s { rate_limiter = answer.0 })
      → IsRoute r
      → EndsSound (limited_by o now s req r path answer)
  unfolding limited_by apply
  limited_sound now s req r path (limiter, allowed) v h =
      pick_upstream_sound now (record s { rate_limiter = limiter }) req r path v h
  limited_sound now s req r path (limiter, limited retry_after_secs) v h = (
    _,
    _,
    refl,
    with_metrics (record s { rate_limiter = limiter }) (record_rate_limit_rejection s.metrics) v
        (apply-IsConsistent s.metrics rate_limit_rejection v.counts),
  )

  rate_sound :
      (now : ℕ) (s : ProxyState o) (req : Request o) (r : Route) (path : Str)
      → IsSound s
      → IsRoute r
      → EndsSound (admit_rate o now s req r path)
  unfolding admit_rate
  rate_sound now s req r path v h =
      if_elim EndsSound s.config.rate_limit.enabled _ _
        (λ _.
          limited_sound now s req r path
            (check fl now s.rate_limiter (limit_key o req r) r.rate_limit)
            (with_limiter now s req r v h) h)
        (λ _. pick_upstream_sound now s req r path v h)

  pub first_IsRoute :
      (path method : Str) (r : Route) (routes : List Route)
      → IsFirst path method r routes
      → All IsRoute routes
      → IsRoute r
  first_IsRoute path method r [] f h = elim f [ ]
  first_IsRoute path method r (_ ∷ routes) (here a) (h, hs) = h
  first_IsRoute path method r (s ∷ routes) (later n f) (h, hs) =
      first_IsRoute path method r routes f hs

  -- In a sound state every request is decided without a panic, and the state stays sound.
  pub admit-IsSound :
      (now : ℕ) (s : ProxyState o) (req : Request o) → IsSound s → EndsSound (admit o now s req)
  unfolding admit admit_route
  admit-IsSound now s req v = routed (match_route s.matcher req.path req.method) (λ r path e.
      first_IsRoute req.path _ r s.matcher
        ((match_route-IsFirst_iff s.matcher req.path req.method path r).0 e).0 v.routes_ok)
    where
      routed :
          (found : Option (Route × Str))
          → ((r : Route) (path : Str) → found ≡ some (r, path) → IsRoute r)
          → EndsSound (admit_route o now s req found)
      routed none h = (s, _, refl, v)
      routed (some (r, path)) h =
          if_elim EndsSound (too_large (max_body o s r) (content_length o req)) _ _
            (λ _. (s, respond (error_response o (body_too_large (max_body o s r))), refl, v))
            (λ _. rate_sound now s req r path v (h r path refl))

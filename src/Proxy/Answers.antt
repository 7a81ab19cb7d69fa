-- ===== src/Proxy/Answers.antt =====
-- crates/pqc-proxy/src/proxy.rs: answers of upstreams and reloads keep the state sound, and an answer
-- is handled without a panic.
use pqc_gateway.Common.{
  ℕ, ◌<◌, ◌≡◌, List, [], ◌∷◌, Bytes, Str, if_elim, Option, none, some, done, Result, ok, err, refl,
  ap, length, All, arith,
}
use pqc_gateway.CircuitBreaker.Manager.{
  register_upstream, CircuitBreakerManager, record_success, record_failure,
}
use pqc_gateway.CircuitBreaker.Sound.{
  IsBreaker, record_success-IsBreaker, record_failure-IsBreaker, register_upstream-IsBreaker,
}
use pqc_gateway.Config.{GatewayConfig, RouteConfig}
use pqc_gateway.Metrics.{record_request, record_upstream_failure}
use pqc_gateway.Metrics.Counting.{apply, apply-IsConsistent, request, upstream_failure}
use pqc_gateway.Proxy.{Outside, ProxyState, register_all, register_routes, reload_config}
use pqc_gateway.Proxy.Sound.{IsSound, EndsSound, IsRoute, IsLimit, with_breaker, with_metrics}
use pqc_gateway.Proxy.Admission.{Forward}
use pqc_gateway.Proxy.Completion.{
  Answer, responded, failed, timed_out, tell_success, tell_failure, tell_status, count_request,
  count_failure, signed_response, answer_body, complete, is_server_error,
}
use pqc_gateway.RateLimiter.{key_instance}
use pqc_gateway.Common.{map}
use pqc_gateway.Router.Order.{sort_routes-All}
use pqc_gateway.Router.{from_config, new_matcher, Route}
use pqc_gateway.Signature.{SignatureMode, classical, hybrid, ml_dsa_only}
use pqc_gateway.Signature.Keys.{SignatureOutput, sign, verify-sign}

module _ (o : Outside) where
  open o use {cr, ht, fl}

  tell_success-IsSound :
      (f : Forward o) (now : ℕ) (s : ProxyState o)
      → IsSound o s
      → IsSound o (tell_success o f now s)
  unfolding tell_success
  tell_success-IsSound f now s v =
      if_elim (IsSound o) f.breaker_on _ _
        (λ _.
          with_breaker o s (record_success now s.circuit_breaker f.upstream) v
            (record_success-IsBreaker now s.circuit_breaker f.upstream v.breaker))
        (λ _. v)

  tell_failure-IsSound :
      (f : Forward o) (now : ℕ) (s : ProxyState o)
      → IsSound o s
      → IsSound o (tell_failure o f now s)
  unfolding tell_failure
  tell_failure-IsSound f now s v =
      if_elim (IsSound o) f.breaker_on _ _
        (λ _.
          with_breaker o s (record_failure now s.circuit_breaker f.upstream) v
            (record_failure-IsBreaker now s.circuit_breaker f.upstream v.breaker))
        (λ _. v)

  tell_status-IsSound :
      (f : Forward o) (now status : ℕ) (s : ProxyState o)
      → IsSound o s
      → IsSound o (tell_status o f now status s)
  unfolding tell_status
  tell_status-IsSound f now status s v =
      if_elim (IsSound o) (is_server_error status) _ _ (λ _. tell_failure-IsSound f now s v)
        (λ _. tell_success-IsSound f now s v)

  count_request-IsSound :
      (f : Forward o) (status duration_ms : ℕ) (s : ProxyState o)
      → IsSound o s
      → IsSound o (count_request o f status duration_ms s)
  unfolding count_request apply
  count_request-IsSound f status duration_ms s v =
      with_metrics o s (record_request s.metrics f.route_id f.method status duration_ms) v
        (apply-IsConsistent s.metrics (request f.route_id f.method status duration_ms) v.counts)

  pub heard-IsSound :
      (f : Forward o) (now status duration_ms : ℕ) (s : ProxyState o)
      → IsSound o s
      → IsSound o (count_request o f status duration_ms (tell_status o f now status s))
  heard-IsSound f now status duration_ms s v =
      count_request-IsSound f status duration_ms _ (tell_status-IsSound f now status s v)

  count_failure-IsSound : (s : ProxyState o) → IsSound o s → IsSound o (count_failure o s)
  unfolding count_failure apply
  count_failure-IsSound s v =
      with_metrics o s (record_upstream_failure s.metrics) v
        (apply-IsConsistent s.metrics upstream_failure v.counts)

  -- The signing keys of a sound state sign in every mode.
  pub sign_total :
      (s : ProxyState o) (mode : SignatureMode) (body : Bytes)
      → IsSound o s
      → (out : Option SignatureOutput) × (sign cr s.signature_keys mode body ≡ done out)
  unfolding sign
  sign_total s classical body v = (none, refl)
  sign_total s hybrid body v =
      let (out, e, _, _, _) = verify-sign cr s.signature_keys hybrid body v.signing_ok (λ q. cc) in
      (some out, e)
  sign_total s ml_dsa_only body v =
      let (out, e, _, _, _) =
        verify-sign cr s.signature_keys ml_dsa_only body v.signing_ok (λ q. cc) in
      (some out, e)

  -- The second part of an answer: the body, read or not.
  pub answer_body-IsSound :
      (s : ProxyState o) (f : Forward o) (status : ℕ) (h : ht.Headers) (read : Result Bytes Str)
      → IsSound o s
      → EndsSound o (answer_body o s f status h read)
  unfolding answer_body signed_response
  answer_body-IsSound s f status h (err e) v = (_, _, refl, count_failure-IsSound s v)
  answer_body-IsSound s f status h (ok body) v =
      let (out, e) = sign_total s f.sig_mode body v in
      (_, _, ap (signed_response o s status h body) e, v)

  -- In a sound state every answer of an upstream, a failure and a timeout too, ends in a response
  -- without a panic, and the state stays sound.
  pub complete-IsSound :
      (now duration_ms : ℕ) (s : ProxyState o) (f : Forward o) (a : Answer o)
      → IsSound o s
      → EndsSound o (complete o now duration_ms s f a)
  unfolding complete
  complete-IsSound now duration_ms s f (responded status h read) v =
      answer_body-IsSound _ f status h read (heard-IsSound f now status duration_ms s v)
  complete-IsSound now duration_ms s f (failed e) v = (
    _,
    _,
    refl,
    count_request-IsSound f 502 duration_ms _
        (count_failure-IsSound _ (tell_failure-IsSound f now s v)),
  )
  complete-IsSound now duration_ms s f timed_out v = (
    _,
    _,
    refl,
    count_request-IsSound f 504 duration_ms _
        (count_failure-IsSound _ (tell_failure-IsSound f now s v)),
  )

  register_all_sound :
      (m : CircuitBreakerManager) (upstreams : List Str)
      → IsBreaker m
      → IsBreaker (register_all m upstreams)
  unfolding register_all
  register_all_sound m [] v = v
  register_all_sound m (u ∷ us) v =
      register_all_sound (register_upstream m u none) us (register_upstream-IsBreaker m u v)

  pub register_routes_sound :
      (m : CircuitBreakerManager) (routes : List Route)
      → IsBreaker m
      → IsBreaker (register_routes m routes)
  unfolding register_routes
  register_routes_sound m [] v = v
  register_routes_sound m (r ∷ rs) v =
      register_routes_sound (register_all m r.upstreams) rs (register_all_sound m r.upstreams v)

  -- The limits of the configured routes are `u32`.
  abbrev pub RouteLimits : List RouteConfig → Type 0
  RouteLimits = All (λ r. IsLimit (from_config r).rate_limit)

  pub new_matcher_sound :
      (configs : List RouteConfig) → RouteLimits configs → All IsRoute (new_matcher configs)
  unfolding new_matcher from_config
  new_matcher_sound configs h = sort_routes-All IsRoute (map from_config configs) (each configs h)
    where
      each :
          (configs : List RouteConfig) → RouteLimits configs → All IsRoute (map from_config configs)
      each [] h = tt
      each (c ∷ cs) (h, hs) = (record { has_upstream = has_one c; limit_u32 = h }, each cs hs)
        where
          has_one : (c : RouteConfig) → 0 < length (from_config c).upstreams
          has_one c = omega arith

  -- A reload keeps the state sound.
  pub reload_config-IsSound :
      (s : ProxyState o) (config : GatewayConfig)
      → IsSound o s
      → RouteLimits config.routes
      → IsSound o (reload_config o s config)
  unfolding reload_config
  reload_config-IsSound s config v h = record {
    breaker = register_routes_sound s.circuit_breaker (new_matcher config.routes) v.breaker;
    buckets_ok = v.buckets_ok;
    bucket_keys = v.bucket_keys;
    capacity_u32 = v.capacity_u32;
    routes_ok = new_matcher_sound config.routes h;
    counts = v.counts;
    versioned_ok = v.versioned_ok;
    signing_ok = v.signing_ok;
  }

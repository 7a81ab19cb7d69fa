-- ===== src/Proxy/Forwarded.antt =====
-- crates/pqc-proxy/src/proxy.rs: which requests are sent to an upstream, and as what.
use mathlib.Core.Path.{subst}
use pqc_gateway.Common.{
  done_unique, ℕ, ◌≡◌, ◌⊎◌, inl, inr, refl, sym, ap, ◌∙◌, ◌++◌, Str, codes, str_eq_refl,
  to_uppercase, false, if_elim, Option, none, some, Outcome, done, Result, get_elem?,
}
use pqc_gateway.CircuitBreaker.{CircuitState}
use pqc_gateway.CircuitBreaker.Manager.{CircuitBreakerManager, check_request}
use pqc_gateway.Proxy.{Outside, ProxyState}
use pqc_gateway.Signature.{resolve}
use pqc_gateway.Proxy.Admission.{
  client_for, Request, Forward, Decision, forward, is_rejected, query_text, forward_headers,
  too_large, max_body, content_length, send_to, send, guarded, admit_upstream, balanced,
  pick_upstream, limit_key, limited_by, admit_rate, admit_route, admit,
}
use pqc_gateway.Proxy.Sound.{IsSound, IsRoute, first_IsRoute}
use pqc_gateway.RateLimiter.{RateLimiter, RateLimitResult, check, key_instance}
use pqc_gateway.RateLimiter.RateLimitResult.{allowed, limited}
use pqc_gateway.Router.{Route, match_route, next_upstream, upstream_path}
use pqc_gateway.Router.Balance.{next_upstream_total}
use pqc_gateway.Router.Matching.{IsFirst, match_route-IsFirst_iff}

module _ (o : Outside) where
  open o use {cr, ht, fl}

  -- What is sent to the upstream `u` for the route `r` and the path left of the prefix.
  pub record IsSent (req : Request o) (r : Route) (path u : Str) (f : Forward o) : Type 0 where
    pub sent_route : f.route_id ≡ r.id
    pub sent_method : f.method ≡ req.method
    pub sent_upstream : f.upstream ≡ u
    pub sent_uri : f.uri ≡ u ++ path ++ query_text req.query
    pub uri_parses : o.uri_error f.uri ≡ none
    pub sent_timeout : f.timeout_ms ≡ r.timeout_ms
    pub no_host : ht.get f.headers (codes "host") ≡ none

  -- The circuit breaker, if it is on, let the request through.
  abbrev pub IsLetThrough : ℕ → ProxyState o → Str → Type 0
  IsLetThrough now s u =
      (s.config.circuit_breaker.enabled ≡ false)
      ⊎ (is_rejected (check_request now s.circuit_breaker u).1 ≡ false)

  -- The rate limiter, if it is on, had a token.
  abbrev pub IsWithinLimit : ℕ → ProxyState o → Request o → Route → Type 0
  IsWithinLimit now s req r =
      (s.config.rate_limit.enabled ≡ false)
      ⊎ ((check fl now s.rate_limiter (limit_key o req r) r.rate_limit).1 ≡ allowed)

  host_removed :
      (r : Route) (req : Request o) → ht.get (forward_headers o r req) (codes "host") ≡ none
  unfolding forward_headers
  host_removed r req =
      ht.get_remove _ (codes "host") (codes "host") ∙ rw (str_eq_refl (codes "host")) refl

  send-IsSent :
      (s : ProxyState o) (req : Request o) (r : Route) (path u : Str) (f : Forward o)
      → send o s req r path u ≡ forward f
      → IsSent req r path u f
  unfolding send send_to
  send-IsSent s req r path u f h = by_error (o.uri_error (u ++ path ++ query_text req.query)) refl h
    where
      by_error :
          (e : Option Str)
          → o.uri_error (u ++ path ++ query_text req.query) ≡ e
          → send_to o s req r u (u ++ path ++ query_text req.query) e ≡ forward f
          → IsSent req r path u f
      by_error (some e) p q = cc
      by_error none p q =
          let same : (record {
            route_id = r.id;
            method = req.method;
            upstream = u;
            uri = u ++ path ++ query_text req.query;
            headers = forward_headers o r req;
            client = client_for o s r;
            timeout_ms = r.timeout_ms;
            sig_mode = resolve s.env_signature_mode r.signature_mode s.default_signature_mode;
            breaker_on = s.config.circuit_breaker.enabled;
          })
              ≡ f =
            cc in
          subst (IsSent req r path u) same (record {
            sent_route = refl;
            sent_method = refl;
            sent_upstream = refl;
            sent_uri = refl;
            uri_parses = p;
            sent_timeout = refl;
            no_host = host_removed r req;
          })

  guarded-IsSent :
      (s s' : ProxyState o) (req : Request o) (r : Route) (path u : Str)
      (answer : CircuitBreakerManager × Result (Unit {0}) CircuitState) (f : Forward o)
      → guarded o s req r path u answer ≡ (s', forward f)
      → IsSent req r path u f × (is_rejected answer.1 ≡ false)
  unfolding guarded
  guarded-IsSent s s' req r path u (b, result) f =
      if_elim {A = ProxyState o × Decision o}
        (λ x. x ≡ (s', forward f) → IsSent req r path u f × (is_rejected result ≡ false))
        (is_rejected result) _ _ (λ _ h. let wrong = ap (λ x. x.1) h in cc)
        (λ q h.
          (send-IsSent (record s { circuit_breaker = b }) req r path u f (ap (λ x. x.1) h), q))

  admit_upstream-IsSent :
      (now : ℕ) (s s' : ProxyState o) (req : Request o) (r : Route) (path u : Str) (f : Forward o)
      → admit_upstream o now s req r path u ≡ (s', forward f)
      → IsSent req r path u f × IsLetThrough now s u
  unfolding admit_upstream
  admit_upstream-IsSent now s s' req r path u f =
      if_elim {A = ProxyState o × Decision o}
        (λ x. x ≡ (s', forward f) → IsSent req r path u f × IsLetThrough now s u)
        s.config.circuit_breaker.enabled _ _
        (λ _ h.
          let (a, b) =
            guarded-IsSent s s' req r path u (check_request now s.circuit_breaker u) f h in
          (a, inr b))
        (λ q h. (send-IsSent s req r path u f (ap (λ x. x.1) h), inl q))

  -- The request went to an upstream of the route.
  abbrev pub GoesTo : ℕ → ProxyState o → Request o → Route → Str → Forward o → Type 0
  GoesTo now s req r path f =
      (i : ℕ) × (u : Str) × (get_elem? r.upstreams i ≡ some u)
      × IsSent req r path u f
      × IsLetThrough now s u

  pick_GoesTo :
      (now : ℕ) (s s' : ProxyState o) (req : Request o) (r : Route) (path : Str) (f : Forward o)
      → IsRoute r
      → pick_upstream o now s req r path ≡ done (s', forward f)
      → GoesTo now s req r path f
  unfolding pick_upstream balanced
  pick_GoesTo now s s' req r path f v h =
      let (i, u, there, e) = next_upstream_total r.upstreams s.balance v.has_upstream in
      let counter = (next_upstream s.balance r.upstreams).0 in
      let now_ : done (admit_upstream o now (record s { balance = counter }) req r path u)
          ≡ done (s', forward f) =
        sym (ap (λ x. balanced o now s req r path (counter, x)) e) ∙ h in
      let (a, b) =
        admit_upstream-IsSent now (record s { balance = counter }) s' req r path u f
          (done_unique _ _ _ refl now_) in
      (i, u, there, a, b)

  limited_GoesTo :
      (now : ℕ) (s s' : ProxyState o) (req : Request o) (r : Route) (path : Str) (f : Forward o)
      (answer : RateLimiter fl × RateLimitResult fl)
      → IsRoute r
      → limited_by o now s req r path answer ≡ done (s', forward f)
      → GoesTo now s req r path f × (answer.1 ≡ allowed)
  unfolding limited_by
  limited_GoesTo now s s' req r path f (limiter, allowed) v h =
      (pick_GoesTo now (record s { rate_limiter = limiter }) s' req r path f v h, refl)
  limited_GoesTo now s s' req r path f (limiter, limited retry_after_secs) v h =
      let wrong = ap (λ x. x.1) (done_unique _ _ _ refl h) in cc

  rate_GoesTo :
      (now : ℕ) (s s' : ProxyState o) (req : Request o) (r : Route) (path : Str) (f : Forward o)
      → IsRoute r
      → admit_rate o now s req r path ≡ done (s', forward f)
      → GoesTo now s req r path f × IsWithinLimit now s req r
  unfolding admit_rate
  rate_GoesTo now s s' req r path f v =
      if_elim {A = Outcome (ProxyState o × Decision o)}
        (λ x. x ≡ done (s', forward f) → GoesTo now s req r path f × IsWithinLimit now s req r)
        s.config.rate_limit.enabled _ _
        (λ _ h.
          let (a, b) =
            limited_GoesTo now s s' req r path f
              (check fl now s.rate_limiter (limit_key o req r) r.rate_limit) v h in
          (a, inr b))
        (λ q h. (pick_GoesTo now s s' req r path f v h, inl q))

  -- Whatever is sent to an upstream in a sound state comes from a request that the first route matches
  -- that accepts its path and method, whose announced length is within the limit of that route, that
  -- the rate limiter and the circuit breaker let through if they are on; it goes to one of the route's
  -- upstreams, with the path left by the prefix and the query, without the host header.
  pub admit-forward :
      (now : ℕ) (s s' : ProxyState o) (req : Request o) (f : Forward o)
      → IsSound o s
      → admit o now s req ≡ done (s', forward f)
      → (r : Route) × IsFirst req.path (to_uppercase req.method) r s.matcher
        × (too_large (max_body o s r) (content_length o req) ≡ false)
        × GoesTo now s req r (upstream_path r req.path) f
        × IsWithinLimit now s req r
  unfolding admit admit_route
  admit-forward now s s' req f v = routed (match_route s.matcher req.path req.method) refl
    where
      routed :
          (found : Option (Route × Str))
          → match_route s.matcher req.path req.method ≡ found
          → admit_route o now s req found ≡ done (s', forward f)
          → (r : Route) × IsFirst req.path (to_uppercase req.method) r s.matcher
            × (too_large (max_body o s r) (content_length o req) ≡ false)
            × GoesTo now s req r (upstream_path r req.path) f
            × IsWithinLimit now s req r
      routed none e = λ h. let wrong = ap (λ x. x.1) (done_unique _ _ _ refl h) in cc
      routed (some (r, path)) e =
          let (first, left) = (match_route-IsFirst_iff s.matcher req.path req.method path r).0 e in
          if_elim {A = Outcome (ProxyState o × Decision o)}
            (λ x.
              x ≡ done (s', forward f)
              → (r : Route) × IsFirst req.path (to_uppercase req.method) r s.matcher
                × (too_large (max_body o s r) (content_length o req) ≡ false)
                × GoesTo now s req r (upstream_path r req.path) f
                × IsWithinLimit now s req r)
            (too_large (max_body o s r) (content_length o req)) _ _
            (λ _ h. let wrong = ap (λ x. x.1) (done_unique _ _ _ refl h) in cc)
            (λ q h.
              let (a, b) =
                rate_GoesTo now s s' req r path f
                  (first_IsRoute o req.path (to_uppercase req.method) r s.matcher first v.routes_ok)
                  h in
              (r, first, q, subst (λ p. GoesTo now s req r p f) left a, b))

-- ===== src/Proxy/Admission.antt =====
-- crates/pqc-proxy/src/proxy.rs: `proxy_handler` up to the call of the upstream: the route, the size
-- of the body, the rate limit, the load balancer, the circuit breaker, and the forwarded request.
use pqc_gateway.Common.{
  ℕ, ◌+◌, ◌-◌, ◌*◌, ◌^◌, [], ◌∷◌, ◌++◌, Str, codes, Bool, true, false, ◌&&◌, Option, none, some,
  Outcome, done, panic, Result, ok, err, if◌then◌else◌, ◌==◌, leb, ltb, contains, str_instance,
}
use pqc_gateway.CircuitBreaker.{CircuitState, closed, open_, half_open}
use pqc_gateway.CircuitBreaker.Manager.{CircuitBreakerManager, check_request}
use pqc_gateway.Common.Decimal.{decimal}
use pqc_gateway.GatewayError.{
  upstream_connection, no_route_match, internal, rate_limited, body_too_large,
}
use pqc_gateway.Http.{set_header, get_header}
use pqc_gateway.Metrics.{record_rate_limit_rejection, record_circuit_breaker_rejection}
use pqc_gateway.Proxy.{Outside, ProxyState, Response, error_response}
use pqc_gateway.RateLimiter.{RateLimitKey, RateLimiter, RateLimitResult, check}
use pqc_gateway.RateLimiter.RateLimitResult.{allowed, limited}
use pqc_gateway.Router.{Route, next_upstream, match_route}
use pqc_gateway.Signature.{SignatureMode, resolve}

-- `parse::<u64>()`: digits, after a plus sign that may be there, of a number that fits.
unfoldable pub push_decimal : Option ℕ → ℕ → Option ℕ
push_decimal none c = none
push_decimal (some value) c =
    if leb 48 c && leb c 57 && ltb (value * 10 + (c - 48)) (2 ^ 64)
    then some (value * 10 + (c - 48))
    else none

unfoldable pub parse_digits : Option ℕ → Str → Option ℕ
parse_digits value [] = value
parse_digits value (c ∷ s) = parse_digits (push_decimal value c) s

unfoldable pub parse_u64 : Str → Option ℕ
parse_u64 [] = none
parse_u64 (c ∷ []) = push_decimal (some 0) c
parse_u64 (c ∷ d ∷ s) =
    if c == b'+' then parse_digits (some 0) (d ∷ s) else parse_digits (some 0) (c ∷ d ∷ s)

unfoldable pub parsed_u64 : Option Str → Option ℕ
parsed_u64 none = none
parsed_u64 (some v) = parse_u64 v

-- `content_length > max_body`, if there is a length.
unfoldable pub too_large : ℕ → Option ℕ → Bool
too_large max_body none = false
too_large max_body (some content_length) = ltb max_body content_length

abbrev pub text_or : Option Str → Str → Str
text_or none d = d
text_or (some s) d = s

abbrev pub number_or : Option ℕ → ℕ → ℕ
number_or none d = d
number_or (some n) d = n

unfoldable pub query_text : Option Str → Str
query_text none = []
query_text (some q) = b'?' ∷ q

-- Which client sends the request; the first one is a route's own.
pub data Client : Type 0 where
  mtls : Str → Client
  https http : Client

-- `Err(CircuitState::Open)`.
abbrev pub is_rejected : Result (Unit {0}) CircuitState → Bool
is_rejected (ok _) = false
is_rejected (err closed) = false
is_rejected (err half_open) = false
is_rejected (err open_) = true

module _ (o : Outside) where
  open o use {ht, fl}

  pub record Request : Type 0 where
    pub method : Str
    pub path : Str
    pub query : Option Str
    pub headers : ht.Headers

  -- The request for the upstream, and what the handler remembers for the answer.
  pub record Forward : Type 0 where
    pub route_id : Str
    pub method : Str
    pub upstream : Str
    pub uri : Str
    pub headers : ht.Headers
    pub client : Client
    pub timeout_ms : ℕ
    pub sig_mode : SignatureMode
    pub breaker_on : Bool

  pub data Decision : Type 0 where
    respond : Response o → Decision
    forward : Forward → Decision

  unfoldable pub request_id : Request → Str
  request_id req = text_or (get_header ht req.headers (codes "x-request-id")) (codes "-")

  unfoldable pub client_ip : Request → Str
  client_ip req = text_or (get_header ht req.headers (codes "x-forwarded-for")) (codes "unknown")

  unfoldable pub content_length : Request → Option ℕ
  content_length req = parsed_u64 (get_header ht req.headers (codes "content-length"))

  unfoldable pub forward_headers : Route → Request → ht.Headers
  forward_headers r req =
      ht.remove
        (set_header ht (set_header ht req.headers (codes "x-request-id") (request_id req))
          (codes "x-forwarded-proto") (if r.upstream_tls then codes "https" else codes "http"))
        (codes "host")

  unfoldable pub client_for : ProxyState o → Route → Client
  client_for s r =
      if contains s.mtls_clients r.id then mtls r.id else if r.upstream_tls then https else http

  unfoldable pub send_to : ProxyState o → Request → Route → Str → Str → Option Str → Decision
  send_to s req r upstream uri (some e) =
      respond (error_response o (internal (codes "bad upstream URI: " ++ e)))
  send_to s req r upstream uri none = forward (record {
    route_id = r.id;
    method = req.method;
    upstream = upstream;
    uri = uri;
    headers = forward_headers r req;
    client = client_for s r;
    timeout_ms = r.timeout_ms;
    sig_mode = resolve s.env_signature_mode r.signature_mode s.default_signature_mode;
    breaker_on = s.config.circuit_breaker.enabled;
  })

  unfoldable pub send : ProxyState o → Request → Route → Str → Str → Decision
  send s req r path upstream =
      let uri = upstream ++ path ++ query_text req.query in
      send_to s req r upstream uri (o.uri_error uri)

  -- The circuit breaker's answer.
  unfoldable pub guarded :
      ProxyState o
      → Request
      → Route
      → Str
      → Str
      → CircuitBreakerManager × Result (Unit {0}) CircuitState
      → ProxyState o × Decision
  guarded s req r path upstream (breaker, result) =
      let s' = record s { circuit_breaker = breaker } in
      if is_rejected result
      then (
        record s' { metrics = record_circuit_breaker_rejection s.metrics },
        respond (
            error_response o (
              upstream_connection
                (codes "circuit breaker open: upstream temporarily unavailable"))),
      )
      else (s', send s' req r path upstream)

  unfoldable pub admit_upstream :
      ℕ → ProxyState o → Request → Route → Str → Str → ProxyState o × Decision
  admit_upstream now s req r path upstream =
      if s.config.circuit_breaker.enabled
      then guarded s req r path upstream (check_request now s.circuit_breaker upstream)
      else (s, send s req r path upstream)

  -- The load balancer's pick.
  unfoldable pub balanced :
      ℕ → ProxyState o → Request → Route → Str → ℕ × Outcome Str → Outcome (ProxyState o × Decision)
  balanced now s req r path (counter, panic) = panic
  balanced now s req r path (counter, done upstream) =
      done (admit_upstream now (record s { balance = counter }) req r path upstream)

  unfoldable pub pick_upstream :
      ℕ → ProxyState o → Request → Route → Str → Outcome (ProxyState o × Decision)
  pick_upstream now s req r path = balanced now s req r path (next_upstream s.balance r.upstreams)

  -- The rate limiter's answer.
  unfoldable pub limited_by :
      ℕ
      → ProxyState o
      → Request
      → Route
      → Str
      → RateLimiter fl × RateLimitResult fl
      → Outcome (ProxyState o × Decision)
  limited_by now s req r path (limiter, allowed) =
      pick_upstream now (record s { rate_limiter = limiter }) req r path
  limited_by now s req r path (limiter, limited retry_after_secs) =
      let resp = error_response o rate_limited in
      done (
        record s { rate_limiter = limiter; metrics = record_rate_limit_rejection s.metrics },
        respond (record resp {
          headers =
              set_header ht resp.headers (codes "retry-after")
                (decimal (o.ceil_u64 retry_after_secs));
        }),
      )

  unfoldable pub limit_key : Request → Route → RateLimitKey
  limit_key req r = record { route_id = r.id; client_ip = client_ip req }

  unfoldable pub admit_rate :
      ℕ → ProxyState o → Request → Route → Str → Outcome (ProxyState o × Decision)
  admit_rate now s req r path =
      if s.config.rate_limit.enabled
      then limited_by now s req r path (check fl now s.rate_limiter (limit_key req r) r.rate_limit)
      else pick_upstream now s req r path

  unfoldable pub max_body : ProxyState o → Route → ℕ
  max_body s r = number_or r.max_request_body_bytes s.config.server.max_request_body_bytes

  unfoldable pub admit_route :
      ℕ → ProxyState o → Request → Option (Route × Str) → Outcome (ProxyState o × Decision)
  admit_route now s req none = done (s, respond (error_response o no_route_match))
  admit_route now s req (some (r, path)) =
      if too_large (max_body s r) (content_length req)
      then done (s, respond (error_response o (body_too_large (max_body s r))))
      else admit_rate now s req r path

  -- `proxy_handler`, before the call of the upstream.
  unfoldable pub admit : ℕ → ProxyState o → Request → Outcome (ProxyState o × Decision)
  admit now s req = admit_route now s req (match_route s.matcher req.path req.method)

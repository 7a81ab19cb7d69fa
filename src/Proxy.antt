-- ===== src/Proxy.antt =====
-- crates/pqc-proxy/src/proxy.rs: the state of the gateway, and how it is made and reloaded. Clients,
-- TLS connectors and the clock are outside: a connector for a route's client certificates is built
-- or not (`can_connect`), times and random keys are arguments.
pub mod Admission
pub mod Completion
pub mod Sound
pub mod Answers
pub mod Started
pub mod Runs
pub mod Drained
pub mod Answered
pub mod Signed
pub mod Forwarded
mod Tests
use pqc_gateway.Common.{
  ℕ, ◌*◌, List, [], ◌∷◌, Bytes, Str, Bool, ◌&&◌, Option, none, some, Outcome, done, panic, Result,
  ok, err, if◌then◌else◌,
}
use pqc_gateway.CircuitBreaker.{CircuitBreakerConfig}
use pqc_gateway.CircuitBreaker.Manager
use pqc_gateway.CircuitBreaker.Manager.{CircuitBreakerManager, register_upstream}
use pqc_gateway.Config.{
  GatewayConfig, RouteConfig, RouteMtlsConfig, CircuitBreakerFileConfig, ThresholdConfig,
}
use pqc_gateway.Crypto.{Crypto}
use pqc_gateway.GatewayError.{GatewayError, ErrorBody, into_response}
use pqc_gateway.Http.{Http}
use pqc_gateway.Metrics
use pqc_gateway.Metrics.{GatewayMetrics}
use pqc_gateway.RateLimiter.{Float, RateLimiter}
use pqc_gateway.Router.{Route, new_matcher}
use pqc_gateway.Signature.{SignatureMode, classical, from_str, ok?, mode_or}
use pqc_gateway.Signature.Keys.{SignatureKeys, KeyError, generate, from_seed_hex}
use pqc_gateway.VersionedKeys
use pqc_gateway.VersionedKeys.{VersionedKeyManager, with_threshold}

-- The code of other packages that the handler calls: the signatures, the headers, the floating-point
-- numbers, `ceil() as u64`, and the error of `parse::<Uri>()`, if there is one.
pub record Outside : Type 1 where
  pub cr : Crypto
  pub ht : Http
  pub fl : Float
  pub ceil_u64 : fl.F → ℕ
  pub uri_error : Str → Option Str

-- The random values that `ProxyState::new` draws, one for each place that draws one.
pub record Random : Type 0 where
  pub ecdsa_key : Bytes
  pub fallback_ecdsa_key : Bytes
  pub signing_seed : Bytes
  pub versioned_seed : Bytes
  pub share_bytes : ℕ → ℕ → Bytes

unfoldable pub register_all : CircuitBreakerManager → List Str → CircuitBreakerManager
register_all m [] = m
register_all m (upstream ∷ upstreams) = register_all (register_upstream m upstream none) upstreams

-- The loop over `matcher.routes()`.
unfoldable pub register_routes : CircuitBreakerManager → List Route → CircuitBreakerManager
register_routes m [] = m
register_routes m (r ∷ routes) = register_routes (register_all m r.upstreams) routes

-- The routes that get a client with certificates of their own.
unfoldable pub mtls_ids : (RouteMtlsConfig → Bool) → List RouteConfig → List Str
mtls_ids can_connect [] = []
mtls_ids can_connect (r ∷ routes) = with_mtls r.mtls (mtls_ids can_connect routes)
  where
    with_mtls : Option RouteMtlsConfig → List Str → List Str
    with_mtls none ids = ids
    with_mtls (some m) ids = if m.enabled && can_connect m then r.id ∷ ids else ids

-- `Duration::from_millis`, in nanoseconds.
abbrev pub from_millis : ℕ → ℕ
from_millis ms = ms * 1_000_000

unfoldable pub breaker_config : CircuitBreakerFileConfig → CircuitBreakerConfig
breaker_config c = record {
  failure_threshold = c.failure_threshold;
  recovery_timeout = from_millis c.recovery_timeout_ms;
  health_check_interval = from_millis c.health_check_interval_ms;
  health_check_path = c.health_check_path;
}

module _ (o : Outside) where
  open o use {cr, ht, fl}

  pub record ProxyState : Type 1 where
    pub matcher : List Route
    pub config : GatewayConfig
    pub signature_keys : SignatureKeys
    pub default_signature_mode : SignatureMode
    pub env_signature_mode : Option Str
    pub versioned_keys : VersionedKeyManager
    pub circuit_breaker : CircuitBreakerManager
    pub rate_limiter : RateLimiter fl
    pub metrics : GatewayMetrics
    pub balance : ℕ  -- the counter of the load balancer
    pub mtls_clients : List Str

  pub data Body : Type 0 where
    json : ErrorBody → Body
    bytes : Bytes → Body

  pub record Response : Type 0 where
    pub status : ℕ
    pub headers : ht.Headers
    pub body : Body

  unfoldable pub error_response : GatewayError → Response
  error_response e =
      let (status, body) = into_response e in
      record { status = status; headers = ht.json_headers; body = json body }

  -- `unwrap_or_else(|_| SignatureKeyManager::generate())`.
  unfoldable pub keys_or_generate :
      Random → Outcome (Result SignatureKeys KeyError) → Outcome SignatureKeys
  keys_or_generate random panic = panic
  keys_or_generate random (done (ok k)) = done k
  keys_or_generate random (done (err e)) =
      done (generate cr random.fallback_ecdsa_key random.signing_seed)

  -- The signing keys, from `GATEWAY_SIGNING_KEY` if it is set.
  unfoldable pub signing_keys : Random → Option Str → Outcome SignatureKeys
  signing_keys random none = done (generate cr random.ecdsa_key random.signing_seed)
  signing_keys random (some seed_hex) =
      keys_or_generate random (from_seed_hex cr random.ecdsa_key seed_hex)

  unfoldable pub key_manager : Random → ℕ → ThresholdConfig → Outcome VersionedKeyManager
  key_manager random now c =
      if c.enabled
      then with_threshold cr random.versioned_seed now random.share_bytes c.max_retained_keys
          c.threshold c.total_shares
      else done (VersionedKeys.new cr random.versioned_seed now c.max_retained_keys)

  unfoldable pub state_of :
      (RouteMtlsConfig → Bool)
      → GatewayConfig
      → Option Str
      → Outcome SignatureKeys
      → Outcome VersionedKeyManager
      → Outcome ProxyState
  state_of can_connect config env_mode panic versioned = panic
  state_of can_connect config env_mode (done keys) panic = panic
  state_of can_connect config env_mode (done keys) (done versioned) =
      let matcher = new_matcher config.routes in
      done (record {
        matcher = matcher;
        config = config;
        signature_keys = keys;
        default_signature_mode = mode_or (ok? (from_str config.signatures.default_mode)) classical;
        env_signature_mode = env_mode;
        versioned_keys = versioned;
        circuit_breaker =
            register_routes (Manager.new (breaker_config config.circuit_breaker)) matcher;
        rate_limiter = record {
          buckets = [];
          default_capacity = config.rate_limit.default_requests;
          default_window = config.rate_limit.default_window_seconds;
        };
        metrics = Metrics.new;
        balance = 0;
        mtls_clients = mtls_ids can_connect config.routes;
      })

  -- `ProxyState::new`; `env_mode` is `PQC_SIGNATURE_MODE`, `env_key` is `GATEWAY_SIGNING_KEY`.
  unfoldable pub new_state :
      (RouteMtlsConfig → Bool)
      → Random
      → ℕ
      → Option Str
      → Option Str
      → GatewayConfig
      → Outcome ProxyState
  new_state can_connect random now env_mode env_key config =
      state_of can_connect config env_mode (signing_keys random env_key)
        (key_manager random now config.threshold)

  unfoldable pub reload_config : ProxyState → GatewayConfig → ProxyState
  reload_config s new_config =
      let matcher = new_matcher new_config.routes in
      record s {
        circuit_breaker = register_routes s.circuit_breaker matcher;
        matcher = matcher;
        config = new_config;
      }

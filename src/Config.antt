-- ===== src/Config.antt =====
-- crates/pqc-proxy/src/config.rs: the configuration sections with their defaults, and `validate`.
-- Reading TOML and JSON is the work of `toml` and `serde_json`.
pub mod Validate
mod Tests
use pqc_gateway.Common.{
  ℕ, Bool, true, false, Option, none, some, List, [], ◌∷◌, ◌++◌, Str, codes, Result, ok, err,
  if◌then◌else◌,
}

pub record RouteRateLimit : Type 0 where
  pub requests : ℕ  -- u32
  pub window_seconds : ℕ  -- u64

pub record RouteMtlsConfig : Type 0 where
  pub enabled : Bool
  pub ca_file : Option Str
  pub client_cert_file : Option Str
  pub client_key_file : Option Str

pub record RouteConfig : Type 0 where
  pub id : Str
  pub path_prefix : Str
  pub upstream : Str
  pub upstreams : List Str
  pub strip_prefix : Bool
  pub methods : List Str
  pub timeout_ms : ℕ
  pub signature_mode : Option Str
  pub rate_limit : Option RouteRateLimit
  pub max_request_body_bytes : Option ℕ
  pub mtls : Option RouteMtlsConfig
  pub upstream_tls : Bool

pub record SignaturesConfig : Type 0 where
  pub default_mode : Str

abbrev pub default_signatures : SignaturesConfig
default_signatures = record { default_mode = codes "classical" }

pub record AuthConfig : Type 0 where
  pub enabled : Bool
  pub issuer : Str
  pub audience : Str
  pub token_ttl_seconds : ℕ
  pub public_paths : List Str

abbrev pub default_auth : AuthConfig
default_auth = record {
  enabled = false;
  issuer = codes "pqc-gateway";
  audience = codes "pqc-gateway-api";
  token_ttl_seconds = 3600;
  public_paths = codes "/health" ∷ codes "/.well-known/" ∷ [];
}

pub record AdminConfig : Type 0 where
  pub enabled : Bool
  pub bind_address : Str
  pub port : ℕ
  pub api_key : Option Str

abbrev pub default_admin : AdminConfig
default_admin = record {
  enabled = true;
  bind_address = codes "127.0.0.1";
  port = 9090;
  api_key = none;
}

-- `effective_api_key`; the environment variable is the second argument.
unfoldable pub effective_api_key : Option Str → Option Str → Option Str
effective_api_key (some key) env = some key
effective_api_key none env = env

pub record CircuitBreakerFileConfig : Type 0 where
  pub enabled : Bool
  pub failure_threshold : ℕ
  pub recovery_timeout_ms : ℕ
  pub health_check_interval_ms : ℕ
  pub health_check_path : Str

abbrev pub default_circuit_breaker : CircuitBreakerFileConfig
default_circuit_breaker = record {
  enabled = true;
  failure_threshold = 5;
  recovery_timeout_ms = 30000;
  health_check_interval_ms = 10000;
  health_check_path = codes "/health";
}

pub record ThresholdConfig : Type 0 where
  pub enabled : Bool
  pub threshold : ℕ
  pub total_shares : ℕ
  pub max_retained_keys : ℕ

abbrev pub default_threshold : ThresholdConfig
default_threshold = record {
  enabled = false;
  threshold = 3;
  total_shares = 5;
  max_retained_keys = 5;
}

pub record RateLimitConfig : Type 0 where
  pub enabled : Bool
  pub default_requests : ℕ
  pub default_window_seconds : ℕ

abbrev pub default_rate_limit : RateLimitConfig
default_rate_limit = record {
  enabled = false;
  default_requests = 1000;
  default_window_seconds = 60;
}

pub record MetricsConfig : Type 0 where
  pub enabled : Bool
  pub path : Str

abbrev pub default_metrics : MetricsConfig
default_metrics = record { enabled = false; path = codes "/metrics" }

pub record ServerConfig : Type 0 where
  pub bind_address : Str
  pub http_port : ℕ
  pub drain_timeout_seconds : ℕ
  pub max_request_body_bytes : ℕ

pub record TlsFileConfig : Type 0 where
  pub enabled : Bool
  pub cert_file : Str
  pub key_file : Str
  pub min_version : Str
  pub pqc_enabled : Bool
  pub https_port : ℕ
  pub ca_file : Option Str

abbrev pub default_tls : TlsFileConfig
default_tls = record {
  enabled = false;
  cert_file = codes "config/certs/server.crt";
  key_file = codes "config/certs/server.key";
  min_version = codes "1.3";
  pqc_enabled = true;
  https_port = 8443;
  ca_file = none;
}

pub record LoggingConfig : Type 0 where
  pub level : Str
  pub format : Str

abbrev pub default_logging : LoggingConfig
default_logging = record { level = codes "info"; format = codes "pretty" }

pub record GatewayConfig : Type 0 where
  pub server : ServerConfig
  pub logging : LoggingConfig
  pub tls : TlsFileConfig
  pub signatures : SignaturesConfig
  pub auth : AuthConfig
  pub admin : AdminConfig
  pub circuit_breaker : CircuitBreakerFileConfig
  pub threshold : ThresholdConfig
  pub rate_limit : RateLimitConfig
  pub metrics : MetricsConfig
  pub routes : List RouteConfig

unfoldable pub all_upstreams : RouteConfig → List Str
all_upstreams r = r.upstream ∷ r.upstreams

-- What `bail!` reports: the route's id stands in the message.
pub data ConfigError : Type 0 where
  no_routes : ConfigError
  empty_path_prefix empty_upstream : Str → ConfigError

abbrev pub is_empty : Str → Bool
is_empty [] = true
is_empty (c ∷ s) = false

-- The `for` loop of `validate`.
unfoldable pub validate_routes : List RouteConfig → Result (Unit {0}) ConfigError
validate_routes [] = ok tt
validate_routes (r ∷ rs) =
    let rest = validate_routes rs in
    if is_empty r.path_prefix
    then err (empty_path_prefix r.id)
    else if is_empty r.upstream
    then err (empty_upstream r.id)
    else rest

-- The whole of `validate`, from the configured routes.
unfoldable pub validate_all : List RouteConfig → Result (Unit {0}) ConfigError
validate_all [] = err no_routes
validate_all (r ∷ rs) = validate_routes (r ∷ rs)

unfoldable pub validate : GatewayConfig → Result (Unit {0}) ConfigError
unfolding validate_all validate_routes
validate g = validate_all g.routes

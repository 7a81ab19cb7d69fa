-- ===== src/Config/Tests.antt =====
-- Configurations for the theorems about `validate`.
use pqc_gateway.Common.{◌≡◌, ◌≢◌, ◌↔◌, false, none, List, [], ◌∷◌, codes, ok, All}
use pqc_gateway.Config.{
  RouteConfig, GatewayConfig, default_logging, default_tls, default_signatures, default_auth,
  default_admin, default_circuit_breaker, default_threshold, default_rate_limit, default_metrics,
  validate,
}
use pqc_gateway.Config.Validate.{IsUsable, validate_iff}

abbrev api : RouteConfig
api = record {
  id = codes "r1";
  path_prefix = codes "/api";
  upstream = codes "http://localhost:9001";
  upstreams = [];
  strip_prefix = false;
  methods = [];
  timeout_ms = 10000;
  signature_mode = none;
  rate_limit = none;
  max_request_body_bytes = none;
  mtls = none;
  upstream_tls = false;
}

abbrev headless : RouteConfig
headless = record api { id = codes "r2"; upstream = [] }

abbrev gateway : GatewayConfig
gateway = record {
  server = record {
    bind_address = codes "0.0.0.0";
    http_port = 8080;
    drain_timeout_seconds = 30;
    max_request_body_bytes = 10_485_760;
  };
  logging = default_logging;
  tls = default_tls;
  signatures = default_signatures;
  auth = default_auth;
  admin = default_admin;
  circuit_breaker = default_circuit_breaker;
  threshold = default_threshold;
  rate_limit = default_rate_limit;
  metrics = default_metrics;
  routes = api ∷ headless ∷ [];
}

validate_iff_example :
    (validate gateway ≡ ok tt)
    ↔ (◌≢◌ {A = List RouteConfig} (api ∷ headless ∷ []) [] × All IsUsable (api ∷ headless ∷ []))
validate_iff_example = validate_iff gateway

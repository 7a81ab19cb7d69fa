-- ===== src/Proxy/Tests.antt =====
-- A gateway with one route, a request and answers of its upstream.
use mathlib.Core.Path.{subst}
use pqc_gateway.Common.{
  map, ℕ, ◌+◌, ◌-◌, ◌≤◌, ◌<◌, ◌≡◌, ◌≢◌, ◌⊎◌, inl, inr, refl, List, [], ◌∷◌, ◌++◌, Bytes, Str, codes,
  Bool, true, false, Option, none, some, Outcome, done, panic, Result, ok, err, done_unique, length,
  str_eq, str_instance, to_uppercase, arith,
}
use pqc_gateway.BodyIntegrity.{compute_digest}
use pqc_gateway.CircuitBreaker.{CircuitState, closed, open_, new_circuit}
use pqc_gateway.CircuitBreaker.Manager
use pqc_gateway.CircuitBreaker.Manager.{entry, register_upstream, check_request, update_health}
use pqc_gateway.Common.Map.{lookup, insert, contains_key}
use pqc_gateway.Config.{
  RouteConfig, GatewayConfig, default_logging, default_tls, default_auth, default_admin,
  default_circuit_breaker, default_threshold, default_rate_limit, default_metrics,
}
use pqc_gateway.Crypto.Toy.{toy_crypto, filled}
use pqc_gateway.GatewayError.{upstream_connection}
use pqc_gateway.Http.{get_header}
use pqc_gateway.Http.Toy.{toy_http}
use pqc_gateway.Metrics
use pqc_gateway.Proxy.{
  Outside, Random, ProxyState, Response, Body, bytes, error_response, register_all, register_routes,
  breaker_config, mtls_ids, signing_keys, key_manager, state_of, new_state, reload_config,
}
use pqc_gateway.Proxy.Admission.{
  Request, Forward, Decision, respond, forward, http, admit, admit_upstream, too_large, max_body,
  content_length,
}
use pqc_gateway.Proxy.Answered.{FailedRun, no_more, fails_then, failures_refuse}
use pqc_gateway.Proxy.Answers.{RouteLimits, complete-IsSound}
use pqc_gateway.Proxy.Completion.{timed_out, complete, answer_body}
use pqc_gateway.Proxy.Drained.{Ending, of_sent, of_reading, waiting, end_all, drain}
use pqc_gateway.Proxy.Forwarded.{GoesTo, IsWithinLimit, admit-forward}
use pqc_gateway.Proxy.Runs.{reloaded, health_checked, Reach, stay, then_, Reach-IsSound}
use pqc_gateway.Proxy.Signed.{answer_body_lem}
use pqc_gateway.Proxy.Sound.{IsSound, EndsSound, admit-IsSound}
use pqc_gateway.Proxy.Started.{IsSettings, new_state-IsSound}
use pqc_gateway.RateLimiter.Toy.{whole}
use pqc_gateway.Router.{Route, from_config, new_matcher, sort_routes, upstream_path}
use pqc_gateway.Router.Matching.{IsFirst}
use pqc_gateway.Signature.{SignatureMode, classical, hybrid, ok?, from_str, mode_or}
use pqc_gateway.Signature.Keys.{generate}
use pqc_gateway.VersionedKeys
use pqc_gateway.VersionedKeys.{verify_by_kid}

-- Every address parses, and a time is rounded to itself.
abbrev world : Outside
world = record {
  cr = toy_crypto;
  ht = toy_http;
  fl = whole;
  ceil_u64 = λ n. n;
  uri_error = λ s. none;
}

abbrev api : RouteConfig
api = record {
  id = codes "r1";
  path_prefix = codes "/api";
  upstream = codes "http://localhost:9001";
  upstreams = [];
  strip_prefix = false;
  methods = [];
  timeout_ms = 10000;
  signature_mode = none;
  rate_limit = none;
  max_request_body_bytes = none;
  mtls = none;
  upstream_tls = false;
}

abbrev settings : GatewayConfig
settings = record {
  server = record {
    bind_address = codes "0.0.0.0";
    http_port = 8080;
    drain_timeout_seconds = 30;
    max_request_body_bytes = 10_485_760;
  };
  logging = default_logging;
  tls = default_tls;
  signatures = record { default_mode = codes "hybrid" };
  auth = default_auth;
  admin = default_admin;
  circuit_breaker = record default_circuit_breaker { failure_threshold = 1 };
  threshold = default_threshold;
  rate_limit = default_rate_limit;
  metrics = default_metrics;
  routes = api ∷ [];
}

settings-IsSettings : IsSettings world settings
unfolding from_config
settings-IsSettings = record {
  failure_pos = omega arith;
  failure_u32 = omega arith;
  requests_u32 = omega arith;
  limits_u32 = (tt, tt);
  sharing = inl refl;
}

abbrev random : Random
random = record {
  ecdsa_key = codes "key";
  fallback_ecdsa_key = codes "other";
  signing_seed = filled 32 (7 ∷ []);
  versioned_seed = filled 32 (9 ∷ []);
  share_bytes = λ i n. [];
}

-- The keys are shared, two of three, and the signing key is given as a text.
abbrev shared_settings : GatewayConfig
shared_settings = record settings {
  threshold = record { enabled = true; threshold = 2; total_shares = 3; max_retained_keys = 5 };
}

shared_settings-IsSettings : IsSettings world shared_settings
unfolding from_config
shared_settings-IsSettings = record {
  failure_pos = omega arith;
  failure_u32 = omega arith;
  requests_u32 = omega arith;
  limits_u32 = (tt, tt);
  sharing = inr (omega arith, omega arith);
}

abbrev signing_key : Str
signing_key = codes "0102030405060708090a0b0c0d0e0f101112131415161718191a1b1c1d1e1f20"

new_state-IsSound_example :
    (s : ProxyState world) × (new_state world
        (λ m. true)
        random
        0
        none
        (some signing_key)
        shared_settings
      ≡ done s)
    × IsSound world s
new_state-IsSound_example =
    new_state-IsSound world (λ m. true) random 0 none (some signing_key) shared_settings
      shared_settings-IsSettings refl refl (omega arith, refl)

abbrev first_state : ProxyState world
first_state = record {
  matcher = new_matcher (api ∷ []);
  config = settings;
  signature_keys = generate toy_crypto (codes "key") (filled 32 (7 ∷ []));
  default_signature_mode = mode_or (ok? (from_str (codes "hybrid"))) classical;
  env_signature_mode = none;
  versioned_keys = VersionedKeys.new toy_crypto (filled 32 (9 ∷ [])) 0 5;
  circuit_breaker =
      register_routes (Manager.new (breaker_config settings.circuit_breaker))
        (new_matcher (api ∷ []));
  rate_limiter = record { buckets = []; default_capacity = 1000; default_window = 60 };
  metrics = Metrics.new;
  balance = 0;
  mtls_clients = [];
}

first_state-IsSound : IsSound world first_state
unfolding new_state state_of signing_keys key_manager mtls_ids
first_state-IsSound =
    let (s, e, v) =
      new_state-IsSound world (λ m. true) random 0 none none settings settings-IsSettings refl refl
        tt in
    subst (IsSound world)
      (done_unique s first_state (new_state world (λ m. true) random 0 none none settings) e refl) v

abbrev some_request : Request world
some_request = record {
  method = codes "GET";
  path = codes "/api/items";
  query = none;
  headers = (codes "host", codes "gateway") ∷ [];
}

admit-IsSound_example : EndsSound world (admit world 5 first_state some_request)
admit-IsSound_example = admit-IsSound world 5 first_state some_request first_state-IsSound

abbrev some_forward : Forward world
some_forward = record {
  route_id = codes "r1";
  method = codes "GET";
  upstream = codes "http://localhost:9001";
  uri = codes "http://localhost:9001/api/items";
  headers = [];
  client = http;
  timeout_ms = 10000;
  sig_mode = hybrid;
  breaker_on = true;
}

complete-IsSound_example : EndsSound world (complete world 6 20 first_state some_forward timed_out)
complete-IsSound_example =
    complete-IsSound world 6 20 first_state some_forward timed_out first_state-IsSound

-- One upstream does not answer in time, and the body of another answer is read.
abbrev some_endings : List (Ending world)
some_endings =
    of_sent some_forward 6 20 timed_out ∷ of_reading some_forward 200 [] (ok (codes "hi")) ∷ []

drain_example :
    (s' : ProxyState world) × (rs : List (Response world)) × (end_all world first_state some_endings
      ≡ done (s', rs))
    × (length rs ≡ length some_endings)
    × Reach world (first_state, map (waiting world) some_endings) (s', [])
    × IsSound world s'
drain_example = drain world first_state some_endings first_state-IsSound

api_limits : RouteLimits world settings.routes
unfolding from_config
api_limits = (tt, tt)

abbrev after_reload : ProxyState world
after_reload = reload_config world first_state settings

abbrev after_check : ProxyState world
after_check = record after_reload {
  circuit_breaker =
      update_health 9 after_reload.circuit_breaker (codes "http://localhost:9001") false;
}

Reach-IsSound_example : IsSound world after_check
Reach-IsSound_example =
    Reach-IsSound world (first_state, []) (after_check, [])
      (then_ (first_state, []) (after_reload, []) (after_check, [])
        (reloaded first_state settings [] api_limits)
        (then_ (after_reload, []) (after_check, []) (after_check, [])
          (health_checked 9 (codes "http://localhost:9001") false after_reload [])
          (stay (after_check, []))))
      first_state-IsSound

answer_body_example :
    (r : Response world) × (signature : Bytes) × (answer_body world first_state some_forward 200 []
        (ok (codes "hi"))
      ≡ done (first_state, r))
    × (r.status ≡ 200)
    × (r.body ≡ bytes (codes "hi"))
    × (get_header toy_http r.headers (codes "x-pqc-signature")
        ≡ some (toy_crypto.b64_encode signature))
    × (get_header toy_http r.headers (codes "x-pqc-key-id")
        ≡ some first_state.versioned_keys.current_kid)
    × (verify_by_kid toy_crypto first_state.versioned_keys first_state.versioned_keys.current_kid
          (codes "hi")
          signature
        ≡ true)
    × (get_header toy_http r.headers (codes "x-pqc-content-digest")
        ≡ some (compute_digest toy_crypto toy_http (codes "hi")))
    × (get_header toy_http r.headers (codes "x-pqc-signature-algorithm") ≡ some (codes "ML-DSA-65"))
answer_body_example =
    answer_body_lem world first_state some_forward 200 [] (codes "hi") first_state-IsSound

hybrid_ne : hybrid ≢ classical
hybrid_ne e = cc

-- The request goes to the upstream of the only route, and the circuit breaker counts it.
abbrev admitted_state : ProxyState world
admitted_state = record first_state {
  circuit_breaker = (check_request 5 first_state.circuit_breaker (codes "http://localhost:9001")).0;
}

some_request_forwarded :
    admit world 5 first_state some_request
    ≡ done (
      admitted_state,
      forward (record some_forward {
        headers =
            (codes "x-request-id", codes "-") ∷ (codes "x-forwarded-proto", codes "http") ∷ [];
      }),
    )
unfolding admit pqc_gateway.Proxy.Admission.admit_route pqc_gateway.Router.match_route new_matcher
    sort_routes pqc_gateway.Router.accepts_path pqc_gateway.Common.starts_with from_config
    pqc_gateway.Router.accepts_method too_large content_length
    pqc_gateway.Proxy.Admission.parsed_u64 get_header lookup str_eq
    pqc_gateway.Proxy.Admission.admit_rate pqc_gateway.Proxy.Admission.pick_upstream
    pqc_gateway.Proxy.Admission.balanced pqc_gateway.Common.contains insert
    pqc_gateway.Common.strip_prefix to_uppercase pqc_gateway.Http.set_header admit_upstream
    pqc_gateway.Proxy.Admission.client_for pqc_gateway.Proxy.Admission.forward_headers
    pqc_gateway.Proxy.Admission.guarded max_body pqc_gateway.Proxy.Admission.query_text
    pqc_gateway.Proxy.Admission.request_id pqc_gateway.Proxy.Admission.send
    pqc_gateway.Proxy.Admission.send_to pqc_gateway.Router.next_upstream upstream_path from_str
    pqc_gateway.Signature.resolve check_request pqc_gateway.CircuitBreaker.check_circuit new_circuit
    register_routes register_all register_upstream contains_key Manager.new breaker_config
    pqc_gateway.Common.Map.remove
some_request_forwarded = refl

-- The upstream does not answer in time, and its circuit opens.
one_failure : (s' : ProxyState world) × FailedRun world some_forward first_state (7 ∷ []) s'
unfolding complete
one_failure = (_, fails_then 7 10000 first_state _ _ [] timed_out _ tt refl (no_more _))

failures_refuse_example :
    ((admit_upstream world 8 one_failure.0 some_request
        (from_config api)
        (codes "/api/items")
        (codes "http://localhost:9001")).1
      ≡ respond (
          error_response world
            (upstream_connection (codes "circuit breaker open: upstream temporarily unavailable"))))
    × ((error_response world (
          upstream_connection
            (codes "circuit breaker open: upstream temporarily unavailable"))).status
        ≡ 502)
unfolding register_routes register_all register_upstream lookup new_matcher sort_routes from_config
    contains_key Manager.new insert str_eq new_circuit breaker_config
failures_refuse_example =
    failures_refuse world first_state one_failure.0 some_forward 7 8 [] some_request
      (from_config api) (codes "/api/items") first_state-IsSound refl refl refl (omega arith)
      one_failure.1 (omega arith)

admit-forward_example :
    (r : Route) × IsFirst some_request.path (to_uppercase some_request.method) r first_state.matcher
    × (too_large (max_body world first_state r) (content_length world some_request) ≡ false)
    × GoesTo world 5 first_state some_request r
        (upstream_path r some_request.path)
        (record some_forward {
          headers =
              (codes "x-request-id", codes "-") ∷ (codes "x-forwarded-proto", codes "http") ∷ [];
        })
    × IsWithinLimit world 5 first_state some_request r
admit-forward_example =
    admit-forward world 5 first_state admitted_state some_request
      (record some_forward {
        headers =
            (codes "x-request-id", codes "-") ∷ (codes "x-forwarded-proto", codes "http") ∷ [];
      })
      first_state-IsSound some_request_forwarded

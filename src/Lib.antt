-- ===== src/Lib.antt =====
-- A verification of the gateway's core: the parts that decide what happens to a request, and the
-- secret sharing that guards its signing keys. Paths are from the repository's root.
--
-- The parts and how they meet. A configuration (`Config`) is checked once and turned into routes.
-- A request finds its route and its rewritten path (`Router`), takes a token of the bucket of its
-- route and client (`RateLimiter`), is admitted or refused by the circuit of the upstream that the
-- round-robin counter picked (`Router`, `CircuitBreaker`), is counted (`Metrics`), and its response
-- is signed in the mode that the route and the environment settle (`Signature`) and by the current
-- versioned key (`VersionedKeys`, `BodyIntegrity`). The handler and its state join them (`Proxy`).
-- Health checks move the circuits in the background. The signing keys are split into shares and put
-- together again (`Threshold`).
--
-- The files. Each component's first file has its data and operations, its children the theorems, and
-- its `Tests` the runs and the examples.
-- - `Config`: crates/pqc-proxy/src/config.rs. The records with their defaults, `all_upstreams`,
--   `effective_api_key` and `GatewayConfig::validate`. Texts are read by serde, which is not modelled.
-- - `Router`: crates/pqc-proxy/src/router.rs. `Fits` says in terms of texts what its tests mean.
--   `from_config` is `Route::from`, `new_matcher` is `RouteMatcher::new` with a stable insertion
--   sort for `sort_by`, `match_route` and `next_upstream` keep their names; the counter of
--   `next_upstream` is passed and returned.
-- - `RateLimiter`: crates/pqc-proxy/src/rate_limiter.rs. `f64` is the record `Float` of operations
--   with the laws of IEEE 754 that the theorems use; the tests give an instance.
-- - `CircuitBreaker`: crates/pqc-proxy/src/circuit_breaker.rs. `check_circuit`, `succeed_circuit`,
--   `fail_circuit` and `health_circuit` are what the methods of the manager do to one circuit;
--   `Manager` has the methods on the map of circuits; `HealthChecks` is one round of
--   `run_health_checks`, whose HTTP probe is a parameter. The lock makes each method one step.
-- - `Signature`: crates/pqc-tls/src/signature.rs. The modes, their names and their precedence; `Keys`
--   is `SignatureKeyManager`, whose `Inner` is the record `SignatureKeys`.
-- - `VersionedKeys`: crates/pqc-tls/src/versioned_keys.rs. The manager's record is
--   `VersionedKeyManagerInner`; `prune` and `install` are the end of `rotate`. `Deactivation` and
--   `Pruning` have the lemmas, `Rotation`, `Verification` and `Sharing` the theorems.
-- - `BodyIntegrity`: crates/pqc-proxy/src/body_integrity.rs. The middleware returns a `Verdict`: the next
--   handler runs with a body, or a response is sent.
-- - `Metrics`: crates/pqc-proxy/src/metrics.rs. Both outputs; the JSON text is left to serde.
-- - `Proxy`: crates/pqc-proxy/src/proxy.rs. The state with `new_state` (`ProxyState::new`) and
--   `reload_config`. `Admission.admit` is `proxy_handler` up to the call of the upstream,
--   `Completion.complete` what follows. `Runs` has the steps of any number of handlers that interleave,
--   `Drained` their ends.
-- - `JwtAuth`: crates/pqc-proxy/src/jwt_auth.rs. Tokens and the middleware; `serde_json` is the record
--   `Json`, whose law is that what is written is read again.
-- - `Crypto`: the crates `p256`, `base64`, `sha2` and `ml_dsa` as an interface with their laws.
-- - `Http`: the crate `http` as an interface of header maps, and the helpers for headers. Both have an
--   instance for the tests, `Toy`.
-- - `MlDsa`: crates/pqc-tls/src/certgen.rs, the wrapper `pqc` of the crate `ml_dsa`. The crate is the
--   record `MlDsa`, with the correctness of the scheme as its laws.
-- - `Threshold`: crates/pqc-tls/src/threshold.rs. `Gf256` is the arithmetic, `Shares` splitting and
--   reconstruction, `Codes` the recovery codes, `Manager` the key manager,
--   `Signing` the distributed signing, `Restore` a manager made from recovery codes. `Product` and `Field` show
--   that the bytes are a field, `Interpolation` has the algebra in any field where x + x is zero,
--   `Lagrange` that the loops compute it, `Recovery`, `RoundTrip` and `Quorum` the properties. The
--   random generator is a function that gives the bytes of each call.
-- - `CertChain`: crates/pqc-tls/src/cert_chain.rs. Certificates, the trust store and the checks of a
--   chain; the clock and the verification of a signature are parameters.
-- - `BatchVerify`: crates/pqc-tls/src/batch_verify.rs, the sequential verification of a batch. Its
--   children `Aggregate`, `MultiSignature`, `Timestamps` and `TestBatch` are the other parts of that file.
-- - `GatewayError`: crates/pqc-proxy/src/error.rs, the errors and their responses.
-- - `Common`: lists, texts and maps over the native numbers, Boolean tests, `Outcome` for code that
--   can panic and `Result` for errors, exclusive or, and tests of all bytes.
--
-- Conventions. Integers are natural numbers; counters of w bits are written modulo 2 ^ w, as release
-- builds compute them. Times are nanoseconds, or seconds where the source has seconds, passed to each
-- operation; `elapsed` stops at zero. Hash maps are association lists. Texts are lists of their bytes.
--
-- Steps. A handler waits for the head of an answer and for its body; what it does between two waits is
-- one step, as the locks of the parts make each of their operations.
--
-- Fuel. The loops of `gf256_mul` and `gf256_pow` have fuel for 8 turns: they halve a `u8` each turn
-- and stop at zero. The theorems on products and inverses hold for this fuel. All other loops are
-- recursions on lists.
--
-- Not modelled: TLS set-up, certificate files, the FIPS report, web sockets, the threads of
-- parallel batches, the creation of certificates, the middleware for request
-- identifiers and logs, and the admin API: they are input and output or wait for their turn. The
-- command-line tools and the sample services are examples.
pub mod BatchVerify
pub mod BodyIntegrity
pub mod CertChain
pub mod CircuitBreaker
pub mod Common
pub mod Config
pub mod Crypto
pub mod GatewayError
pub mod Http
pub mod JwtAuth
pub mod Metrics
pub mod MlDsa
pub mod Proxy
pub mod RateLimiter
pub mod Router
pub mod Signature
pub mod Threshold
pub mod VersionedKeys

-- ===== src/Proxy/Completion.antt =====
-- crates/pqc-proxy/src/proxy.rs: `proxy_handler` after the call of the upstream: the circuit breaker
-- and the metrics are told, and a response is signed.
use pqc_gateway.Common.{
  ℕ, ◌++◌, Bytes, Str, codes, Bool, ◌&&◌, Option, none, some, Outcome, done, panic, Result, ok, err,
  if◌then◌else◌, leb,
}
use pqc_gateway.BodyIntegrity.{sign_response_body}
use pqc_gateway.CircuitBreaker.Manager.{record_success, record_failure}
use pqc_gateway.Common.Decimal.{decimal}
use pqc_gateway.GatewayError.{upstream_connection, upstream_timeout}
use pqc_gateway.Http.{set_header}
use pqc_gateway.Metrics.{record_request, record_upstream_failure}
use pqc_gateway.Proxy.{Outside, ProxyState, Response, bytes, error_response}
use pqc_gateway.Proxy.Admission.{Forward}
use pqc_gateway.Signature.Keys.{SignatureOutput, sign}

-- `is_server_error`.
abbrev pub is_server_error : ℕ → Bool
is_server_error status = leb 500 status && leb status 599

module _ (o : Outside) where
  open o use {cr, ht}

  -- The result of the call, within the timeout: a status, headers and a body that is read or not,
  -- an error of the client, or no answer in time.
  pub data Answer : Type 0 where
    responded : ℕ → ht.Headers → Result Bytes Str → Answer
    failed : Str → Answer
    timed_out : Answer

  unfoldable pub tell_success : Forward o → ℕ → ProxyState o → ProxyState o
  tell_success f now s =
      if f.breaker_on
      then record s { circuit_breaker = record_success now s.circuit_breaker f.upstream }
      else s

  unfoldable pub tell_failure : Forward o → ℕ → ProxyState o → ProxyState o
  tell_failure f now s =
      if f.breaker_on
      then record s { circuit_breaker = record_failure now s.circuit_breaker f.upstream }
      else s

  unfoldable pub tell_status : Forward o → ℕ → ℕ → ProxyState o → ProxyState o
  tell_status f now status s =
      if is_server_error status then tell_failure f now s else tell_success f now s

  unfoldable pub count_request : Forward o → ℕ → ℕ → ProxyState o → ProxyState o
  count_request f status duration_ms s = record s {
    metrics = record_request s.metrics f.route_id f.method status duration_ms;
  }

  unfoldable pub count_failure : ProxyState o → ProxyState o
  count_failure s = record s { metrics = record_upstream_failure s.metrics }

  unfoldable pub classical_header : ht.Headers → Option Str → ht.Headers
  classical_header h none = h
  classical_header h (some classical) =
      set_header ht h (codes "x-pqc-signature-classical") classical

  -- The headers of a signature by the signature keys.
  unfoldable pub output_headers : ht.Headers → Option SignatureOutput → ht.Headers
  output_headers h none = h
  output_headers h (some out) =
      set_header ht
        (set_header ht
          (classical_header
            (set_header ht (set_header ht h (codes "x-pqc-signature-algorithm") out.algorithm)
              (codes "x-pqc-signature") out.pqc_signature)
            out.classical_signature)
          (codes "x-pqc-content-digest") out.content_digest)
        (codes "x-pqc-public-key-fingerprint") out.public_key_fingerprint

  unfoldable pub signed_response :
      ProxyState o
      → ℕ
      → ht.Headers
      → Bytes
      → Outcome (Option SignatureOutput)
      → Outcome (ProxyState o × Response o)
  signed_response s status h body panic = panic
  signed_response s status h body (done out) = done (
    s,
    record {
      status = status;
      headers = sign_response_body cr ht s.versioned_keys body (output_headers h out);
      body = bytes body;
    },
  )

  unfoldable pub answer_body :
      ProxyState o
      → Forward o
      → ℕ
      → ht.Headers
      → Result Bytes Str
      → Outcome (ProxyState o × Response o)
  answer_body s f status h (err e) =
      done (count_failure s, error_response o (upstream_connection e))
  answer_body s f status h (ok body) =
      signed_response s status h body (sign cr s.signature_keys f.sig_mode body)

  -- `proxy_handler`, from the answer of the upstream on.
  unfoldable pub complete :
      ℕ → ℕ → ProxyState o → Forward o → Answer → Outcome (ProxyState o × Response o)
  complete now duration_ms s f (responded status h body) =
      answer_body (count_request f status duration_ms (tell_status f now status s)) f status h body
  complete now duration_ms s f (failed e) = done (
    count_request f 502 duration_ms (count_failure (tell_failure f now s)),
    error_response o (upstream_connection e),
  )
  complete now duration_ms s f timed_out = done (
    count_request f 504 duration_ms (count_failure (tell_failure f now s)),
    error_response o
        (upstream_timeout (codes "timeout after " ++ decimal f.timeout_ms ++ codes "ms")),
  )

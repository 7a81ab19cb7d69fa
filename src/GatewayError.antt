-- ===== src/GatewayError.antt =====
-- crates/pqc-proxy/src/error.rs: the errors of the gateway, their texts and their responses.
use pqc_gateway.Common.Decimal.{decimal}
use pqc_gateway.Common.{ℕ, ◌++◌, Str, codes}

pub data GatewayError : Type 0 where
  upstream_connection : Str → GatewayError
  upstream_timeout : Str → GatewayError
  no_route_match : GatewayError
  method_not_allowed : GatewayError
  internal : Str → GatewayError
  rate_limited : GatewayError
  body_too_large : ℕ → GatewayError
  unauthorized : Str → GatewayError

-- `Display`.
unfoldable pub to_string : GatewayError → Str
to_string (upstream_connection msg) = codes "upstream connection error: " ++ msg
to_string (upstream_timeout msg) = codes "upstream timeout: " ++ msg
to_string no_route_match = codes "no matching route"
to_string method_not_allowed = codes "method not allowed"
to_string (internal msg) = codes "internal error: " ++ msg
to_string rate_limited = codes "rate limit exceeded"
to_string (body_too_large max) =
    codes "request body too large (max " ++ decimal max ++ codes " bytes)"
to_string (unauthorized msg) = codes "unauthorized: " ++ msg

pub record ErrorBody : Type 0 where
  pub error : Str
  pub status : ℕ

-- The status of the response and the message in its body.
unfoldable pub status_and_message : GatewayError → ℕ × Str
status_and_message (upstream_connection msg) = (502, msg)
status_and_message (upstream_timeout msg) = (504, msg)
status_and_message no_route_match = (404, codes "not found")
status_and_message method_not_allowed = (405, codes "method not allowed")
status_and_message (internal msg) = (500, msg)
status_and_message rate_limited = (429, codes "rate limit exceeded")
status_and_message (body_too_large max) =
    (413, codes "request body exceeds " ++ decimal max ++ codes " byte limit")
status_and_message (unauthorized msg) = (401, msg)

unfoldable pub into_response : GatewayError → ℕ × ErrorBody
into_response e =
    let (status, message) = status_and_message e in
    (status, record { error = message; status = status })

-- ===== src/Gateway/HttpClient.antt =====
-- `OTGatewayClient` of aggregator_demo/ot_gateway.py, on the replies of the routes. A reply stands for
-- the JSON body that carries it; the server answers an exception that a route does not catch by a
-- body that is no JSON.
use depotflux_demo.Prelude.{Option, none, some, Result, ok, err}
use depotflux_demo.Modbus.Registers.{Outcome}
use depotflux_demo.Gateway.{PolicyCode, UnavailableCode}
use depotflux_demo.Gateway.Routes.{
  Reply, answered, unauthorised, conflicting, internal_error, service_unavailable,
}

-- What the client raises: `GatewayPolicyError` with its code, `GatewayUnavailableError` with a code
-- of the gateway or one of two others, and the exception of `response.json()`.
pub data ClientError : Type 0 where
  client_policy : PolicyCode → ClientError
  client_unavailable : UnavailableCode → ClientError
  unavailable_policy : PolicyCode → ClientError
  authentication_failed gateway_unavailable no_json : ClientError

module _ {A : Type 0} where
  -- `_post`; `none` is the `httpx.HTTPError` of a request that got no response
  unfoldable pub post : Option (Outcome (Reply A)) → Result ClientError A
  post none = err gateway_unavailable
  post (some (err _)) = err no_json
  post (some (ok (answered answer))) = ok answer
  post (some (ok (conflicting code))) = err (client_policy code)
  post (some (ok (service_unavailable code))) = err (client_unavailable code)
  post (some (ok unauthorised)) = err authentication_failed
  post (some (ok internal_error)) = err no_json

  -- `controller_status`: every error status is unavailability
  unfoldable pub get_status : Option (Outcome (Reply A)) → Result ClientError A
  get_status none = err gateway_unavailable
  get_status (some (err _)) = err no_json
  get_status (some (ok (answered answer))) = ok answer
  get_status (some (ok (conflicting code))) = err (unavailable_policy code)
  get_status (some (ok (service_unavailable code))) = err (client_unavailable code)
  get_status (some (ok unauthorised)) = err authentication_failed
  get_status (some (ok internal_error)) = err no_json

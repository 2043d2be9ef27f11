-- ===== src/Gateway/Routes.antt =====
-- The internal routes of `create_gateway_app` in aggregator_demo/ot_gateway.py, with
-- `authenticate_gateway_request`. An exception that a route does not catch stays one.
use text.Mathlib.Text.{◌==◌ as str_eq}
use text.Mathlib.TextEquality.{eq_iff}
use depotflux_demo.Prelude.{
  ℕ, Bool, true, false, not, ◌&&◌, Option-cases, ◌≡◌, refl, ◌≢◌, ap, sym, ◌||◌, Option, none, some,
  String, if◌then◌else◌, ok, err, Result, arith, ◌⊎◌, inl, inr,
}
use depotflux_demo.Floats.{Floats}
use depotflux_demo.Modbus.Registers.{Outcome}
use depotflux_demo.Gateway.{
  Gateway, Settings, ControllerClient, DispatchRequest, SafeStateRequest, ControllerResponse,
  StatusResponse, PolicyCode, UnavailableCode, GatewayError, policy, unavailable, raised, dispatch,
  safe_state, controller_status,
}

-- A reply by its status code: 200 with the answer, 401, 409 and 503 with the code of the error, and
-- 500 for the `TypeError` of a key, which no route catches.
pub data Reply (A : Type 0) : Type 0 where
  answered : A → Reply A
  unauthorised internal_error : Reply A
  conflicting : PolicyCode → Reply A
  service_unavailable : UnavailableCode → Reply A

-- `not value` on an optional string
abbrev is_missing : Option String → Bool
is_missing none = true
is_missing (some text) = str_eq text ""

abbrev is_equal : Option String → Option String → Bool
is_equal (some a) (some b) = str_eq a b
is_equal _ _ = false

abbrev is_plain : (String → Bool) → Option String → Bool
is_plain is_ascii none = true
is_plain is_ascii (some text) = is_ascii text

-- `authenticate_gateway_request`: `some false` where it raises `GatewayPolicyError`, `none` where
-- `compare_digest` raises its `TypeError` for a text that is not ASCII
unfoldable pub is_authenticated : (String → Bool) → Option String → Option String → Option Bool
is_authenticated is_ascii provided configured =
    if is_missing configured || is_missing provided
    then some false
    else if not (is_plain is_ascii provided && is_plain is_ascii configured)
    then none
    else some (is_equal provided configured)

-- The `try` around the call of the gateway.
unfoldable pub reply_of :
    {A S : Type 0} → Result GatewayError A × Gateway S → Outcome (Reply A) × Gateway S
reply_of (ok answer, g) = (ok (answered answer), g)
reply_of (err (policy code), g) = (ok (conflicting code), g)
reply_of (err (unavailable code), g) = (ok (service_unavailable code), g)
reply_of (err (raised e), g) = (err e, g)

-- The same around `controller_status`, where every policy error is answered by 401.
unfoldable pub status_reply :
    {A S : Type 0} → Result GatewayError A × Gateway S → Outcome (Reply A) × Gateway S
status_reply (ok answer, g) = (ok (answered answer), g)
status_reply (err (policy _), g) = (ok unauthorised, g)
status_reply (err (unavailable code), g) = (ok (service_unavailable code), g)
status_reply (err (raised e), g) = (err e, g)

filled : (key : String) → str_eq key "" ≡ false → key ≢ ""
filled key h e = ground (arith, (eq_iff key "").1 e)

-- The credential gate: both keys are there, not empty, and the same.
pub is_authenticated_lem :
    (is_ascii : String → Bool) (provided configured : Option String)
    → is_authenticated is_ascii provided configured ≡ some true
    → (key : String) × (key ≢ "") × (provided ≡ some key) × (configured ≡ some key)
unfolding is_authenticated
is_authenticated_lem is_ascii none configured h = ground (arith, h)
is_authenticated_lem is_ascii (some p) none h = ground (arith, h)
is_authenticated_lem is_ascii (some p) (some c) h =
    (p, filled p (ground (arith, h)), refl, ap some (sym ((eq_iff p c).0 (ground (arith, h)))))

module _ ⦃F : Floats⦄ {S : Type 0} (client : ControllerClient S) (settings : Settings)
    (is_ascii : String → Bool) (configured_key : Option String) where
  unfoldable pub post_dispatch :
      ℕ
      → Option String
      → DispatchRequest
      → Gateway S
      → Outcome (Reply ControllerResponse) × Gateway S
  post_dispatch now gateway_header request g =
      elim (is_authenticated is_ascii gateway_header configured_key) [
        | none ↦ (ok internal_error, g)
        | some false ↦ (ok unauthorised, g)
        | some true ↦ reply_of (dispatch client settings now request g)
      ]

  unfoldable pub post_safe_state :
      ℕ
      → Option String
      → SafeStateRequest
      → Gateway S
      → Outcome (Reply ControllerResponse) × Gateway S
  post_safe_state now gateway_header request g =
      elim (is_authenticated is_ascii gateway_header configured_key) [
        | none ↦ (ok internal_error, g)
        | some false ↦ (ok unauthorised, g)
        | some true ↦ reply_of (safe_state client settings now request g)
      ]

  -- The readiness route, which asks for no key and catches unavailability alone.
  unfoldable pub get_ready : ℕ → Gateway S → Result GatewayError (Reply StatusResponse) × Gateway S
  get_ready now g =
      let (r, g') = controller_status client settings now g in
      elim r [
        | ok status ↦ (ok (answered status), g')
        | err (unavailable code) ↦ (ok (service_unavailable code), g')
        | err (policy code) ↦ (err (policy code), g')
        | err (raised e) ↦ (err (raised e), g')
      ]

  unfoldable pub get_controller :
      ℕ → Option String → Gateway S → Outcome (Reply StatusResponse) × Gateway S
  get_controller now gateway_header g =
      elim (is_authenticated is_ascii gateway_header configured_key) [
        | none ↦ (ok internal_error, g)
        | some false ↦ (ok unauthorised, g)
        | some true ↦ status_reply (controller_status client settings now g)
      ]

  -- The two command routes and the controller route answer with `reply` and change nothing.
  abbrev AllAnswer :
      ℕ
      → Option String
      → DispatchRequest
      → SafeStateRequest
      → Gateway S
      → Reply ControllerResponse
      → Reply StatusResponse
      → Type 0
  AllAnswer now gateway_header command request g reply status =
      (post_dispatch now gateway_header command g ≡ (ok reply, g))
      × (post_safe_state now gateway_header request g ≡ (ok reply, g))
      × (get_controller now gateway_header g ≡ (ok status, g))

  -- Either the header and the configured key are the same text, which is not empty, or the two
  -- command routes and the controller route all answer with 401, or all with 500, and change
  -- nothing.
  pub key_required :
      (now : ℕ) (gateway_header : Option String) (command : DispatchRequest)
      (request : SafeStateRequest) (g : Gateway S)
      → ((key : String) × (key ≢ "") × (gateway_header ≡ some key) × (configured_key ≡ some key))
        ⊎ (AllAnswer now gateway_header command request g unauthorised unauthorised
            ⊎ AllAnswer now gateway_header command request g internal_error internal_error)
  unfolding post_dispatch post_safe_state get_controller
  key_required now gateway_header command request g =
      elim (Option-cases (is_authenticated is_ascii gateway_header configured_key)) [
        | inl broken ↦ inr (
            inr (
              rw (broken, post_dispatch) refl,
              rw (broken, post_safe_state) refl,
              rw (broken, get_controller) refl,
            ))
        | inr (true, passed) ↦
            inl (is_authenticated_lem is_ascii gateway_header configured_key passed)
        | inr (false, refused) ↦ inr (
            inl (
              rw (refused, post_dispatch) refl,
              rw (refused, post_safe_state) refl,
              rw (refused, get_controller) refl,
            ))
      ]

-- ===== src/Gateway.antt =====
-- `DispatchGateway` of aggregator_demo/ot_gateway.py. Times are whole microseconds, as are the
-- durations of the settings; the identifiers of commands are naturals. The JSON event lines and the
-- latency are left out.
pub mod Fence
mod Tests
pub mod Replay
pub mod Routes
pub mod HttpClient
pub mod Fallback
use depotflux_demo.Prelude.{
  ℕ, ◌+◌, ◌-◌, ◌%◌, ◌^◌, Bool, true, false, not, ◌||◌, Option, none, some, List, [], ◌∷◌, ◌++◌, ltb,
  leb, ◌==◌, if◌then◌else◌, Result, ok, err, guard, raise_if, ◌>>◌, and_then, length, String,
}
use depotflux_demo.Floats.{Floats, float_zero, float_min, kilowatts}
use depotflux_demo.Modbus.Registers.{
  controller_ready, controller_active, controller_safe_state, Error, protocol, transport,
  connection_closed, exchange_failed, os_error, struct_error, conversion_error, Outcome,
}
use depotflux_demo.Modbus.Bytes.{Bytes}
use depotflux_demo.Modbus.Client.{ControllerSnapshot}

-- The codes of `GatewayPolicyError` and of `GatewayUnavailableError`.
pub data PolicyCode : Type 0 where
  invalid_command_window future_command stale_command replayed_command : PolicyCode
  non_finite_setpoint unsafe_setpoint : PolicyCode

pub data UnavailableCode : Type 0 where
  controller_unavailable safe_state_unavailable controller_heartbeat_lost : UnavailableCode

-- What a method raises; `raised` is an exception of the client that it does not catch.
pub data GatewayError : Type 0 where
  policy : PolicyCode → GatewayError
  unavailable : UnavailableCode → GatewayError
  raised : Error → GatewayError

pub record DispatchRequest ⦃F : Floats⦄ : Type 0 where
  pub command_id : ℕ
  pub correlation_id : ℕ
  pub issued_at : ℕ
  pub expires_at : ℕ
  pub setpoint_kw : F.Float
  pub site_capacity_kw : F.Float
  pub result_sha256 : String

pub record SafeStateRequest : Type 0 where
  pub command_id : ℕ
  pub correlation_id : ℕ
  pub issued_at : ℕ
  pub expires_at : ℕ
  pub reason : String

pub data Action : Type 0 where
  dispatch_action safe_state_action : Action

pub data StateName : Type 0 where
  ready active safe unknown : StateName

pub record ControllerResponse ⦃F : Floats⦄ : Type 0 where
  pub command_id : ℕ
  pub correlation_id : ℕ
  pub action : Action
  pub frame : Bytes
  pub response_frame : Bytes
  pub setpoint_kw : F.Float
  pub import_setpoint_kw : F.Float
  pub export_setpoint_kw : F.Float
  pub measured_site_power_kw : F.Float
  pub controller_state : StateName
  pub alarm_state : ℕ
  pub heartbeat : ℕ
  pub transport_attempts : ℕ

-- The answer of `controller_status`.
pub record StatusResponse ⦃F : Floats⦄ : Type 0 where
  pub controller_state : StateName
  pub alarm_state : ℕ
  pub heartbeat : ℕ
  pub measured_site_power_kw : F.Float

-- `_state_name`
abbrev pub state_name : ℕ → StateName
state_name value =
    if value == controller_ready
    then ready
    else if value == controller_active
    then active
    else if value == controller_safe_state
    then safe
    else unknown

-- The client that the gateway is given, on a state of its own.
pub record ControllerClient ⦃F : Floats⦄ (S : Type 0) : Type 0 where
  pub write_setpoint : F.Float → ℕ → Bool → S → Outcome (Bytes × Bytes × ℕ) × S
  pub snapshot : ℕ → S → Outcome ControllerSnapshot × S

pub record Settings : Type 0 where
  pub maximum_command_age : ℕ
  pub maximum_future_skew : ℕ
  pub heartbeat_stale : ℕ
  pub replay_cache_size : ℕ

-- `_seen_commands` holds its keys in their order, the oldest first.
pub record Gateway (S : Type 0) : Type 0 where
  pub seen_commands : List ℕ
  pub last_heartbeat : Option ℕ
  pub last_heartbeat_change : ℕ
  pub controller : S

-- `except (ModbusProtocolError, ModbusTransportError)`
abbrev pub is_controller_error : Error → Bool
is_controller_error (protocol _) = true
is_controller_error (transport connection_closed) = true
is_controller_error (transport exchange_failed) = true
is_controller_error (transport os_error) = false
is_controller_error struct_error = false
is_controller_error conversion_error = false

-- `_validate_window`; the subtraction stops at 0, where Python's is negative and not above the age
unfoldable pub validate_window : Settings → ℕ → ℕ → ℕ → Result GatewayError (Unit {0})
validate_window settings now issued expires = do
  raise_if (leb expires issued) (policy invalid_command_window)
  raise_if (ltb (now + settings.maximum_future_skew) issued) (policy future_command)
  raise_if (ltb expires now || ltb settings.maximum_command_age (now - issued))
      (policy stale_command)

-- `command_id in self._seen_commands`
unfoldable pub is_seen : ℕ → List ℕ → Bool
is_seen command_id [] = false
is_seen command_id (seen ∷ later) = seen == command_id || is_seen command_id later

-- `while len(…) > self.replay_cache_size: ….popitem(last=False)`
unfoldable pub evict : ℕ → List ℕ → List ℕ
evict size [] = []
evict size (oldest ∷ later) =
    let rest = evict size later in
    if ltb size (length (oldest ∷ later)) then rest else oldest ∷ later

-- A method of the gateway.
abbrev pub GatewayMethod : Type 0 → Type 0 → Type 0
GatewayMethod S A = Gateway S → Result GatewayError A × Gateway S

unfoldable pub reject_replay : {S : Type 0} → Settings → ℕ → GatewayMethod S (Unit {0})
reject_replay settings command_id g =
    if is_seen command_id g.seen_commands then (err (policy replayed_command), g) else (
      ok tt,
      record g {
        seen_commands = evict settings.replay_cache_size (g.seen_commands ++ command_id ∷ []);
      },
    )

module _ ⦃F : Floats⦄ where
  open F use {Float, abs, add, lt, tolerance}

  -- The response of both commands.
  unfoldable pub controller_response :
      ℕ → ℕ → Action → Float → (Bytes × Bytes × ℕ) × ControllerSnapshot → ControllerResponse
  controller_response command_id correlation_id action setpoint_kw (written, snapshot) = record {
    command_id = command_id;
    correlation_id = correlation_id;
    action = action;
    frame = written.0;
    response_frame = written.1;
    setpoint_kw = setpoint_kw;
    import_setpoint_kw = snapshot.import_setpoint_kw;
    export_setpoint_kw = snapshot.export_setpoint_kw;
    measured_site_power_kw = snapshot.measured_site_power_kw;
    controller_state = state_name snapshot.controller_state;
    alarm_state = snapshot.alarm_state;
    heartbeat = snapshot.heartbeat;
    transport_attempts = written.2;
  }

  -- The envelope test of `dispatch`.
  unfoldable pub is_outside_envelope : DispatchRequest → Bool
  is_outside_envelope command =
      lt (add (float_min command.site_capacity_kw (kilowatts 0xffff)) tolerance)
        (abs command.setpoint_kw)

module _ ⦃F : Floats⦄ {S : Type 0} (client : ControllerClient S) (settings : Settings) where
  open F use {Float, is_finite}

  -- A call of the client.
  abbrev on_controller : {A : Type 0} → (S → Outcome A × S) → Gateway S → Outcome A × Gateway S
  on_controller call g = let (r, s) = call g.controller in (r, record g { controller = s })

  -- The body of the `try` of `dispatch` and of `safe_state`.
  unfoldable pub command_controller :
      Float → ℕ → Bool → Gateway S → Outcome ((Bytes × Bytes × ℕ) × ControllerSnapshot) × Gateway S
  command_controller setpoint_kw transaction_id safe_state g =
      and_then (on_controller (client.write_setpoint setpoint_kw transaction_id safe_state) g)
        λ written g.
          and_then (on_controller (client.snapshot ((transaction_id + 1) % 2 ^ 16)) g)
            λ snapshot g. (ok (written, snapshot), g)

  -- `_best_effort_safe_state`
  unfoldable pub best_effort_safe_state : ℕ → GatewayMethod S Bool
  best_effort_safe_state transaction_id g =
      let (r, g') =
        on_controller (client.write_setpoint float_zero ((transaction_id + 2) % 2 ^ 16) true) g in
      elim r [
        | ok _ ↦ (ok true, g')
        | err e ↦ if is_controller_error e then (ok false, g') else (err (raised e), g')
      ]

  -- `dispatch` behind its checks.
  unfoldable pub apply_dispatch : DispatchRequest → GatewayMethod S ControllerResponse
  apply_dispatch command g =
      let transaction_id = command.command_id % 2 ^ 16 in
      let (r, g') = command_controller command.setpoint_kw transaction_id false g in
      elim r [
        | ok answer ↦ (
          ok (
              controller_response command.command_id command.correlation_id dispatch_action
                command.setpoint_kw answer),
          g',
        )
        | err e ↦
            if is_controller_error e
            then and_then (best_effort_safe_state transaction_id g')
                (λ _ g. (err (unavailable controller_unavailable), g))
            else (err (raised e), g')
      ]

  -- The checks of `dispatch`, in their order.
  unfoldable pub check_dispatch : ℕ → DispatchRequest → GatewayMethod S (Unit {0})
  check_dispatch now command g =
      and_then (validate_window settings now command.issued_at command.expires_at, g)
        λ _ g. and_then (reject_replay settings command.command_id g) λ _ g.
          if not (is_finite command.setpoint_kw)
          then (err (policy non_finite_setpoint), g)
          else if is_outside_envelope command
          then (err (policy unsafe_setpoint), g)
          else (ok tt, g)

  unfoldable pub dispatch : ℕ → DispatchRequest → GatewayMethod S ControllerResponse
  dispatch now command g = and_then (check_dispatch now command g) λ _ g. apply_dispatch command g

  -- `safe_state` behind its checks.
  unfoldable pub apply_safe_state : SafeStateRequest → GatewayMethod S ControllerResponse
  apply_safe_state request g =
      let (r, g') = command_controller float_zero (request.command_id % 2 ^ 16) true g in
      elim r [
        | ok answer ↦ (
          ok (
              controller_response request.command_id request.correlation_id safe_state_action
                float_zero answer),
          g',
        )
        | err e ↦
            if is_controller_error e
            then (err (unavailable safe_state_unavailable), g')
            else (err (raised e), g')
      ]

  unfoldable pub safe_state : ℕ → SafeStateRequest → GatewayMethod S ControllerResponse
  safe_state now request g =
      and_then (validate_window settings now request.issued_at request.expires_at, g)
        λ _ g.
          and_then (reject_replay settings request.command_id g) λ _ g. apply_safe_state request g

  -- What `controller_status` does with a snapshot, at a time of the monotonic clock.
  unfoldable pub watch_heartbeat : ℕ → ControllerSnapshot → GatewayMethod S StatusResponse
  watch_heartbeat now snapshot g =
      let status : StatusResponse = record {
        controller_state = state_name snapshot.controller_state;
        alarm_state = snapshot.alarm_state;
        heartbeat = snapshot.heartbeat;
        measured_site_power_kw = snapshot.measured_site_power_kw;
      } in
      if elim g.last_heartbeat [ none ↦ false | some h ↦ h == snapshot.heartbeat ]
      then if leb settings.heartbeat_stale (now - g.last_heartbeat_change)
        then and_then (best_effort_safe_state 0xFFFB g)
            (λ _ g. (err (unavailable controller_heartbeat_lost), g))
        else (ok status, g)
      else (
        ok status,
        record g { last_heartbeat = some snapshot.heartbeat; last_heartbeat_change = now },
      )

  unfoldable pub controller_status : ℕ → GatewayMethod S StatusResponse
  controller_status now g =
      let (r, g') = on_controller (client.snapshot 0xFFFE) g in
      elim r [
        | ok snapshot ↦ watch_heartbeat now snapshot g'
        | err e ↦
            if is_controller_error e
            then (err (unavailable controller_heartbeat_lost), g')
            else (err (raised e), g')
      ]

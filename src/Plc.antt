-- ===== src/Plc.antt =====
-- `SimulatedSiteController` of aggregator_demo/plc_simulator.py. The lock serialises the requests,
-- so a request is one step. The JSON event lines are left out.
pub mod Safety
pub mod Effects
mod Tests
use depotflux_demo.Prelude.{
  ℕ, zero, suc, ◌+◌, ◌-◌, ◌*◌, ◌%◌, ◌^◌, bit_or, Bool, true, false, not, ◌&&◌, ◌||◌, Option, none,
  some, List, [], ◌∷◌, ltb, leb, ◌==◌, if◌then◌else◌, ok, err, and_then, length,
}
use depotflux_demo.Floats.{Floats, float_max, kilowatts}
use depotflux_demo.Modbus.Registers.{
  read_holding_registers, write_multiple_registers, site_import_setpoint_register,
  site_export_setpoint_register, command_mode_register, measured_site_power_register,
  controller_state_register, alarm_state_register, heartbeat_register, controller_ready,
  controller_active, controller_safe_state, alarm_none, alarm_safe_state, alarm_invalid_write,
  alarm_unauthorized_source, command_mode_dispatch, command_mode_safe_state, Outcome,
}
use depotflux_demo.Modbus.Bytes.{Bytes, word}
use depotflux_demo.Modbus.Frames.{
  Request, decode_request, encode_write_response, encode_read_response, encode_exception_response,
}
use depotflux_demo.Modbus.Commands.{measured_power_register}

-- `self.registers`: the dict has these seven keys, always.
pub record Registers : Type 0 where
  pub import_setpoint : ℕ
  pub export_setpoint : ℕ
  pub command_mode : ℕ
  pub measured_site_power : ℕ
  pub controller_state : ℕ
  pub alarm_state : ℕ
  pub heartbeat : ℕ

abbrev pub initial_registers : Registers
initial_registers = record {
  import_setpoint = 0;
  export_setpoint = 0;
  command_mode = command_mode_dispatch;
  measured_site_power = 0;
  controller_state = controller_ready;
  alarm_state = alarm_none;
  heartbeat = 0;
}

-- `self.registers.get(address)`
unfoldable pub register : Registers → ℕ → Option ℕ
register r address =
    if address == site_import_setpoint_register
    then some r.import_setpoint
    else if address == site_export_setpoint_register
    then some r.export_setpoint
    else if address == command_mode_register
    then some r.command_mode
    else if address == measured_site_power_register
    then some r.measured_site_power
    else if address == controller_state_register
    then some r.controller_state
    else if address == alarm_state_register
    then some r.alarm_state
    else if address == heartbeat_register
    then some r.heartbeat
    else none

-- `self.registers[ALARM_STATE_REGISTER] |= alarm`
unfoldable pub raise_alarm : ℕ → Registers → Registers
raise_alarm alarm r = record r { alarm_state = bit_or r.alarm_state alarm }

-- `requested.issubset(defined)`
unfoldable pub all_defined : Registers → ℕ → ℕ → Bool
all_defined r address zero = true
all_defined r address (suc quantity) =
    elim (register r address) [ some _ ↦ true | none ↦ false ]
    && all_defined r (address + 1) quantity

-- `[self.registers.get(address + offset, 0) for offset in range(quantity)]`
unfoldable pub register_values : Registers → ℕ → ℕ → List ℕ
register_values r address zero = []
register_values r address (suc quantity) =
    elim (register r address) [ some v ↦ v | none ↦ 0 ] ∷ register_values r (address + 1) quantity

-- A handler returns its response, or raises, and the registers as they then are.
abbrev pub Handler : Type 0
Handler = Registers → Outcome Bytes × Registers

unfoldable pub invalid_write : ℕ → ℕ → ℕ → Handler
invalid_write transaction_id unit_id exception_code r = (
  encode_exception_response write_multiple_registers exception_code transaction_id unit_id,
  raise_alarm alarm_invalid_write r,
)

module _ ⦃F : Floats⦄ (site_capacity_kw : F.Float) where
  open F use {lt, sub}

  -- The second test of `_handle_write`.
  unfoldable pub is_unsafe : ℕ → ℕ → ℕ → Bool
  is_unsafe import_raw export_raw mode =
      not (import_raw == 0) && not (export_raw == 0)
      || (lt site_capacity_kw (float_max (kilowatts import_raw) (kilowatts export_raw))
          || (not (mode == command_mode_dispatch || mode == command_mode_safe_state)
              || mode == command_mode_safe_state
                && (not (import_raw == 0) || not (export_raw == 0))))

  -- The registers once `measured_power_register` has returned.
  unfoldable pub applied : ℕ → ℕ → Registers → Registers
  applied mode measured r =
      if mode == command_mode_safe_state
      then record r {
        measured_site_power = measured;
        controller_state = controller_safe_state;
        alarm_state = alarm_safe_state;
      }
      else record r {
        measured_site_power = measured;
        controller_state = controller_active;
        alarm_state = alarm_none;
      }

  -- The writes of `_handle_write`: three registers are set before the fourth is computed.
  unfoldable pub apply_write : ℕ → ℕ → ℕ → Registers → Outcome ℕ × Registers
  apply_write import_raw export_raw mode r =
      let r' = record r {
        import_setpoint = import_raw;
        export_setpoint = export_raw;
        command_mode = mode;
      } in
      and_then (measured_power_register (sub (kilowatts import_raw) (kilowatts export_raw)), r')
        (λ measured r'. (ok measured, applied mode measured r'))

  unfoldable pub handle_write : ℕ → ℕ → Bytes → Handler
  handle_write transaction_id unit_id
        (a1 ∷ a0 ∷ q1 ∷ q0 ∷ byte_count ∷ i1 ∷ i0 ∷ e1 ∷ e0 ∷ m1 ∷ m0 ∷ []) r =
      if not (word a1 a0 == site_import_setpoint_register)
        || (not (word q1 q0 == 3) || not (byte_count == 6))
      then invalid_write transaction_id unit_id 0x02 r
      else if is_unsafe (word i1 i0) (word e1 e0) (word m1 m0)
      then invalid_write transaction_id unit_id 0x03 r
      else and_then (apply_write (word i1 i0) (word e1 e0) (word m1 m0) r)
          (λ _ r'. (encode_write_response transaction_id unit_id (word a1 a0) (word q1 q0), r'))
  handle_write transaction_id unit_id _ r = invalid_write transaction_id unit_id 0x03 r

unfoldable pub handle_read : ℕ → ℕ → Bytes → Handler
handle_read transaction_id unit_id (a1 ∷ a0 ∷ q1 ∷ q0 ∷ []) r =
    let address = word a1 a0 in
    let quantity = word q1 q0 in
    if ltb quantity 1 || (ltb 125 quantity || ltb 65536 (address + quantity))
    then (encode_exception_response read_holding_registers 0x02 transaction_id unit_id, r)
    else if not (
          address == site_import_setpoint_register
          && quantity == heartbeat_register - site_import_setpoint_register + 1)
        && not (all_defined r address quantity)
    then (
      encode_exception_response read_holding_registers 0x02 transaction_id unit_id,
      raise_alarm alarm_unauthorized_source r,
    )
    else (encode_read_response (register_values r address quantity) transaction_id unit_id, r)
handle_read transaction_id unit_id _ r =
    (encode_exception_response read_holding_registers 0x03 transaction_id unit_id, r)

-- `(self.registers[HEARTBEAT_REGISTER] + 1) & 0xFFFF`, if the heartbeat is enabled
unfoldable pub beat : Bool → Registers → Registers
beat heartbeat_enabled r =
    if heartbeat_enabled then record r { heartbeat = (r.heartbeat + 1) % 2 ^ 16 } else r

-- A response that is sent; `None` stands for none.
abbrev pub answer : Outcome Bytes × Registers → Outcome (Option Bytes) × Registers
answer outcome = and_then outcome (λ bytes r. (ok (some bytes), r))

-- `peer_allowed` decides by Python's `ipaddress` networks, and is a parameter.
module _ ⦃F : Floats⦄ (site_capacity_kw : F.Float) (heartbeat_enabled : Bool) {Peer : Type 0}
    (peer_allowed : Peer → Bool) where
  unfoldable pub handle_decoded : Request → Handler
  handle_decoded request r =
      let r' = beat heartbeat_enabled r in
      if request.function == write_multiple_registers
      then handle_write site_capacity_kw request.transaction_id request.unit_id request.payload r'
      else if request.function == read_holding_registers
      then handle_read request.transaction_id request.unit_id request.payload r'
      else (
        encode_exception_response request.function 0x01 request.transaction_id request.unit_id,
        r',
      )

  unfoldable pub handle_authorised : Peer → Request → Handler
  handle_authorised peer_ip request r =
      if not (peer_allowed peer_ip)
      then (
        encode_exception_response request.function 0x01 request.transaction_id request.unit_id,
        raise_alarm alarm_unauthorized_source r,
      )
      else if not (request.unit_id == 1)
      then (
        encode_exception_response request.function 0x0B request.transaction_id request.unit_id,
        r,
      )
      else handle_decoded request r

  unfoldable pub handle_request : Peer → Bytes → Registers → Outcome (Option Bytes) × Registers
  handle_request peer_ip frame_bytes r = elim (decode_request frame_bytes) [
    | err _ ↦ (ok none, r)
    | ok request ↦ answer (handle_authorised peer_ip request r)
  ]

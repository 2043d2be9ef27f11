-- ===== src/Modbus/Registers.antt =====
-- The register map, the codes and the exceptions of aggregator_demo/modbus_tcp.py.
use depotflux_demo.Prelude.{ℕ, Result}

abbrev pub read_holding_registers : ℕ
read_holding_registers = 0x03

abbrev pub write_multiple_registers : ℕ
write_multiple_registers = 0x10

abbrev pub site_import_setpoint_register : ℕ
site_import_setpoint_register = 100

abbrev pub site_export_setpoint_register : ℕ
site_export_setpoint_register = 101

abbrev pub command_mode_register : ℕ
command_mode_register = 102

abbrev pub measured_site_power_register : ℕ
measured_site_power_register = 110

abbrev pub controller_state_register : ℕ
controller_state_register = 120

abbrev pub alarm_state_register : ℕ
alarm_state_register = 121

abbrev pub heartbeat_register : ℕ
heartbeat_register = 130

abbrev pub controller_ready : ℕ
controller_ready = 1

abbrev pub controller_active : ℕ
controller_active = 2

abbrev pub controller_safe_state : ℕ
controller_safe_state = 3

abbrev pub alarm_none : ℕ
alarm_none = 0

abbrev pub alarm_safe_state : ℕ
alarm_safe_state = 1

abbrev pub alarm_invalid_write : ℕ
alarm_invalid_write = 2

abbrev pub alarm_unauthorized_source : ℕ
alarm_unauthorized_source = 8

abbrev pub command_mode_dispatch : ℕ
command_mode_dispatch = 0

abbrev pub command_mode_safe_state : ℕ
command_mode_safe_state = 1

-- What the functions of the module raise: `ModbusProtocolError` with its reasons,
-- `ModbusTransportError`, and the exceptions of `struct.pack` and of `round`.
pub data ProtocolFault : Type 0 where
  unsigned_range signed_range transaction_range unit_range : ProtocolFault
  not_command_write wrong_block both_directions unknown_mode safe_state_power : ProtocolFault
  read_range short_request bad_header : ProtocolFault
  write_mismatch unexpected_write wrong_acknowledgement : ProtocolFault
  read_mismatch unexpected_read register_count bad_response_header : ProtocolFault
  controller_exception : ℕ → ProtocolFault

pub data TransportFault : Type 0 where
  connection_closed exchange_failed os_error : TransportFault

pub data Error : Type 0 where
  protocol : ProtocolFault → Error
  transport : TransportFault → Error
  struct_error conversion_error : Error

abbrev pub Outcome {ℓ} : Type ℓ → Type ℓ
Outcome A = Result Error A

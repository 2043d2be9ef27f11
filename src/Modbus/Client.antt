-- ===== src/Modbus/Client.antt =====
-- `ModbusTcpClient` of aggregator_demo/modbus_tcp.py. The network is a parameter: what it does with
-- a connection attempt, on a state of its own.
pub mod Attempts
use depotflux_demo.Prelude.{
  ℕ, zero, suc, ◌+◌, ◌-◌, Bool, true, false, List, [], ◌∷◌, leb, if◌then◌else◌, ok, err, and_then,
  ◌>>=◌, ◌>>◌, Option, some, none,
}
use depotflux_demo.Floats.{Floats, kilowatts}
use depotflux_demo.Modbus.Registers.{
  site_import_setpoint_register, measured_site_power_register, controller_state_register,
  alarm_state_register, heartbeat_register, Error, protocol, transport, exchange_failed,
  struct_error, conversion_error, Outcome,
}
use depotflux_demo.Modbus.Bytes.{Bytes}
use depotflux_demo.Modbus.Frames.{encode_read_request, decode_write_response, decode_read_response}
use depotflux_demo.Modbus.Commands.{encode_dispatch_request, signed_register_value}
use depotflux_demo.Modbus.Stream.{Stream, receive_frame}

-- `socket.create_connection` and `sendall`: an `OSError`, or the stream that answers the frame.
abbrev pub Network : Type 0 → Type 0
Network S = Bytes → S → Outcome Stream × S

-- `except (OSError, ModbusProtocolError, ModbusTransportError)`
abbrev pub is_caught : Error → Bool
is_caught (protocol _) = true
is_caught (transport _) = true
is_caught struct_error = false
is_caught conversion_error = false

-- `list[index]`, at an index that the list has
unfoldable pub register_at : List ℕ → ℕ → ℕ
register_at [] i = 0
register_at (v ∷ vs) zero = v
register_at (v ∷ vs) (suc i) = register_at vs i

pub record ControllerSnapshot ⦃F : Floats⦄ : Type 0 where
  pub import_setpoint_kw : F.Float
  pub export_setpoint_kw : F.Float
  pub measured_site_power_kw : F.Float
  pub controller_state : ℕ
  pub alarm_state : ℕ
  pub heartbeat : ℕ

-- The fields of `snapshot`, from the registers that were read.
unfoldable pub snapshot_of : ⦃F : Floats⦄ → List ℕ → ControllerSnapshot
snapshot_of values = record {
  import_setpoint_kw = kilowatts (register_at values 0);
  export_setpoint_kw = kilowatts (register_at values 1);
  measured_site_power_kw =
      signed_register_value
        (register_at values (measured_site_power_register - site_import_setpoint_register));
  controller_state = register_at values (controller_state_register - site_import_setpoint_register);
  alarm_state = register_at values (alarm_state_register - site_import_setpoint_register);
  heartbeat = register_at values (heartbeat_register - site_import_setpoint_register);
}

-- `ModbusTcpClient(…, retries=…)`; `none` is the `ValueError`
unfoldable pub client_retries : ℕ → Option ℕ
client_retries retries = if leb retries 3 then some retries else none

module _ {S : Type 0} (net : Network S) where
  -- One round of the loop: connect, send, and read one frame.
  unfoldable pub exchange_once : Bytes → S → Outcome Bytes × S
  exchange_once frame_bytes s =
      let (r, s') = net frame_bytes s in
      elim r [ ok stream ↦ ((receive_frame stream).0, s') | err e ↦ (err e, s') ]

  -- The rounds that are left, from round number `attempt`.
  unfoldable pub exchange_rounds : ℕ → ℕ → Bytes → S → Outcome (Bytes × ℕ) × S
  exchange_rounds zero attempt frame_bytes s = (err (transport exchange_failed), s)
  exchange_rounds (suc left) attempt frame_bytes s =
      let (r, s') = exchange_once frame_bytes s in
      let rest = exchange_rounds left (attempt + 1) frame_bytes s' in
      elim r [
        | ok response ↦ (ok (response, attempt), s')
        | err e ↦ if is_caught e then rest else (err e, s')
      ]

  unfoldable pub exchange : ℕ → Bytes → S → Outcome (Bytes × ℕ) × S
  exchange retries frame_bytes s = exchange_rounds (retries + 1) 1 frame_bytes s

  -- `write_setpoint`, with the unit ID 1
  unfoldable pub write_setpoint :
      ⦃F : Floats⦄ → ℕ → F.Float → ℕ → Bool → S → Outcome (Bytes × Bytes × ℕ) × S
  write_setpoint retries setpoint_kw transaction_id safe_state s =
      and_then (encode_dispatch_request setpoint_kw transaction_id 1 safe_state, s)
        λ request s. and_then (exchange retries request s) λ answer s. (
          (do decode_write_response answer.0 transaction_id 1; ok (request, answer.0, answer.1)),
          s,
        )

  -- `read_registers`, with the unit ID 1
  unfoldable pub read_registers : ℕ → ℕ → ℕ → ℕ → S → Outcome (List ℕ × Bytes × Bytes × ℕ) × S
  read_registers retries start_address quantity transaction_id s =
      and_then (encode_read_request start_address quantity transaction_id 1, s)
        λ request s. and_then (exchange retries request s) λ answer s. (
          (do
            values ← decode_read_response answer.0 transaction_id quantity 1
            ok (values, request, answer.0, answer.1)),
          s,
        )

  unfoldable pub snapshot : ⦃F : Floats⦄ → ℕ → ℕ → S → Outcome ControllerSnapshot × S
  snapshot retries transaction_id s =
      and_then
        (read_registers retries site_import_setpoint_register
          (heartbeat_register - site_import_setpoint_register + 1) transaction_id s)
        (λ answer s. (ok (snapshot_of answer.0), s))

-- ===== src/Modbus/Commands.antt =====
-- The site commands of aggregator_demo/modbus_tcp.py: power values in registers, and the frame that
-- writes the three command registers.
use depotflux_demo.Prelude.{
  ℕ, ◌-◌, ◌%◌, ◌^◌, Bool, not, ◌&&◌, ◌||◌, Option, none, some, [], ◌∷◌, ◌++◌, leb, ◌==◌,
  if◌then◌else◌, ok, err, guard, raise_if, ◌>>=◌, ◌>>◌,
}
use depotflux_demo.Prelude.Int.{ℤ, pos, negsuc, sub_ℕ}
use depotflux_demo.Floats.{Floats, float_zero, float_max, kilowatts, in_tenths}
use depotflux_demo.Modbus.Registers.{
  write_multiple_registers, site_import_setpoint_register, command_mode_dispatch,
  command_mode_safe_state, unsigned_range, signed_range, transaction_range, unit_range,
  not_command_write, wrong_block, both_directions, unknown_mode, safe_state_power, protocol,
  conversion_error, Outcome,
}
use depotflux_demo.Modbus.Bytes.{Bytes, pack_byte, pack_word, word}
use depotflux_demo.Modbus.Frames.{frame, Request, decode_request}

-- `if not 0 <= scaled <= 0xFFFF: raise …`, on `int(round(float(value) / scale_kw))`
abbrev pub in_unsigned_range : Option ℤ → Outcome ℕ
in_unsigned_range none = err conversion_error
in_unsigned_range (some (pos n)) = if leb n 0xffff then ok n else err (protocol unsigned_range)
in_unsigned_range (some (negsuc n)) = err (protocol unsigned_range)

-- `if not -32768 <= scaled <= 32767: raise …`, then `scaled & 0xFFFF`
abbrev pub in_signed_range : Option ℤ → Outcome ℕ
in_signed_range none = err conversion_error
in_signed_range (some (pos n)) =
    if leb n 32767 then ok (n % 2 ^ 16) else err (protocol signed_range)
in_signed_range (some (negsuc n)) =
    if leb n 32767 then ok (2 ^ 16 - 1 - n % 2 ^ 16) else err (protocol signed_range)

-- `raw - 65536 if raw >= 32768 else raw`
abbrev pub signed_value : ℕ → ℤ
signed_value raw = if leb 32768 raw then sub_ℕ raw 65536 else pos raw

module _ ⦃F : Floats⦄ where
  open F use {Float, of_int, tenth, sub, mul, neg, is_zero}

  unfoldable pub unsigned_register : Float → Outcome ℕ
  unsigned_register value = in_unsigned_range (in_tenths value)

  unfoldable pub signed_register : Float → Outcome ℕ
  signed_register value = in_signed_range (in_tenths value)

  -- `measured_power_register`
  unfoldable pub measured_power_register : Float → Outcome ℕ
  unfolding signed_register
  measured_power_register value_kw = signed_register value_kw

  unfoldable pub signed_register_value : ℕ → Float
  signed_register_value raw = mul (of_int (signed_value raw)) tenth

  unfoldable pub encode_dispatch_request : Float → ℕ → ℕ → Bool → Outcome Bytes
  encode_dispatch_request setpoint_kw transaction_id unit_id safe_state = do
    guard (leb transaction_id 0xffff) (protocol transaction_range)
    guard (leb 1 unit_id && leb unit_id 247) (protocol unit_range)
    import_raw ← unsigned_register (float_max setpoint_kw float_zero)
    export_raw ← unsigned_register (float_max (neg setpoint_kw) float_zero)
    let mode = if safe_state then command_mode_safe_state else command_mode_dispatch
    function ← pack_byte write_multiple_registers
    address ← pack_word site_import_setpoint_register
    quantity ← pack_word 3
    size ← pack_byte 6
    import_field ← pack_word import_raw
    export_field ← pack_word export_raw
    mode_field ← pack_word mode
    frame transaction_id unit_id
        (function ++ address ++ quantity ++ size ++ import_field ++ export_field ++ mode_field)

pub record Command ⦃F : Floats⦄ : Type 0 where
  pub transaction_id : ℕ
  pub unit_id : ℕ
  pub import_setpoint_kw : F.Float
  pub export_setpoint_kw : F.Float
  pub setpoint_kw : F.Float
  pub safe_state : Bool

module _ ⦃F : Floats⦄ where
  open F use {sub, is_zero}

  -- The tests of `decode_dispatch_request` on the six fields of the payload.
  unfoldable pub command_of : Request → ℕ → ℕ → ℕ → ℕ → ℕ → ℕ → Outcome Command
  command_of r address quantity byte_count import_raw export_raw command_mode = do
    guard (address == site_import_setpoint_register && quantity == 3 && byte_count == 6)
        (protocol wrong_block)
    let import_kw = kilowatts import_raw
    let export_kw = kilowatts export_raw
    raise_if (not (is_zero import_kw) && not (is_zero export_kw)) (protocol both_directions)
    guard (command_mode == command_mode_dispatch || command_mode == command_mode_safe_state)
        (protocol unknown_mode)
    raise_if
        (command_mode == command_mode_safe_state
          && (not (is_zero import_kw) || not (is_zero export_kw)))
        (protocol safe_state_power)
    ok (record {
      transaction_id = r.transaction_id;
      unit_id = r.unit_id;
      import_setpoint_kw = import_kw;
      export_setpoint_kw = export_kw;
      setpoint_kw = sub import_kw export_kw;
      safe_state = command_mode == command_mode_safe_state;
    })

  -- The test on `len(payload)`, and the unpacking behind it.
  abbrev command_fields : Request → Bytes → Outcome Command
  command_fields r (a1 ∷ a0 ∷ q1 ∷ q0 ∷ byte_count ∷ i1 ∷ i0 ∷ e1 ∷ e0 ∷ m1 ∷ m0 ∷ []) =
      command_of r (word a1 a0) (word q1 q0) byte_count (word i1 i0) (word e1 e0) (word m1 m0)
  command_fields r _ = err (protocol not_command_write)

  unfoldable pub decode_dispatch_request : Bytes → Outcome Command
  decode_dispatch_request frame_bytes = do
    r ← decode_request frame_bytes
    guard (r.function == write_multiple_registers) (protocol not_command_write)
    command_fields r r.payload

-- ===== src/Plc/Tests.antt =====
-- The controller on concrete requests.
use depotflux_demo.Prelude.{
  ℕ, ◌≤◌, ◌<◌, ◌⊎◌, err, ◌≡◌, refl, Bool, true, some, [], ◌∷◌, ok, inl, arith,
}
use depotflux_demo.Prelude.Int.{ℤ, pos, ◌-ℤ◌}
use depotflux_demo.Floats.Fixed.{fixed, fixed-ExactTenths}
use depotflux_demo.Plc.Effects.{import_set, handle_write_import}
use depotflux_demo.Modbus.Registers.{protocol, signed_range}
use depotflux_demo.Modbus.Bytes.{Bytes, pack_byte, pack_word}
use depotflux_demo.Modbus.Frames.{frame, decode_request, encode_write_response}
use depotflux_demo.Modbus.Commands.{measured_power_register, signed_register}
use depotflux_demo.Plc.{
  initial_registers, is_unsafe, applied, apply_write, handle_write, beat, handle_decoded,
  handle_authorised, handle_request,
}
use depotflux_demo.Plc.Safety.{IsSafe, handle_request-IsSafe}

-- 6400 kW, in units of 1e-7
abbrev capacity : ℤ
capacity = pos 64_000_000_000

abbrev fifty_command : Bytes
fifty_command =
    0x12 ∷ 0x34 ∷ 0 ∷ 0 ∷ 0 ∷ 13 ∷ 1 ∷ 16 ∷ 0 ∷ 100 ∷ 0 ∷ 3 ∷ 6 ∷ 1 ∷ 244 ∷ 0 ∷ 0 ∷ 0 ∷ 0 ∷ []

abbrev anyone : ℕ → Bool
anyone _ = true

-- 50 kW are applied and acknowledged.
fifty_applied :
    handle_request ⦃F = fixed⦄ capacity true anyone 1 fifty_command initial_registers ≡ (
      ok (some (0x12 ∷ 0x34 ∷ 0 ∷ 0 ∷ 0 ∷ 6 ∷ 1 ∷ 16 ∷ 0 ∷ 100 ∷ 0 ∷ 3 ∷ [])),
      record {
        import_setpoint = 500;
        export_setpoint = 0;
        command_mode = 0;
        measured_site_power = 500;
        controller_state = 2;
        alarm_state = 0;
        heartbeat = 1;
      },
    )
unfolding handle_request handle_authorised handle_decoded beat handle_write is_unsafe apply_write
    applied measured_power_register signed_register decode_request encode_write_response frame
    pack_byte pack_word ◌-ℤ◌
fifty_applied = refl

initial-IsSafe : IsSafe ⦃F = fixed⦄ capacity initial_registers
initial-IsSafe = record {
  import_word = omega arith;
  export_word = omega arith;
  one_direction = inl refl;
  within_capacity = refl;
  known_mode = omega arith;
  safe_state_idle = λ _. (refl, refl);
  measured_word = omega arith;
  known_state = omega arith;
  alarm_bits = omega arith;
  heartbeat_word = omega arith;
}

handle_request-IsSafe_example :
    IsSafe ⦃F = fixed⦄ capacity
      (handle_request ⦃F = fixed⦄ capacity true anyone 1 fifty_command initial_registers).1
handle_request-IsSafe_example =
    handle_request-IsSafe ⦃F = fixed⦄ capacity true anyone 1 fifty_command initial_registers
      (omega arith) initial-IsSafe

-- An import of 4000 kW, within a capacity of 6400 kW.
handle_write_import_example :
    let outcome =
      handle_write ⦃F = fixed⦄ capacity 7 1
        (0 ∷ 100 ∷ 0 ∷ 3 ∷ 6 ∷ 156 ∷ 64 ∷ 0 ∷ 0 ∷ 0 ∷ 0 ∷ [])
        initial_registers in
    ((40000 ≤ 32767)
      × (outcome ≡ (
        encode_write_response 7 1 100 3,
        applied ⦃F = fixed⦄ capacity 0 40000 (import_set 40000 0 initial_registers),
      )))
    ⊎ ((32767 < 40000)
        × (outcome ≡ (err (protocol signed_range), import_set 40000 0 initial_registers)))
unfolding is_unsafe
handle_write_import_example =
    handle_write_import ⦃F = fixed⦄ fixed-ExactTenths capacity 7 1 156 64 0 0 initial_registers
      (omega arith) refl

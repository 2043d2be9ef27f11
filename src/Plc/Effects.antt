-- ===== src/Plc/Effects.antt =====
-- What a valid write leaves behind: the case that the handler applies, and the one in which the
-- measured power does not fit its register.
use depotflux_demo.Prelude.{
  ℕ, ◌≤◌, ◌<◌, ◌≡◌, refl, ap, [], ◌∷◌, false, some, ok, err, arith, ◌⊎◌, inl, inr,
}
use depotflux_demo.Prelude.Int.{pos}
use depotflux_demo.Floats.{Floats, ExactTenths, kilowatts}
use depotflux_demo.Modbus.Registers.{protocol, signed_range}
use depotflux_demo.Modbus.Commands.{in_signed_range, signed_register, measured_power_register}
use depotflux_demo.Plc.{Registers, is_unsafe, applied, apply_write, handle_write}
use depotflux_demo.Modbus.Bytes.{word}
use depotflux_demo.Modbus.Frames.{encode_write_response}

-- The registers once the three command registers are set to an import.
abbrev pub import_set : ℕ → ℕ → Registers → Registers
import_set import_raw mode r = record r {
  import_setpoint = import_raw;
  export_setpoint = 0;
  command_mode = mode;
}

module _ ⦃F : Floats⦄ (exact : ExactTenths) (site_capacity_kw : F.Float) where
  open F use {sub}

  measured_import :
      (import_raw : ℕ)
      → import_raw ≤ 0xffff
      → measured_power_register (sub (kilowatts import_raw) (kilowatts 0))
        ≡ in_signed_range (some (pos import_raw))
  unfolding measured_power_register signed_register
  measured_import import_raw h = ap in_signed_range (exact.import_in_tenths import_raw h)

  apply_write_import :
      (import_raw mode : ℕ) (r : Registers)
      → import_raw ≤ 0xffff
      → let set = import_set import_raw mode r in
        ((import_raw ≤ 32767)
          × (apply_write site_capacity_kw import_raw 0 mode r
              ≡ (ok import_raw, applied site_capacity_kw mode import_raw set)))
        ⊎ ((32767 < import_raw)
            × (apply_write site_capacity_kw import_raw 0 mode r
                ≡ (err (protocol signed_range), set)))
  unfolding apply_write
  apply_write_import import_raw mode r h = rw (measured_import import_raw h) (ground arith)

  -- Under the facts about the 0.1 kW scale, a write of an import alone that passes the tests of
  -- the handler is applied and acknowledged up to a register value of 32767; above it the
  -- handler raises the range error behind the change of the three command registers, with the
  -- measured power, the state and the alarm as they were.
  pub handle_write_import :
      (transaction_id unit_id i1 i0 m1 m0 : ℕ) (r : Registers)
      → word i1 i0 ≤ 0xffff
      → is_unsafe site_capacity_kw (word i1 i0) 0 (word m1 m0) ≡ false
      → let outcome =
          handle_write site_capacity_kw transaction_id unit_id
            (0 ∷ 100 ∷ 0 ∷ 3 ∷ 6 ∷ i1 ∷ i0 ∷ 0 ∷ 0 ∷ m1 ∷ m0 ∷ [])
            r in
        ((word i1 i0 ≤ 32767)
          × (outcome ≡ (
            encode_write_response transaction_id unit_id 100 3,
            applied site_capacity_kw
                (word m1 m0)
                (word i1 i0)
                (import_set (word i1 i0) (word m1 m0) r),
          )))
        ⊎ ((32767 < word i1 i0)
            × (outcome ≡ (err (protocol signed_range), import_set (word i1 i0) (word m1 m0) r)))
  unfolding handle_write
  handle_write_import transaction_id unit_id i1 i0 m1 m0 r h safe =
      elim (apply_write_import (word i1 i0) (word m1 m0) r h) [
        | inl (fits, done) ↦ inl (fits, rw (safe, done) refl)
        | inr (over, raised) ↦ inr (over, rw (safe, raised) refl)
      ]

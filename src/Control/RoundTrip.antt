-- ===== src/Control/RoundTrip.antt =====
-- The codec of simulated control writes reads its own frames.
use depotflux_demo.Prelude.{ℕ, ◌↔◌, true, false, ◌-◌, ◌≤◌, ◌≡◌, some, ok, ◌>>=◌, arith}
use depotflux_demo.Prelude.Int.{ℤ, pos, negsuc, ◌≤ℤ◌}
use depotflux_demo.Floats.{Floats, float_zero, in_tenths}
use depotflux_demo.Modbus.Commands.{signed_value, signed_register_value}
use depotflux_demo.Control.{
  site_power_value, encode_site_power_write, validate_site_setpoint, decode_site_power_write,
  site_power_register,
}

site_power_value_lem :
    (v : ℤ)
    → negsuc 32767 ≤ℤ v
    → v ≤ℤ pos 32767
    → (raw : ℕ) × (site_power_value (some v) ≡ ok raw) × (signed_value raw ≡ v) × (raw ≤ 0xffff)
site_power_value_lem (pos n) low high = (n, ground arith, ground arith, omega arith)
site_power_value_lem (negsuc n) low high = (65535 - n, ground arith, ground arith, omega arith)

module _ ⦃F : Floats⦄ where
  -- For a setpoint that rounds to a count of 0.1 kW from -32768 to 32767, a uint16 transaction
  -- id and a unit id from 1 to 247, encoding a control write succeeds and decoding gives back
  -- the ids, the register and the count times 0.1 kW.
  pub decode-encode_site_power_write :
      (setpoint_kw : F.Float) (v : ℤ) (transaction_id unit_id : ℕ)
      → in_tenths setpoint_kw ≡ some v
      → negsuc 32767 ≤ℤ v
      → v ≤ℤ pos 32767
      → transaction_id ≤ 65535
      → 1 ≤ unit_id
      → unit_id ≤ 247
      → (encode_site_power_write setpoint_kw transaction_id unit_id >>= decode_site_power_write)
        ≡ ok (record {
          transaction_id = transaction_id;
          unit_id = unit_id;
          register_address = site_power_register;
          setpoint_kw = F.mul (F.of_int v) F.tenth;
        })
  unfolding encode_site_power_write decode_site_power_write signed_register_value
  decode-encode_site_power_write setpoint_kw v transaction_id unit_id e low high ht hu hu' =
      let (raw, stored, back, size) = site_power_value_lem v low high in
      rw (e, stored) (ground (arith, back))

  -- A setpoint is accepted exactly where it is finite, the capacity is finite and positive, and
  -- the magnitude of the setpoint is not above the capacity plus the tolerance.
  pub validate_site_setpoint-accepted :
      (value capacity : F.Float)
      → (validate_site_setpoint value capacity ≡ ok value) ↔ (
          (F.is_finite value ≡ true)
          × (F.is_finite capacity ≡ true)
          × (F.lt float_zero capacity ≡ true)
          × (F.lt (F.add capacity F.tolerance) (F.abs value) ≡ false))
  unfolding validate_site_setpoint
  validate_site_setpoint-accepted value capacity = ground arith

-- ===== src/Control/Tests.antt =====
-- The policy and the codec of simulated control writes on concrete setpoints.
use depotflux_demo.Prelude.{◌≡◌, refl, ok, ◌>>=◌, arith}
use depotflux_demo.Prelude.Int.{negsuc}
use depotflux_demo.Floats.Fixed.{fixed}
use depotflux_demo.Control.{encode_site_power_write, decode_site_power_write}
use depotflux_demo.Control.RoundTrip.{decode-encode_site_power_write}

-- -12.3 kW, in units of 1e-7
decode-encode_site_power_write_example :
    (encode_site_power_write ⦃F = fixed⦄ (negsuc 122_999_999) 7 1
      >>= decode_site_power_write ⦃F = fixed⦄)
    ≡ ok (record {
      transaction_id = 7;
      unit_id = 1;
      register_address = 100;
      setpoint_kw = fixed.mul (fixed.of_int (negsuc 122)) fixed.tenth;
    })
decode-encode_site_power_write_example =
    decode-encode_site_power_write ⦃F = fixed⦄ (negsuc 122_999_999) (negsuc 122) 7 1 refl
      (omega arith) (omega arith) (omega arith) (omega arith) (omega arith)

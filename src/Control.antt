-- ===== src/Control.antt =====
-- The simulated control writes of aggregator_demo/ot_security.py: the setpoint policy, and the codec
-- of a write of one register, at the default scale of 0.1 kW and the default register address.
pub mod RoundTrip
mod Tests
use depotflux_demo.Prelude.{
  ℕ, ◌+◌, ◌-◌, ◌/◌, ◌%◌, ◌^◌, Bool, true, false, not, ◌&&◌, ◌||◌, Option, none, some, String, List,
  [], ◌∷◌, ◌++◌, leb, ◌==◌, if◌then◌else◌, Result, ok, err, guard, raise_if, ◌>>=◌, ◌>>◌,
}
use text.Mathlib.Text.{◌==◌ as str_eq}
use depotflux_demo.Prelude.Int.{ℤ, pos, negsuc}
use depotflux_demo.Floats.{Floats, float_zero, in_tenths}
use depotflux_demo.Modbus.Bytes.{Bytes, word}
use depotflux_demo.Modbus.Commands.{signed_register_value}

abbrev pub write_single_register : ℕ
write_single_register = 0x06

abbrev pub site_power_register : ℕ
site_power_register = 100

-- `failed_check` of `ControlPolicyError`, as far as these functions raise it, the two messages of
-- `ControlAuthenticationError`, the `ValueError`s of the decoder, and an exception of `round`.
pub data ControlError : Type 0 where
  finite_site_setpoint site_capacity_available site_capacity_envelope : ControlError
  modbus_transaction_id modbus_unit_id register_range : ControlError
  not_configured invalid_credential : ControlError
  frame_length not_single_write control_conversion : ControlError

-- `authenticate_control_key`, for keys in ASCII; `compare_digest` raises on others
unfoldable pub authenticate_control_key :
    Option String → Option String → Result ControlError (Unit {0})
authenticate_control_key provided none = err not_configured
authenticate_control_key none (some configured) =
    if str_eq configured "" then err not_configured else err invalid_credential
authenticate_control_key (some provided) (some configured) =
    if str_eq configured ""
    then err not_configured
    else if str_eq provided "" || not (str_eq provided configured)
    then err invalid_credential
    else ok tt

-- The range test of `encode_site_power_write`, and `scaled & 0xFFFF`.
abbrev pub site_power_value : Option ℤ → Result ControlError ℕ
site_power_value none = err control_conversion
site_power_value (some (pos n)) = if leb n 32767 then ok (n % 2 ^ 16) else err register_range
site_power_value (some (negsuc n)) =
    if leb n 32767 then ok (2 ^ 16 - 1 - n % 2 ^ 16) else err register_range

pub record SitePowerWrite ⦃F : Floats⦄ : Type 0 where
  pub transaction_id : ℕ
  pub unit_id : ℕ
  pub register_address : ℕ
  pub setpoint_kw : F.Float

module _ ⦃F : Floats⦄ where
  open F use {Float, abs, add, lt, is_finite, tolerance}

  unfoldable pub validate_site_setpoint : Float → Float → Result ControlError Float
  validate_site_setpoint value capacity = do
    guard (is_finite value) finite_site_setpoint
    guard (is_finite capacity && lt float_zero capacity) site_capacity_available
    raise_if (lt (add capacity tolerance) (abs value)) site_capacity_envelope
    ok value

  -- The fields are in their ranges behind the tests, so `struct.pack` does not raise.
  unfoldable pub encode_site_power_write : Float → ℕ → ℕ → Result ControlError Bytes
  encode_site_power_write setpoint_kw transaction_id unit_id = do
    guard (leb transaction_id 65535) modbus_transaction_id
    guard (leb 1 unit_id && leb unit_id 247) modbus_unit_id
    value ← site_power_value (in_tenths setpoint_kw)
    ok (
        transaction_id / 256
        ∷ transaction_id % 256
        ∷ 0
        ∷ 0
        ∷ 0
        ∷ 6
        ∷ unit_id
        ∷ write_single_register
        ∷ 0
        ∷ site_power_register
        ∷ value / 256
        ∷ value % 256
        ∷ [])

  unfoldable pub decode_site_power_write : Bytes → Result ControlError SitePowerWrite
  decode_site_power_write
        (t1 ∷ t0 ∷ p1 ∷ p0 ∷ l1 ∷ l0 ∷ unit_id ∷ function ∷ a1 ∷ a0 ∷ r1 ∷ r0 ∷ []) =
      if not (word p1 p0 == 0) || (not (word l1 l0 == 6) || not (function == write_single_register))
      then err not_single_write
      else ok (record {
        transaction_id = word t1 t0;
        unit_id = unit_id;
        register_address = word a1 a0;
        setpoint_kw = signed_register_value (word r1 r0);
      })
  decode_site_power_write _ = err frame_length

-- ===== src/Modbus/CommandTrip.antt =====
-- The site commands of aggregator_demo/modbus_tcp.py are read back as they were meant.
use depotflux_demo.Prelude.{
  ℕ, ◌+◌, ◌*◌, ◌/◌, ◌%◌, ◌≤◌, ◌≡◌, ◌⊎◌, inl, inr, Bool, true, false, Option, none, some, [], ◌∷◌,
  Bool-cases, sym, ◌∙◌, if◌then◌else◌, ok, ◌>>=◌, arith,
}
use native.Mathlib.Nat.{zero-mul, zero-add}
use depotflux_demo.Prelude.Int.{ℤ, pos, negsuc}
use depotflux_demo.Floats.{Floats, ExactTenths, float_zero, float_max, kilowatts, in_tenths}
use depotflux_demo.Modbus.Bytes.{Bytes, pack_byte, pack_word}
use depotflux_demo.Modbus.Frames.{Request}
use depotflux_demo.Modbus.Commands.{
  in_unsigned_range, unsigned_register, encode_dispatch_request, command_of,
  decode_dispatch_request,
}
use depotflux_demo.Modbus.RoundTrip.{framed, frame_lem, decode_request-framed}

pub in_unsigned_range_inverse :
    (o : Option ℤ) (n : ℕ) → in_unsigned_range o ≡ ok n → (o ≡ some (pos n)) × (n ≤ 0xffff)
in_unsigned_range_inverse none n h = cc
in_unsigned_range_inverse (some (pos m)) n h = ground arith
in_unsigned_range_inverse (some (negsuc m)) n h = cc

mode_byte : Bool → ℕ
mode_byte safe = if safe then 1 else 0

-- The data unit of a command, behind its function code.
abbrev command_payload : ℕ → ℕ → Bool → Bytes
command_payload a b safe =
    0 ∷ 100 ∷ 0 ∷ 3 ∷ 6 ∷ a / 256 ∷ a % 256 ∷ b / 256 ∷ b % 256 ∷ 0 ∷ mode_byte safe ∷ []

command_pdu : ℕ → ℕ → Bool → Bytes
command_pdu a b safe = 16 ∷ command_payload a b safe

word_of_bytes : (n : ℕ) → n / 256 * 256 + n % 256 ≡ n
word_of_bytes n = omega arith

module _ ⦃F : Floats⦄ where
  open F use {Float, neg, sub}

  unsigned_register_inverse :
      (x : Float) (n : ℕ) → unsigned_register x ≡ ok n → (in_tenths x ≡ some (pos n)) × (n ≤ 0xffff)
  unfolding unsigned_register
  unsigned_register_inverse x n h = in_unsigned_range_inverse (in_tenths x) n h

  unsigned_register_zero : ExactTenths → (n : ℕ) → unsigned_register float_zero ≡ ok n → n ≡ 0
  unsigned_register_zero exact n h =
      let rounded = unsigned_register_inverse float_zero n h in
      let zeros : some (pos n) ≡ some (pos 0) = sym rounded.0 ∙ exact.zero_in_tenths in ground arith

  -- At most one of the import and export registers that a setpoint rounds to is not zero.
  pub one_direction :
      (exact : ExactTenths) (x : Float) (import_raw export_raw : ℕ)
      → unsigned_register (float_max x float_zero) ≡ ok import_raw
      → unsigned_register (float_max (neg x) float_zero) ≡ ok export_raw
      → (import_raw ≡ 0) ⊎ (export_raw ≡ 0)
  one_direction exact x a b ha hb = elim (Bool-cases (F.lt x float_zero)) [
    | inl below ↦ inl (unsigned_register_zero exact a (rw below at ha))
    | inr above ↦ elim (Bool-cases (F.lt (neg x) float_zero)) [
      | inl below ↦ inr (unsigned_register_zero exact b (rw below at hb))
      | inr flat ↦
          let rounded = unsigned_register_inverse x a (rw above at ha) in
          let zeros = exact.flat_in_tenths x (pos a) above flat rounded.0 in inl (ground arith)
    ]
  ]

  encode_dispatch_request_lem :
      (x : Float) (t u a b : ℕ) (safe : Bool)
      → t ≤ 0xffff
      → 1 ≤ u
      → u ≤ 247
      → a ≤ 0xffff
      → b ≤ 0xffff
      → unsigned_register (float_max x float_zero) ≡ ok a
      → unsigned_register (float_max (neg x) float_zero) ≡ ok b
      → encode_dispatch_request x t u safe ≡ ok (framed t u (command_pdu a b safe))
  unfolding encode_dispatch_request command_pdu mode_byte pack_word pack_byte
  encode_dispatch_request_lem x t u a b true ht hu1 hu2 a_fits b_fits ha hb =
      ground (arith, frame_lem t u (command_pdu a b true))
  encode_dispatch_request_lem x t u a b false ht hu1 hu2 a_fits b_fits ha hb =
      ground (arith, frame_lem t u (command_pdu a b false))

  command_of_lem :
      (exact : ExactTenths) (r : Request) (a b : ℕ) (safe : Bool)
      → a ≤ 0xffff
      → b ≤ 0xffff
      → (a ≡ 0) ⊎ (b ≡ 0)
      → (safe ≡ true → (a ≡ 0) × (b ≡ 0))
      → command_of r 100 3 6 a b (mode_byte safe)
        ≡ ok (record {
          transaction_id = r.transaction_id;
          unit_id = r.unit_id;
          import_setpoint_kw = kilowatts a;
          export_setpoint_kw = kilowatts b;
          setpoint_kw = sub (kilowatts a) (kilowatts b);
          safe_state = safe;
        })
  unfolding command_of mode_byte
  command_of_lem exact r a b safe a_fits b_fits one safe_zero =
      ground (arith, exact.is_zero-kilowatts a a_fits, exact.is_zero-kilowatts b b_fits)

  decode_dispatch_request_lem :
      (t u a b : ℕ) (safe : Bool)
      → decode_dispatch_request (framed t u (command_pdu a b safe))
        ≡ command_of
            (record {
              transaction_id = t;
              unit_id = u;
              function = 16;
              payload = command_payload a b safe;
            })
            100
            3
            6
            a
            b
            (mode_byte safe)
  unfolding decode_dispatch_request command_pdu
  decode_dispatch_request_lem t u a b safe =
      rw (decode_request-framed t u 16 (command_payload a b safe) (omega arith))
        (simp (word_of_bytes a, word_of_bytes b, zero-mul, zero-add))

  -- For a setpoint whose import and export parts fit their registers, a uint16 transaction id
  -- and a unit id from 1 to 247, and no power with the safe state, encoding succeeds and
  -- decoding gives back the ids, the power of the two registers, their difference and the mode.
  pub decode-encode_dispatch_request :
      (exact : ExactTenths) (x : Float) (transaction_id unit_id import_raw export_raw : ℕ)
      (safe_state : Bool)
      → transaction_id ≤ 0xffff
      → 1 ≤ unit_id
      → unit_id ≤ 247
      → unsigned_register (float_max x float_zero) ≡ ok import_raw
      → unsigned_register (float_max (neg x) float_zero) ≡ ok export_raw
      → (safe_state ≡ true → (import_raw ≡ 0) × (export_raw ≡ 0))
      → (encode_dispatch_request x transaction_id unit_id safe_state >>= decode_dispatch_request)
        ≡ ok (record {
          transaction_id = transaction_id;
          unit_id = unit_id;
          import_setpoint_kw = kilowatts import_raw;
          export_setpoint_kw = kilowatts export_raw;
          setpoint_kw = sub (kilowatts import_raw) (kilowatts export_raw);
          safe_state = safe_state;
        })
  decode-encode_dispatch_request exact x t u a b safe ht hu1 hu2 ha hb hs =
      let a_fits = (unsigned_register_inverse (float_max x float_zero) a ha).1 in
      let b_fits = (unsigned_register_inverse (float_max (neg x) float_zero) b hb).1 in
      rw (encode_dispatch_request_lem x t u a b safe ht hu1 hu2 a_fits b_fits ha hb) (
        decode_dispatch_request_lem t u a b safe
        ∙ command_of_lem exact _ a b safe a_fits b_fits (one_direction exact x a b ha hb) hs)

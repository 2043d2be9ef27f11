-- ===== src/Modbus/Tests.antt =====
-- Runs of the codec and the client on concrete frames, and the theorems at concrete inputs.
use depotflux_demo.Prelude.{
  ℕ, zero, suc, ◌≤◌, ◌<◌, ◌≡◌, refl, true, false, List, [], ◌∷◌, ok, err, ◌>>=◌, arith,
}
use depotflux_demo.Prelude.Int.{ℤ, pos, negsuc, ◌-ℤ◌}
use depotflux_demo.Floats.{kilowatts}
use depotflux_demo.Floats.Fixed.{fixed, fixed-ExactTenths}
use depotflux_demo.Modbus.Registers.{transport, os_error, exchange_failed}
use depotflux_demo.Modbus.Bytes.{Bytes, pack_byte, pack_word}
use depotflux_demo.Modbus.Frames.{frame, encode_read_response, decode_read_response}
use depotflux_demo.Modbus.Commands.{
  unsigned_register, encode_dispatch_request, decode_dispatch_request,
}
use depotflux_demo.Modbus.RoundTrip.{framed, decode-encode_read_response}
use depotflux_demo.Modbus.CommandTrip.{decode-encode_dispatch_request}
use depotflux_demo.Modbus.Stream.{block, receive_frame}
use depotflux_demo.Modbus.Stream.Blocks.{content, blocks, receive_frame-blocks}
use depotflux_demo.Modbus.Client.{Network, exchange, exchange_once}
use depotflux_demo.Modbus.Client.Attempts.{Fails, exchange_exhausted}

-- 50.0 kW and -12.3 kW, in units of 1e-7
abbrev fifty : ℤ
fifty = pos 500_000_000

abbrev export_request : ℤ
export_request = negsuc 122_999_999

abbrev fifty_command : Bytes
fifty_command =
    0x12 ∷ 0x34 ∷ 0 ∷ 0 ∷ 0 ∷ 13 ∷ 1 ∷ 16 ∷ 0 ∷ 100 ∷ 0 ∷ 3 ∷ 6 ∷ 1 ∷ 244 ∷ 0 ∷ 0 ∷ 0 ∷ 0 ∷ []

encode_fifty : encode_dispatch_request ⦃F = fixed⦄ fifty 0x1234 1 false ≡ ok fifty_command
unfolding encode_dispatch_request unsigned_register pack_byte pack_word frame
encode_fifty = refl

decode-encode_dispatch_request_example :
    (encode_dispatch_request ⦃F = fixed⦄ export_request 7 1 false
      >>= decode_dispatch_request ⦃F = fixed⦄)
    ≡ ok (record {
      transaction_id = 7;
      unit_id = 1;
      import_setpoint_kw = kilowatts ⦃F = fixed⦄ 0;
      export_setpoint_kw = kilowatts ⦃F = fixed⦄ 123;
      setpoint_kw = kilowatts ⦃F = fixed⦄ 0 -ℤ kilowatts ⦃F = fixed⦄ 123;
      safe_state = false;
    })
unfolding unsigned_register
decode-encode_dispatch_request_example =
    decode-encode_dispatch_request ⦃F = fixed⦄ fixed-ExactTenths export_request 7 1 0 123 false
      (omega arith) (omega arith) (omega arith) refl refl (λ e. absurd (false_true e))
  where
    false_true : false ≡ true → ⊥
    false_true e = cc

decode-encode_read_response_example :
    (encode_read_response (500 ∷ 0 ∷ 65535 ∷ []) 7 1 >>= λ bytes. decode_read_response bytes 7 3 1)
    ≡ ok (500 ∷ 0 ∷ 65535 ∷ [])
decode-encode_read_response_example =
    decode-encode_read_response 7 1 (500 ∷ 0 ∷ 65535 ∷ []) (omega arith) (omega arith) (omega arith)
      (omega arith)

-- A frame that arrives in three blocks, with the start of another behind it.
abbrev three_blocks : List Bytes
three_blocks = (0 ∷ 7 ∷ 0 ∷ []) ∷ (0 ∷ 0 ∷ 3 ∷ 1 ∷ 144 ∷ []) ∷ (3 ∷ 9 ∷ []) ∷ []

receive_frame-blocks_example :
    (rest : List Bytes) × (receive_frame (blocks three_blocks)
      ≡ (ok (framed 7 1 (144 ∷ 3 ∷ [])), blocks rest))
    × (content rest ≡ 9 ∷ [])
unfolding content
receive_frame-blocks_example =
    receive_frame-blocks 7 1 (144 ∷ 3 ∷ []) (9 ∷ []) three_blocks (omega arith) (omega arith)
      (omega arith) refl

-- A network that times out once and then answers with the frame that it was sent.
abbrev second_time : Network ℕ
second_time request zero = (err (transport os_error), 1)
second_time request (suc n) = (ok (block request ∷ []), suc (suc n))

abbrev short_frame : Bytes
short_frame = 0 ∷ 7 ∷ 0 ∷ 0 ∷ 0 ∷ 3 ∷ 1 ∷ 144 ∷ 3 ∷ []

first-Fails : (j : ℕ) → j < 1 → Fails second_time short_frame 0 j
unfolding exchange_once
first-Fails zero h = (transport os_error, refl, refl)
first-Fails (suc j) h = absurd (omega arith)

abbrev dead : Network ℕ
dead request n = (err (transport os_error), suc n)

dead-Fails : (j : ℕ) → j ≤ 2 → Fails dead short_frame 0 j
unfolding exchange_once
dead-Fails j h = (transport os_error, refl, refl)

exchange_exhausted_example : exchange dead 2 short_frame 0 ≡ (err (transport exchange_failed), 3)
unfolding exchange_once
exchange_exhausted_example = exchange_exhausted dead short_frame 2 0 dead-Fails

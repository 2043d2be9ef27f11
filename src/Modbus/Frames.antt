-- ===== src/Modbus/Frames.antt =====
-- The frame codec of aggregator_demo/modbus_tcp.py. Python's ints are unbounded and signed; the
-- numbers that the callers pass here are never negative, so they are naturals.
use depotflux_demo.Prelude.{
  ℕ, ◌+◌, ◌*◌, bit_and, bit_or, not, ◌&&◌, List, [], ◌∷◌, ◌++◌, leb, ◌==◌, ok, err, guard, raise_if,
  ◌>>=◌, ◌>>◌, length,
}
use depotflux_demo.Modbus.Registers.{
  read_holding_registers, write_multiple_registers, site_import_setpoint_register, read_range,
  short_request, bad_header, write_mismatch, unexpected_write, wrong_acknowledgement, read_mismatch,
  unexpected_read, register_count, controller_exception, protocol, Outcome,
}
use depotflux_demo.Modbus.Bytes.{Bytes, pack_byte, pack_word, pack_words, unpack_words, word}

-- `struct.pack(">HHHB", transaction_id, 0, len(pdu) + 1, unit_id) + pdu`, in every encoder
unfoldable pub frame : ℕ → ℕ → Bytes → Outcome Bytes
frame transaction_id unit_id pdu = do
  transaction ← pack_word transaction_id
  zeros ← pack_word 0
  size ← pack_word (length pdu + 1)
  unit ← pack_byte unit_id
  ok (transaction ++ zeros ++ size ++ unit ++ pdu)

pub record Request : Type 0 where
  pub transaction_id : ℕ
  pub unit_id : ℕ
  pub function : ℕ
  pub payload : Bytes

-- The first clause is the frames of eight bytes or more: `len(frame) - 6` is the payload's size
-- and two.
unfoldable pub decode_request : Bytes → Outcome Request
decode_request (t1 ∷ t0 ∷ p1 ∷ p0 ∷ l1 ∷ l0 ∷ unit ∷ function ∷ payload) = do
  guard (word p1 p0 == 0 && word l1 l0 == length payload + 2) (protocol bad_header)
  ok (record {
    transaction_id = word t1 t0;
    unit_id = unit;
    function = function;
    payload = payload;
  })
decode_request _ = err (protocol short_request)

unfoldable pub encode_read_request : ℕ → ℕ → ℕ → ℕ → Outcome Bytes
encode_read_request start_address quantity transaction_id unit_id = do
  guard (leb start_address 0xffff && (leb 1 quantity && leb quantity 125)) (protocol read_range)
  function ← pack_byte read_holding_registers
  address ← pack_word start_address
  count ← pack_word quantity
  frame transaction_id unit_id (function ++ address ++ count)

unfoldable pub encode_write_response : ℕ → ℕ → ℕ → ℕ → Outcome Bytes
encode_write_response transaction_id unit_id start_address quantity = do
  function ← pack_byte write_multiple_registers
  address ← pack_word start_address
  count ← pack_word quantity
  frame transaction_id unit_id (function ++ address ++ count)

unfoldable pub encode_read_response : List ℕ → ℕ → ℕ → Outcome Bytes
encode_read_response values transaction_id unit_id = do
  function ← pack_byte read_holding_registers
  count ← pack_byte (length values * 2)
  words ← pack_words values
  frame transaction_id unit_id (function ++ count ++ words)

unfoldable pub encode_exception_response : ℕ → ℕ → ℕ → ℕ → Outcome Bytes
encode_exception_response function exception_code transaction_id unit_id = do
  failed ← pack_byte (bit_or function 0x80)
  code ← pack_byte exception_code
  frame transaction_id unit_id (failed ++ code)

-- `payload[0] if payload else 0`
abbrev first_byte : Bytes → ℕ
first_byte [] = 0
first_byte (byte ∷ rest) = byte

-- `if function & 0x80`
unfoldable pub raise_for_exception : ℕ → Bytes → Outcome (Unit {0})
raise_for_exception function payload =
    raise_if (not (bit_and function 0x80 == 0))
      (protocol (controller_exception (first_byte payload)))

-- The test on `len(payload)`, and the unpacking behind it.
abbrev acknowledged_block : Bytes → Outcome (Unit {0})
acknowledged_block (a1 ∷ a0 ∷ q1 ∷ q0 ∷ []) =
    guard (word a1 a0 == site_import_setpoint_register && word q1 q0 == 3)
      (protocol wrong_acknowledgement)
acknowledged_block _ = err (protocol unexpected_write)

unfoldable pub decode_write_response : Bytes → ℕ → ℕ → Outcome (Unit {0})
unfolding raise_for_exception
decode_write_response frame_bytes expected_transaction_id expected_unit_id = do
  r ← decode_request frame_bytes
  raise_for_exception r.function r.payload
  guard (r.transaction_id == expected_transaction_id && r.unit_id == expected_unit_id)
      (protocol write_mismatch)
  guard (r.function == write_multiple_registers) (protocol unexpected_write)
  acknowledged_block r.payload

-- `if … or not payload`, and the unpacking behind it.
abbrev response_words : ℕ → Bytes → Outcome (List ℕ)
response_words expected_quantity [] = err (protocol unexpected_read)
response_words expected_quantity (byte_count ∷ rest) = do
  guard (byte_count == expected_quantity * 2 && length rest == byte_count) (protocol register_count)
  ok (unpack_words rest)

unfoldable pub decode_read_response : Bytes → ℕ → ℕ → ℕ → Outcome (List ℕ)
unfolding raise_for_exception
decode_read_response frame_bytes expected_transaction_id expected_quantity expected_unit_id = do
  r ← decode_request frame_bytes
  raise_for_exception r.function r.payload
  guard (r.transaction_id == expected_transaction_id && r.unit_id == expected_unit_id)
      (protocol read_mismatch)
  guard (r.function == read_holding_registers) (protocol unexpected_read)
  response_words expected_quantity r.payload

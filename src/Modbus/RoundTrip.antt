-- ===== src/Modbus/RoundTrip.antt =====
-- What the encoders of aggregator_demo/modbus_tcp.py write, its decoders read back.
use depotflux_demo.Prelude.{
  ℕ, ◌+◌, ◌*◌, ◌/◌, ◌%◌, ◌≤◌, ◌<◌, ◌≡◌, refl, bit_and, bit_or, true, false, not, ◌&&◌, some, List,
  [], ◌∷◌, leb, ◌==◌, ok, err, ◌>>=◌, length, All, in_table, tested_below, arith,
}
use depotflux_demo.Prelude.Int.{ℤ}
use depotflux_demo.Modbus.Registers.{site_import_setpoint_register, controller_exception, protocol}
use depotflux_demo.Modbus.Bytes.{
  Bytes, pack_byte, pack_word, pack_words, unpack_words, pack_byte_lem, pack_word_lem,
}
use depotflux_demo.Modbus.Frames.{
  frame, decode_request, encode_write_response, encode_read_response, encode_exception_response,
  decode_write_response, decode_read_response,
}
use depotflux_demo.Modbus.Commands.{in_signed_range, signed_value}

-- The bytes of a frame.
abbrev pub framed : ℕ → ℕ → Bytes → Bytes
framed transaction_id unit_id pdu =
    transaction_id / 256
    ∷ transaction_id % 256
    ∷ 0
    ∷ 0
    ∷ (length pdu + 1) / 256
    ∷ (length pdu + 1) % 256
    ∷ unit_id
    ∷ pdu

pub frame_lem :
    (transaction_id unit_id : ℕ) (pdu : Bytes)
    → transaction_id ≤ 0xffff
    → unit_id ≤ 0xff
    → length pdu < 0xffff
    → frame transaction_id unit_id pdu ≡ ok (framed transaction_id unit_id pdu)
unfolding frame pack_word pack_byte
frame_lem t u pdu ht hu hl = ground arith

pub decode_request-framed :
    (transaction_id unit_id function : ℕ) (payload : Bytes)
    → length payload < 0xfffe
    → decode_request (framed transaction_id unit_id (function ∷ payload))
      ≡ ok (record {
        transaction_id = transaction_id;
        unit_id = unit_id;
        function = function;
        payload = payload;
      })
unfolding decode_request
decode_request-framed t u f payload h = ground arith

-- A request that fits the header is read back whole.
pub decode_request-frame :
    (transaction_id unit_id function : ℕ) (payload : Bytes)
    → transaction_id ≤ 0xffff
    → unit_id ≤ 0xff
    → length payload < 0xfffe
    → (frame transaction_id unit_id (function ∷ payload) >>= decode_request)
      ≡ ok (record {
        transaction_id = transaction_id;
        unit_id = unit_id;
        function = function;
        payload = payload;
      })
decode_request-frame t u f payload ht hu hl =
    rw (frame_lem t u (f ∷ payload) ht hu (omega arith)) (decode_request-framed t u f payload hl)

-- The acknowledgement of a write of the three command registers, under a uint16 transaction id
-- and a byte unit id, is accepted by the decoder that expects these ids.
pub decode-encode_write_response :
    (transaction_id unit_id : ℕ)
    → transaction_id ≤ 0xffff
    → unit_id ≤ 0xff
    → (encode_write_response transaction_id unit_id site_import_setpoint_register 3 >>= λ bytes.
        decode_write_response bytes transaction_id unit_id)
      ≡ ok tt
unfolding encode_write_response decode_write_response pack_byte pack_word
decode-encode_write_response t u ht hu =
    rw
      (
        frame_lem t u (16 ∷ 0 ∷ 100 ∷ 0 ∷ 3 ∷ []) ht hu (omega arith),
        decode_request-framed t u 16 (0 ∷ 100 ∷ 0 ∷ 3 ∷ []) (omega arith),
      )
      (ground arith)

abbrev pub IsWords : List ℕ → Type 0
IsWords = All (λ v. v ≤ 0xffff)

-- The bytes of a list of registers.
pub words : List ℕ → Bytes
words [] = []
words (v ∷ vs) = v / 256 ∷ v % 256 ∷ words vs

pub pack_words_lem : (values : List ℕ) → IsWords values → pack_words values ≡ ok (words values)
unfolding pack_words words
pack_words_lem [] h = refl
pack_words_lem (v ∷ vs) h = rw (pack_word_lem v h.0, pack_words_lem vs h.1) refl

pub length-words : (values : List ℕ) → length (words values) ≡ length values * 2
unfolding words
length-words [] = refl
length-words (v ∷ vs) = omega (arith, length-words vs)

pub unpack_words-words : (values : List ℕ) → unpack_words (words values) ≡ values
unfolding words unpack_words
unpack_words-words [] = refl
unpack_words-words (v ∷ vs) = ground (arith, unpack_words-words vs)

encode_read_response_lem :
    (transaction_id unit_id : ℕ) (values : List ℕ)
    → transaction_id ≤ 0xffff
    → unit_id ≤ 0xff
    → length values ≤ 125
    → IsWords values
    → encode_read_response values transaction_id unit_id
      ≡ ok (framed transaction_id unit_id (3 ∷ (length values * 2) ∷ words values))
unfolding encode_read_response
encode_read_response_lem t u values ht hu hl hw =
    rw
      (
        pack_byte_lem 3 (omega arith),
        pack_byte_lem (length values * 2) (omega arith),
        pack_words_lem values hw,
      )
      (frame_lem t u (3 ∷ (length values * 2) ∷ words values) ht hu
        (omega (arith, length-words values)))

-- Up to 125 words, encoded as a read response under a uint16 transaction id and a byte unit id,
-- are decoded to the same words by the reader that expects that many.
pub decode-encode_read_response :
    (transaction_id unit_id : ℕ) (values : List ℕ)
    → transaction_id ≤ 0xffff
    → unit_id ≤ 0xff
    → length values ≤ 125
    → IsWords values
    → (encode_read_response values transaction_id unit_id >>= λ bytes.
        decode_read_response bytes transaction_id (length values) unit_id)
      ≡ ok values
unfolding decode_read_response
decode-encode_read_response t u values ht hu hl hw =
    rw
      (
        encode_read_response_lem t u values ht hu hl hw,
        decode_request-framed t u 3 ((length values * 2) ∷ words values)
            (omega (arith, length-words values)),
      )
      (ground (arith, length-words values, unpack_words-words values))

exception_bit_table :
    tested_below (λ f. leb (bit_or f 0x80) 0xff && not (bit_and (bit_or f 0x80) 0x80 == 0)) 256
    ≡ true
unfolding tested_below
exception_bit_table = refl

exception_bit :
    (f : ℕ)
    → f < 256
    → (leb (bit_or f 0x80) 0xff ≡ true) × ((bit_and (bit_or f 0x80) 0x80 == 0) ≡ false)
exception_bit f h =
    let row =
      in_table (λ g. leb (bit_or g 0x80) 0xff && not (bit_and (bit_or g 0x80) 0x80 == 0)) 256 f
        exception_bit_table h in
    ground arith

pub encode_exception_response_lem :
    (function code transaction_id unit_id : ℕ)
    → function < 256
    → code ≤ 0xff
    → transaction_id ≤ 0xffff
    → unit_id ≤ 0xff
    → encode_exception_response function code transaction_id unit_id
      ≡ ok (framed transaction_id unit_id (bit_or function 0x80 ∷ code ∷ []))
unfolding encode_exception_response
encode_exception_response_lem f c t u hf hc ht hu =
    let bits = exception_bit f hf in
    rw (pack_byte_lem (bit_or f 0x80) (ground arith), pack_byte_lem c hc)
      (frame_lem t u (bit_or f 0x80 ∷ c ∷ []) ht hu (omega arith))

-- An exception response to any function code below 256, with a byte as its code, a uint16
-- transaction id and a byte unit id, makes the decoders of write and of read responses raise the
-- exception with its code, whatever ids and quantity they expect.
pub decode-encode_exception_response :
    (function code transaction_id unit_id expected_transaction_id expected_unit_id quantity : ℕ)
    → function < 256
    → code ≤ 0xff
    → transaction_id ≤ 0xffff
    → unit_id ≤ 0xff
    → ((encode_exception_response function code transaction_id unit_id >>= λ bytes.
          decode_write_response bytes expected_transaction_id expected_unit_id)
        ≡ err (protocol (controller_exception code)))
      × ((encode_exception_response function code transaction_id unit_id >>= λ bytes.
            decode_read_response bytes expected_transaction_id quantity expected_unit_id)
          ≡ err (protocol (controller_exception code)))
unfolding decode_write_response decode_read_response
decode-encode_exception_response f c t u et eu q hf hc ht hu =
    let bits = exception_bit f hf in
    rw
      (
        encode_exception_response_lem f c t u hf hc ht hu,
        decode_request-framed t u (bit_or f 0x80) (c ∷ []) (omega arith),
        bits.1,
      )
      (refl, refl)

-- Where the range check turns a signed value into a register, the register is a word that reads
-- back as the value.
pub signed_value-in_signed_range :
    (v : ℤ) (raw : ℕ) → in_signed_range (some v) ≡ ok raw → (signed_value raw ≡ v) × (raw ≤ 0xffff)
signed_value-in_signed_range v raw h = ground arith

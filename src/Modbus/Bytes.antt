-- ===== src/Modbus/Bytes.antt =====
-- Bytes, and the big-endian fields of Python's `struct` that aggregator_demo/modbus_tcp.py packs.
use depotflux_demo.Prelude.{
  ℕ, ◌+◌, ◌*◌, ◌/◌, ◌%◌, ◌<◌, ◌≤◌, ◌≡◌, List, [], ◌∷◌, ◌++◌, leb, if◌then◌else◌, ok, err, arith,
  All, ◌>>=◌,
}
use depotflux_demo.Modbus.Registers.{Outcome, struct_error}

abbrev pub Bytes : Type 0
Bytes = List ℕ

-- A `bytes` object holds numbers below 256.
abbrev pub IsBytes : Bytes → Type 0
IsBytes = All (λ b. b < 256)

-- struct.pack(">B", n); an argument out of range raises `struct.error`
unfoldable pub pack_byte : ℕ → Outcome Bytes
pack_byte n = if leb n 0xff then ok (n ∷ []) else err struct_error

-- struct.pack(">H", n)
unfoldable pub pack_word : ℕ → Outcome Bytes
pack_word n = if leb n 0xffff then ok (n / 256 ∷ n % 256 ∷ []) else err struct_error

-- struct.unpack(">H", …) of two bytes
abbrev pub word : ℕ → ℕ → ℕ
word high low = high * 256 + low

-- struct.pack(f">{len(values)}H", *values)
unfoldable pub pack_words : List ℕ → Outcome Bytes
unfolding pack_word
pack_words [] = ok []
pack_words (value ∷ values) = do head ← pack_word value; rest ← pack_words values; ok (head ++ rest)

-- struct.unpack(f">{n}H", …)
unfoldable pub unpack_words : Bytes → List ℕ
unpack_words [] = []
unpack_words (high ∷ []) = []
unpack_words (high ∷ low ∷ rest) = word high low ∷ unpack_words rest

pub pack_byte_lem : (n : ℕ) → n ≤ 0xff → pack_byte n ≡ ok (n ∷ [])
unfolding pack_byte
pack_byte_lem n h = ground arith

pub pack_word_lem : (n : ℕ) → n ≤ 0xffff → pack_word n ≡ ok (n / 256 ∷ n % 256 ∷ [])
unfolding pack_word
pack_word_lem n h = ground arith

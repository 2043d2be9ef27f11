-- ===== src/Modbus/Stream.antt =====
-- `receive_exact` and `receive_frame` of aggregator_demo/modbus_tcp.py, over a TCP stream that
-- delivers its bytes in blocks of any size.
pub mod Blocks
use depotflux_demo.Prelude.{
  ℕ, zero, suc, ◌+◌, ◌-◌, Bool, true, false, ◌&&◌, List, [], ◌∷◌, ◌++◌, ltb, leb, ◌==◌,
  if◌then◌else◌, ok, err, and_then, length, take, drop,
}
use depotflux_demo.Modbus.Registers.{
  protocol, bad_response_header, transport, connection_closed, os_error, struct_error, Outcome,
}
use depotflux_demo.Modbus.Bytes.{Bytes, word}

-- What the next `recv` on a socket meets: bytes that have arrived, or an `OSError` such as the
-- timeout. After the last one the peer has closed.
pub data Arrival : Type 0 where
  block : Bytes → Arrival
  failure : Arrival

abbrev pub Stream : Type 0
Stream = List Arrival

-- What `recv` leaves of a block stays for the next call.
abbrev put_back : Bytes → Stream → Stream
put_back [] s = s
put_back (b ∷ bs) s = block (b ∷ bs) ∷ s

-- `stream.recv(size)`
unfoldable pub recv : ℕ → Stream → Outcome Bytes × Stream
recv size [] = (ok [], [])
recv size (block bytes ∷ s) = (ok (take size bytes), put_back (drop size bytes) s)
recv size (failure ∷ s) = (err (transport os_error), s)

-- The loop of `receive_exact`. Each round adds a byte or ends, so `size` rounds are enough.
unfoldable pub receive_rest : ℕ → ℕ → Bytes → Stream → Outcome Bytes × Stream
receive_rest zero size chunks s = (ok chunks, s)
receive_rest (suc fuel) size chunks s =
    let (r, s') = recv (size - length chunks) s in
    elim (ltb (length chunks) size) [
      | false ↦ (ok chunks, s)
      | true ↦ elim r [
        | err e ↦ (err e, s')
        | ok [] ↦ (err (transport connection_closed), s')
        | ok (b ∷ bs) ↦ receive_rest fuel size (chunks ++ b ∷ bs) s'
      ]
    ]

unfoldable pub receive_exact : ℕ → Stream → Outcome Bytes × Stream
receive_exact size s = receive_rest size size [] s

-- The part of `receive_frame` behind the header. `receive_exact` returns seven bytes or raises, so
-- the last two clauses are for `struct.unpack` and `if not header` alone.
unfoldable pub receive_body : Bytes → Stream → Outcome Bytes × Stream
receive_body (t1 ∷ t0 ∷ p1 ∷ p0 ∷ l1 ∷ l0 ∷ unit ∷ []) s =
    let size = word l1 l0 in
    if word p1 p0 == 0 && (leb 2 size && leb size 254)
    then and_then (receive_exact (size - 1) s)
        (λ body s'. (ok (t1 ∷ t0 ∷ p1 ∷ p0 ∷ l1 ∷ l0 ∷ unit ∷ body), s'))
    else (err (protocol bad_response_header), s)
receive_body [] s = (err (transport connection_closed), s)
receive_body _ s = (err struct_error, s)

unfoldable pub receive_frame : Stream → Outcome Bytes × Stream
receive_frame s = and_then (receive_exact 7 s) receive_body

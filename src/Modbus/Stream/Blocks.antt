-- ===== src/Modbus/Stream/Blocks.antt =====
-- However a stream cuts its bytes into blocks, the reader returns the same bytes.
use depotflux_demo.Prelude.{
  ℕ, zero, suc, ◌+◌, ◌-◌, ◌≤◌, ◌<◌, ◌≡◌, refl, ap, ◌∙◌, ◌*◌, ◌/◌, ◌%◌, true, false, List, [], ◌∷◌,
  ◌++◌, map, ltb, ok, length, take, drop, length-take, All, length-append, Bool-cases, inl, inr,
  arith,
}
use mathlib.Core.Path.{ap₂}
use mathlib.Core.List.{append_assoc, append-nil}
use depotflux_demo.Modbus.Registers.{Outcome}
use depotflux_demo.Modbus.Bytes.{Bytes}
use depotflux_demo.Modbus.RoundTrip.{framed}
use depotflux_demo.Modbus.Stream.{
  block, put_back, Stream, recv, receive_rest, receive_exact, receive_body, receive_frame,
}

-- The bytes that a stream delivers, if no call on it fails.
unfoldable pub content : List Bytes → Bytes
content [] = []
content (b ∷ bs) = b ++ content bs

abbrev pub IsBlock : Bytes → Type 0
IsBlock b = 0 < length b

abbrev pub blocks : List Bytes → Stream
blocks = map block

-- The blocks that stay when a part of the first is left.
leave : Bytes → List Bytes → List Bytes
leave [] bs = bs
leave (c ∷ cs) bs = (c ∷ cs) ∷ bs

put_back-blocks : (c : Bytes) (bs : List Bytes) → put_back c (blocks bs) ≡ blocks (leave c bs)
unfolding leave
put_back-blocks [] bs = refl
put_back-blocks (c ∷ cs) bs = refl

content-leave : (c : Bytes) (bs : List Bytes) → content (leave c bs) ≡ c ++ content bs
unfolding leave content
content-leave [] bs = refl
content-leave (c ∷ cs) bs = refl

leave-IsBlock : (c : Bytes) (bs : List Bytes) → All IsBlock bs → All IsBlock (leave c bs)
unfolding leave
leave-IsBlock [] bs h = h
leave-IsBlock (c ∷ cs) bs h = (omega arith, h)

recv_block :
    (k c : ℕ) (cs : Bytes) (bs : List Bytes)
    → recv (suc k) (blocks ((c ∷ cs) ∷ bs)) ≡ (ok (c ∷ take k cs), blocks (leave (drop k cs) bs))
unfolding recv
recv_block k c cs bs = rw (put_back-blocks (drop k cs) bs)

-- One round that reads a part of a block.
receive_rest_step :
    (fuel size k : ℕ) (chunks : Bytes) (c : ℕ) (cs : Bytes) (bs : List Bytes)
    → size - length chunks ≡ suc k
    → receive_rest (suc fuel) size chunks (blocks ((c ∷ cs) ∷ bs))
      ≡ receive_rest fuel size (chunks ++ c ∷ take k cs) (blocks (leave (drop k cs) bs))
unfolding receive_rest
receive_rest_step fuel size k chunks c cs bs e =
    let below : ltb (length chunks) size ≡ true = ground arith in
    rw (below, receive_rest) (simp (e, recv_block k c cs bs))

-- A read that the stream can fill takes exactly its first bytes and leaves the others.
abbrev pub Received : Bytes → ℕ → List Bytes → Outcome Bytes × Stream → Type 0
Received chunks size bs outcome =
    (got : Bytes) × (rest : List Bytes) × (outcome ≡ (ok (chunks ++ got), blocks rest))
    × (got ++ content rest ≡ content bs)
    × (length chunks + length got ≡ size)
    × All IsBlock rest

nothing_more :
    (fuel size : ℕ) (chunks : Bytes) (bs : List Bytes)
    → length chunks ≡ size
    → receive_rest fuel size chunks (blocks bs) ≡ (ok chunks, blocks bs)
unfolding receive_rest
nothing_more zero size chunks bs e = refl
nothing_more (suc fuel) size chunks bs e =
    let done : ltb (length chunks) size ≡ false = ground arith in rw (done, receive_rest)

take-append-drop : (n : ℕ) (xs : Bytes) → take n xs ++ drop n xs ≡ xs
take-append-drop zero xs = refl
take-append-drop (suc n) [] = refl
take-append-drop (suc n) (x ∷ xs) = ap (λ t. x ∷ t) (take-append-drop n xs)

step-Received :
    (fuel size k : ℕ) (chunks : Bytes) (c : ℕ) (cs : Bytes) (bs : List Bytes)
    → size - length chunks ≡ suc k
    → Received
        (chunks ++ c ∷ take k cs)
        size
        (leave (drop k cs) bs)
        (receive_rest fuel size (chunks ++ c ∷ take k cs) (blocks (leave (drop k cs) bs)))
    → Received chunks size
        ((c ∷ cs) ∷ bs)
        (receive_rest (suc fuel) size chunks (blocks ((c ∷ cs) ∷ bs)))
unfolding content
step-Received fuel size k chunks c cs bs e (got, rest, came, same, full, ok_rest) = (
  c ∷ take k cs ++ got,
  rest,
  (receive_rest_step fuel size k chunks c cs bs e ∙ came ∙ simp append_assoc),
  ap (λ t. c ∷ t) (rw (append_assoc, same, content-leave, ← append_assoc, take-append-drop) refl),
  omega (arith, full, length-append chunks (c ∷ take k cs), length-append (c ∷ take k cs) got),
  ok_rest,
)

whole-Received :
    (fuel size : ℕ) (chunks : Bytes) (bs : List Bytes)
    → length chunks ≡ size
    → All IsBlock bs
    → Received chunks size bs (receive_rest fuel size chunks (blocks bs))
whole-Received fuel size chunks bs e h =
    ([], bs, rw (nothing_more fuel size chunks bs e, append-nil) refl, refl, omega arith, h)

receive_rest-Received :
    (fuel size : ℕ) (chunks : Bytes) (bs : List Bytes)
    → length chunks ≤ size
    → size ≤ length chunks + fuel
    → All IsBlock bs
    → size ≤ length chunks + length (content bs)
    → Received chunks size bs (receive_rest fuel size chunks (blocks bs))
unfolding content
receive_rest-Received zero size chunks bs fits enough h more =
    whole-Received zero size chunks bs (omega arith) h
receive_rest-Received (suc fuel) size chunks [] fits enough h more =
    whole-Received (suc fuel) size chunks [] (omega arith) h
receive_rest-Received (suc fuel) size chunks ([] ∷ bs) fits enough h more = absurd (omega arith)
receive_rest-Received (suc fuel) size chunks ((c ∷ cs) ∷ bs) fits enough h more =
    elim (Bool-cases (ltb (length chunks) size)) [
      | inr done ↦ whole-Received (suc fuel) size chunks ((c ∷ cs) ∷ bs) (ground arith) h
      | inl below ↦
          let room : length chunks < size = ground arith in
          let k = size - length chunks - 1 in
          let grown = length-append chunks (c ∷ take k cs) in
          let taken = length-take k cs in
          let left = ap length (take-append-drop k cs) in
          step-Received fuel size k chunks c cs bs (ground arith) (
            receive_rest-Received fuel size (chunks ++ c ∷ take k cs) (leave (drop k cs) bs)
              (omega (arith, grown, taken)) (omega (arith, grown, taken))
              (leave-IsBlock (drop k cs) bs h.1)
              (omega (
                arith,
                grown,
                left,
                length-append (take k cs) (drop k cs),
                ap length (content-leave (drop k cs) bs),
                length-append (drop k cs) (content bs),
                length-append cs (content bs),
              )))
    ]

-- From blocks that hold enough bytes, `receive_exact` returns the first `size` bytes and leaves the
-- others on the stream, wherever the blocks end.
pub receive_exact-blocks :
    (size : ℕ) (bs : List Bytes)
    → All IsBlock bs
    → size ≤ length (content bs)
    → (got : Bytes) × (rest : List Bytes) × (receive_exact size (blocks bs) ≡ (ok got, blocks rest))
      × (got ++ content rest ≡ content bs)
      × (length got ≡ size)
      × All IsBlock rest
unfolding receive_exact
receive_exact-blocks size bs h more =
    let (got, rest, came, same, full, ok_rest) =
      receive_rest-Received size size [] bs (omega arith) (omega arith) h (omega arith) in
    (got, rest, came, same, omega (arith, full), ok_rest)

append_split :
    (got rest xs ys : Bytes)
    → got ++ rest ≡ xs ++ ys
    → length got ≡ length xs
    → (got ≡ xs) × (rest ≡ ys)
append_split [] rest [] ys e h = (refl, e)
append_split [] rest (x ∷ xs) ys e h = absurd (omega arith)
append_split (g ∷ got) rest [] ys e h = absurd (omega arith)
append_split (g ∷ got) rest (x ∷ xs) ys e h =
    let tails : got ++ rest ≡ xs ++ ys = cc in
    let heads : g ≡ x = cc in
    let split = append_split got rest xs ys tails (omega arith) in
    (ap₂ (λ a b. a ∷ b) heads split.0, split.1)

abbrev header : ℕ → ℕ → Bytes → Bytes
header t u pdu =
    t / 256 ∷ t % 256 ∷ 0 ∷ 0 ∷ (length pdu + 1) / 256 ∷ (length pdu + 1) % 256 ∷ u ∷ []

body_size : (n : ℕ) → (n + 1) / 256 * 256 + (n + 1) % 256 - 1 ≡ n
body_size n = omega arith

receive_body_lem :
    (t u : ℕ) (pdu : Bytes) (s s' : Stream)
    → 1 ≤ length pdu
    → length pdu ≤ 253
    → receive_exact (length pdu) s ≡ (ok pdu, s')
    → receive_body (header t u pdu) s ≡ (ok (framed t u pdu), s')
unfolding receive_body
receive_body_lem t u pdu s s' h1 h2 e =
    let sized : receive_exact ((length pdu + 1) / 256 * 256 + (length pdu + 1) % 256 - 1) s
        ≡ (ok pdu, s') =
      rw (body_size (length pdu)) e in
    rw sized (ground arith)

receive_frame_lem :
    (s s' : Stream) {head : Bytes} {r : Outcome Bytes × Stream}
    → receive_exact 7 s ≡ (ok head, s')
    → receive_body head s' ≡ r
    → receive_frame s ≡ r
unfolding receive_frame
receive_frame_lem s s' e f = rw (e, receive_frame) f

-- However a stream cuts a frame of 1 to 253 data bytes and what follows it into non-empty blocks,
-- receive_frame returns exactly the frame and leaves exactly what follows.
pub receive_frame-blocks :
    (transaction_id unit_id : ℕ) (pdu after : Bytes) (bs : List Bytes)
    → 1 ≤ length pdu
    → length pdu ≤ 253
    → All IsBlock bs
    → content bs ≡ framed transaction_id unit_id pdu ++ after
    → (rest : List Bytes) × (receive_frame (blocks bs)
        ≡ (ok (framed transaction_id unit_id pdu), blocks rest))
      × (content rest ≡ after)
receive_frame-blocks t u pdu after bs h1 h2 h e =
    let whole = ap length e in
    let (got, rest, came, same, full, ok_rest) =
      receive_exact-blocks 7 bs h (omega (arith, whole)) in
    let first = append_split got (content rest) (header t u pdu) (pdu ++ after) (same ∙ e) full in
    let (got', rest', came', same', full', _) =
      receive_exact-blocks (length pdu) rest ok_rest
        (omega (arith, ap length first.1, length-append pdu after)) in
    let second = append_split got' (content rest') pdu after (same' ∙ first.1) full' in
    (
      rest',
      receive_frame_lem (blocks bs) (blocks rest) (rw first.0 at came)
          (receive_body_lem t u pdu (blocks rest) (blocks rest') h1 h2 (rw second.0 at came')),
      second.1,
    )

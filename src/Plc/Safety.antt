-- ===== src/Plc/Safety.antt =====
-- No request, from any peer and with any content, takes the controller out of its safe envelope.
use depotflux_demo.Prelude.{
  ℕ, ◌≤◌, ◌<◌, ◌≡◌, refl, ◌⊎◌, inl, inr, bit_or, Bool, true, false, ◌&&◌, Option, none, some, [],
  ◌∷◌, ltb, Result-cases, if◌then◌else◌, ok, and_then, and_then_keeps, in_table, tested_below,
  Result, arith,
}
use depotflux_demo.Prelude.Int.{ℤ, pos, negsuc}
use depotflux_demo.Floats.{Floats, float_max, kilowatts, in_tenths}
use depotflux_demo.Modbus.Registers.{Outcome}
use depotflux_demo.Modbus.Bytes.{Bytes, IsBytes, word}
use depotflux_demo.Modbus.Frames.{Request, decode_request}
use depotflux_demo.Modbus.Commands.{in_signed_range, signed_register, measured_power_register}
use depotflux_demo.Plc.{
  Registers, raise_alarm, invalid_write, is_unsafe, applied, apply_write, handle_write, handle_read,
  beat, handle_decoded, handle_authorised, handle_request,
}

-- The envelope: every register is a word, import and export are not both asked for, their power
-- is within the site's capacity, and the command mode of the safe state asks for none.
pub record IsSafe ⦃F : Floats⦄ (site_capacity_kw : F.Float) (r : Registers) : Type 0 where
  pub import_word : r.import_setpoint ≤ 0xffff
  pub export_word : r.export_setpoint ≤ 0xffff
  pub one_direction : (r.import_setpoint ≡ 0) ⊎ (r.export_setpoint ≡ 0)
  pub within_capacity :
      F.lt site_capacity_kw (float_max (kilowatts r.import_setpoint) (kilowatts r.export_setpoint))
      ≡ false
  pub known_mode : r.command_mode ≤ 1
  pub safe_state_idle : r.command_mode ≡ 1 → (r.import_setpoint ≡ 0) × (r.export_setpoint ≡ 0)
  pub measured_word : r.measured_site_power ≤ 0xffff
  pub known_state : (1 ≤ r.controller_state) × (r.controller_state ≤ 3)
  pub alarm_bits : r.alarm_state < 16
  pub heartbeat_word : r.heartbeat < 65536

alarm_table : tested_below (λ a. ltb (bit_or a 2) 16 && ltb (bit_or a 8) 16) 16 ≡ true
unfolding tested_below
alarm_table = refl

alarm_bits_kept : (a : ℕ) → a < 16 → (bit_or a 2 < 16) × (bit_or a 8 < 16)
alarm_bits_kept a h =
    let row = in_table (λ b. ltb (bit_or b 2) 16 && ltb (bit_or b 8) 16) 16 a alarm_table h in
    ground arith

in_signed_range_word : (o : Option ℤ) (n : ℕ) → in_signed_range o ≡ ok n → n ≤ 0xffff
in_signed_range_word none n h = cc
in_signed_range_word (some (pos m)) n h = ground arith
in_signed_range_word (some (negsuc m)) n h = ground arith

word-le : (high low : ℕ) → high < 256 → low < 256 → word high low ≤ 0xffff
word-le high low h l = omega arith

decode_request-IsBytes :
    (frame_bytes : Bytes) (request : Request)
    → IsBytes frame_bytes
    → decode_request frame_bytes ≡ ok request
    → IsBytes request.payload
unfolding decode_request
decode_request-IsBytes (t1 ∷ t0 ∷ p1 ∷ p0 ∷ l1 ∷ l0 ∷ u ∷ f ∷ payload) request b e =
    let same : request.payload ≡ payload = ground arith in rw same b.1.1.1.1.1.1.1.1
decode_request-IsBytes _ request b e = cc

module _ ⦃F : Floats⦄ (site_capacity_kw : F.Float) where
  raise_alarm-IsSafe :
      (alarm : ℕ) (r : Registers)
      → (alarm ≡ 2) ⊎ (alarm ≡ 8)
      → IsSafe site_capacity_kw r
      → IsSafe site_capacity_kw (raise_alarm alarm r)
  unfolding raise_alarm
  raise_alarm-IsSafe alarm r e h = ground (arith, alarm_bits_kept r.alarm_state h.alarm_bits)

  beat-IsSafe :
      (enabled : Bool) (r : Registers)
      → IsSafe site_capacity_kw r
      → IsSafe site_capacity_kw (beat enabled r)
  unfolding beat
  beat-IsSafe enabled r h = ground arith

  apply_write-IsSafe :
      (import_raw export_raw mode : ℕ) (r : Registers)
      → import_raw ≤ 0xffff
      → export_raw ≤ 0xffff
      → is_unsafe site_capacity_kw import_raw export_raw mode ≡ false
      → IsSafe site_capacity_kw r
      → IsSafe site_capacity_kw (apply_write site_capacity_kw import_raw export_raw mode r).1
  unfolding is_unsafe apply_write applied measured_power_register signed_register
  apply_write-IsSafe i e m r hi he safe h =
      ground (arith, in_signed_range_word (in_tenths (F.sub (kilowatts i) (kilowatts e))))

  -- What a handler leaves, whether it returns or raises.
  record StaysSafe {A : Type 0} (outcome : A × Registers) : Type 0 where
    safe : IsSafe site_capacity_kw outcome.1

  if-StaysSafe :
      {A : Type 0} (b : Bool) (x y : A × Registers)
      → (b ≡ true → StaysSafe x)
      → (b ≡ false → StaysSafe y)
      → StaysSafe (if b then x else y)
  if-StaysSafe true x y hx hy = hx refl
  if-StaysSafe false x y hx hy = hy refl

  and_then-StaysSafe :
      {E A B : Type 0} (p : Result E A × Registers) (f : A → Registers → Result E B × Registers)
      → ((a : A) (s : Registers) → (f a s).1 ≡ s)
      → StaysSafe p
      → StaysSafe (and_then p f)
  and_then-StaysSafe p f keeps h = record { safe = rw (and_then_keeps p f keeps) h.safe }

  unchanged-StaysSafe :
      {A : Type 0} (a : A) (r : Registers) → IsSafe site_capacity_kw r → StaysSafe (a, r)
  unchanged-StaysSafe a r h = record { safe = h }

  alarmed-StaysSafe :
      {A : Type 0} (a : A) (r : Registers)
      → IsSafe site_capacity_kw r
      → StaysSafe (a, raise_alarm 8 r)
  alarmed-StaysSafe a r h = record { safe = raise_alarm-IsSafe 8 r (inr refl) h }

  invalid_write-StaysSafe :
      (transaction_id unit_id code : ℕ) (r : Registers)
      → IsSafe site_capacity_kw r
      → StaysSafe (invalid_write transaction_id unit_id code r)
  unfolding invalid_write
  invalid_write-StaysSafe t u code r h = record { safe = raise_alarm-IsSafe 2 r (inl refl) h }

  acknowledged-StaysSafe :
      (import_raw export_raw mode : ℕ) (r : Registers) (reply : Outcome Bytes)
      → import_raw ≤ 0xffff
      → export_raw ≤ 0xffff
      → is_unsafe site_capacity_kw import_raw export_raw mode ≡ false
      → IsSafe site_capacity_kw r
      → StaysSafe (
          and_then
            (apply_write site_capacity_kw import_raw export_raw mode r)
            (λ _ r'. (reply, r')))
  acknowledged-StaysSafe i e m r reply hi he safe h =
      and_then-StaysSafe (apply_write site_capacity_kw i e m r) (λ _ r'. (reply, r')) (λ _ _. refl)
        (record { safe = apply_write-IsSafe i e m r hi he safe h })

  handle_write-StaysSafe :
      (transaction_id unit_id : ℕ) (payload : Bytes) (r : Registers)
      → IsBytes payload
      → IsSafe site_capacity_kw r
      → StaysSafe (handle_write site_capacity_kw transaction_id unit_id payload r)
  unfolding handle_write
  handle_write-StaysSafe t u (a1 ∷ a0 ∷ q1 ∷ q0 ∷ byte_count ∷ i1 ∷ i0 ∷ e1 ∷ e0 ∷ m1 ∷ m0 ∷ []) r b
        h =
      let import_fits : word i1 i0 ≤ 0xffff = omega arith in
      let export_fits : word e1 e0 ≤ 0xffff = omega arith in
      search (if-StaysSafe, invalid_write-StaysSafe, acknowledged-StaysSafe)
  handle_write-StaysSafe t u _ r b h = invalid_write-StaysSafe t u 3 r h

  handle_read-StaysSafe :
      (transaction_id unit_id : ℕ) (payload : Bytes) (r : Registers)
      → IsSafe site_capacity_kw r
      → StaysSafe (handle_read transaction_id unit_id payload r)
  unfolding handle_read
  handle_read-StaysSafe t u (a1 ∷ a0 ∷ q1 ∷ q0 ∷ []) r h =
      search (if-StaysSafe, alarmed-StaysSafe, unchanged-StaysSafe)
  handle_read-StaysSafe t u _ r h = record { safe = h }

  module _ (heartbeat_enabled : Bool) {Peer : Type 0} (peer_allowed : Peer → Bool) where
    handle_decoded-StaysSafe :
        (request : Request) (r : Registers)
        → IsBytes request.payload
        → IsSafe site_capacity_kw r
        → StaysSafe (handle_decoded site_capacity_kw heartbeat_enabled peer_allowed request r)
    unfolding handle_decoded
    handle_decoded-StaysSafe request r b h =
        let beaten = beat-IsSafe heartbeat_enabled r h in
        search (if-StaysSafe, handle_write-StaysSafe, handle_read-StaysSafe, unchanged-StaysSafe)

    handle_authorised-StaysSafe :
        (peer : Peer) (request : Request) (r : Registers)
        → IsBytes request.payload
        → IsSafe site_capacity_kw r
        → StaysSafe
            (handle_authorised site_capacity_kw heartbeat_enabled peer_allowed peer request r)
    unfolding handle_authorised
    handle_authorised-StaysSafe peer request r b h =
        let handled = handle_decoded-StaysSafe request r b h in
        search (if-StaysSafe, alarmed-StaysSafe, unchanged-StaysSafe)

    -- Whatever bytes a peer sends, registers inside the safe envelope stay inside it: every
    -- register a word, import and export never both asked for, their power within the site
    -- capacity, a known mode, state and alarm, and no power while the command mode register
    -- asks for the safe state; this holds also where the handler raises. Of the state
    -- register it says only that its value is known: behind a write that raises it need not
    -- agree with the mode.
    pub handle_request-IsSafe :
        (peer : Peer) (frame_bytes : Bytes) (r : Registers)
        → IsBytes frame_bytes
        → IsSafe site_capacity_kw r
        → IsSafe site_capacity_kw
            (handle_request site_capacity_kw heartbeat_enabled peer_allowed peer frame_bytes r).1
    unfolding handle_request
    handle_request-IsSafe peer frame_bytes r b h =
        elim (Result-cases (decode_request frame_bytes)) [
          | inr (e, malformed) ↦ rw (malformed, handle_request) h
          | inl (request, decoded) ↦
              let b' = decode_request-IsBytes frame_bytes request b decoded in
              let handled = handle_authorised-StaysSafe peer request r b' h in
              rw (decoded, handle_request) (rw and_then_keeps handled.safe)
        ]

-- ===== src/Modbus/Client/Attempts.antt =====
-- What the retries of `ModbusTcpClient.exchange` come to.
use depotflux_demo.Prelude.{ℕ, zero, suc, ◌+◌, ◌≤◌, ◌<◌, ◌≡◌, refl, ap, ◌∙◌, true, ok, err, arith}
use depotflux_demo.Modbus.Registers.{Error, transport, exchange_failed}
use depotflux_demo.Modbus.Bytes.{Bytes}
use depotflux_demo.Modbus.Client.{Network, is_caught, exchange_once, exchange_rounds, exchange}

module _ {S : Type 0} (net : Network S) (request : Bytes) where
  -- The state behind the first `n` rounds.
  abbrev pub after : ℕ → S → S
  after zero s = s
  after (suc n) s = after n (exchange_once net request s).1

  -- Round `n`, counted from 0, ends in an exception that the loop catches.
  abbrev pub Fails : S → ℕ → Type 0
  Fails s n =
      (e : Error) × ((exchange_once net request (after n s)).0 ≡ err e) × (is_caught e ≡ true)

  failed_round :
      (left attempt : ℕ) (s : S)
      → Fails s 0
      → exchange_rounds net (suc left) attempt request s
        ≡ exchange_rounds net left (attempt + 1) request (after 1 s)
  unfolding exchange_rounds
  failed_round left attempt s (e, failed, caught) = rw (failed, exchange_rounds) (rw caught refl)

  good_round :
      (left attempt : ℕ) (s : S) {response : Bytes} {s' : S}
      → exchange_once net request s ≡ (ok response, s')
      → exchange_rounds net (suc left) attempt request s ≡ (ok (response, attempt), s')
  unfolding exchange_rounds
  good_round left attempt s got = ground arith

  first_success :
      (n left attempt : ℕ) (s : S) {response : Bytes} {s' : S}
      → n < left
      → ((j : ℕ) → j < n → Fails s j)
      → exchange_once net request (after n s) ≡ (ok response, s')
      → exchange_rounds net left attempt request s ≡ (ok (response, attempt + n), s')
  unfolding exchange_rounds
  first_success n zero attempt s h fails got = absurd (omega arith)
  first_success zero (suc left) attempt s {response} {s'} h fails got =
      good_round left attempt s got ∙ ap (λ k. (ok (response, k), s')) (omega arith)
  first_success (suc n) (suc left) attempt s {response} {s'} h fails got =
      failed_round left attempt s (fails 0 (omega arith))
      ∙ first_success n left (attempt + 1) (after 1 s) (omega arith)
          (λ j less. fails (suc j) (omega arith)) got
      ∙ ap (λ k. (ok (response, k), s')) (omega arith)

  exhausted :
      (left attempt : ℕ) (s : S)
      → ((j : ℕ) → j < left → Fails s j)
      → exchange_rounds net left attempt request s ≡ (err (transport exchange_failed), after left s)
  exhausted zero attempt s fails = unfold exchange_rounds in refl
  exhausted (suc left) attempt s fails =
      failed_round left attempt s (fails 0 (omega arith))
      ∙ exhausted left (attempt + 1) (after 1 s) (λ j less. fails (suc j) (omega arith))

  -- If the first n rounds, n at most the retries, end in caught exceptions and the next
  -- succeeds, exchange returns its response with the attempt number n + 1 and makes no further
  -- round.
  pub exchange_first_success :
      (retries n : ℕ) (s : S) {response : Bytes} {s' : S}
      → n ≤ retries
      → ((j : ℕ) → j < n → Fails s j)
      → exchange_once net request (after n s) ≡ (ok response, s')
      → exchange net retries request s ≡ (ok (response, n + 1), s')
  unfolding exchange
  exchange_first_success retries n s {response} {s'} h fails got =
      first_success n (retries + 1) 1 s (omega arith) fails got
      ∙ ap (λ k. (ok (response, k), s')) (omega arith)

  -- If each of the retries + 1 rounds ends in a caught exception, exchange raises the transport
  -- error behind exactly these rounds.
  pub exchange_exhausted :
      (retries : ℕ) (s : S)
      → ((j : ℕ) → j ≤ retries → Fails s j)
      → exchange net retries request s ≡ (err (transport exchange_failed), after (retries + 1) s)
  unfolding exchange
  exchange_exhausted retries s fails = exhausted (retries + 1) 1 s (λ j less. fails j (omega arith))

-- ===== src/Gateway/Replay.antt =====
-- The replay cache over a sequence of commands.
use depotflux_demo.Prelude.{
  ℕ, suc, ◌+◌, ◌≤◌, ◌<◌, ◌≡◌, refl, ◌∙◌, ◌⊎◌, inl, inr, true, false, List, [], ◌∷◌, ◌++◌, ltb, ok,
  err, and_then, length, arith, length-append, Result, Result-cases, and_then_part, Bool-cases,
}
use depotflux_demo.Floats.{Floats}
use depotflux_demo.Gateway.{
  Gateway, GatewayError, Settings, ControllerClient, DispatchRequest, SafeStateRequest, is_seen,
  evict, reject_replay, apply_dispatch, command_controller, best_effort_safe_state,
  apply_safe_state, watch_heartbeat, check_dispatch, dispatch, safe_state, controller_status,
  policy, replayed_command, validate_window,
}

-- At most `n` identifiers were recorded after the one given.
abbrev pub IsRecent : ℕ → ℕ → List ℕ → Type 0
IsRecent n command_id [] = ⊥
IsRecent n command_id (seen ∷ later) =
    ((seen ≡ command_id) × (length later ≤ n)) ⊎ IsRecent n command_id later

not_ltb : (size n : ℕ) → suc n ≤ size → ltb size (suc n) ≡ false
not_ltb size n h = ground arith

is_seen-IsRecent :
    (n command_id : ℕ) (seen : List ℕ) → IsRecent n command_id seen → is_seen command_id seen ≡ true
unfolding is_seen
is_seen-IsRecent n c [] h = absurd h
is_seen-IsRecent n c (s ∷ later) (inl h) = ground (arith, h)
is_seen-IsRecent n c (s ∷ later) (inr h) = ground (arith, is_seen-IsRecent n c later h)

append-IsRecent :
    (n command_id other : ℕ) (seen : List ℕ)
    → IsRecent n command_id seen
    → IsRecent (suc n) command_id (seen ++ other ∷ [])
append-IsRecent n c o [] h = absurd h
append-IsRecent n c o (s ∷ later) (inl h) =
    inl (h.0, omega (arith, length-append later (o ∷ []), h.1))
append-IsRecent n c o (s ∷ later) (inr h) = inr (append-IsRecent n c o later h)

appended-IsRecent :
    (command_id : ℕ) (seen : List ℕ) → IsRecent 0 command_id (seen ++ command_id ∷ [])
appended-IsRecent c [] = inl (refl, omega arith)
appended-IsRecent c (s ∷ later) = inr (appended-IsRecent c later)

evict-IsRecent :
    (size n command_id : ℕ) (seen : List ℕ)
    → n < size
    → IsRecent n command_id seen
    → IsRecent n command_id (evict size seen)
unfolding evict
evict-IsRecent size n c [] lt h = absurd h
evict-IsRecent size n c (s ∷ later) lt (inl h) =
    rw (not_ltb size (length later) (omega (arith, h.1, lt))) (inl h)
evict-IsRecent size n c (s ∷ later) lt (inr h) = elim (Bool-cases (ltb size (suc (length later)))) [
  | inl full ↦ rw full (evict-IsRecent size n c later lt h)
  | inr room ↦ rw room (inr h)
]

later-IsRecent :
    (n command_id : ℕ) (seen : List ℕ)
    → IsRecent n command_id seen
    → IsRecent (suc n) command_id seen
later-IsRecent n c [] h = absurd h
later-IsRecent n c (s ∷ later) (inl h) = inl (h.0, omega (arith, h.1))
later-IsRecent n c (s ∷ later) (inr h) = inr (later-IsRecent n c later h)

-- A call of the gateway, at a time of the clock that it reads.
pub data Call ⦃F : Floats⦄ : Type 0 where
  dispatch_call : ℕ → DispatchRequest → Call
  safe_state_call : ℕ → SafeStateRequest → Call
  status_call : ℕ → Call

module _ ⦃F : Floats⦄ {S : Type 0} (client : ControllerClient S) (settings : Settings) where
  abbrev pub call_gateway : Call → Gateway S → Gateway S
  call_gateway (dispatch_call now command) g = (dispatch client settings now command g).1
  call_gateway (safe_state_call now request) g = (safe_state client settings now request g).1
  call_gateway (status_call now) g = (controller_status client settings now g).1

  abbrev pub call_all : List Call → Gateway S → Gateway S
  call_all [] g = g
  call_all (call ∷ calls) g = call_all calls (call_gateway call g)

  apply_dispatch_keeps :
      (command : DispatchRequest) (g : Gateway S)
      → (apply_dispatch client settings command g).1.seen_commands ≡ g.seen_commands
  unfolding apply_dispatch command_controller best_effort_safe_state
  apply_dispatch_keeps command g = ground arith

  apply_safe_state_keeps :
      (request : SafeStateRequest) (g : Gateway S)
      → (apply_safe_state client settings request g).1.seen_commands ≡ g.seen_commands
  unfolding apply_safe_state command_controller
  apply_safe_state_keeps request g = ground arith

  controller_status_keeps :
      (now : ℕ) (g : Gateway S)
      → (controller_status client settings now g).1.seen_commands ≡ g.seen_commands
  unfolding controller_status watch_heartbeat best_effort_safe_state
  controller_status_keeps now g = ground arith

  reject_replay-IsRecent :
      (n command_id other : ℕ) (g : Gateway S)
      → suc n < settings.replay_cache_size
      → IsRecent n command_id g.seen_commands
      → IsRecent (suc n) command_id (reject_replay settings other g).1.seen_commands
  unfolding reject_replay
  reject_replay-IsRecent n c other g lt h = elim (Bool-cases (is_seen other g.seen_commands)) [
    | inl seen ↦ rw seen (later-IsRecent n c g.seen_commands h)
    | inr new ↦ rw new (
        evict-IsRecent settings.replay_cache_size (suc n) c (g.seen_commands ++ other ∷ []) lt
          (append-IsRecent n c other g.seen_commands h))
  ]

  -- The window and the replay test, with which both commands begin.
  abbrev let_in : ℕ → ℕ → ℕ → ℕ → Gateway S → Result GatewayError (Unit {0}) × Gateway S
  let_in now issued expires command_id g =
      and_then (validate_window settings now issued expires, g)
        (λ _ g'. reject_replay settings command_id g')

  let_in-IsRecent :
      (n command_id now issued expires other : ℕ) (g : Gateway S)
      → suc n < settings.replay_cache_size
      → IsRecent n command_id g.seen_commands
      → IsRecent (suc n) command_id (let_in now issued expires other g).1.seen_commands
  let_in-IsRecent n c now issued expires other g lt h =
      elim (Result-cases (validate_window settings now issued expires)) [
        | inl (done, fresh) ↦ rw fresh (reject_replay-IsRecent n c other g lt h)
        | inr (e, stale) ↦ rw stale (later-IsRecent n c g.seen_commands h)
      ]

  check_dispatch_seen :
      (now : ℕ) (command : DispatchRequest) (g : Gateway S)
      → (check_dispatch client settings now command g).1.seen_commands
        ≡ (let_in now command.issued_at command.expires_at command.command_id g).1.seen_commands
  unfolding check_dispatch
  check_dispatch_seen now command g = ground arith

  dispatch_seen :
      (now : ℕ) (command : DispatchRequest) (g : Gateway S)
      → (dispatch client settings now command g).1.seen_commands
        ≡ (let_in now command.issued_at command.expires_at command.command_id g).1.seen_commands
  unfolding dispatch
  dispatch_seen now command g =
      and_then_part (λ g. g.seen_commands) (check_dispatch client settings now command g)
        (λ _ g. apply_dispatch client settings command g) (λ _ g. apply_dispatch_keeps command g)
      ∙ check_dispatch_seen now command g

  safe_state_seen :
      (now : ℕ) (request : SafeStateRequest) (g : Gateway S)
      → (safe_state client settings now request g).1.seen_commands
        ≡ (let_in now request.issued_at request.expires_at request.command_id g).1.seen_commands
  unfolding safe_state
  safe_state_seen now request g =
      elim (Result-cases (validate_window settings now request.issued_at request.expires_at)) [
        | inl (done, fresh) ↦ rw fresh (
            and_then_part (λ g. g.seen_commands) (reject_replay settings request.command_id g)
              (λ _ g. apply_safe_state client settings request g)
              (λ _ g. apply_safe_state_keeps request g))
        | inr (e, stale) ↦ rw stale refl
      ]

  call_gateway-IsRecent :
      (n command_id : ℕ) (call : Call) (g : Gateway S)
      → suc n < settings.replay_cache_size
      → IsRecent n command_id g.seen_commands
      → IsRecent (suc n) command_id (call_gateway call g).seen_commands
  call_gateway-IsRecent n c (dispatch_call now command) g lt h =
      rw (dispatch_seen now command g)
        (let_in-IsRecent n c now command.issued_at command.expires_at command.command_id g lt h)
  call_gateway-IsRecent n c (safe_state_call now request) g lt h =
      rw (safe_state_seen now request g)
        (let_in-IsRecent n c now request.issued_at request.expires_at request.command_id g lt h)
  call_gateway-IsRecent n c (status_call now) g lt h =
      rw (controller_status_keeps now g) (later-IsRecent n c g.seen_commands h)

  call_all-IsRecent :
      (n command_id : ℕ) (calls : List Call) (g : Gateway S)
      → n + length calls < settings.replay_cache_size
      → IsRecent n command_id g.seen_commands
      → is_seen command_id (call_all calls g).seen_commands ≡ true
  call_all-IsRecent n c [] g lt h = is_seen-IsRecent n c g.seen_commands h
  call_all-IsRecent n c (call ∷ calls) g lt h =
      call_all-IsRecent (suc n) c calls (call_gateway call g) (omega (arith, lt))
        (call_gateway-IsRecent n c call g (omega (arith, lt)) h)

  dispatched-IsRecent :
      (now : ℕ) (command : DispatchRequest) (g : Gateway S)
      → 0 < settings.replay_cache_size
      → validate_window settings now command.issued_at command.expires_at ≡ ok tt
      → is_seen command.command_id g.seen_commands ≡ false
      → IsRecent 0 command.command_id (dispatch client settings now command g).1.seen_commands
  unfolding reject_replay
  dispatched-IsRecent now command g lt fresh new =
      rw (dispatch_seen now command g, fresh, new)
        (evict-IsRecent settings.replay_cache_size 0 command.command_id
          (g.seen_commands ++ command.command_id ∷ []) lt
          (appended-IsRecent command.command_id g.seen_commands))

  -- A dispatch that was fresh and new uses its identifier up, whatever became of it: after
  -- fewer further calls of any kind than the replay cache is large, a fresh dispatch and a
  -- fresh safe-state request with the identifier are rejected as replayed and change nothing.
  pub replay_rejected :
      (now : ℕ) (command : DispatchRequest) (g : Gateway S)
      → validate_window settings now command.issued_at command.expires_at ≡ ok tt
      → is_seen command.command_id g.seen_commands ≡ false
      → (calls : List Call) → length calls < settings.replay_cache_size
      → (now' : ℕ) (again : DispatchRequest) (request : SafeStateRequest)
      → again.command_id ≡ command.command_id
      → request.command_id ≡ command.command_id
      → validate_window settings now' again.issued_at again.expires_at ≡ ok tt
      → validate_window settings now' request.issued_at request.expires_at ≡ ok tt
      → let g' = call_all calls (dispatch client settings now command g).1 in
        (dispatch client settings now' again g' ≡ (err (policy replayed_command), g'))
        × (safe_state client settings now' request g' ≡ (err (policy replayed_command), g'))
  unfolding dispatch check_dispatch safe_state reject_replay
  replay_rejected now command g fresh new calls lt now' again request same same' fresh' fresh'' =
      let seen =
        call_all-IsRecent 0 command.command_id calls (dispatch client settings now command g).1
          (omega (arith, lt)) (dispatched-IsRecent now command g (omega (arith, lt)) fresh new) in
      rw (fresh', fresh'', same, same', seen) (refl, refl)

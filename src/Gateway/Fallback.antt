-- ===== src/Gateway/Fallback.antt =====
-- What the gateway does where an exchange with the controller fails, or its heartbeat stops.
use depotflux_demo.Prelude.{
  ℕ, ◌+◌, ◌%◌, ◌^◌, ◌<◌, ◌≡◌, ◌≢◌, sym, ap, ◌∙◌, inl, inr, true, false, some, ok, err,
  and_then_refused, and_then_passed, Result-cases, arith,
}
use depotflux_demo.Floats.{Floats, float_zero}
use depotflux_demo.Gateway.{
  Gateway, Settings, ControllerClient, DispatchRequest, StatusResponse, check_dispatch,
  validate_window, reject_replay, dispatch, apply_dispatch, best_effort_safe_state,
  command_controller, unavailable, controller_unavailable, controller_status, watch_heartbeat,
}

module _ ⦃F : Floats⦄ {S : Type 0} (client : ControllerClient S) (settings : Settings) where
  -- The last call of the client was a zero-power command for the safe state.
  abbrev pub SafeStateSent : ℕ → Gateway S → Type 0
  SafeStateSent transaction_id g =
      (s : S) × (g.controller
        ≡ (client.write_setpoint float_zero ((transaction_id + 2) % 2 ^ 16) true s).1)

  best_effort-SafeStateSent :
      (transaction_id : ℕ) (g : Gateway S)
      → SafeStateSent transaction_id (best_effort_safe_state client settings transaction_id g).1
  unfolding best_effort_safe_state
  best_effort-SafeStateSent transaction_id g = (g.controller, ground arith)

  apply_dispatch-SafeStateSent :
      (command : DispatchRequest) (g : Gateway S)
      → (apply_dispatch client settings command g).0 ≡ err (unavailable controller_unavailable)
      → SafeStateSent (command.command_id % 2 ^ 16) (apply_dispatch client settings command g).1
  unfolding apply_dispatch
  apply_dispatch-SafeStateSent command g h =
      let sent =
        best_effort-SafeStateSent (command.command_id % 2 ^ 16)
          (command_controller client settings command.setpoint_kw (command.command_id % 2 ^ 16)
            false g).1 in
      ground (arith, sent)

  check_dispatch_lem :
      (now : ℕ) (command : DispatchRequest) (g : Gateway S)
      → (check_dispatch client settings now command g).0 ≢ err (unavailable controller_unavailable)
  unfolding check_dispatch reject_replay validate_window
  check_dispatch_lem now command g h = ground arith

  -- Where a dispatch reports the controller as unavailable, the last thing that it did to the
  -- controller was a zero-power command for the safe state, under the transaction id of the
  -- command plus two.
  pub dispatch_fallback :
      (now : ℕ) (command : DispatchRequest) (g : Gateway S)
      → (dispatch client settings now command g).0 ≡ err (unavailable controller_unavailable)
      → SafeStateSent (command.command_id % 2 ^ 16) (dispatch client settings now command g).1
  unfolding dispatch
  dispatch_fallback now command g h =
      let check = check_dispatch client settings now command g in
      elim (Result-cases check.0) [
        | inl (done, passed) ↦
            let body =
              and_then_passed check (λ _ g. apply_dispatch client settings command g) done passed in
            rw body (apply_dispatch-SafeStateSent command check.1 (sym (ap (λ p. p.0) body) ∙ h))
        | inr (e, refused) ↦
            let stop =
              and_then_refused check (λ _ g. apply_dispatch client settings command g) e refused in
            let raised = sym (ap (λ p. p.0) stop) ∙ h in
            let unavailable_raised : e ≡ unavailable controller_unavailable = cc raised in
            absurd (check_dispatch_lem now command g (refused ∙ ap err unavailable_raised))
      ]

  -- With a positive stale time, an answered controller_status reports a heartbeat that the
  -- gateway has recorded, and recorded as changed less than the stale time ago.
  pub controller_status_live :
      (now : ℕ) (g : Gateway S) (status : StatusResponse)
      → 0 < settings.heartbeat_stale
      → (controller_status client settings now g).0 ≡ ok status
      → ((controller_status client settings now g).1.last_heartbeat ≡ some status.heartbeat)
        × (now
            < (controller_status client settings now g).1.last_heartbeat_change
              + settings.heartbeat_stale)
  unfolding controller_status watch_heartbeat
  controller_status_live now g status positive answered = ground arith

-- ===== src/Gateway/Tests.antt =====
-- The gateway over a client that counts its calls, and the theorems at concrete inputs.
use depotflux_demo.Prelude.{
  ℕ, suc, ◌+◌, ◌*◌, true, ◌<◌, ◌≡◌, refl, ◌⊎◌, false, Option, some, none, List, [], ◌∷◌, ok, err,
  arith,
}
use depotflux_demo.Prelude.Int.{pos, ◌+ℤ◌}
use depotflux_demo.Floats.Fixed.{fixed}
use depotflux_demo.Modbus.Registers.{transport, exchange_failed}
use depotflux_demo.Modbus.Client.{ControllerSnapshot}
use depotflux_demo.Gateway.{
  Gateway, Settings, ControllerClient, DispatchRequest, SafeStateRequest, active, policy,
  replayed_command, validate_window, is_seen, reject_replay, is_outside_envelope, check_dispatch,
  command_controller, best_effort_safe_state, apply_dispatch, dispatch, safe_state, watch_heartbeat,
  controller_status,
}
use depotflux_demo.Gateway.Fence.{IsFresh, dispatch_fence}
use depotflux_demo.Gateway.Fallback.{SafeStateSent, dispatch_fallback, controller_status_live}
use depotflux_demo.Gateway.Replay.{Call, dispatch_call, status_call, call_all, replay_rejected}

abbrev seconds : ℕ → ℕ
seconds n = n * 1_000_000

-- The defaults of the source.
abbrev defaults : Settings
defaults = record {
  maximum_command_age = seconds 30;
  maximum_future_skew = seconds 5;
  heartbeat_stale = seconds 15;
  replay_cache_size = 10_000;
}

abbrev healthy : ControllerSnapshot ⦃F = fixed⦄
healthy = record {
  import_setpoint_kw = pos 500_000_000;
  export_setpoint_kw = pos 0;
  measured_site_power_kw = pos 500_000_000;
  controller_state = 2;
  alarm_state = 0;
  heartbeat = 7;
}

-- Both count the calls that reach them.
abbrev willing : ControllerClient ⦃F = fixed⦄ ℕ
willing = record {
  write_setpoint = λ _ _ _ calls. (ok ([], [], 1), suc calls);
  snapshot = λ _ calls. (ok healthy, suc calls);
}

abbrev silent : ControllerClient ⦃F = fixed⦄ ℕ
silent = record {
  write_setpoint = λ _ _ _ calls. (err (transport exchange_failed), suc calls);
  snapshot = λ _ calls. (err (transport exchange_failed), suc calls);
}

abbrev fresh_gateway : Gateway ℕ
fresh_gateway = record {
  seen_commands = [];
  last_heartbeat = none;
  last_heartbeat_change = 0;
  controller = 0;
}

abbrev fifty : DispatchRequest ⦃F = fixed⦄
fifty = record {
  command_id = 70_000;
  correlation_id = 1;
  issued_at = seconds 100;
  expires_at = seconds 120;
  setpoint_kw = pos 500_000_000;
  site_capacity_kw = pos 4_000_000_000;
  result_sha256 = "";
}

abbrev stop : SafeStateRequest
stop = record {
  command_id = 70_000;
  correlation_id = 2;
  issued_at = seconds 100;
  expires_at = seconds 120;
  reason = "drill";
}

dispatch_fence_example : ◌⊎◌ (◌≡◌ {A = ℕ} 2 0) (
    IsFresh defaults (seconds 101) (seconds 100) (seconds 120)
    × (is_seen 70_000 [] ≡ false)
    × (fixed.is_finite (pos 500_000_000) ≡ true)
    × (is_outside_envelope ⦃F = fixed⦄ fifty ≡ false))
unfolding dispatch check_dispatch validate_window reject_replay is_seen is_outside_envelope
    apply_dispatch command_controller ◌+ℤ◌
dispatch_fence_example =
    dispatch_fence ⦃F = fixed⦄ willing defaults (seconds 101) fifty fresh_gateway

dispatch_fallback_example :
    SafeStateSent ⦃F = fixed⦄ silent defaults 4464
      (dispatch ⦃F = fixed⦄ silent defaults (seconds 101) fifty fresh_gateway).1
unfolding dispatch check_dispatch validate_window reject_replay is_seen is_outside_envelope
    apply_dispatch command_controller best_effort_safe_state ◌+ℤ◌
dispatch_fallback_example =
    dispatch_fallback ⦃F = fixed⦄ silent defaults (seconds 101) fifty fresh_gateway refl

controller_status_live_example :
    (◌≡◌ {A = Option ℕ} (some 7) (some 7)) × (seconds 9 < seconds 9 + seconds 15)
unfolding controller_status watch_heartbeat
controller_status_live_example =
    controller_status_live ⦃F = fixed⦄ willing defaults (seconds 9) fresh_gateway
      (record {
        controller_state = active;
        alarm_state = 0;
        heartbeat = 7;
        measured_site_power_kw = pos 500_000_000;
      })
      (omega arith) refl

abbrev two_calls : List (Call ⦃F = fixed⦄)
two_calls =
    status_call (seconds 102) ∷ dispatch_call (seconds 103) (record fifty { command_id = 3 }) ∷ []

replay_rejected_example :
    let g =
      call_all ⦃F = fixed⦄ willing defaults two_calls
        (dispatch ⦃F = fixed⦄ willing defaults (seconds 101) fifty fresh_gateway).1 in
    (dispatch ⦃F = fixed⦄ willing defaults (seconds 104) fifty g
      ≡ (err (policy replayed_command), g))
    × (safe_state ⦃F = fixed⦄ willing defaults (seconds 104) stop g
        ≡ (err (policy replayed_command), g))
unfolding validate_window is_seen
replay_rejected_example =
    replay_rejected ⦃F = fixed⦄ willing defaults (seconds 101) fifty fresh_gateway refl refl
      two_calls (omega arith) (seconds 104) fifty stop refl refl refl refl

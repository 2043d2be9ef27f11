-- ===== src/Gateway/Fence.antt =====
-- What `dispatch` asks of a command before the controller hears of it, and what it does where the
-- exchange fails.
use depotflux_demo.Prelude.{
  ℕ, ◌+◌, ◌≤◌, ◌<◌, ◌≡◌, refl, ◌⊎◌, inl, inr, true, false, ok, Result-cases, and_then_refused,
  Bool-cases, arith,
}
use depotflux_demo.Floats.{Floats}
use depotflux_demo.Gateway.{
  Gateway, Settings, ControllerClient, DispatchRequest, is_seen, is_outside_envelope,
  check_dispatch, validate_window, reject_replay, dispatch, apply_dispatch,
}

-- The command window of the settings around the gateway's clock.
abbrev pub IsFresh : Settings → ℕ → ℕ → ℕ → Type 0
IsFresh settings now issued expires =
    (issued < expires)
    × (issued ≤ now + settings.maximum_future_skew)
    × (now ≤ expires)
    × (now ≤ issued + settings.maximum_command_age)

pub validate_window-IsFresh :
    (settings : Settings) (now issued expires : ℕ) (done : Unit {0})
    → validate_window settings now issued expires ≡ ok done
    → IsFresh settings now issued expires
unfolding validate_window
validate_window-IsFresh settings now issued expires done h = ground arith

module _ ⦃F : Floats⦄ {S : Type 0} (client : ControllerClient S) (settings : Settings) (now : ℕ)
    (command : DispatchRequest) (g : Gateway S) where
  -- The checks leave the controller alone, and pass only a fresh, new, finite command inside the
  -- envelope.
  pub check_dispatch_lem :
      ((check_dispatch client settings now command g).1.controller ≡ g.controller)
      × ((done : Unit {0})
          → (check_dispatch client settings now command g).0 ≡ ok done
          → IsFresh settings now command.issued_at command.expires_at
            × (is_seen command.command_id g.seen_commands ≡ false)
            × (F.is_finite command.setpoint_kw ≡ true)
            × (is_outside_envelope command ≡ false))
  unfolding check_dispatch reject_replay
  check_dispatch_lem =
      elim (Result-cases (validate_window settings now command.issued_at command.expires_at)) [
        | inl (done, fresh) ↦
            let window =
              validate_window-IsFresh settings now command.issued_at command.expires_at done
                fresh in
            rw fresh (elim (Bool-cases (is_seen command.command_id g.seen_commands)) [
              | inl seen ↦ rw seen (refl, λ done' passed. cc passed)
              | inr new ↦ rw new (ground (arith, window))
            ])
        | inr (e, stale) ↦ rw stale (refl, λ done passed. cc passed)
      ]

  -- A dispatch either leaves the controller as it is, or its command lies in the permitted
  -- window of the clock, has an identifier that is not in the replay cache, and has a finite
  -- setpoint inside the envelope.
  pub dispatch_fence :
      ((dispatch client settings now command g).1.controller ≡ g.controller)
      ⊎ (IsFresh settings now command.issued_at command.expires_at
          × (is_seen command.command_id g.seen_commands ≡ false)
          × (F.is_finite command.setpoint_kw ≡ true)
          × (is_outside_envelope command ≡ false))
  unfolding dispatch
  dispatch_fence = elim (Result-cases (check_dispatch client settings now command g).0) [
    | inl (done, passed) ↦ inr (check_dispatch_lem.1 done passed)
    | inr (e, refused) ↦ inl (
        rw
          (and_then_refused (check_dispatch client settings now command g)
            (λ _ g'. apply_dispatch client settings command g') e refused)
          (check_dispatch_lem.0))
  ]

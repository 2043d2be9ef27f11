-- ===== src/Runs/Status.antt =====
-- `RunStatus` of aggregator_demo/contracts.py and `ALLOWED_TRANSITIONS` of
-- aggregator_demo/run_repository.py.
use depotflux_demo.Prelude.{ℕ, ◌≡◌, Bool, true, false, ◌==◌, arith}

pub data RunStatus : Type 0 where
  queued running succeeded failed infeasible timed_out cancel_requested cancelled degraded :
      RunStatus

abbrev pub rank : RunStatus → ℕ
rank queued = 0
rank running = 1
rank succeeded = 2
rank failed = 3
rank infeasible = 4
rank timed_out = 5
rank cancel_requested = 6
rank cancelled = 7
rank degraded = 8

-- `==` on the enumeration
abbrev pub is : RunStatus → RunStatus → Bool
is a b = rank a == rank b

unfoldable pub is_terminal : RunStatus → Bool
is_terminal queued = false
is_terminal running = false
is_terminal cancel_requested = false
is_terminal _ = true

-- `target in ALLOWED_TRANSITIONS[current]`
unfoldable pub is_allowed : RunStatus → RunStatus → Bool
is_allowed queued running = true
is_allowed queued cancelled = true
is_allowed queued failed = true
is_allowed running succeeded = true
is_allowed running failed = true
is_allowed running infeasible = true
is_allowed running timed_out = true
is_allowed running cancel_requested = true
is_allowed running degraded = true
is_allowed cancel_requested cancelled = true
is_allowed cancel_requested succeeded = true
is_allowed cancel_requested failed = true
is_allowed _ _ = false

-- From a terminal state no transition is allowed.
pub terminal_is_final :
    (current target : RunStatus) → is_terminal current ≡ true → is_allowed current target ≡ false
unfolding is_terminal is_allowed
terminal_is_final current target h = ground arith

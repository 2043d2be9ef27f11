-- ===== src/Simulations/Tests.antt =====
-- A simulated write of an approved interval, and the theorems at concrete inputs.
use depotflux_demo.Prelude.{◌≡◌, refl, some, [], ◌∷◌, String, Option, ok}
use depotflux_demo.Prelude.Int.{ℤ, pos, ◌+ℤ◌, ◌-ℤ◌}
use depotflux_demo.Floats.Fixed.{fixed}
use depotflux_demo.Runs.Json.{Fields, get}
use depotflux_demo.Runs.Row.{find}
use depotflux_demo.Runs.Create.{given}
use depotflux_demo.Approvals.{find_approval}
use depotflux_demo.Control.{validate_site_setpoint, encode_site_power_write}
use depotflux_demo.Schedule.{
  items_length, interval_item, item_at, is_falsy, validation_passed, minutes_of, charger_kw,
  chargers_kw, capacity_of, net_energy,
}
use depotflux_demo.Dispatch.{is_approved, is_bound}
use depotflux_demo.Samples.{numeric, candidate, input, approval}
use depotflux_demo.Simulations.{
  SimulationRow, SimulationCall, find_simulation, has_simulation_id, power_series, simulation_row,
  frame_setpoint, check_input, check_candidate, insert_simulation, commit_simulation,
  create_simulation,
}
use depotflux_demo.Simulations.Policy.{IsSimulated, check_candidate-IsSimulated}
use depotflux_demo.Simulations.Once.{create_simulation_retry}

abbrev load : String → String → Option (Fields ℤ)
load _ _ = some input

abbrev call : SimulationCall
call = record { interval_index = 1; requested_by = "ann"; new_id = 80; now = 50 }

abbrev again : SimulationCall
again = record call { requested_by = "bob"; new_id = 81; now = 60 }

-- 100 kW, the register value 1000
abbrev written : SimulationRow ⦃F = fixed⦄
written =
    simulation_row call candidate (pos 1_000_000_000)
      (0 ∷ 1 ∷ 0 ∷ 0 ∷ 0 ∷ 6 ∷ 1 ∷ 6 ∷ 0 ∷ 100 ∷ 3 ∷ 232 ∷ [])

planned : check_candidate numeric load call candidate (some approval) ≡ ok written
unfolding check_candidate check_input frame_setpoint is_approved is_bound given validation_passed
    get power_series items_length minutes_of is_falsy capacity_of chargers_kw charger_kw net_energy
    interval_item item_at validate_site_setpoint encode_site_power_write simulation_row ◌+ℤ◌ ◌-ℤ◌
planned = refl

check_candidate-IsSimulated_example :
    IsSimulated numeric load call candidate (some approval) written
check_candidate-IsSimulated_example =
    check_candidate-IsSimulated numeric load call candidate (some approval) written planned

answered :
    create_simulation numeric load (λ t. t) (candidate ∷ []) (approval ∷ []) 3 call []
    ≡ (ok written, written ∷ [])
unfolding create_simulation find find_approval find_simulation commit_simulation insert_simulation
    has_simulation_id simulation_row
answered = rw planned refl

create_simulation_retry_example :
    create_simulation numeric load (λ t. t) (candidate ∷ []) [] 3 again (written ∷ [])
    ≡ (ok written, written ∷ [])
unfolding find create_simulation find_simulation
create_simulation_retry_example =
    create_simulation_retry numeric load (λ t. t) (λ t. t) (candidate ∷ []) (candidate ∷ [])
      (approval ∷ []) [] 3 call again [] (written ∷ []) written candidate refl answered refl

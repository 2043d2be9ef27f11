-- ===== src/Dispatch/Tests.antt =====
-- A dispatch of an approved interval over a gateway that counts its calls, and the theorems at
-- concrete inputs.
use depotflux_demo.Prelude.{ℕ, ◌⊎◌, ◌≡◌, suc, true, Bool, Option, none, some, [], ◌∷◌, String, err}
use depotflux_demo.Prelude.Int.{ℤ}
use depotflux_demo.Floats.Fixed.{fixed}
use depotflux_demo.Runs.Json.{Fields}
use depotflux_demo.Gateway.HttpClient.{gateway_unavailable}
use depotflux_demo.Samples.{numeric, candidate, input, approval}
use depotflux_demo.Dispatch.Evidence.{Submission, EvidenceLog, for_interval}
use depotflux_demo.Dispatch.Gate.{SupervisoryGateway, Credential}
use depotflux_demo.Dispatch.{dispatch_interval}
use depotflux_demo.Dispatch.Audit.{Recorded, dispatch_interval-Recorded}
use depotflux_demo.Dispatch.Clearance.{IsCleared, dispatch_interval-IsCleared}

abbrev load : String → String → Option (Fields ℤ)
load _ _ = some input

abbrev submission : Submission
submission = record {
  run_id = none;
  interval_index = none;
  command_id = 70;
  correlation_id = 71;
  requested_by = "bob";
  issued_at = 40;
  attempt_id = 72;
  event_id = 73;
  completed = 41;
}

-- Nothing answers it.
abbrev unreachable : SupervisoryGateway ⦃F = fixed⦄ ℕ
unreachable = record {
  dispatch = λ _ calls. (err gateway_unavailable, suc calls);
  safe_state = λ _ calls. (err gateway_unavailable, suc calls);
  controller_status = λ calls. (err gateway_unavailable, suc calls);
}

abbrev is_hash : String → Bool
is_hash _ = true

abbrev operator : Credential
operator = record { accepted = true; configured = true }

abbrev empty : EvidenceLog ⦃F = fixed⦄
empty = record { attempts = []; events = [] }

abbrev after_dispatch : ℕ
after_dispatch =
    (dispatch_interval numeric load is_hash (some unreachable) (candidate ∷ []) (approval ∷ [])
      submission 60 3 1 operator (empty, 0)).1.1

dispatch_interval-Recorded_example : Recorded empty (
    dispatch_interval numeric load is_hash
      (some unreachable)
      (candidate ∷ [])
      (approval ∷ [])
      submission
      60
      3
      1
      operator
      (empty, 0))
dispatch_interval-Recorded_example =
    dispatch_interval-Recorded numeric load is_hash (some unreachable) (candidate ∷ [])
      (approval ∷ []) submission 60 3 1 operator empty 0

dispatch_interval-IsCleared_example :
    (after_dispatch ≡ 0)
    ⊎ IsCleared numeric load
        (some unreachable)
        (candidate ∷ [])
        (approval ∷ [])
        (for_interval 3 1 submission)
        60
        operator
        3
        1
        0
        after_dispatch
dispatch_interval-IsCleared_example =
    dispatch_interval-IsCleared numeric load is_hash (some unreachable) (candidate ∷ [])
      (approval ∷ []) submission 60 3 1 operator empty 0

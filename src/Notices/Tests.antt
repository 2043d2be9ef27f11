-- ===== src/Notices/Tests.antt =====
-- A notice on an approved run, its repetition, and the theorems at concrete inputs.
use depotflux_demo.Prelude.{ℕ, ◌≡◌, refl, some, [], ◌∷◌, String, ok}
use depotflux_demo.Prelude.Int.{ℤ}
use depotflux_demo.Floats.Fixed.{fixed}
use depotflux_demo.Runs.Json.{end, get}
use depotflux_demo.Runs.Row.{RunCreateRequest, RunRow, find}
use depotflux_demo.Runs.Create.{
  given, has_key, find_by_key, is_taken, new_row, insert_row, existing_run, create,
}
use depotflux_demo.Approvals.{Approvals, find_approval}
use depotflux_demo.Samples.{finished_run, approval}
use depotflux_demo.Notices.{
  late_return, NoticeRow, NoticeCreateRequest, NoticeCall, replan_key, find_by_candidate,
  is_replannable, replan_request, charger_count, energy_of, new_notice, insert_notice, link_notice,
  link_candidate, create_simulated,
}
use depotflux_demo.Notices.Replan.{IsReplan, create_simulated-IsReplan}
use depotflux_demo.Notices.Retry.{create_simulated_retry}

abbrev baseline : RunRow ℤ
baseline = finished_run end

abbrev approvals : Approvals
approvals = approval ∷ []

abbrev fingerprint : RunCreateRequest → String
fingerprint request = request.input_reference

abbrev text_length : String → ℕ
text_length _ = 1

abbrev request : NoticeCreateRequest
request = record { baseline_run_id = 3; scenario = late_return }

abbrev first_call : NoticeCall
first_call = record {
  created_by = "ann";
  idempotency_key = some "k";
  new_run_id = 5;
  run_created_at = 40;
  new_notice_id = 6;
  notice_created_at = 41;
}

abbrev second_call : NoticeCall
second_call = record first_call { created_by = "bob"; new_run_id = 7; new_notice_id = 8 }

abbrev candidate : RunRow ℤ
candidate = new_row (replan_request baseline late_return) "depot" "ann" (some "replan:k") 5 40

abbrev notice : NoticeRow ⦃F = fixed⦄
notice = new_notice request first_call baseline candidate 8

answered :
    create_simulated text_length fingerprint
      (λ t. t)
      (λ t. t)
      request
      first_call
      approvals
      (baseline ∷ [])
      []
    ≡ (ok notice, (baseline ∷ candidate ∷ [], notice ∷ []))
unfolding has_key create_simulated find find_approval is_replannable link_candidate create
    existing_run given find_by_key insert_row is_taken new_row replan_request replan_key link_notice
    find_by_candidate insert_notice charger_count energy_of get new_notice
answered = refl

create_simulated-IsReplan_example : IsReplan request approvals (baseline ∷ []) notice (notice ∷ [])
create_simulated-IsReplan_example =
    create_simulated-IsReplan text_length fingerprint (λ t. t) (λ t. t) request first_call approvals
      (baseline ∷ []) (baseline ∷ candidate ∷ []) [] (notice ∷ []) notice answered

create_simulated_retry_example :
    create_simulated text_length fingerprint
      (λ t. t)
      (λ t. t)
      request
      second_call
      approvals
      (baseline ∷ candidate ∷ [])
      (notice ∷ [])
    ≡ (ok notice, (baseline ∷ candidate ∷ [], notice ∷ []))
create_simulated_retry_example =
    create_simulated_retry text_length fingerprint (λ t. t) (λ t. t) (λ t. t) request first_call
      second_call "k" approvals (baseline ∷ []) (baseline ∷ candidate ∷ []) [] (notice ∷ []) notice
      refl refl answered

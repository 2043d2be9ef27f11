-- ===== src/Runs/Tests.antt =====
-- The repository of runs on a small table.
use text.Mathlib.TextEquality.{eq_iff}
use depotflux_demo.Prelude.{
  ℕ, ◌≡◌, ◌≢◌, refl, true, false, Option, none, some, [], ◌∷◌, String, ok, err,
}
use depotflux_demo.Prelude.Int.{pos}
use depotflux_demo.Runs.Status.{queued, succeeded, is_terminal}
use depotflux_demo.Runs.Json.{Fields, end}
use depotflux_demo.Runs.Row.{day_ahead, selfish, RunCreateRequest, RunRow, Runs, find, store}
use depotflux_demo.Runs.Repository.{conflict, get_row}
use depotflux_demo.Runs.Claim.{
  is_before, oldest_queued, claimed, queued_row, read_claimed, claim_rounds, claim_next,
}
use depotflux_demo.Runs.Claim.Exclusive.{RoundClaim, claim_next-IsClaim}
use depotflux_demo.Runs.Create.{
  given, find_by_key, is_taken, new_row, insert_row, existing_run, create,
}
use depotflux_demo.Runs.Create.Retry.{create_retry}
use depotflux_demo.Runs.History.{claim, finish, recover, cancel, perform_all}
use depotflux_demo.Runs.History.Final.{Becomes, perform-Follows, terminal_run_is_final}

abbrev request : RunCreateRequest
request = record {
  run_type = day_ahead;
  optimization_mode = selfish;
  input_reference = "depot_a";
  input_sha256 = "00";
  v2g_enabled = true;
  scenario_ids = [];
}

abbrev other_request : RunCreateRequest
other_request = record request { input_reference = "depot_b" }

abbrev fingerprint : RunCreateRequest → String
fingerprint r = r.input_reference

abbrev digest : Fields ℕ → Option String
digest _ = some "ab"

abbrev waiting : RunRow ℕ
waiting = record {
  id = 1;
  idempotency_key = some "k";
  request_fingerprint = "depot_a";
  status = queued;
  request = request;
  requested_by = "ann";
  created_at = 10;
  updated_at = 10;
  started_at = none;
  completed_at = none;
  failure_code = none;
  failure_message = none;
  worker_id = none;
  heartbeat_at = none;
  recovery_count = 0;
  last_recovered_at = none;
  solver_name = none;
  result_sha256 = none;
  result_payload = none;
}

abbrev later : RunRow ℕ
later = record waiting { id = 2; idempotency_key = none; created_at = 11 }

abbrev done : RunRow ℕ
done = record waiting { id = 3; idempotency_key = none; status = succeeded; completed_at = some 20 }

abbrev table : Runs ℕ
table = later ∷ waiting ∷ done ∷ []

abbrev alone : ℕ → Runs ℕ → Runs ℕ
alone _ db = db

key_is_full : ◌≢◌ {A = String} "k" ""
key_is_full e = absurd (differ ((eq_iff "k" "").1 e))
  where
    differ : false ≡ true → ⊥
    differ p = cc

created :
    create fingerprint (λ t. t) request "ann" (some "k") 1 10 []
    ≡ (ok (waiting, true), waiting ∷ [])
unfolding create given existing_run insert_row is_taken new_row find find_by_key
created = refl

create_retry_example :
    create fingerprint (λ t. t) other_request "bob" (some "k") 2 12 (waiting ∷ [])
    ≡ (err conflict, waiting ∷ [])
create_retry_example =
    create_retry fingerprint (λ t. t) (λ t. t) request other_request "ann" "bob" "k" 1 2 10 12 []
      (waiting ∷ []) waiting true key_is_full created

claim_next-IsClaim_example :
    RoundClaim 10 alone table "w" 15
      (claimed "w" 15 waiting)
      (later ∷ claimed "w" 15 waiting ∷ done ∷ [])
unfolding claim_next claim_rounds read_claimed get_row oldest_queued is_before queued_row claimed
    find store
claim_next-IsClaim_example =
    claim_next-IsClaim alone "w" 15 table (later ∷ claimed "w" 15 waiting ∷ done ∷ [])
      (claimed "w" 15 waiting) refl

perform-Follows_example : Becomes fingerprint digest (cancel 1 15) table 1 waiting
unfolding find
perform-Follows_example = perform-Follows fingerprint digest (cancel 1 15) table 1 waiting refl

terminal_run_is_final_example :
    find 3 (
      perform_all fingerprint digest
        (claim "w" 15 ∷ finish 3 end 16 ∷ cancel 3 17 ∷ recover (pos 5) 90 ∷ [])
        table)
    ≡ some done
unfolding find is_terminal
terminal_run_is_final_example =
    terminal_run_is_final fingerprint digest
      (claim "w" 15 ∷ finish 3 end 16 ∷ cancel 3 17 ∷ recover (pos 5) 90 ∷ []) table 3 done refl
      refl

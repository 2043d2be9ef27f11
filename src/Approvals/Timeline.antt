-- ===== src/Approvals/Timeline.antt =====
-- `timeline` of aggregator_demo/approval_repository.py, without the texts of the details. Of the
-- tables of notices, simulations and dispatch attempts, the rows have the columns that it reads.
pub mod Order
use text.Mathlib.Text.{◌==◌ as str_eq}
use depotflux_demo.Prelude.{
  ℕ, ◌≤◌, ◌≡◌, Bool, true, false, Option, none, some, List, [], ◌∷◌, ◌++◌, String, leb, ◌==◌,
  if◌then◌else◌, Result, ok, err, All, All-map, Bool-cases, refl, ◌⊎◌, arith, Option-cases, inl,
  inr,
}
use depotflux_demo.Runs.Row.{RunRow, Runs, find}
use depotflux_demo.Approvals.{ApprovalRow, Approvals, ApprovalError, unknown_run, find_approval}

pub data DispatchDecision : Type 0 where
  accepted refused failed : DispatchDecision

-- `event_type` of `AuditEventResponse`
pub data EventType : Type 0 where
  notice_received run_submitted run_started run_recovered run_completed : EventType
  decision_recorded control_simulated : EventType
  dispatch_attempted : DispatchDecision → EventType

pub record AuditEvent : Type 0 where
  pub event_type : EventType
  pub occurred_at : ℕ
  pub actor : String

pub record OperationalNoticeRow : Type 0 where
  pub candidate_run_id : ℕ
  pub created_at : ℕ
  pub created_by : String

pub record ControlSimulationRow : Type 0 where
  pub run_id : ℕ
  pub created_at : ℕ
  pub requested_by : String

pub record DispatchAttemptRow : Type 0 where
  pub run_id : Option ℕ
  pub decision : DispatchDecision
  pub completed_at : ℕ
  pub requested_by : String

-- `text or default`
abbrev or_else : Option String → String → String
or_else none default = default
or_else (some text) default = if str_eq text "" then default else text

-- `if value is not None: events.append(…)`
abbrev event_of : {A : Type 0} → Option A → (A → AuditEvent) → List AuditEvent
event_of none f = []
event_of (some a) f = f a ∷ []

unfoldable pub notice_events : ℕ → List OperationalNoticeRow → List AuditEvent
notice_events run_id [] = []
notice_events run_id (notice ∷ notices) =
    if notice.candidate_run_id == run_id
    then record {
      event_type = notice_received;
      occurred_at = notice.created_at;
      actor = notice.created_by;
    }
      ∷ []
    else notice_events run_id notices

unfoldable pub simulation_events : ℕ → List ControlSimulationRow → List AuditEvent
simulation_events run_id [] = []
simulation_events run_id (simulation ∷ simulations) =
    let rest = simulation_events run_id simulations in
    if simulation.run_id == run_id
    then record {
      event_type = control_simulated;
      occurred_at = simulation.created_at;
      actor = simulation.requested_by;
    }
      ∷ rest
    else rest

unfoldable pub attempt_events : ℕ → List DispatchAttemptRow → List AuditEvent
attempt_events run_id [] = []
attempt_events run_id (attempt ∷ attempts) =
    let rest = attempt_events run_id attempts in
    if elim attempt.run_id [ none ↦ false | some id ↦ id == run_id ]
    then record {
      event_type = dispatch_attempted attempt.decision;
      occurred_at = attempt.completed_at;
      actor = attempt.requested_by;
    }
      ∷ rest
    else rest

-- `events.sort(key=lambda event: event.occurred_at)`, a stable sort
unfoldable pub insert_event : AuditEvent → List AuditEvent → List AuditEvent
insert_event e [] = e ∷ []
insert_event e (x ∷ xs) =
    let rest = insert_event e xs in if leb e.occurred_at x.occurred_at then e ∷ x ∷ xs else x ∷ rest

unfoldable pub sort_events : List AuditEvent → List AuditEvent
sort_events [] = []
sort_events (e ∷ es) = insert_event e (sort_events es)

module _ {A : Type 0} where
  -- The events of the run's own columns.
  unfoldable pub submitted_events : RunRow A → List AuditEvent
  submitted_events run =
      record { event_type = run_submitted; occurred_at = run.created_at; actor = run.requested_by }
      ∷ []

  unfoldable pub run_events : RunRow A → List AuditEvent
  run_events run =
      event_of run.started_at (λ t. record {
        event_type = run_started;
        occurred_at = t;
        actor = or_else run.worker_id "optimization-worker";
      })
      ++ event_of run.last_recovered_at (λ t. record {
        event_type = run_recovered;
        occurred_at = t;
        actor = "recovery-controller";
      })
      ++ event_of run.completed_at (λ t. record {
        event_type = run_completed;
        occurred_at = t;
        actor = or_else run.worker_id "optimization-worker";
      })

  -- The list that `timeline` builds, in its order.
  unfoldable pub collected_events :
      RunRow A
      → ℕ
      → List OperationalNoticeRow
      → Approvals
      → List ControlSimulationRow
      → List DispatchAttemptRow
      → List AuditEvent
  collected_events run run_id notices approvals simulations attempts =
      submitted_events run
      ++ notice_events run_id notices
      ++ run_events run
      ++ event_of (find_approval run_id approvals) (λ approval. record {
        event_type = decision_recorded;
        occurred_at = approval.created_at;
        actor = approval.decided_by;
      })
      ++ simulation_events run_id simulations
      ++ attempt_events run_id attempts

  unfoldable pub timeline :
      Runs A
      → ℕ
      → List OperationalNoticeRow
      → Approvals
      → List ControlSimulationRow
      → List DispatchAttemptRow
      → Result ApprovalError (List AuditEvent)
  timeline runs run_id notices approvals simulations attempts = elim (find run_id runs) [
    | none ↦ err unknown_run
    | some run ↦
        ok (sort_events (collected_events run run_id notices approvals simulations attempts))
  ]

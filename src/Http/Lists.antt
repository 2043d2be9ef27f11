-- ===== src/Http/Lists.antt =====
-- The routes of aggregator_demo/app.py that list rows, with the queries of the repositories behind
-- them. Rows that the order of a query does not tell apart keep the order of the table here; the
-- database may return them in any order.
use depotflux_demo.Prelude.{
  ℕ, Bool, false, ◌&&◌, ◌||◌, Option, none, some, List, [], ◌∷◌, String, ltb, ◌==◌, take, drop,
  if◌then◌else◌, ok, err,
}
use depotflux_demo.Floats.{Floats}
use depotflux_demo.Runs.Row.{Runs, find}
use depotflux_demo.Notices.{NoticeRow, Notices}
use depotflux_demo.Simulations.{Simulations}
use depotflux_demo.Dispatch.Evidence.{DispatchAttempt, SecurityEvent}
use depotflux_demo.Control.{authenticate_control_key}
use depotflux_demo.Http.{
  Answer, answered, refused, unhandled, Body, notice_body, notices_body, attempts_body, events_body,
  simulations_body, Service, Application, key_accepted, is_configured,
}

-- `order_by`, by a test of which of two rows comes first.
unfoldable pub insert_ordered : {A : Type 0} → (A → A → Bool) → A → List A → List A
insert_ordered comes_first row [] = row ∷ []
insert_ordered comes_first row (other ∷ rows) =
    let rest = insert_ordered comes_first row rows in
    if comes_first other row then other ∷ rest else row ∷ other ∷ rows

unfoldable pub ordered : {A : Type 0} → (A → A → Bool) → List A → List A
ordered comes_first [] = []
ordered comes_first (row ∷ rows) = insert_ordered comes_first row (ordered comes_first rows)

-- `limit(limit).offset(offset)`
abbrev pub page : {A : Type 0} → ℕ → ℕ → List A → List A
page limit offset rows = take limit (drop offset rows)

-- `where(…)`
unfoldable pub chosen : {A : Type 0} → (A → Bool) → List A → List A
chosen test [] = []
chosen test (row ∷ rows) = let rest = chosen test rows in if test row then row ∷ rest else rest

-- `order_by(created_at.desc(), id.desc())`
unfoldable pub is_newer : ℕ × ℕ → ℕ × ℕ → Bool
is_newer (created_at, id) (created_at', id') =
    ltb created_at' created_at || created_at == created_at' && ltb id' id

module _ ⦃F : Floats⦄ where
  -- `NoticeRepository.get`
  unfoldable pub find_notice : ℕ → Notices → Option NoticeRow
  find_notice notice_id [] = none
  find_notice notice_id (notice ∷ notices) =
      if notice.id == notice_id then some notice else find_notice notice_id notices

  -- `NoticeRepository.list`
  unfoldable pub notice_page : ℕ → ℕ → Notices → Notices
  notice_page limit offset notices =
      page limit offset
        (ordered (λ a b. is_newer (a.created_at, a.id) (b.created_at, b.id)) notices)

  -- `ControlSimulationRepository.list`; `none` is the `RunNotFoundError`
  unfoldable pub run_simulations : Runs F.Float → ℕ → Simulations → Option Simulations
  run_simulations runs run_id simulations = elim (find run_id runs) [
    | none ↦ none
    | some _ ↦ some (
        ordered (λ a b. ltb a.interval_index b.interval_index)
          (chosen (λ row. row.run_id == run_id) simulations))
  ]

  abbrev is_of_run : ℕ → Option ℕ → Bool
  is_of_run run_id none = false
  is_of_run run_id (some other) = other == run_id

  -- `DispatchEvidenceRepository.list_attempts` of a run, and `list_events`
  unfoldable pub attempt_page : ℕ → ℕ → ℕ → List DispatchAttempt → List DispatchAttempt
  attempt_page run_id limit offset attempts = page limit offset (
      ordered (λ a b. ltb b.created_at a.created_at)
        (chosen (λ a. is_of_run run_id a.run_id) attempts))

  unfoldable pub event_page : ℕ → ℕ → List SecurityEvent → List SecurityEvent
  event_page limit offset events =
      page limit offset (ordered (λ a b. ltb b.occurred_at a.occurred_at) events)

-- The handler of `ControlAuthenticationError` in `list_dispatch_simulations`.
unfoldable pub dispatch_key_answer : {B : Type 0} → Option String → Answer B
dispatch_key_answer configured =
    if is_configured configured
    then refused 401 "control_authentication_failed"
    else refused 503 "dispatch_disabled"

-- The handler of `ControlAuthenticationError` around simulated writes.
unfoldable pub control_key_answer : {B : Type 0} → Option String → Answer B
control_key_answer configured =
    if is_configured configured
    then refused 401 "control_authentication_failed"
    else refused 503 "control_simulation_disabled"

module _ ⦃F : Floats⦄ {S : Type 0} (app : Application S) where
  unfoldable pub list_notices : ℕ → ℕ → Service S → Answer Body × Service S
  list_notices limit offset s =
      (answered 200 (notices_body (notice_page limit offset s.notices)), s)

  unfoldable pub get_notice : ℕ → Service S → Answer Body × Service S
  get_notice notice_id s = (
    elim (find_notice notice_id s.notices) [
      | none ↦ refused 404 "notice_not_found"
      | some notice ↦ answered 200 (notice_body notice)
    ],
    s,
  )

  unfoldable pub list_security_events : ℕ → ℕ → Service S → Answer Body × Service S
  list_security_events limit offset s =
      (answered 200 (events_body (event_page limit offset s.evidence.events)), s)

  -- A listing behind the control key.
  unfoldable pub with_control_key :
      Option String → (Option String → Answer Body) → Answer Body → Answer Body
  with_control_key control_key wrong_key answer =
      elim (key_accepted app.texts.is_ascii control_key app.control_api_key) [
        | none ↦ unhandled
        | some _ ↦ elim (authenticate_control_key control_key app.control_api_key) [
          | err _ ↦ wrong_key app.control_api_key
          | ok _ ↦ answer
        ]
      ]

  unfoldable pub list_dispatch_simulations :
      ℕ → Option String → ℕ → ℕ → Service S → Answer Body × Service S
  list_dispatch_simulations run_id control_key limit offset s = (
    with_control_key control_key dispatch_key_answer
        (answered 200 (attempts_body (attempt_page run_id limit offset s.evidence.attempts))),
    s,
  )

  unfoldable pub list_control_simulations : ℕ → Option String → Service S → Answer Body × Service S
  list_control_simulations run_id control_key s = (
    with_control_key control_key control_key_answer
        (elim (run_simulations s.runs run_id s.simulations) [
          | none ↦ refused 404 "run_not_found"
          | some rows ↦ answered 200 (simulations_body rows)
        ]),
    s,
  )

-- ===== src/Worker/Texts.antt =====
-- The texts that the worker stores: what the exceptions and results of the optimizers and of the
-- registry must keep to, so that the columns of database.py take them.
use text.Mathlib.Text.{◌==◌ as str_eq}
use depotflux_demo.Prelude.{
  ◌≡◌, refl, inl, inr, Bool, true, false, not, Bool-cases, Option, none, some, List, [], ◌∷◌,
  String, Result, ok, err, ◌>>=◌, Option-cases, Result-cases, if◌then◌else◌,
}
use depotflux_demo.Floats.{Floats}
use depotflux_demo.Runs.Json.{Fields, get}
use depotflux_demo.Runs.Row.{OptimizationMode, RunType, day_ahead, real_time, RunRow, Runs}
use depotflux_demo.Runs.Repository.{text_length, fits, storable, names_solver, result}
use depotflux_demo.Worker.{
  WorkError, is_selfish, Raised, no_notice, prepare_scenario, drained_input, optimize_notice,
  input_failed, notice_not_found, optimization_infeasible, optimization_timeout, invalid_result,
  not_implemented, unexpected, Optimizers, optimize_candidate,
}
use depotflux_demo.Notices.{NoticeRow, find_by_candidate}

-- An exception whose code and text the columns take.
abbrev pub IsStorable : WorkError → Type 0
IsStorable (input_failed code text) = storable (some code) (some text) ≡ true
IsStorable (notice_not_found text) = fits 1000 (some text) ≡ true
IsStorable (optimization_infeasible text) = fits 1000 (some text) ≡ true
IsStorable (optimization_timeout text) = fits 1000 (some text) ≡ true
IsStorable (invalid_result text) = fits 1000 (some text) ≡ true
IsStorable (not_implemented text) = fits 1000 (some text) ≡ true
IsStorable (unexpected text) = fits 1000 (some text) ≡ true

-- If it raises, such an exception.
abbrev pub RaisesShort : {A : Type 0} → Result WorkError A → Type 0
RaisesShort (ok _) = Unit
RaisesShort (err error) = IsStorable error

-- Such an exception, or a result whose solver name the column takes.
abbrev pub CanSettle : {A : Type 0} → Result WorkError (Fields A) → Type 0
CanSettle (ok payload) = names_solver payload ≡ true
CanSettle (err error) = IsStorable error

-- What the optimizers, the registry and the exceptions that the worker describes must keep to for a
-- run to end: no code and no solver name of more than 64 characters, no text of more than 1000.
pub record ShortTexts ⦃F : Floats⦄ (py : Optimizers) : Type 0 where
  pub load_short : (reference sha256 : String) → RaisesShort (py.load reference sha256)
  pub day_ahead_short :
      (input : Fields F.Float) (mode : OptimizationMode) (v2g : Bool) (limit : Option F.Float)
      → CanSettle (py.solve_day_ahead input mode v2g limit)
  pub real_time_short :
      (input : Fields F.Float) (notice : NoticeRow) (payload : Fields F.Float) (sha256 : String)
      (mode : OptimizationMode) (v2g : Bool)
      → CanSettle (py.solve_real_time input notice payload sha256 mode v2g)
  pub describes_short : (raised : Raised) → fits 1000 (some (py.describe raised)) ≡ true

bind-CanSettle :
    {A B : Type 0} (m : Result WorkError A) (k : A → Result WorkError (Fields B))
    → RaisesShort m
    → ((a : A) → CanSettle (k a))
    → CanSettle (m >>= k)
bind-CanSettle (ok a) k h short = short a
bind-CanSettle (err error) k h short = h

if-RaisesShort :
    {A : Type 0} (b : Bool) (x y : Result WorkError A)
    → RaisesShort x
    → RaisesShort y
    → RaisesShort (if b then x else y)
if-RaisesShort true x y h k = h
if-RaisesShort false x y h k = k

module _ ⦃F : Floats⦄ (py : Optimizers) (short : ShortTexts py) where
  drained-RaisesShort :
      (drained : Result Raised (Fields F.Float))
      → RaisesShort {A = Fields F.Float × Option F.Float} (elim drained [
        | ok drained ↦ ok (drained, none)
        | err raised ↦ err (unexpected (py.describe raised))
      ])
  drained-RaisesShort (ok drained) = tt
  drained-RaisesShort (err raised) = short.describes_short raised

  prepare_scenario-RaisesShort :
      (scenarios : List String) (input : Fields F.Float)
      → RaisesShort (prepare_scenario py scenarios input)
  unfolding prepare_scenario fits text_length
  prepare_scenario-RaisesShort [] input = tt
  prepare_scenario-RaisesShort (scenario ∷ []) input =
      if-RaisesShort (str_eq scenario "nominal") _ _ tt (
        if-RaisesShort (str_eq scenario "failure_drill:infeasible") _ _
          (drained-RaisesShort (drained_input input (get "buses" input)))
          (if-RaisesShort (str_eq scenario "failure_drill:solver_timeout") _ _ tt refl))
  prepare_scenario-RaisesShort (_ ∷ _ ∷ _) input = refl

  optimize_notice-CanSettle :
      (run : RunRow F.Float) (db : Runs F.Float) (notices : List NoticeRow) (input : Fields F.Float)
      → CanSettle (optimize_notice py run db notices input)
  unfolding optimize_notice fits text_length
  optimize_notice-CanSettle run db notices input =
      elim (Option-cases (find_by_candidate run.id notices)) [
        | inl missing ↦ rw (missing, optimize_notice) (short.describes_short (no_notice run.id))
        | inr (notice, found) ↦ elim (Result-cases (result notice.baseline_run_id db).0) [
          | inr (error, e) ↦ rw (found, e, optimize_notice) (short.describes_short _)
          | inl (baseline, e) ↦ elim (Option-cases baseline.result_payload) [
            | inl e' ↦ rw (found, e, e', optimize_notice) refl
            | inr (payload, e') ↦ elim (Option-cases baseline.result_sha256) [
              | inl e'' ↦ rw (found, e, e', e'', optimize_notice) refl
              | inr (sha256, e'') ↦
                  rw (found, e, e', e'', optimize_notice) (short.real_time_short _ _ _ _ _ _)
            ]
          ]
        ]
      ]

  pub optimize_candidate-CanSettle :
      (run : RunRow F.Float) (db : Runs F.Float) (notices : List NoticeRow)
      → CanSettle (optimize_candidate py run db notices)
  unfolding optimize_candidate fits text_length
  optimize_candidate-CanSettle run db notices =
      elim (Bool-cases (not (is_selfish run.request.optimization_mode))) [
        | inl other ↦ rw (other, optimize_candidate) refl
        | inr selfish ↦
            rw (selfish, optimize_candidate)
              (bind-CanSettle (py.load run.request.input_reference run.request.input_sha256) _
                (short.load_short _ _) (λ input. by_type input run.request.run_type))
      ]
    where
      by_type :
          (input : Fields F.Float) (run_type : RunType)
          → CanSettle (elim run_type [
            | day_ahead ↦ prepare_scenario py run.request.scenario_ids input >>= λ prepared.
                py.solve_day_ahead prepared.0 run.request.optimization_mode run.request.v2g_enabled
                  prepared.1
            | real_time ↦ optimize_notice py run db notices input
          ])
      by_type input day_ahead =
          bind-CanSettle _ _ (prepare_scenario-RaisesShort run.request.scenario_ids input)
            (λ prepared. short.day_ahead_short _ _ _ _)
      by_type input real_time = optimize_notice-CanSettle run db notices input

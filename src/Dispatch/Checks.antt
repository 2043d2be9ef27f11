-- ===== src/Dispatch/Checks.antt =====
-- What the tests mean that `dispatch` makes of a run, its approval and its result.
use depotflux_demo.Prelude.{
  ℕ, ◌≤◌, ◌≡◌, refl, sym, ap, ◌∙◌, inl, inr, Bool, true, false, ◌&&◌, Option, none, some, String,
  Option-cases, arith,
}
use text.Mathlib.Text.{◌==◌ as str_eq}
use text.Mathlib.TextEquality.{eq_iff}
use depotflux_demo.Floats.{Floats}
use depotflux_demo.Runs.Json.{Json, null, flag, number, string, list, dict, Fields, Items, get}
use depotflux_demo.Runs.Row.{RunRow}
use depotflux_demo.Runs.Create.{given}
use depotflux_demo.Approvals.{ApprovalRow, ApprovalDecision, approved, rejected, is_decision}
use depotflux_demo.Approvals.Binding.{is_true_lem, given-hash}
use depotflux_demo.Schedule.{items_length, as_list, validation_passed}
use depotflux_demo.Dispatch.{is_bound, is_approved, approved_series}

pub both : (a b : Bool) → (a && b) ≡ true → (a ≡ true) × (b ≡ true)
both a b h = ground arith

pub is_approved_lem :
    (approval : Option ApprovalRow)
    → is_approved approval ≡ true
    → (row : ApprovalRow) × (approval ≡ some row) × (row.decision ≡ approved)
unfolding is_approved
is_approved_lem none h = cc h
is_approved_lem (some row) h = (row, refl, decided row.decision h)
  where
    decided : (d : ApprovalDecision) → is_decision d approved ≡ true → d ≡ approved
    decided approved h = refl
    decided rejected h = cc h

module _ ⦃F : Floats⦄ where
  pub is_bound_lem :
      (run : RunRow F.Float) (row : ApprovalRow)
      → is_bound run (some row) ≡ true
      → run.result_sha256 ≡ some row.result_sha256
  unfolding is_bound given
  is_bound_lem run row h = elim (Option-cases (given run.result_sha256)) [
    | inl missing ↦ absurd (false_true (sym (bound_none missing) ∙ h))
    | inr (sha256, hash) ↦
        given-hash run.result_sha256 sha256 hash
        ∙ ap some (sym ((eq_iff row.result_sha256 sha256).0 (sym (bound_some sha256 hash) ∙ h)))
  ]
    where
      false_true : false ≡ true → ⊥
      false_true e = cc e

      bound_none : given run.result_sha256 ≡ none → is_bound run (some row) ≡ false
      bound_none e = rw (e, is_bound) refl

      bound_some :
          (k : String)
          → given run.result_sha256 ≡ some k
          → is_bound run (some row) ≡ str_eq row.result_sha256 k
      bound_some k e = rw (e, is_bound) refl

  pub validation_passed_lem :
      (value : Option (Json F.Float))
      → validation_passed value ≡ some true
      → (fields : Fields F.Float) × (value ≡ some (dict fields))
        × (get "passed" fields ≡ some (flag true))
  unfolding validation_passed
  validation_passed_lem none h = ground (arith, h)
  validation_passed_lem (some (dict fields)) h =
      (fields, refl, is_true_lem (get "passed" fields) (ground (arith, h)))
  validation_passed_lem (some null) h = ground (arith, h)
  validation_passed_lem (some (flag b)) h = ground (arith, h)
  validation_passed_lem (some (number x)) h = ground (arith, h)
  validation_passed_lem (some (string s)) h = ground (arith, h)
  validation_passed_lem (some (list xs)) h = ground (arith, h)

  pub as_list_lem :
      (value : Option (Json F.Float)) (items : Items F.Float)
      → as_list value ≡ some items
      → value ≡ some (list items)
  as_list_lem none items h = cc h
  as_list_lem (some (dict fields)) items h = cc h
  as_list_lem (some null) items h = cc h
  as_list_lem (some (flag b)) items h = cc h
  as_list_lem (some (number x)) items h = cc h
  as_list_lem (some (string s)) items h = cc h
  as_list_lem (some (list xs)) items h = cc h

  pub approved_series_lem :
      (interval_index : ℕ) (b s : Option (Items F.Float)) (buy sell : Items F.Float)
      → approved_series interval_index b s ≡ some (buy, sell)
      → (b ≡ some buy)
        × (s ≡ some sell)
        × (items_length buy ≡ items_length sell)
        × (interval_index ≤ items_length buy)
  unfolding approved_series
  approved_series_lem interval_index none s buy sell h = cc h
  approved_series_lem interval_index (some b) none buy sell h = cc h
  approved_series_lem interval_index (some b) (some s) buy sell h = ground arith

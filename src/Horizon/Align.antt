-- ===== src/Horizon/Align.antt =====
-- aggregator_demo/optimization/real_time.py, align_series_to_horizon: a series of a whole day, of the
-- steps that remain, or of rows with explicit steps, brought to one value for each step of the day.
-- pandas' `to_numeric` of a value and `astype(int)` of a float are parameters.
pub mod Filled
use depotflux_demo.Prelude.{
  ℕ, zero, suc, ◌+◌, ◌-◌, Bool, false, ◌||◌, ◌&&◌, Option, none, some, List, [], ◌∷◌, ◌++◌, String,
  map, leb, length, ◌==◌, if◌then◌else◌, Result, ok, err, ◌>>=◌,
}
use depotflux_demo.Prelude.Int.{ℤ, pos, negsuc}
use depotflux_demo.Floats.{Floats}
use depotflux_demo.Horizon.{SeriesError, cannot_be_empty, not_a_number, replicate, expanded}

module _ {A : Type 0} where
  -- `Series.dropna()`
  unfoldable pub dropna : List (Option A) → List A
  dropna [] = []
  dropna (none ∷ xs) = dropna xs
  dropna (some x ∷ xs) = x ∷ dropna xs

  -- The rows of the two columns without those that miss a step or a value.
  unfoldable pub paired : List (Option A) → List (Option A) → List (A × A)
  paired (some step ∷ steps) (some value ∷ values) = (step, value) ∷ paired steps values
  paired (_ ∷ steps) (_ ∷ values) = paired steps values
  paired _ _ = []

  unfoldable pub has_step : ℕ → List (ℕ × A) → Bool
  has_step step [] = false
  has_step step ((s, _) ∷ rows) = step == s || has_step step rows

  -- `drop_duplicates("timestep", keep="last")`
  unfoldable pub drop_duplicates : List (ℕ × A) → List (ℕ × A)
  drop_duplicates [] = []
  drop_duplicates ((s, v) ∷ rows) =
      let rest = drop_duplicates rows in if has_step s rows then rest else (s, v) ∷ rest

  unfoldable pub value_at : ℕ → List (ℕ × A) → Option A
  value_at step [] = none
  value_at step ((s, v) ∷ rows) = if step == s then some v else value_at step rows

  -- The series over `range(step, step + left)` after the assignment of the rows; what no row sets
  -- is missing.
  unfoldable pub absolute : List (ℕ × A) → ℕ → ℕ → List (Option A)
  absolute rows step zero = []
  absolute rows step (suc left) = value_at step rows ∷ absolute rows (suc step) left

  -- `Series.ffill()`, after the last known value
  unfoldable pub ffill : Option A → List (Option A) → List (Option A)
  ffill last [] = []
  ffill last (none ∷ xs) = last ∷ ffill last xs
  ffill last (some x ∷ xs) = some x ∷ ffill (some x) xs

  abbrev pub first_of : List (Option A) → Option A
  first_of [] = none
  first_of (x ∷ xs) = x

  -- `Series.bfill()`
  unfoldable pub bfill : List (Option A) → List (Option A)
  bfill [] = []
  bfill (some x ∷ xs) = some x ∷ bfill xs
  bfill (none ∷ xs) = let rest = bfill xs in first_of rest ∷ rest

  -- The values of a series none of which is missing.
  unfoldable pub all_known : List (Option A) → Option (List A)
  all_known [] = some []
  all_known (none ∷ xs) = none
  all_known (some x ∷ xs) =
      let rest = all_known xs in elim rest [ none ↦ none | some known ↦ some (x ∷ known) ]

  -- The part of align_series_to_horizon after the explicit steps. The count of the steps that
  -- remain stops at 0, which is the length of no series that is not empty.
  unfoldable pub cleaned_series : List A → ℕ → ℕ → String → Result SeriesError (List A)
  cleaned_series [] target_steps current_timestep series_name = err (cannot_be_empty series_name)
  cleaned_series (c ∷ cs) target_steps current_timestep series_name =
      if length (c ∷ cs) == target_steps
      then ok (c ∷ cs)
      else if length (c ∷ cs) == target_steps + 1 - current_timestep
      then ok (replicate (current_timestep - 1) c ++ (c ∷ cs))
      else expanded (c ∷ cs) target_steps series_name

  -- The series of explicit steps; without a row in the day, the cleaned series.
  unfoldable pub explicit_series :
      List (ℕ × A) → List A → ℕ → ℕ → String → Result SeriesError (List A)
  explicit_series [] cleaned target_steps current_timestep series_name =
      cleaned_series cleaned target_steps current_timestep series_name
  explicit_series (row ∷ rows) cleaned target_steps current_timestep series_name =
      elim (all_known
        (bfill (ffill none (absolute (drop_duplicates (row ∷ rows)) 1 target_steps)))) [
          | some series ↦ ok series
          | none ↦ cleaned_series cleaned target_steps current_timestep series_name
        ]

module _ ⦃F : Floats⦄ (truncate : F.Float → Option ℤ) where
  -- `astype(int)`, then the rows with a step in `between(1, target_steps)`
  unfoldable pub rows_within :
      {A : Type 0} → ℕ → List (F.Float × A) → Result SeriesError (List (ℕ × A))
  rows_within target_steps [] = ok []
  rows_within target_steps ((step, value) ∷ rows) =
      let rest = rows_within target_steps rows in
      elim (truncate step) [
        | none ↦ err not_a_number
        | some (negsuc _) ↦ rest
        | some (pos s) ↦
            rest >>= λ kept. ok (if leb 1 s && leb s target_steps then (s, value) ∷ kept else kept)
      ]

  unfoldable pub align_series_to_horizon :
      {V : Type 0}
      → (V → Option F.Float)
      → List V
      → ℕ
      → ℕ
      → String
      → Option (List V)
      → Result SeriesError (List F.Float)
  align_series_to_horizon to_numeric values target_steps current_timestep series_name timesteps =
      let cleaned = dropna (map to_numeric values) in
      elim timesteps [
        | none ↦ cleaned_series cleaned target_steps current_timestep series_name
        | some steps ↦
            rows_within target_steps (paired (map to_numeric steps) (map to_numeric values))
            >>= λ rows. explicit_series rows cleaned target_steps current_timestep series_name
      ]

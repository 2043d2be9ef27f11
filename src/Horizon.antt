-- ===== src/Horizon.antt =====
-- aggregator_demo/optimization/day_ahead.py: the series, the boundaries and the multiplier schedules
-- of an optimisation, brought to the number of steps of its horizon. A Python `int` that counts
-- steps is a natural: the code only makes them by `max(1, ...)`, `len` and `range`.
pub mod Align
pub mod Boundaries
pub mod Multipliers
pub mod Times
mod Tests
use Prim.Native.Nat.{max, min}
use depotflux_demo.Prelude.{
  ℕ, zero, suc, ◌+◌, ◌-◌, ◌*◌, ◌/◌, ◌%◌, Option, none, some, List, [], ◌∷◌, ◌++◌, String, ltb,
  length, get_elem?, take, ◌==◌, if◌then◌else◌, Result, ok, err, ◌>>=◌,
}
use depotflux_demo.Prelude.Int.{ℤ, pos, pos_part}
use depotflux_demo.Floats.{Floats}

-- `ValueError(f"{series_name} cannot be empty")`, the `ValueError` or `TypeError` of a value that
-- is no number, and the `IndexError` of a list.
pub data SeriesError : Type 0 where
  cannot_be_empty : String → SeriesError
  not_a_number index_error : SeriesError

-- A boundary: a value of the caller's, or a count that the code has made.
pub data Boundary (V : Type 0) : Type 0 where
  given : V → Boundary V
  count : ℕ → Boundary V

-- `[value] * repeat`
unfoldable pub replicate : {A : Type 0} → ℕ → A → List A
replicate zero value = []
replicate (suc repeat) value = value ∷ replicate repeat value

-- `for value in values: expanded.extend([value] * repeat)`
unfoldable pub repeat_each : {A : Type 0} → ℕ → List A → List A
repeat_each repeat [] = []
repeat_each repeat (value ∷ values) = replicate repeat value ++ repeat_each repeat values

-- `list(range(start, start + steps))`
unfoldable pub range : ℕ → ℕ → List ℕ
range start zero = []
range start (suc steps) = start ∷ range (suc start) steps

-- The last loop of expand_series_to_horizon, from `idx` on, for the steps that are left. The
-- floor of the float quotient is the quotient of the integers while `idx * len(values)` is below
-- 2 ^ 53.
unfoldable pub spread : {A : Type 0} → List A → ℕ → ℕ → ℕ → Result SeriesError (List A)
spread values target_steps idx zero = ok []
spread values target_steps idx (suc left) =
    let rest = spread values target_steps (suc idx) left in
    elim (get_elem? values (min (length values - 1) (idx * length values / target_steps))) [
      | none ↦ err index_error
      | some value ↦ rest >>= λ values. ok (value ∷ values)
    ]

-- The monotonic loop of scale_boundaries_to_horizon, from the boundary before on.
unfoldable pub monotonic : ℕ → ℕ → List ℕ → List ℕ
monotonic target_steps prev [] = []
monotonic target_steps prev (boundary ∷ []) = min target_steps (max target_steps boundary) ∷ []
monotonic target_steps prev (boundary ∷ next ∷ rest) =
    let here = min target_steps (max (prev + 1) boundary) in
    here ∷ monotonic target_steps here (next ∷ rest)

-- `values[-1] = value`
unfoldable pub set_last : {A : Type 0} → A → List A → List A
set_last value [] = []
set_last value (x ∷ []) = value ∷ []
set_last value (x ∷ y ∷ rest) = x ∷ set_last value (y ∷ rest)

-- `values[-1]`, of a list that is `first` and the rest
unfoldable pub last_of : {A : Type 0} → A → List A → A
last_of first [] = first
last_of first (x ∷ rest) = last_of x rest

-- The loop over `zip(multipliers, scaled_boundaries)` of build_multiplier_schedule.
unfoldable pub segments : {A : Type 0} → ℕ → ℕ → List A → List ℕ → List A
segments target_steps start (multiplier ∷ multipliers) (boundary ∷ boundaries) =
    let end = max (start + 1) (min target_steps boundary) in
    replicate (end - start) multiplier ++ segments target_steps end multipliers boundaries
segments target_steps start _ _ = []

-- `schedule.extend([multipliers[-1]] * (target_steps - len(schedule)))` where it is too short,
-- then `schedule[:target_steps]`
abbrev pub fitted : {A : Type 0} → ℕ → A → List A → List A
fitted target_steps last schedule = take target_steps (
    if ltb (length schedule) target_steps
    then schedule ++ replicate (target_steps - length schedule) last
    else schedule)

-- expand_series_to_horizon, after the conversion of the values.
unfoldable pub expanded : {A : Type 0} → List A → ℕ → String → Result SeriesError (List A)
expanded [] target_steps series_name = err (cannot_be_empty series_name)
expanded (value ∷ rest) target_steps series_name =
    let values = value ∷ rest in
    if length values == target_steps
    then ok values
    else if length values == 1
    then ok (replicate target_steps value)
    else if target_steps % length values == 0
    then ok (repeat_each (target_steps / length values) values)
    else spread values target_steps 0 target_steps

module _ ⦃F : Floats⦄ where
  open F use {Float, of_int, mul, div, round_int}

  -- `max(1, int(round(x)))`
  unfoldable pub rounded_step : Float → Result SeriesError ℕ
  rounded_step x = elim (round_int x) [
    | none ↦ err not_a_number
    | some step ↦ ok (max 1 (pos_part step))
  ]

  -- `max(1, min(target_steps, int(round((b / source_steps) * target_steps))))`
  unfoldable pub scaled_step : ℕ → ℕ → ℕ → Result SeriesError ℕ
  scaled_step target_steps source_steps boundary =
      elim (round_int (
        mul (div (of_int (pos boundary)) (of_int (pos source_steps)))
          (of_int (pos target_steps)))) [
            | none ↦ err not_a_number
            | some step ↦ ok (max 1 (min target_steps (pos_part step)))
          ]

  -- A list comprehension whose elements may raise.
  unfoldable pub collect :
      {A B : Type 0} → (A → Result SeriesError B) → List A → Result SeriesError (List B)
  collect f [] = ok []
  collect f (x ∷ xs) = let rest = collect f xs in f x >>= λ y. rest >>= λ ys. ok (y ∷ ys)

  module _ {V : Type 0} (to_float : V → Option Float) where
    -- `float(v)`
    unfoldable pub float_of : V → Result SeriesError Float
    float_of v = elim (to_float v) [ none ↦ err not_a_number | some x ↦ ok x ]

    unfoldable pub boundary_of : Boundary V → Result SeriesError Float
    boundary_of (given v) = float_of v
    boundary_of (count n) = ok (of_int (pos n))

    unfoldable pub expand_series_to_horizon : List V → ℕ → String → Result SeriesError (List Float)
    expand_series_to_horizon values target_steps series_name =
        collect float_of values >>= λ floats. expanded floats target_steps series_name

    -- `cleaned[-1]` where no source is given, then `max(1, int(round(float(source_steps))))`
    unfoldable pub cleaned_source : List ℕ → Option (Boundary V) → Result SeriesError ℕ
    cleaned_source cleaned (some source) = boundary_of source >>= rounded_step
    cleaned_source [] none = err index_error
    cleaned_source (c ∷ cs) none = rounded_step (of_int (pos (last_of c cs)))

    unfoldable pub scale_boundaries_to_horizon :
        List (Boundary V) → ℕ → Option (Boundary V) → Result SeriesError (List ℕ)
    scale_boundaries_to_horizon [] target_steps source_steps = ok (target_steps ∷ [])
    scale_boundaries_to_horizon (first ∷ rest) target_steps source_steps =
        collect (λ b. boundary_of b >>= rounded_step) (first ∷ rest) >>= λ cleaned.
        cleaned_source cleaned source_steps >>= λ source.
        (if source == target_steps
          then ok cleaned
          else collect (scaled_step target_steps source) cleaned)
        >>= λ scaled. ok (set_last target_steps (monotonic target_steps 0 scaled))

    -- build_multiplier_schedule for multipliers that are converted and not one for each step, with
    -- the boundaries and the source it settles on.
    unfoldable pub scaled_schedule :
        Float
        → List Float
        → List (Boundary V)
        → Boundary V
        → ℕ
        → String
        → Result SeriesError (List Float × List ℕ)
    scaled_schedule m ms boundaries source_steps target_steps series_name =
        scale_boundaries_to_horizon boundaries target_steps (some source_steps) >>= λ scaled.
        if length (m ∷ ms) == length scaled
        then ok
            (fitted target_steps (last_of m ms) (segments target_steps 0 (m ∷ ms) scaled), scaled)
        else (expanded (m ∷ ms) target_steps series_name >>= λ schedule.
            ok (schedule, range 1 target_steps))

    unfoldable pub schedule_of :
        Float
        → List Float
        → List (Boundary V)
        → ℕ
        → String
        → Result SeriesError (List Float × List ℕ)
    schedule_of m ms [] target_steps series_name =
        scaled_schedule m ms (count (length (m ∷ ms)) ∷ []) (count (length (m ∷ ms))) target_steps
          series_name
    schedule_of m ms (b ∷ bs) target_steps series_name =
        scaled_schedule m ms (b ∷ bs) (last_of b bs) target_steps series_name

    unfoldable pub build_multiplier_schedule :
        List V → List (Boundary V) → ℕ → String → Result SeriesError (List Float × List ℕ)
    build_multiplier_schedule multiplier_values boundaries target_steps series_name =
        collect float_of multiplier_values >>= λ multipliers. elim multipliers [
          | [] ↦ err (cannot_be_empty series_name)
          | m ∷ ms ↦
              if length (m ∷ ms) == target_steps
              then ok (m ∷ ms, range 1 target_steps)
              else schedule_of m ms boundaries target_steps series_name
        ]

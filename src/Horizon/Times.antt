-- ===== src/Horizon/Times.antt =====
-- aggregator_demo/optimization/day_ahead.py: the steps of trip times and durations, and the number of
-- steps of a day. What Python's texts, floats and pandas tell of a value is an interface.
pub mod Windows
use Prim.Native.Nat.{max, min}
use depotflux_demo.Prelude.{
  ℕ, suc, ◌*◌, ◌%◌, Bool, true, false, ◌&&◌, ◌||◌, not, Option, none, some, String, ◌==◌,
  if◌then◌else◌, Result, ok, err, ◌>>=◌, ◌>>◌, raise_if,
}
use depotflux_demo.Prelude.Int.{ℤ, pos, negsuc, pos_part, ltb_ℤ, ◌+ℤ◌, ◌-ℤ◌, sub_ℕ}
use depotflux_demo.Floats.{Floats, float_zero}

pub data TimeError : Type 0 where
  empty_time end_before_start not_aligned not_a_number zero_division : TimeError

-- Of a value: `pd.isna(value)`, `value == ''`, `str(value).strip()`, `float(value)`. Of a text: the
-- two sides of its first colon, `int(text)` and `float(text)`. Of a float: `x.is_integer()` and
-- `int(x)`, which cuts towards zero.
pub record TripTimes ⦃F : Floats⦄ (V : Type 0) : Type 0 where
  pub is_na : V → Bool
  pub is_empty : V → Bool
  pub stripped : V → String
  pub value_float : V → Option F.Float
  pub split_colon : String → Option (String × String)
  pub to_int : String → Option ℤ
  pub to_float : String → Option F.Float
  pub is_integer : F.Float → Bool
  pub truncate : F.Float → Option ℤ

-- A conversion that raises where it has no result.
unfoldable pub converted : {A : Type 0} → Option A → Result TimeError A
converted none = err not_a_number
converted (some x) = ok x

-- `(hours * 60) + minutes`
unfoldable pub in_minutes : ℤ → ℤ → ℤ
in_minutes (pos hours) minutes = pos (hours * 60) +ℤ minutes
in_minutes (negsuc hours) minutes = sub_ℕ 0 (suc hours * 60) +ℤ minutes

-- `max(1, min(full_horizon_steps, step))`
unfoldable pub clamped : ℕ → ℤ → ℕ
clamped full_horizon_steps step = max 1 (min full_horizon_steps (pos_part step))

module _ ⦃F : Floats⦄ where
  open F use {Float, of_int, mul, div, sub, lt, le, is_zero, round_int}

  -- `x / float(timestep_minutes)`
  unfoldable pub divided : Float → Float → Result TimeError Float
  divided x timestep_minutes =
      if is_zero timestep_minutes then err zero_division else ok (div x timestep_minutes)

  -- infer_full_horizon_steps of real_time.py, and the first line of the one of day_ahead.py
  unfoldable pub expected_day_steps : Float → Result TimeError ℕ
  expected_day_steps timestep_minutes = divided (of_int (pos 1440)) timestep_minutes >>= λ steps.
      converted (round_int steps) >>= λ rounded. ok (max 1 (pos_part rounded))

  unfoldable pub infer_full_horizon_steps : Float → ℕ → Result TimeError ℕ
  infer_full_horizon_steps timestep_minutes series_length =
      expected_day_steps timestep_minutes >>= λ expected. ok (
        if series_length == 0
        then expected
        else if series_length == expected
        then expected
        else if expected % series_length == 0
        then expected
        else series_length)

  module _ {V : Type 0} (py : TripTimes V) where
    -- The step of a step value, for the start or for the end of a trip.
    unfoldable pub step_of : Bool → Float → Result TimeError ℤ
    step_of is_end step_value = converted (py.truncate step_value) >>= λ whole.
        ok (whole +ℤ pos (if is_end && not (py.is_integer step_value) then 2 else 1))

    unfoldable pub clock_step : Float → Float → ℕ → Bool → Result TimeError ℕ
    clock_step total_minutes timestep_minutes full_horizon_steps is_end =
        divided total_minutes timestep_minutes >>= λ step_value.
        step_of is_end step_value >>= λ step. ok (clamped full_horizon_steps step)

    unfoldable pub numeric_step : Float → Float → ℕ → Bool → Result TimeError ℕ
    numeric_step numeric timestep_minutes full_horizon_steps is_end =
        if le numeric (of_int (pos full_horizon_steps)) && py.is_integer numeric
        then (converted (py.truncate numeric) >>= λ step. ok (clamped full_horizon_steps step))
        else if le float_zero numeric && le numeric (of_int (pos 24))
        then clock_step (mul numeric (of_int (pos 60))) timestep_minutes full_horizon_steps is_end
        else (converted (round_int numeric) >>= λ step. ok (clamped full_horizon_steps step))

    unfoldable pub total_minutes_of : String × String → Result TimeError ℤ
    total_minutes_of (hour_text, minute_text) = converted (py.to_int hour_text) >>= λ hours.
        converted (py.to_int minute_text) >>= λ minutes. ok (in_minutes hours minutes)

    unfoldable pub parse_time_to_step : V → Float → ℕ → Bool → Result TimeError ℕ
    parse_time_to_step value timestep_minutes full_horizon_steps is_end =
        raise_if (py.is_na value || py.is_empty value) empty_time
        >> elim (py.split_colon (py.stripped value)) [
          | some parts ↦ total_minutes_of parts >>= λ total.
              clock_step (of_int total) timestep_minutes full_horizon_steps is_end
          | none ↦ converted (py.to_float (py.stripped value)) >>= λ numeric.
              numeric_step numeric timestep_minutes full_horizon_steps is_end
        ]

    unfoldable pub clock_duration : ℤ → ℤ → Float → Result TimeError ℤ
    clock_duration start_total end_total timestep_minutes =
        raise_if (ltb_ℤ end_total start_total) end_before_start
        >> divided (of_int (end_total -ℤ start_total)) timestep_minutes
        >>= λ duration_steps.
            raise_if (not (py.is_integer duration_steps)) not_aligned
            >> converted (py.truncate duration_steps)

    unfoldable pub numeric_duration : V → V → Result TimeError ℤ
    numeric_duration start_value end_value =
        converted (py.value_float start_value) >>= λ start_numeric.
        converted (py.value_float end_value) >>= λ end_numeric.
        let duration_steps = sub end_numeric start_numeric in
        raise_if (lt duration_steps float_zero) end_before_start
        >> raise_if (not (py.is_integer duration_steps)) not_aligned
        >> converted (py.truncate duration_steps)

    unfoldable pub get_duration_steps : V → V → Float → Result TimeError ℤ
    get_duration_steps start_value end_value timestep_minutes =
        raise_if (py.is_na start_value || py.is_na end_value) empty_time
        >> elim (py.split_colon (py.stripped start_value)) [
          | none ↦ numeric_duration start_value end_value
          | some start ↦ elim (py.split_colon (py.stripped end_value)) [
            | none ↦ numeric_duration start_value end_value
            | some end ↦ total_minutes_of start >>= λ start_total.
                total_minutes_of end >>= λ end_total.
                clock_duration start_total end_total timestep_minutes
          ]
        ]

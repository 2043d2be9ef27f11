-- ===== src/Horizon/Tests.antt =====
-- The horizon on small days, and its theorems at them, in the fixed-point arithmetic.
use text.Mathlib.Text.{◌==◌ as str_eq}
use depotflux_demo.Prelude.{
  ℕ, suc, ◌+◌, ◌*◌, ◌/◌, ◌%◌, ◌^◌, ◌≤◌, ◌<◌, ◌≡◌, refl, ap, ◌∙◌, true, false, Option, none, some,
  [], ◌∷◌, String, ◌==◌, if◌then◌else◌, ok, Returns, arith,
}
use depotflux_demo.Prelude.Int.{ℤ, pos, negsuc, sub_ℕ}
use depotflux_demo.Floats.Fixed.{fixed, magnitude}
use depotflux_demo.Horizon.{given, collect, float_of, build_multiplier_schedule}
use depotflux_demo.Horizon.Boundaries.{max_step, ExactSteps, IsStep}
use depotflux_demo.Horizon.Multipliers.{
  IsSchedule, IsHeld, build_multiplier_schedule-IsSchedule, build_multiplier_schedule-holds,
}
use depotflux_demo.Horizon.Align.{rows_within, paired, align_series_to_horizon}
use depotflux_demo.Horizon.Align.Filled.{KeepsRows, align_series_to_horizon-KeepsRows}
use depotflux_demo.Horizon.Times.{TripTimes, parse_time_to_step, get_duration_steps}
use depotflux_demo.Horizon.Times.Windows.{
  ExactMinutes, IsClockTime, IsWindow, duration, parse_time_to_step-IsWindow,
  get_duration_steps_lem,
}

abbrev one : ℤ
one = pos 10000000

abbrev two : ℤ
two = pos 20000000

abbrev four : ℤ
four = pos 40000000

counted : (n : ℕ) → (10 ^ 7 * n + 5000000) / 10 ^ 7 ≡ n
counted n = omega arith

exact_steps : ExactSteps ⦃F = fixed⦄
exact_steps = record {
  count_rounds = λ n small. ap (λ k. some (pos k)) (counted n);
  scaled_rounds = λ b source target small some_source small_source small_target. (_, refl);
}

small : (n : ℕ) → n ≤ 6 → n ≤ max_step
unfolding max_step
small n h = omega (arith, h)

steps : IsStep ⦃F = fixed⦄ (λ x. some x) (given two) × IsStep ⦃F = fixed⦄ (λ x. some x) (given four)
steps = (
  (two, refl, (pos 2, refl, small 2 (omega arith))),
  (four, refl, (pos 4, refl, small 4 (omega arith))),
)

build_multiplier_schedule-IsSchedule_example :
    Returns
      (λ made. IsSchedule 6 made.0 made.1)
      (build_multiplier_schedule
        (λ x. some x)
        (one ∷ two ∷ [])
        (given two ∷ given four ∷ [])
        6
        "tariff")
build_multiplier_schedule-IsSchedule_example =
    build_multiplier_schedule-IsSchedule (λ x. some x) exact_steps one (two ∷ [])
      (given two ∷ given four ∷ []) 6 "tariff" ((one, refl), ((two, refl), tt))
      (small 2 (omega arith)) (steps.0, (steps.1, tt)) (small 6 (omega arith))

build_multiplier_schedule-holds_example :
    Returns
      (λ made. (t : ℕ) → t < 6 → IsHeld t (one ∷ two ∷ []) made.1 made.0 t)
      (build_multiplier_schedule
        (λ x. some x)
        (one ∷ two ∷ [])
        (given two ∷ given four ∷ [])
        6
        "tariff")
unfolding collect float_of
build_multiplier_schedule-holds_example =
    build_multiplier_schedule-holds (λ x. some x) exact_steps (one ∷ two ∷ []) one (two ∷ [])
      (given two) (given four ∷ []) 6 "tariff" refl refl refl (steps.0, (steps.1, tt))
      (small 6 (omega arith))

abbrev whole_part : ℤ → Option ℤ
whole_part (pos n) = some (pos (n / 10000000))
whole_part (negsuc n) = some (sub_ℕ 0 (suc n / 10000000))

align_series_to_horizon-KeepsRows_example :
    Returns
      (KeepsRows 3 ((2, four) ∷ []))
      (align_series_to_horizon whole_part (λ x. some x) (four ∷ []) 3 1 "prices" (some (two ∷ [])))
unfolding rows_within paired
align_series_to_horizon-KeepsRows_example =
    align_series_to_horizon-KeepsRows whole_part (λ x. some x) (four ∷ []) (two ∷ []) 3 1 "prices"
      (2, four) [] refl

abbrev clock : TripTimes ⦃F = fixed⦄ String
clock = record {
  is_na = λ _. false;
  is_empty = λ t. str_eq t "";
  stripped = λ t. t;
  value_float = λ _. none;
  split_colon = λ t. if str_eq t "07:10" then some ("07", "10") else some ("08", "40");
  to_int = λ t.
      if str_eq t "07"
      then some (pos 7)
      else if str_eq t "08"
      then some (pos 8)
      else if str_eq t "10"
      then some (pos 10)
      else some (pos 40);
  to_float = λ _. none;
  is_integer = λ x. magnitude x % 10000000 == 0;
  truncate = whole_part;
}

scaled_quarters : (n : ℕ) → 10 ^ 7 * n * 10 ^ 7 / 150000000 ≡ 10 ^ 7 * n / 15
scaled_quarters n = omega arith

whole_quarters : (n : ℕ) → (10 ^ 7 * n / 15 % 10000000 == 0) ≡ (n % 15 == 0)
whole_quarters n = ground arith

exact_quarters : ExactMinutes clock 15
exact_quarters = record {
  positive = omega arith;
  nonzero = refl;
  truncates = λ n small.
      ap (λ k. some (pos (k / 10000000))) (scaled_quarters n)
      ∙ ap (λ k. some (pos k)) {x = 10 ^ 7 * n / 15 / 10000000} (omega arith);
  is_whole = λ n small. ap (λ k. k % 10000000 == 0) (scaled_quarters n) ∙ whole_quarters n;
}

morning : IsClockTime clock "07:10" 430
morning = record {
  is_value = refl;
  is_text = refl;
  hour_text = "07";
  minute_text = "10";
  splits = refl;
  hours = 7;
  minutes = 10;
  reads_hours = refl;
  reads_minutes = refl;
  is_total = refl;
  is_exact = omega arith;
}

later : IsClockTime clock "08:40" 520
later = record {
  is_value = refl;
  is_text = refl;
  hour_text = "08";
  minute_text = "40";
  splits = refl;
  hours = 8;
  minutes = 40;
  reads_hours = refl;
  reads_minutes = refl;
  is_total = refl;
  is_exact = omega arith;
}

parse_time_to_step-IsWindow_example :
    (start : ℕ) × (end : ℕ) × (parse_time_to_step clock "07:10" (fixed.of_int (pos 15)) 96 false
      ≡ ok start)
    × (parse_time_to_step clock "08:40" (fixed.of_int (pos 15)) 96 true ≡ ok end)
    × IsWindow clock 15 exact_quarters 96 430 520 start end
parse_time_to_step-IsWindow_example =
    parse_time_to_step-IsWindow clock 15 exact_quarters "07:10" "08:40" 430 520 96 (omega arith)
      morning later (omega arith)

get_duration_steps_lem_example :
    get_duration_steps clock "07:10" "08:40" (fixed.of_int (pos 15))
    ≡ duration clock 15 exact_quarters 430 520
get_duration_steps_lem_example =
    get_duration_steps_lem clock 15 exact_quarters "07:10" "08:40" 430 520 morning later

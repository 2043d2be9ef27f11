-- ===== src/Horizon/Times/Windows.antt =====
-- aggregator_demo/optimization/day_ahead.py: the steps of the clock times of a trip.
use Prim.Native.Nat.{max, min}
use native.Mathlib.Nat.{
  add-mul-div_left, add-div_left, div-eq_of_lt, le-div_iff_mul-le, div-mul-le_self,
}
use native.Mathlib.Omega.{div_any}
use depotflux_demo.Prelude.{
  ℕ, ◌+◌, ◌-◌, ◌*◌, ◌/◌, ◌%◌, ◌^◌, ◌≤◌, ◌<◌, ◌≡◌, refl, ap, ◌∙◌, inl, inr, Bool, not, true, false,
  some, String, ltb, ◌==◌, if◌then◌else◌, Result, ok, err, Bool-cases, raise_if, ◌>>◌, arith,
}
use depotflux_demo.Prelude.Int.{ℤ, pos, ltb_ℤ, ◌+ℤ◌, ◌-ℤ◌}
use depotflux_demo.Floats.{Floats}
use depotflux_demo.Horizon.Times.{
  TimeError, end_before_start, not_aligned, TripTimes, converted, in_minutes, clamped, divided,
  step_of, clock_step, total_minutes_of, parse_time_to_step, clock_duration, get_duration_steps,
}

pos_add : (a b : ℕ) → pos a +ℤ pos b ≡ pos (a + b)
unfolding ◌+ℤ◌
pos_add a b = ground arith

sub_pos : (a b : ℕ) → ltb a b ≡ false → pos a -ℤ pos b ≡ pos (a - b)
unfolding ◌-ℤ◌
sub_pos a b h = ground (arith, h)

early_ℤ : (s e : ℕ) → ltb_ℤ (pos e) (pos s) ≡ ltb e s
early_ℤ s e = ground arith

-- The quotient rounded up, by the quotient and the remainder.
rounded_up : (n m : ℕ) → 1 ≤ m → (n + (m - 1)) / m ≡ n / m + (if n % m == 0 then 0 else 1)
rounded_up n m h =
    let shifted : (n + (m - 1)) / m ≡ (n % m + (m - 1)) / m + n / m =
      ap (λ k. k / m) {y = n % m + (m - 1) + m * (n / m)} (omega (arith, div_any n m))
      ∙ add-mul-div_left (n % m + (m - 1)) (n / m) h in
    elim (Bool-cases (n % m == 0)) [
      | inl whole ↦
          let none_left : (n % m + (m - 1)) / m ≡ 0 = div-eq_of_lt (ground (arith, whole, h)) in
          rw whole (omega (arith, shifted, none_left))
      | inr part ↦
          let one_more : (n % m + (m - 1)) / m ≡ (n % m - 1) / m + 1 =
            ap (λ k. k / m) {y = m + (n % m - 1)} (ground (arith, part, h))
            ∙ add-div_left (n % m - 1) h in
          let no_more : (n % m - 1) / m ≡ 0 = div-eq_of_lt (omega (arith, h)) in
          rw part (omega (arith, shifted, one_more, no_more))
    ]

div_mono : (a b m : ℕ) → 1 ≤ m → a ≤ b → a / m ≤ b / m
div_mono a b m h le = (le-div_iff_mul-le h).1 (omega (arith, le, div-mul-le_self a m))

-- What doubles guarantee of the quotient of a count of minutes by a whole timestep: they cut it to
-- the quotient of the integers, and see whether it is whole.
pub record ExactMinutes ⦃F : Floats⦄ {V : Type 0} (py : TripTimes V) (timestep : ℕ) : Type 0 where
  pub positive : 1 ≤ timestep
  pub nonzero : F.is_zero (F.of_int (pos timestep)) ≡ false
  pub truncates :
      (n : ℕ)
      → n < 2 ^ 20
      → py.truncate (F.div (F.of_int (pos n)) (F.of_int (pos timestep))) ≡ some (pos (n / timestep))
  pub is_whole :
      (n : ℕ)
      → n < 2 ^ 20
      → py.is_integer (F.div (F.of_int (pos n)) (F.of_int (pos timestep))) ≡ (n % timestep == 0)

module _ ⦃F : Floats⦄ {V : Type 0} (py : TripTimes V) where
  -- The value is a clock time, "hours:minutes", that many minutes after midnight.
  pub record IsClockTime (value : V) (total : ℕ) : Type 0 where
    pub is_value : py.is_na value ≡ false
    pub is_text : py.is_empty value ≡ false
    pub hour_text : String
    pub minute_text : String
    pub splits : py.split_colon (py.stripped value) ≡ some (hour_text, minute_text)
    pub hours : ℕ
    pub minutes : ℕ
    pub reads_hours : py.to_int hour_text ≡ some (pos hours)
    pub reads_minutes : py.to_int minute_text ≡ some (pos minutes)
    pub is_total : hours * 60 + minutes ≡ total
    pub is_exact : total < 2 ^ 20

  total_minutes_of_lem :
      (value : V) (total : ℕ) (time : IsClockTime value total)
      → total_minutes_of py (time.hour_text, time.minute_text) ≡ ok (pos total)
  unfolding total_minutes_of converted in_minutes
  total_minutes_of_lem value total time =
      rw (time.reads_hours, time.reads_minutes, pos_add)
        (ap (λ n. ok (pos n)) {x = time.hours * 60 + time.minutes} time.is_total)

  module _ (timestep : ℕ) (exact : ExactMinutes py timestep) where
    -- The step a time falls into, for a start, and the step after the time, for an end.
    abbrev pub step_at : ℕ → Bool → ℕ
    step_at total true = (total + (timestep - 1)) / timestep + 1
    step_at total false = total / timestep + 1

    ends :
        (total : ℕ)
        → total / timestep + (if not (total % timestep == 0) then 2 else 1)
          ≡ (total + (timestep - 1)) / timestep + 1
    ends total = elim (Bool-cases (total % timestep == 0)) [
      | inl whole ↦ ground (arith, whole, rounded_up total timestep exact.positive)
      | inr part ↦ ground (arith, part, rounded_up total timestep exact.positive)
    ]

    step_of_lem :
        (total : ℕ) (is_end : Bool)
        → total < 2 ^ 20
        → step_of py is_end (F.div (F.of_int (pos total)) (F.of_int (pos timestep)))
          ≡ ok (pos (step_at total is_end))
    unfolding step_of converted
    step_of_lem total true small =
        rw (exact.truncates total small, exact.is_whole total small, pos_add)
          (ap (λ n. ok (pos n)) {y = (total + (timestep - 1)) / timestep + 1} (ends total))
    step_of_lem total false small = rw (exact.truncates total small, pos_add) refl

    parse_time_to_step-clock :
        (value : V) (total full : ℕ) (is_end : Bool) (time : IsClockTime value total)
        → parse_time_to_step py value (F.of_int (pos timestep)) full is_end
          ≡ ok (max 1 (min full (step_at total is_end)))
    unfolding parse_time_to_step clock_step divided clamped
    parse_time_to_step-clock value total full is_end time =
        rw
          (
            time.is_value,
            time.is_text,
            time.splits,
            total_minutes_of_lem value total time,
            exact.nonzero,
            step_of_lem total is_end time.is_exact,
          )
          refl

    -- The window of a trip between two clock times, the end not before the start, on a horizon of
    -- at least one step: both parse, the first to the step that the start falls into, the second to
    -- the step after the end, each cut to the horizon, and the first is at least 1, no later than
    -- the second, which is within the horizon.
    pub record IsWindow (full start_total end_total start end : ℕ) : Type 0 where
      pub starts : start ≡ max 1 (min full (start_total / timestep + 1))
      pub finishes : end ≡ max 1 (min full ((end_total + (timestep - 1)) / timestep + 1))
      pub first : 1 ≤ start
      pub ordered : start ≤ end
      pub last : end ≤ full

    -- On a horizon of at least one step, two clock times below 2^20 minutes, the end not
    -- before the start, both parse under a whole timestep whose quotients are exact: the
    -- first to the step that the start falls into, the second to the step after the end
    -- rounded up, each cut to the horizon; the first is at least 1 and no later than the
    -- second, which is within the horizon.
    pub parse_time_to_step-IsWindow :
        (start_value end_value : V) (start_total end_total full : ℕ)
        → 1 ≤ full
        → IsClockTime start_value start_total
        → IsClockTime end_value end_total
        → start_total ≤ end_total
        → (start : ℕ) × (end : ℕ) × (parse_time_to_step py start_value
              (F.of_int (pos timestep))
              full
              false
            ≡ ok start)
          × (parse_time_to_step py end_value (F.of_int (pos timestep)) full true ≡ ok end)
          × IsWindow full start_total end_total start end
    parse_time_to_step-IsWindow start_value end_value start_total end_total full some_steps start
          end le =
        (
          max 1 (min full (step_at start_total false)),
          max 1 (min full (step_at end_total true)),
          parse_time_to_step-clock start_value start_total full false start,
          parse_time_to_step-clock end_value end_total full true end,
          record {
            starts = refl;
            finishes = refl;
            first = omega arith;
            ordered = omega (
              arith,
              div_mono start_total (end_total + (timestep - 1)) timestep exact.positive
                  (omega (arith, le)),
            );
            last = omega (arith, some_steps);
          },
        )

    -- The duration of a trip between two clock times: an error where the end is earlier than the
    -- start, an error where the duration is no multiple of the timestep, and otherwise the number of
    -- timesteps.
    abbrev pub duration : ℕ → ℕ → Result TimeError ℤ
    duration start_total end_total =
        if ltb end_total start_total
        then err end_before_start
        else if (end_total - start_total) % timestep == 0
        then ok (pos ((end_total - start_total) / timestep))
        else err not_aligned

    clock_duration_lem :
        (start_total end_total : ℕ)
        → end_total < 2 ^ 20
        → clock_duration py (pos start_total) (pos end_total) (F.of_int (pos timestep))
          ≡ duration start_total end_total
    unfolding clock_duration divided converted
    clock_duration_lem s e small = elim (Bool-cases (ltb e s)) [
      | inl early ↦ rw (early_ℤ s e, early) refl
      | inr late ↦
          let elapsed : pos e -ℤ pos s ≡ pos (e - s) = sub_pos e s late in
          rw
            (
              early_ℤ s e,
              late,
              elapsed,
              exact.nonzero,
              exact.is_whole (e - s) (omega (arith, small)),
              exact.truncates (e - s) (omega (arith, small)),
            )
            (aligned ((e - s) % timestep == 0))
    ]
      where
        aligned :
            (whole : Bool)
            → (raise_if (not whole) not_aligned >> ok (pos ((e - s) / timestep)))
              ≡ (if whole then ok (pos ((e - s) / timestep)) else err not_aligned)
        aligned true = refl
        aligned false = refl

    -- Under a whole timestep whose quotients are exact, the duration of a trip between two
    -- clock times below 2^20 minutes is an error where the end is earlier than the start, an
    -- error where the duration is no multiple of the timestep, and otherwise the number of
    -- timesteps.
    pub get_duration_steps_lem :
        (start_value end_value : V) (start_total end_total : ℕ)
        → IsClockTime start_value start_total
        → IsClockTime end_value end_total
        → get_duration_steps py start_value end_value (F.of_int (pos timestep))
          ≡ duration start_total end_total
    unfolding get_duration_steps
    get_duration_steps_lem start_value end_value start_total end_total start end =
        rw
          (
            start.is_value,
            end.is_value,
            start.splits,
            end.splits,
            total_minutes_of_lem start_value start_total start,
            total_minutes_of_lem end_value end_total end,
          )
          (clock_duration_lem start_total end_total end.is_exact)

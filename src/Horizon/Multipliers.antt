-- ===== src/Horizon/Multipliers.antt =====
-- aggregator_demo/optimization/day_ahead.py, expand_series_to_horizon and build_multiplier_schedule:
-- the length and the entries of the schedules.
use Prim.Native.Nat.{min, max}
use depotflux_demo.Prelude.{
  ℕ, suc, zero, ◌+◌, ◌-◌, ◌*◌, ◌/◌, ◌%◌, ◌<◌, ◌≡◌, inl, inr, refl, ap, ◌∙◌, Bool-cases, Option,
  none, some, List, [], ◌∷◌, ◌++◌, String, length, get_elem?, take, length-append, length-take,
  ◌==◌, ==_iff, ltb, if◌then◌else◌, Result, ok, err, ◌>>=◌, arith, true, false, Returns,
  bind-Returns, if-Returns, All, ◌≤◌,
}
use depotflux_demo.Floats.{Floats}
use depotflux_demo.Horizon.{
  SeriesError, index_error, Boundary, replicate, repeat_each, range, spread, segments, fitted,
  last_of, expanded, collect, float_of, scaled_schedule, schedule_of, build_multiplier_schedule,
  cannot_be_empty,
}
use depotflux_demo.Horizon.Boundaries.{
  RisesTo, range-RisesTo, max_step, ExactSteps, IsNumber, IsStep, collect-Returns, last_of-All,
  float_of-Returns, scale_boundaries_to_horizon-RisesTo,
}

module _ {A : Type 0} where
  pub length-replicate : (n : ℕ) (x : A) → length (replicate n x) ≡ n
  unfolding replicate
  length-replicate zero x = refl
  length-replicate (suc n) x = ap suc (length-replicate n x)

  length-repeat_each : (n : ℕ) (xs : List A) → length (repeat_each n xs) ≡ length xs * n
  unfolding repeat_each
  length-repeat_each n [] = omega arith
  length-repeat_each n (x ∷ xs) = omega (
    arith,
    length-append (replicate n x) (repeat_each n xs),
    length-replicate n x,
    length-repeat_each n xs,
  )

  get_elem?_lem : (xs : List A) (i : ℕ) → i < length xs → (x : A) × (get_elem? xs i ≡ some x)
  get_elem?_lem [] i h = absurd (omega (arith, h))
  get_elem?_lem (x ∷ xs) zero h = (x, refl)
  get_elem?_lem (x ∷ xs) (suc i) h = get_elem?_lem xs i (omega (arith, h))

  spread_step :
      (left : ℕ) (o : Option A) (rest : Result SeriesError (List A))
      → (x : A) × (o ≡ some x)
      → Returns (λ ys. length ys ≡ left) rest
      → Returns
          (λ ys. length ys ≡ suc left)
          (elim o [ none ↦ err index_error | some v ↦ rest >>= λ ys. ok (v ∷ ys) ])
  spread_step left none rest (x, e) h = absurd (ground (arith, e))
  spread_step left (some v) rest found h = bind-Returns h (λ ys same. (v ∷ ys, refl, ap suc same))

  -- The clamp to `len(values) - 1` keeps every index inside the series.
  spread-Returns :
      (x : A) (xs : List A) (target idx left : ℕ)
      → Returns (λ ys. length ys ≡ left) (spread (x ∷ xs) target idx left)
  unfolding spread
  spread-Returns x xs target idx zero = ([], refl, refl)
  spread-Returns x xs target idx (suc left) =
      spread_step left _ _
        (get_elem?_lem (x ∷ xs) (min (length (x ∷ xs) - 1) (idx * length (x ∷ xs) / target))
          (omega arith))
        (spread-Returns x xs target (suc idx) left)

  -- A series that is not empty is brought to the horizon without an error, and has one entry for
  -- each of its steps.
  pub length-expanded :
      (x : A) (xs : List A) (target_steps : ℕ) (series_name : String)
      → Returns (λ ys. length ys ≡ target_steps) (expanded (x ∷ xs) target_steps series_name)
  unfolding expanded
  length-expanded x xs target name =
      if-Returns (length (x ∷ xs) == target) (λ same. (x ∷ xs, refl, (==_iff _ _).0 same))
        (λ _.
          if-Returns (length (x ∷ xs) == 1)
            (λ _. (replicate target x, refl, length-replicate target x))
            (λ _.
              if-Returns (target % length (x ∷ xs) == 0)
                (λ whole. (
                  repeat_each (target / length (x ∷ xs)) (x ∷ xs),
                  refl,
                  length-repeat_each _ (x ∷ xs) ∙ ground (arith, whole),
                ))
                (λ _. spread-Returns x xs target 0 target)))

  length-fitted : (target : ℕ) (last : A) (xs : List A) → length (fitted target last xs) ≡ target
  length-fitted target last xs = elim (Bool-cases (ltb (length xs) target)) [
    | inl short ↦ rw short (
        length-take target (xs ++ replicate (target - length xs) last)
        ∙ padded target (length xs) _ (length-replicate (target - length xs) last)
            (length-append xs _) short)
    | inr long ↦ rw long (length-take target xs ∙ ground (arith, long))
  ]
    where
      padded :
          (target n m : ℕ) {k : ℕ}
          → k ≡ target - n
          → m ≡ n + k
          → ltb n target ≡ true
          → min target m ≡ target
      padded target n m p q h = ground (arith, p, q, h)

  -- The multiplier of the first boundary above the step `t`, which counts from 0.
  unfoldable pub held : ℕ → List A → List ℕ → Option A
  held t (m ∷ ms) (b ∷ bs) = if ltb t b then some m else held t ms bs
  held t _ _ = none

  within : (n i : ℕ) (x : A) (xs : List A) → i < n → get_elem? (replicate n x ++ xs) i ≡ some x
  unfolding replicate
  within zero i x xs h = absurd (omega (arith, h))
  within (suc n) zero x xs h = refl
  within (suc n) (suc i) x xs h = within n i x xs (omega (arith, h))

  beyond :
      (n k i : ℕ) (x : A) (xs : List A)
      → k ≡ n + i
      → get_elem? (replicate n x ++ xs) k ≡ get_elem? xs i
  unfolding replicate
  beyond zero k i x xs e = ap (get_elem? xs) {y = i} (omega (arith, e))
  beyond (suc n) zero i x xs e = absurd (omega (arith, e))
  beyond (suc n) (suc k) i x xs e = beyond n k i x xs (omega (arith, e))

  -- The value that a list has at `i`, and that the multipliers hold at step `t`.
  abbrev pub IsHeld : ℕ → List A → List ℕ → List A → ℕ → Type 0
  IsHeld t ms bs schedule i = (v : A) × (held t ms bs ≡ some v) × (get_elem? schedule i ≡ some v)

  segments-IsHeld :
      (target start : ℕ) (ms : List A) (bs : List ℕ)
      → length ms ≡ length bs
      → RisesTo target start bs
      → (i : ℕ) → start + i < target
      → IsHeld (start + i) ms bs (segments target start ms bs) i
  unfolding segments held
  segments-IsHeld target start [] [] same rises i h = absurd (omega (arith, rises, h))
  segments-IsHeld target start (m ∷ ms) [] same rises i h = absurd (ground (arith, same))
  segments-IsHeld target start [] (b ∷ bs) same rises i h = absurd (ground (arith, same))
  segments-IsHeld target start (m ∷ ms) (b ∷ bs) same (next, below, rest) i h =
      elim (Bool-cases (ltb (start + i) b)) [
        | inl here ↦ (m, rw here refl, within _ i m _ (ground (arith, here, below)))
        | inr later ↦
            let j = i - (b - start) in
            let moved : start + i ≡ b + j = ground (arith, next, later, h) in
            let end : max (start + 1) (min target b) ≡ b = ground (arith, next, below, h) in
            let (v, holds, found) =
              segments-IsHeld target b ms bs (ground (arith, same)) rest j
                (omega (arith, moved, h)) in
            (
              v,
              rw later (ap (λ t. held t ms bs) moved ∙ holds),
              ap (λ e. get_elem? (replicate (e - start) m ++ segments target e ms bs) i) end
                  ∙ beyond (b - start) i j m _ (ground (arith, next, later, h))
                  ∙ found,
            )
      ]

  get_elem?-append :
      (xs ys : List A) (i : ℕ) (v : A) → get_elem? xs i ≡ some v → get_elem? (xs ++ ys) i ≡ some v
  get_elem?-append [] ys i v e = absurd (ground (arith, e))
  get_elem?-append (x ∷ xs) ys zero v e = e
  get_elem?-append (x ∷ xs) ys (suc i) v e = get_elem?-append xs ys i v e

  get_elem?-take : (n i : ℕ) (xs : List A) → i < n → get_elem? (take n xs) i ≡ get_elem? xs i
  get_elem?-take zero i xs h = absurd (omega (arith, h))
  get_elem?-take (suc n) i [] h = refl
  get_elem?-take (suc n) zero (x ∷ xs) h = refl
  get_elem?-take (suc n) (suc i) (x ∷ xs) h = get_elem?-take n i xs (omega (arith, h))

  fitted-held :
      (target t : ℕ) (last v : A) (xs : List A)
      → t < target
      → get_elem? xs t ≡ some v
      → get_elem? (fitted target last xs) t ≡ some v
  fitted-held target t last v xs h e = elim (Bool-cases (ltb (length xs) target)) [
    | inl short ↦ rw short (get_elem?-take target t _ h ∙ get_elem?-append xs _ t v e)
    | inr long ↦ rw long (get_elem?-take target t xs h ∙ e)
  ]

-- A schedule of the day, with its boundaries.
pub record IsSchedule {A : Type 0} (target : ℕ) (schedule : List A) (boundaries : List ℕ)
    : Type 0 where
  pub covers : length schedule ≡ target
  pub rises : RisesTo target 0 boundaries

module _ ⦃F : Floats⦄ {V : Type 0} (to_float : V → Option F.Float) (exact : ExactSteps) where
  abbrev Made : ℕ → Result SeriesError (List F.Float × List ℕ) → Type 0
  Made target made = Returns (λ r. IsSchedule target r.0 r.1) made

  scaled_schedule-Made :
      (m : F.Float) (ms : List F.Float) (b : Boundary V) (bs : List (Boundary V))
      (source_steps : Boundary V) (target : ℕ) (series_name : String)
      → All (IsStep to_float) (b ∷ bs)
      → IsStep to_float source_steps
      → target ≤ max_step
      → Made target (scaled_schedule to_float m ms (b ∷ bs) source_steps target series_name)
  unfolding scaled_schedule
  scaled_schedule-Made m ms b bs source target name all last small =
      bind-Returns
        (scale_boundaries_to_horizon-RisesTo to_float exact b bs target (some source) all small
          last)
        (λ scaled (rises, same).
          if-Returns (length (m ∷ ms) == length scaled)
            (λ _. (_, refl, record { covers = length-fitted target _ _; rises = rises }))
            (λ _. bind-Returns (length-expanded m ms target name) (λ schedule covers. (
              (schedule, range 1 target),
              refl,
              record { covers = covers; rises = range-RisesTo 0 target target (omega arith) },
            ))))

  schedule_of-Made :
      (m : F.Float) (ms : List F.Float) (boundaries : List (Boundary V)) (target : ℕ)
      (series_name : String)
      → All (IsStep to_float) boundaries
      → length (m ∷ ms) ≤ max_step
      → target ≤ max_step
      → Made target (schedule_of to_float m ms boundaries target series_name)
  unfolding schedule_of
  schedule_of-Made m ms [] target name all few small =
      scaled_schedule-Made m ms _ [] _ target name (few, tt) few small
  schedule_of-Made m ms (b ∷ bs) target name all few small =
      scaled_schedule-Made m ms b bs _ target name all (last_of-All (IsStep to_float) b bs all)
        small

  converted-Made :
      (multipliers : List F.Float) (n : ℕ) (boundaries : List (Boundary V)) (target : ℕ)
      (series_name : String)
      → length multipliers ≡ suc n
      → All (IsStep to_float) boundaries
      → suc n ≤ max_step
      → target ≤ max_step
      → Made target (elim multipliers [
        | [] ↦ err (cannot_be_empty series_name)
        | m ∷ ms ↦
            if length (m ∷ ms) == target
            then ok (m ∷ ms, range 1 target)
            else schedule_of to_float m ms boundaries target series_name
      ])
  converted-Made [] n boundaries target name h all few small = absurd (ground (arith, h))
  converted-Made (m ∷ ms) n boundaries target name h all few small =
      if-Returns (length (m ∷ ms) == target)
        (λ same. (
          (m ∷ ms, range 1 target),
          refl,
          record {
            covers = (==_iff _ _).0 same;
            rises = range-RisesTo 0 target target (omega arith);
          },
        ))
        (λ _. schedule_of-Made m ms boundaries target name all (omega (arith, h, few)) small)

  -- Under the facts about counts up to 2^53, multipliers that float() converts, at least one
  -- and at most 2^53, and boundaries that it converts and that round to 2^53 at most make a
  -- schedule for a horizon of at most 2^53 steps without an error: it has exactly one entry for
  -- each step of the horizon, and its boundaries rise strictly from 0 until one is the last
  -- step, never pass it, and end there.
  pub build_multiplier_schedule-IsSchedule :
      (first : V) (rest : List V) (boundaries : List (Boundary V)) (target_steps : ℕ)
      (series_name : String)
      → All (IsNumber to_float) (first ∷ rest)
      → length (first ∷ rest) ≤ max_step
      → All (IsStep to_float) boundaries
      → target_steps ≤ max_step
      → Returns
          (λ made. IsSchedule target_steps made.0 made.1)
          (build_multiplier_schedule to_float (first ∷ rest) boundaries target_steps series_name)
  unfolding build_multiplier_schedule
  build_multiplier_schedule-IsSchedule first rest boundaries target name numbers few all small =
      bind-Returns
        (collect-Returns (IsNumber to_float) (λ _. Unit) _ (float_of-Returns to_float)
          (first ∷ rest) numbers)
        (λ multipliers (_, same).
          converted-Made multipliers (length rest) boundaries target name same all few small)

  scaled_schedule-holds :
      (m : F.Float) (ms : List F.Float) (b : Boundary V) (bs : List (Boundary V))
      (source_steps : Boundary V) (target_steps : ℕ) (series_name : String)
      → length ms ≡ length bs
      → All (IsStep to_float) (b ∷ bs)
      → IsStep to_float source_steps
      → target_steps ≤ max_step
      → Returns
          (λ made. (t : ℕ) → t < target_steps → IsHeld t (m ∷ ms) made.1 made.0 t)
          (scaled_schedule to_float m ms (b ∷ bs) source_steps target_steps series_name)
  unfolding scaled_schedule
  scaled_schedule-holds m ms b bs source target name as_many all last small =
      bind-Returns
        (scale_boundaries_to_horizon-RisesTo to_float exact b bs target (some source) all small
          last)
        (λ scaled (rises, same).
          if-Returns (length (m ∷ ms) == length scaled)
            (λ equal. (
              _,
              refl,
              λ t below. fits scaled _ t below (
                  segments-IsHeld target 0 (m ∷ ms) scaled ((==_iff _ _).0 equal) rises t
                    (omega (arith, below))),
            ))
            (λ differ. absurd (ground (arith, as_many, same, differ))))
    where
      fits :
          (scaled : List ℕ) (schedule : List F.Float) (t : ℕ)
          → t < target
          → IsHeld (0 + t) (m ∷ ms) scaled schedule t
          → IsHeld t (m ∷ ms) scaled (fitted target (last_of m ms) schedule) t
      fits scaled schedule t below (v, holds, found) = (
        v,
        ap (λ i. held i (m ∷ ms) scaled) (omega arith) ∙ holds,
        fitted-held target t _ v _ below found,
      )

  -- Under the facts about counts up to 2^53, multipliers that convert to the floats m and ms,
  -- with as many boundaries that round to 2^53 at most, where they are not one for each of at
  -- most 2^53 steps of the horizon, make a schedule without an error, and at every step of the
  -- horizon, counted from 0, it has the multiplier of the first returned boundary above the
  -- step.
  pub build_multiplier_schedule-holds :
      (values : List V) (m : F.Float) (ms : List F.Float) (b : Boundary V) (bs : List (Boundary V))
      (target_steps : ℕ) (series_name : String)
      → collect (float_of to_float) values ≡ ok (m ∷ ms)
      → length ms ≡ length bs
      → (length (m ∷ ms) == target_steps) ≡ false
      → All (IsStep to_float) (b ∷ bs)
      → target_steps ≤ max_step
      → Returns
          (λ made. (t : ℕ) → t < target_steps → IsHeld t (m ∷ ms) made.1 made.0 t)
          (build_multiplier_schedule to_float values (b ∷ bs) target_steps series_name)
  unfolding build_multiplier_schedule schedule_of
  build_multiplier_schedule-holds values m ms b bs target name converted as_many differ all small =
      rw (converted, differ)
        (scaled_schedule-holds m ms b bs (last_of b bs) target name as_many all
          (last_of-All (IsStep to_float) b bs all) small)

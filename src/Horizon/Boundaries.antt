-- ===== src/Horizon/Boundaries.antt =====
-- aggregator_demo/optimization/day_ahead.py, scale_boundaries_to_horizon: what the scaled boundaries
-- are.
use Prim.Native.Nat.{min, max}
use depotflux_demo.Prelude.{
  ℕ, suc, zero, ◌+◌, ◌≤◌, ◌<◌, ◌≡◌, ◌⊎◌, inl, inr, refl, ap, ◌∙◌, Bool-cases, Result-cases, Option,
  none, some, List, [], ◌∷◌, length, ◌==◌, Result, ok, ◌>>=◌, arith, Returns, bind-Returns, All,
  if◌then◌else◌,
}
use depotflux_demo.Prelude.Int.{ℤ, pos, pos_part}
use depotflux_demo.Floats.{Floats}
use depotflux_demo.Horizon.{
  SeriesError, Boundary, given, count, monotonic, set_last, range, last_of, rounded_step,
  scaled_step, collect, float_of, boundary_of, cleaned_source, scale_boundaries_to_horizon,
}

-- After `prev`, boundaries that rise strictly until one is the target, that stay there, and that
-- end there.
abbrev pub RisesTo : ℕ → ℕ → List ℕ → Type 0
RisesTo target prev [] = prev ≡ target
RisesTo target prev (b ∷ bs) = ((prev < b) ⊎ (b ≡ target)) × (b ≤ target) × RisesTo target b bs

pub length-range : (start steps : ℕ) → length (range start steps) ≡ steps
unfolding range
length-range start zero = refl
length-range start (suc steps) = omega (arith, length-range (suc start) steps)

pub range-RisesTo :
    (start steps target : ℕ)
    → start + steps ≡ target
    → RisesTo target start (range (suc start) steps)
unfolding range
range-RisesTo start zero target h = omega (arith, h)
range-RisesTo start (suc steps) target h =
    (inl (omega arith), omega (arith, h), range-RisesTo (suc start) steps target (omega (arith, h)))

length-monotonic : (target prev : ℕ) (bs : List ℕ) → length (monotonic target prev bs) ≡ length bs
unfolding monotonic
length-monotonic target prev [] = refl
length-monotonic target prev (b ∷ []) = refl
length-monotonic target prev (b ∷ c ∷ bs) =
    ap suc (length-monotonic target (min target (max (prev + 1) b)) (c ∷ bs))

length-set_last : {A : Type 0} (value : A) (xs : List A) → length (set_last value xs) ≡ length xs
unfolding set_last
length-set_last value [] = refl
length-set_last value (x ∷ []) = refl
length-set_last value (x ∷ y ∷ xs) = ap suc (length-set_last value (y ∷ xs))

one_rise :
    (target prev b : ℕ)
    → (prev < min target (max (prev + 1) b)) ⊎ (min target (max (prev + 1) b) ≡ target)
one_rise target prev b = ground arith

-- The loop with its last assignment, of a list that is not empty.
monotonic-RisesTo :
    (target prev b : ℕ) (bs : List ℕ)
    → RisesTo target prev (set_last target (monotonic target prev (b ∷ bs)))
unfolding monotonic set_last
monotonic-RisesTo target prev b [] = (inr refl, omega arith, refl)
monotonic-RisesTo target prev b (c ∷ []) =
    (one_rise target prev b, omega arith, (inr refl, omega arith, refl))
monotonic-RisesTo target prev b (c ∷ d ∷ bs) = (
  one_rise target prev b,
  omega arith,
  monotonic-RisesTo target (min target (max (prev + 1) b)) c (d ∷ bs),
)

pub length-collect :
    ⦃F : Floats⦄ {A B : Type 0} (f : A → Result SeriesError B) (xs : List A) (ys : List B)
    → collect f xs ≡ ok ys
    → length ys ≡ length xs
unfolding collect
length-collect f [] ys e = ground (arith, e)
length-collect f (x ∷ xs) ys e = elim (Result-cases (f x)) [
  | inr (error, raised) ↦ absurd (ground (arith, e, raised))
  | inl (y, here) ↦ elim (Result-cases (collect f xs)) [
    | inr (error, raised) ↦ absurd (ground (arith, e, here, raised))
    | inl (rest, there) ↦ ground (arith, e, here, there, length-collect f xs rest)
  ]
]

rises :
    (target n : ℕ) (scaled : List ℕ)
    → length scaled ≡ suc n
    → (RisesTo target 0 (set_last target (monotonic target 0 scaled)))
      × (length (set_last target (monotonic target 0 scaled)) ≡ suc n)
rises target n [] h = absurd (ground (arith, h))
rises target n (b ∷ bs) h = (
  monotonic-RisesTo target 0 b bs,
  length-set_last target (monotonic target 0 (b ∷ bs)) ∙ length-monotonic target 0 (b ∷ bs) ∙ h,
)

-- A comprehension none of whose elements raises.
pub collect-Returns :
    ⦃F : Floats⦄ {A B : Type 0} (P : A → Type 0) (Q : B → Type 0) (f : A → Result SeriesError B)
    → ((x : A) → P x → Returns Q (f x))
    → (xs : List A) → All P xs
    → Returns (λ ys. All Q ys × (length ys ≡ length xs)) (collect f xs)
unfolding collect
collect-Returns P Q f h [] all = ([], refl, (tt, refl))
collect-Returns P Q f h (x ∷ xs) all =
    let (y, here, good) = h x all.0 in
    let (ys, there, (goods, same)) = collect-Returns P Q f h xs all.1 in
    (y ∷ ys, rw (here, there) refl, ((good, goods), ap suc same))

pub last_of-All :
    {A : Type 0} (P : A → Type 0) (x : A) (xs : List A) → All P (x ∷ xs) → P (last_of x xs)
unfolding last_of
last_of-All P x [] all = all.0
last_of-All P x (y ∷ ys) all = last_of-All P y ys all.1

-- 2^53: doubles have every count up to it.
unfoldable pub max_step : ℕ
max_step = 9007199254740992

max_step_pos : 1 ≤ max_step
unfolding max_step
max_step_pos = omega arith

-- What doubles guarantee of counts up to 2^53: a count rounds to itself, and a quotient of two of
-- them times a third stays far below the overflow, so that it rounds to an integer.
pub record ExactSteps ⦃F : Floats⦄ : Type 0 where
  pub count_rounds : (n : ℕ) → n ≤ max_step → F.round_int (F.of_int (pos n)) ≡ some (pos n)
  pub scaled_rounds :
      (b source target : ℕ)
      → b ≤ max_step
      → 1 ≤ source
      → source ≤ max_step
      → target ≤ max_step
      → (k : ℤ) × (F.round_int
            (F.mul (F.div (F.of_int (pos b)) (F.of_int (pos source))) (F.of_int (pos target)))
          ≡ some k)

-- A step of a horizon.
abbrev InRange : ℕ → Type 0
InRange n = (1 ≤ n) × (n ≤ max_step)

module _ ⦃F : Floats⦄ {V : Type 0} (to_float : V → Option F.Float) where
  -- A value that `float()` converts.
  abbrev pub IsNumber : V → Type 0
  IsNumber v = (x : F.Float) × (to_float v ≡ some x)

  -- A boundary that is a number and rounds to 2^53 at most.
  abbrev pub IsStep : Boundary V → Type 0
  IsStep (given v) =
      (x : F.Float) × (to_float v ≡ some x)
      × ((k : ℤ) × (F.round_int x ≡ some k) × (pos_part k ≤ max_step))
  IsStep (count n) = n ≤ max_step

  abbrev pub IsSource : Option (Boundary V) → Type 0
  IsSource none = Unit
  IsSource (some b) = IsStep b

  pub float_of-Returns : (v : V) → IsNumber v → Returns (λ _. Unit {0}) (float_of to_float v)
  unfolding float_of
  float_of-Returns v (x, e) = (x, rw (float_of, e) refl, tt)

  module _ (exact : ExactSteps) where
    rounded_step-Returns :
        (x : F.Float) (k : ℤ)
        → F.round_int x ≡ some k
        → pos_part k ≤ max_step
        → Returns InRange (rounded_step x)
    unfolding rounded_step
    rounded_step-Returns x k e small =
        (max 1 (pos_part k), rw (rounded_step, e) refl, ground (arith, small, max_step_pos))

    counted-Returns : (n : ℕ) → n ≤ max_step → Returns InRange (rounded_step (F.of_int (pos n)))
    counted-Returns n small =
        rounded_step-Returns (F.of_int (pos n)) (pos n) (exact.count_rounds n small) small

    scaled_step-Returns :
        (target source : ℕ)
        → target ≤ max_step
        → InRange source
        → (b : ℕ) → InRange b
        → Returns InRange (scaled_step target source b)
    unfolding scaled_step
    scaled_step-Returns target source small (some_source, small_source) b (_, small_b) =
        let (k, e) = exact.scaled_rounds b source target small_b some_source small_source small in
        (
          max 1 (min target (pos_part k)),
          rw (scaled_step, e) refl,
          ground (arith, small, max_step_pos),
        )

    step-Returns :
        (b : Boundary V) → IsStep b → Returns InRange (boundary_of to_float b >>= rounded_step)
    unfolding boundary_of float_of
    step-Returns (given v) (x, e, (k, rounds, small)) =
        let (n, returned, good) = rounded_step-Returns x k rounds small in
        (n, rw (boundary_of, float_of, e) returned, good)
    step-Returns (count n) small = counted-Returns n small

    cleaned_source-Returns :
        (c : ℕ) (cs : List ℕ) (source : Option (Boundary V))
        → All InRange (c ∷ cs)
        → IsSource source
        → Returns InRange (cleaned_source to_float (c ∷ cs) source)
    unfolding cleaned_source
    cleaned_source-Returns c cs none all h =
        counted-Returns (last_of c cs) (last_of-All InRange c cs all).1
    cleaned_source-Returns c cs (some source) all h = step-Returns source h

    scaled-Returns :
        (target source : ℕ) (cleaned : List ℕ)
        → target ≤ max_step
        → InRange source
        → All InRange cleaned
        → Returns
            (λ scaled. length scaled ≡ length cleaned)
            (if source == target then ok cleaned else collect (scaled_step target source) cleaned)
    scaled-Returns target source cleaned small h all = elim (Bool-cases (source == target)) [
      | inl same ↦ rw same (cleaned, refl, refl)
      | inr differ ↦
          let (scaled, e, (_, same)) =
            collect-Returns InRange InRange _ (scaled_step-Returns target source small h) cleaned
              all in
          rw differ (scaled, e, same)
    ]

    from_cleaned :
        (n target : ℕ) (source_steps : Option (Boundary V)) (cleaned : List ℕ)
        → target ≤ max_step
        → IsSource source_steps
        → All InRange cleaned
        → length cleaned ≡ suc n
        → Returns
            (λ scaled. RisesTo target 0 scaled × (length scaled ≡ suc n))
            (cleaned_source to_float cleaned source_steps >>= λ source.
              (if source == target then ok cleaned else collect (scaled_step target source) cleaned)
              >>= λ scaled. ok (set_last target (monotonic target 0 scaled)))
    from_cleaned n target source_steps [] small h all e = absurd (ground (arith, e))
    from_cleaned n target source_steps (c ∷ cs) small h all e =
        bind-Returns (cleaned_source-Returns c cs source_steps all h) (λ source good.
          bind-Returns (scaled-Returns target source (c ∷ cs) small good all)
            (λ scaled same. (_, refl, rises target n scaled (same ∙ e))))

    -- At least one boundary, all numbers that round to 2^53 at most, are scaled to as large a
    -- horizon without an error. The result has as many boundaries; they rise strictly from 0
    -- until one is the target, never pass the target, and end there.
    pub scale_boundaries_to_horizon-RisesTo :
        (first : Boundary V) (rest : List (Boundary V)) (target_steps : ℕ)
        (source_steps : Option (Boundary V))
        → All IsStep (first ∷ rest)
        → target_steps ≤ max_step
        → IsSource source_steps
        → Returns
            (λ scaled. RisesTo target_steps 0 scaled × (length scaled ≡ length (first ∷ rest)))
            (scale_boundaries_to_horizon to_float (first ∷ rest) target_steps source_steps)
    unfolding scale_boundaries_to_horizon
    scale_boundaries_to_horizon-RisesTo first rest target source all small h =
        bind-Returns (collect-Returns IsStep InRange _ step-Returns (first ∷ rest) all)
          (λ cleaned (good, same).
            from_cleaned (length rest) target source cleaned small h good same)

-- ===== src/Horizon/Align/Filled.antt =====
-- aggregator_demo/optimization/real_time.py, align_series_to_horizon: the entries of the series.
use depotflux_demo.Prelude.{
  ℕ, zero, suc, ◌+◌, ◌-◌, ◌≤◌, ◌<◌, ◌≡◌, refl, ap, ◌∙◌, inl, inr, Bool, true, false, ◌&&◌, Option,
  none, some, List, [], ◌∷◌, ◌++◌, String, map, leb, length, length-append, get_elem?, ◌==◌, ==_iff,
  if◌then◌else◌, ok, Result-cases, Returns, bind-Returns, if-Returns, Bool-cases, Option-cases, All,
  arith,
}
use depotflux_demo.Prelude.Int.{ℤ, pos, negsuc}
use depotflux_demo.Floats.{Floats}
use depotflux_demo.Horizon.{replicate}
use depotflux_demo.Horizon.Multipliers.{length-replicate, length-expanded}
use depotflux_demo.Horizon.Align.{
  dropna, has_step, drop_duplicates, value_at, absolute, ffill, bfill, first_of, all_known,
  cleaned_series, rows_within, explicit_series, align_series_to_horizon, paired,
}

module _ {A : Type 0} where
  abbrev IsKnown : Option A → Type 0
  IsKnown o = (a : A) × (o ≡ some a)

  -- A series with one value known at least.
  abbrev HasKnown : List (Option A) → Type 0
  HasKnown [] = ⊥
  HasKnown (none ∷ xs) = HasKnown xs
  HasKnown (some x ∷ xs) = Unit {0}

  -- A series whose every value is known, where the one at each index that was known before stays.
  abbrev Fills : List (Option A) → Option (List A) → Type 0
  Fills xs filled =
      (ys : List A) × (filled ≡ some ys)
      × (length ys ≡ length xs)
      × ((i : ℕ) (v : A) → get_elem? xs i ≡ some (some v) → get_elem? ys i ≡ some v)

  cons-Fills :
      (o : Option A) (z : A) (xs : List (Option A)) (filled : Option (List A))
      → ((v : A) → o ≡ some v → z ≡ v)
      → Fills xs filled
      → Fills (o ∷ xs) (elim filled [ none ↦ none | some known ↦ some (z ∷ known) ])
  cons-Fills o z xs filled agrees (ys, e, same, keeps) = (z ∷ ys, rw e refl, ap suc same, kept)
    where
      kept : (i : ℕ) (v : A) → get_elem? (o ∷ xs) i ≡ some (some v) → get_elem? (z ∷ ys) i ≡ some v
      kept zero v e = ap some (agrees v (ground (arith, e)))
      kept (suc i) v e = keeps i v e

  after_known : (x : A) (xs : List (Option A)) → Fills xs (all_known (bfill (ffill (some x) xs)))
  unfolding ffill bfill all_known
  after_known x [] = ([], refl, refl, λ i v e. absurd (ground (arith, e)))
  after_known x (none ∷ xs) =
      cons-Fills none x xs _ (λ v e. absurd (ground (arith, e))) (after_known x xs)
  after_known x (some y ∷ xs) =
      cons-Fills (some y) y xs _ (λ v e. ground (arith, e)) (after_known y xs)

  first-known :
      (xs : List (Option A)) (y : A) (ys : List A)
      → all_known xs ≡ some (y ∷ ys)
      → first_of xs ≡ some y
  unfolding all_known
  first-known [] y ys e = absurd (ground (arith, e))
  first-known (none ∷ xs) y ys e = absurd (ground (arith, e))
  first-known (some x ∷ xs) y ys e = elim (Option-cases (all_known xs)) [
    | inl missing ↦ absurd (ground (arith, e, missing))
    | inr (known, found) ↦ ground (arith, e, found)
  ]

  fills : (xs : List (Option A)) → HasKnown xs → Fills xs (all_known (bfill (ffill none xs)))
  unfolding ffill bfill all_known
  fills [] known = absurd known
  fills (some x ∷ xs) known =
      cons-Fills (some x) x xs _ (λ v e. ground (arith, e)) (after_known x xs)
  fills (none ∷ []) known = absurd known
  fills (none ∷ x ∷ xs) known = from_rest (fills (x ∷ xs) known)
    where
      from_rest :
          Fills (x ∷ xs) (all_known (bfill (ffill none (x ∷ xs))))
          → Fills
              (none ∷ x ∷ xs)
              (all_known (first_of (bfill (ffill none (x ∷ xs))) ∷ bfill (ffill none (x ∷ xs))))
      from_rest ([], e, same, keeps) = absurd (ground (arith, same))
      from_rest (y ∷ ys, e, same, keeps) = rw (first-known (bfill (ffill none (x ∷ xs))) y ys e) (
          cons-Fills none y (x ∷ xs) _ (λ v e. absurd (ground (arith, e))) (y ∷ ys, e, same, keeps))

  length-absolute : (rows : List (ℕ × A)) (step left : ℕ) → length (absolute rows step left) ≡ left
  unfolding absolute
  length-absolute rows step zero = refl
  length-absolute rows step (suc left) = ap suc (length-absolute rows (suc step) left)

  get_elem?-absolute :
      (rows : List (ℕ × A)) (step left i : ℕ)
      → i < left
      → get_elem? (absolute rows step left) i ≡ some (value_at (step + i) rows)
  unfolding absolute
  get_elem?-absolute rows step zero i h = absurd (omega (arith, h))
  get_elem?-absolute rows step (suc left) zero h =
      ap (λ s. some (value_at s rows)) {y = step + 0} (omega arith)
  get_elem?-absolute rows step (suc left) (suc i) h =
      get_elem?-absolute rows (suc step) left i (omega (arith, h))
      ∙ ap (λ s. some (value_at s rows)) {y = step + suc i} (omega arith)

  get_elem?-HasKnown :
      (xs : List (Option A)) (i : ℕ) (v : A) → get_elem? xs i ≡ some (some v) → HasKnown xs
  get_elem?-HasKnown [] i v e = absurd (ground (arith, e))
  get_elem?-HasKnown (some x ∷ xs) i v e = tt
  get_elem?-HasKnown (none ∷ xs) zero v e = absurd (ground (arith, e))
  get_elem?-HasKnown (none ∷ xs) (suc i) v e = get_elem?-HasKnown xs i v e

  -- The value of the last row of a step.
  unfoldable pub last_value : ℕ → List (ℕ × A) → Option A
  last_value step [] = none
  last_value step ((s, v) ∷ rows) =
      let rest = last_value step rows in
      elim rest [ some w ↦ some w | none ↦ if step == s then some v else none ]

  no_step :
      (step : ℕ) (rows : List (ℕ × A)) → has_step step rows ≡ false → last_value step rows ≡ none
  unfolding has_step last_value
  no_step step [] h = refl
  no_step step ((s, v) ∷ rows) h = ground (arith, h, no_step step rows)

  some_step :
      (step : ℕ) (rows : List (ℕ × A)) → has_step step rows ≡ true → IsKnown (last_value step rows)
  unfolding has_step last_value
  some_step step [] h = absurd (ground (arith, h))
  some_step step ((s, v) ∷ rows) h = elim (Option-cases (last_value step rows)) [
    | inr (w, found) ↦ (w, rw found refl)
    | inl missing ↦ elim (Bool-cases (step == s)) [
      | inl here ↦ (v, rw (missing, here) refl)
      | inr elsewhere ↦
          let (w, found) = some_step step rows (ground (arith, h, elsewhere)) in
          absurd (ground (arith, missing, found))
    ]
  ]

  value_at-drop_duplicates :
      (step : ℕ) (rows : List (ℕ × A)) → value_at step (drop_duplicates rows) ≡ last_value step rows
  unfolding value_at drop_duplicates last_value
  value_at-drop_duplicates step [] = refl
  value_at-drop_duplicates step ((s, v) ∷ rows) = elim (Bool-cases (step == s)) [
    | inl here ↦
        let same = (==_iff step s).0 here in
        elim (Bool-cases (has_step s rows)) [
          | inl again ↦
              let (w, found) = some_step s rows again in
              rw
                (
                  again,
                  value_at-drop_duplicates step rows,
                  ap (λ t. last_value t rows) same ∙ found,
                )
                refl
          | inr once ↦
              rw (once, here, ap (λ t. last_value t rows) same ∙ no_step s rows once, here) refl
        ]
    | inr elsewhere ↦ elim (Bool-cases (has_step s rows)) [
      | inl again ↦
          rw (again, value_at-drop_duplicates step rows)
            (eta (step == s) elsewhere (last_value step rows))
      | inr once ↦
          rw (once, elsewhere, value_at-drop_duplicates step rows)
            (eta (step == s) elsewhere (last_value step rows))
    ]
  ]
    where
      eta :
          (b : Bool)
          → b ≡ false
          → (o : Option A) → o ≡ elim o [ none ↦ if b then some v else none | some w ↦ some w ]
      eta b h none = ground (arith, h)
      eta b h (some w) = refl

  abbrev WithinDay : ℕ → List (ℕ × A) → Type 0
  WithinDay target rows = All (λ row. (1 ≤ row.0) × (row.0 ≤ target)) rows

  own : (s : ℕ) (v : A) (rows : List (ℕ × A)) → has_step s ((s, v) ∷ rows) ≡ true
  unfolding has_step
  own s v rows = ground arith

  -- A row in the day gives its step a value in the series.
  row-HasKnown :
      (target s : ℕ) (v : A) (rows : List (ℕ × A))
      → 1 ≤ s
      → s ≤ target
      → HasKnown (absolute (drop_duplicates ((s, v) ∷ rows)) 1 target)
  row-HasKnown target s v rows low high =
      let (w, found) = some_step s ((s, v) ∷ rows) (own s v rows) in
      get_elem?-HasKnown (absolute (drop_duplicates ((s, v) ∷ rows)) 1 target) (s - 1) w (
        get_elem?-absolute (drop_duplicates ((s, v) ∷ rows)) 1 target (s - 1)
          (omega (arith, low, high))
        ∙ ap (λ t. some (value_at t (drop_duplicates ((s, v) ∷ rows)))) {y = s} (omega (arith, low))
        ∙ ap some (value_at-drop_duplicates s ((s, v) ∷ rows) ∙ found))

  -- A whole-day series that keeps what each row says, the last of a step's rows.
  pub record KeepsRows (target : ℕ) (rows : List (ℕ × A)) (series : List A) : Type 0 where
    pub covers : length series ≡ target
    pub keeps :
        (s : ℕ) (v : A)
        → 1 ≤ s
        → s ≤ target
        → last_value s rows ≡ some v
        → get_elem? series (s - 1) ≡ some v

  -- A cleaned series that is not empty, at a current step of at least 1.
  cleaned_series-Returns :
      (c : A) (cs : List A) (target current : ℕ) (series_name : String)
      → 1 ≤ current
      → Returns
          (λ series. length series ≡ target)
          (cleaned_series (c ∷ cs) target current series_name)
  unfolding cleaned_series
  cleaned_series-Returns c cs target current name low =
      if-Returns (length (c ∷ cs) == target) (λ same. (c ∷ cs, refl, (==_iff _ _).0 same))
        (λ _.
          if-Returns (length (c ∷ cs) == target + 1 - current)
            (λ remaining. (
              replicate (current - 1) c ++ (c ∷ cs),
              refl,
              length-append (replicate (current - 1) c) (c ∷ cs)
                  ∙ ground (arith, remaining, length-replicate (current - 1) c, low),
            ))
            (λ _. length-expanded c cs target name))

  explicit_series-KeepsRows :
      (s : ℕ) (v : A) (rows : List (ℕ × A)) (cleaned : List A) (target current : ℕ)
      (series_name : String)
      → 1 ≤ s
      → s ≤ target
      → Returns
          (KeepsRows target ((s, v) ∷ rows))
          (explicit_series ((s, v) ∷ rows) cleaned target current series_name)
  unfolding explicit_series
  explicit_series-KeepsRows s v rows cleaned target current name low high =
      let kept = drop_duplicates ((s, v) ∷ rows) in
      let (series, filled, same, keeps) =
        fills (absolute kept 1 target) (row-HasKnown target s v rows low high) in
      (
        series,
        rw (explicit_series, filled) refl,
        record {
          covers = same ∙ length-absolute kept 1 target;
          keeps = λ t w first last found. keeps (t - 1) w (
              get_elem?-absolute kept 1 target (t - 1) (omega (arith, first, last))
              ∙ ap (λ u. some (value_at u kept)) {y = t} (omega (arith, first))
              ∙ ap some (value_at-drop_duplicates t ((s, v) ∷ rows) ∙ found));
        },
      )

module _ ⦃F : Floats⦄ (truncate : F.Float → Option ℤ) where
  -- The rows that are kept are in the day.
  rows_within_lem :
      {A : Type 0} (target : ℕ) (rows : List (F.Float × A)) (kept : List (ℕ × A))
      → rows_within truncate target rows ≡ ok kept
      → WithinDay target kept
  unfolding rows_within
  rows_within_lem target [] [] e = tt
  rows_within_lem target [] (row ∷ kept) e = absurd (ground (arith, e))
  rows_within_lem target ((step, value) ∷ rows) kept e = elim (Option-cases (truncate step)) [
    | inl none_read ↦ absurd (ground (arith, e, none_read))
    | inr (negsuc n, read) ↦ rows_within_lem target rows kept (ground (arith, e, read))
    | inr (pos s, read) ↦ elim (Result-cases (rows_within truncate target rows)) [
      | inr (error, raised) ↦ absurd (ground (arith, e, read, raised))
      | inl (rest, returned) ↦
          ground (arith, e, read, returned, rows_within_lem target rows rest returned)
    ]
  ]

  rows_within-Returns :
      {A : Type 0} (target : ℕ) (rows : List (F.Float × A))
      → ((x : F.Float) → IsKnown (truncate x))
      → Returns (WithinDay target) (rows_within truncate target rows)
  unfolding rows_within
  rows_within-Returns target [] whole = ([], refl, tt)
  rows_within-Returns target ((step, value) ∷ rows) whole =
      let (kept, returned, within) = rows_within-Returns target rows whole in
      elim (Option-cases (truncate step)) [
        | inl missing ↦ let (z, read) = whole step in absurd (ground (arith, missing, read))
        | inr (negsuc n, read) ↦ (kept, rw (rows_within, read, returned) refl, within)
        | inr (pos s, read) ↦ (
          (if leb 1 s && leb s target then (s, value) ∷ kept else kept),
          rw (rows_within, read, returned) refl,
          ground (arith, within),
        )
      ]

  module _ {V : Type 0} (to_numeric : V → Option F.Float) where
    -- A series with one number at least, at a current step of at least 1, is aligned without an
    -- error, where every float cuts to an integer, and has exactly one value for each step of the
    -- day, whether it comes with steps of its own or not.
    pub length-align_series_to_horizon :
        (values : List V) (target_steps current_timestep : ℕ) (series_name : String)
        (timesteps : Option (List V)) (c : F.Float) (cs : List F.Float)
        → ((x : F.Float) → (z : ℤ) × (truncate x ≡ some z))
        → dropna (map to_numeric values) ≡ c ∷ cs
        → 1 ≤ current_timestep
        → Returns
            (λ series. length series ≡ target_steps)
            (align_series_to_horizon truncate to_numeric values target_steps current_timestep
              series_name timesteps)
    unfolding align_series_to_horizon explicit_series
    length-align_series_to_horizon values target current name none c cs whole cleaned low =
        rw cleaned (cleaned_series-Returns c cs target current name low)
    length-align_series_to_horizon values target current name (some steps) c cs whole cleaned low =
        rw cleaned (
          bind-Returns
            (rows_within-Returns target (paired (map to_numeric steps) (map to_numeric values))
              whole)
            from_rows)
      where
        from_rows :
            (rows : List (ℕ × F.Float))
            → WithinDay target rows
            → Returns
                (λ series. length series ≡ target)
                (explicit_series rows (c ∷ cs) target current name)
        from_rows [] within = cleaned_series-Returns c cs target current name low
        from_rows ((s, v) ∷ rows) within =
            let (series, returned, kept) =
              explicit_series-KeepsRows s v rows (c ∷ cs) target current name within.0.0
                within.0.1 in
            (series, returned, kept.covers)

    -- A series with steps of its own, of which one at least is in the day, is aligned without
    -- an error; the result has one value for each step of the day, and at every step that has
    -- a row the value of the last such row.
    pub align_series_to_horizon-KeepsRows :
        (values steps : List V) (target_steps current_timestep : ℕ) (series_name : String)
        (row : ℕ × F.Float) (rows : List (ℕ × F.Float))
        → rows_within truncate target_steps (paired (map to_numeric steps) (map to_numeric values))
          ≡ ok (row ∷ rows)
        → Returns (KeepsRows target_steps (row ∷ rows)) (
            align_series_to_horizon truncate to_numeric values target_steps current_timestep
              series_name
              (some steps))
    unfolding align_series_to_horizon
    align_series_to_horizon-KeepsRows values steps target current name row rows kept =
        let (within, _) = rows_within_lem target _ (row ∷ rows) kept in
        rw kept (explicit_series-KeepsRows row.0 row.1 rows _ target current name within.0 within.1)

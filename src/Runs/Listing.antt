-- ===== src/Runs/Listing.antt =====
-- `list` of aggregator_demo/run_repository.py. The responses are projections of the rows.
use depotflux_demo.Prelude.{
  ℕ, zero, suc, ◌+◌, ◌≡◌, refl, ap, List, [], ◌∷◌, ◌++◌, take, drop, if◌then◌else◌, arith,
}
use depotflux_demo.Runs.Row.{RunRow, Runs}
use depotflux_demo.Runs.Claim.{is_before}

module _ {A : Type 0} where
  unfoldable pub insert_newest : RunRow A → Runs A → Runs A
  insert_newest row [] = row ∷ []
  insert_newest row (other ∷ rows) =
      let rest = insert_newest row rows in
      if is_before row other then other ∷ rest else row ∷ other ∷ rows

  -- `order_by(created_at.desc(), id.desc())`
  unfoldable pub newest_first : Runs A → Runs A
  newest_first [] = []
  newest_first (row ∷ rows) = insert_newest row (newest_first rows)

  unfoldable pub list_runs : ℕ → ℕ → Runs A → List (RunRow A)
  list_runs limit offset db = take limit (drop offset (newest_first db))

suc_sum : (a b : ℕ) → suc a + b ≡ suc (a + b)
suc_sum a b = omega arith

take_nil : {A : Type 0} (n : ℕ) → take {A = A} n [] ≡ []
take_nil zero = refl
take_nil (suc n) = refl

drop_nil : {A : Type 0} (n : ℕ) → drop {A = A} n [] ≡ []
drop_nil zero = refl
drop_nil (suc n) = refl

take_sum : {A : Type 0} (a b : ℕ) (xs : List A) → take (a + b) xs ≡ take a xs ++ take b (drop a xs)
take_sum zero b xs = ground arith
take_sum (suc a) b [] = rw (take_nil (suc a + b)) (rw (take_nil b) refl)
take_sum (suc a) b (x ∷ xs) = rw (suc_sum a b) (ap (λ ys. x ∷ ys) (take_sum a b xs))

drop_sum : {A : Type 0} (o a : ℕ) (xs : List A) → drop (o + a) xs ≡ drop a (drop o xs)
drop_sum zero a xs = ground arith
drop_sum (suc o) a [] = rw (drop_nil (suc o + a)) (rw (drop_nil a) refl)
drop_sum (suc o) a (x ∷ xs) = rw (suc_sum o a) (drop_sum o a xs)

-- Two pages of the list of runs that follow each other are together the one page of their joint
-- length.
pub list_runs-pages :
    {A : Type 0} (first second offset : ℕ) (db : Runs A)
    → list_runs (first + second) offset db
      ≡ list_runs first offset db ++ list_runs second (offset + first) db
unfolding list_runs
list_runs-pages first second offset db =
    rw (drop_sum offset first (newest_first db))
      (take_sum first second (drop offset (newest_first db)))

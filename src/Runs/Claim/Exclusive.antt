-- ===== src/Runs/Claim/Exclusive.antt =====
-- What a successful claim means, whatever other sessions commit meanwhile.
use depotflux_demo.Prelude.{
  ℕ, zero, suc, ◌≡◌, refl, sym, ap, ◌∙◌, ◌⊎◌, inl, inr, true, false, Option, none, some, [], ◌∷◌,
  String, ◌==◌, if◌then◌else◌, Bool-cases, Option-cases, Result, ok, All, All-map, arith,
}
use depotflux_demo.Runs.Status.{queued, running, is}
use depotflux_demo.Runs.Row.{RunRow, Runs, find, store}
use depotflux_demo.Runs.Table.{find-id, find-store}
use depotflux_demo.Runs.Repository.{RunError, get_row}
use depotflux_demo.Runs.Claim.{
  is_before, oldest_queued, claimed, queued_row, read_claimed, claim_rounds, claim_next,
}

module _ {A : Type 0} where
  -- The table at the update of a round: what the others have made of the table that the round
  -- read, in which the run was the oldest that is queued. `left` rounds are left.
  abbrev pub AtUpdate : ℕ → (ℕ → Runs A → Runs A) → Runs A → ℕ → Runs A → Type 0
  AtUpdate zero others db run_id before = ⊥
  AtUpdate (suc left) others db run_id before =
      ((before ≡ others left db)
        × ((chosen : RunRow A) × (oldest_queued db ≡ some chosen) × (chosen.id ≡ run_id)))
      ⊎ AtUpdate left others (others left db) run_id before

  -- A run that was claimed: it was queued in the table `before`, which then changed in this one
  -- row, and it can be claimed no more.
  pub record IsClaim (before : Runs A) (worker_id : String) (now : ℕ) (row : RunRow A) (db : Runs A)
      : Type 0 where
    pub old : RunRow A
    pub was_held : find row.id before ≡ some old
    pub was_queued : old.status ≡ queued
    pub claims : row ≡ claimed worker_id now old
    pub now_running : row.status ≡ running
    pub is_held : find row.id db ≡ some row
    pub not_again : queued_row row.id db ≡ none
    pub others_kept : (j : ℕ) → (row.id == j) ≡ false → find j db ≡ find j before

  pub queued_row_held :
      (run_id : ℕ) (db : Runs A) (row : RunRow A)
      → queued_row run_id db ≡ some row
      → (find run_id db ≡ some row) × (row.status ≡ queued)
  unfolding queued_row
  queued_row_held run_id db row e = ground arith

  claimed-IsClaim :
      (worker_id : String) (now run_id : ℕ) (db : Runs A) (old : RunRow A)
      → queued_row run_id db ≡ some old
      → IsClaim db worker_id now (claimed worker_id now old) (store (claimed worker_id now old) db)
  unfolding claimed queued_row
  claimed-IsClaim worker_id now run_id db old e =
      let held = queued_row_held run_id db old e in
      let here : find old.id db ≡ some old =
        ap (λ k. find k db) (find-id run_id db old held.0) ∙ held.0 in
      let here_again : (if old.id == old.id
            then some (claimed worker_id now old)
            else find old.id db)
          ≡ some (claimed worker_id now old) =
        ground arith in
      let found = λ (j : ℕ). find-store j (claimed worker_id now old) db old here in
      record {
        old = old;
        was_held = here;
        was_queued = held.1;
        claims = refl;
        now_running = refl;
        is_held = found old.id ∙ here_again;
        not_again = rw (found old.id ∙ here_again, queued_row) refl;
        others_kept = λ j ne. found j ∙ rw ne;
      }

  -- The claim `claim` of some round, and the row that is read behind it.
  pub record RoundClaim (left : ℕ) (others : ℕ → Runs A → Runs A) (db : Runs A) (worker_id : String)
      (now : ℕ) (row : RunRow A) (db' : Runs A) : Type 0 where
    pub before : Runs A
    pub updated : Runs A
    pub own : RunRow A
    pub at_update : AtUpdate left others db own.id before
    pub claim : IsClaim before worker_id now own updated
    pub left_behind : db' ≡ others 10 updated
    pub is_read : find own.id db' ≡ some row

  read_claimed_lem :
      (run_id : ℕ) (db db' : Runs A) (row : RunRow A)
      → read_claimed run_id db ≡ (ok (some row), db')
      → (db' ≡ db) × (find run_id db' ≡ some row)
  unfolding read_claimed get_row
  read_claimed_lem run_id db db' row e = elim (Option-cases (find run_id db)) [
    | inl missing ↦ absurd (ground (arith, e, missing))
    | inr (held, found) ↦ ground (arith, e, found)
  ]

  none_claimed :
      {db db' : Runs A} (row : RunRow A)
      → ◌≡◌ {A = Result RunError (Option (RunRow A)) × Runs A} (ok none, db) (ok (some row), db')
      → ⊥
  none_claimed row e = ground arith

  same_run :
      (worker_id : String) (now run_id : ℕ) (db : Runs A) (old : RunRow A)
      → queued_row run_id db ≡ some old
      → run_id ≡ (claimed worker_id now old).id
  unfolding claimed
  same_run worker_id now run_id db old q =
      sym (find-id run_id db old (queued_row_held run_id db old q).0)

  module _ (left : ℕ) (others : ℕ → Runs A → Runs A) (worker_id : String) (now : ℕ)
      (db : Runs A) where
    pub idle_round :
        oldest_queued db ≡ none → claim_rounds (suc left) others worker_id now db ≡ (ok none, db)
    unfolding claim_rounds
    idle_round c = rw (c, claim_rounds) refl

    pub lost_round :
        (chosen : RunRow A)
        → oldest_queued db ≡ some chosen
        → queued_row chosen.id (others left db) ≡ none
        → claim_rounds (suc left) others worker_id now db
          ≡ claim_rounds left others worker_id now (others left db)
    unfolding claim_rounds
    lost_round chosen c q = rw (c, claim_rounds) (rw q refl)

    pub won_round :
        (chosen old : RunRow A)
        → oldest_queued db ≡ some chosen
        → queued_row chosen.id (others left db) ≡ some old
        → claim_rounds (suc left) others worker_id now db
          ≡ read_claimed chosen.id (others 10 (store (claimed worker_id now old) (others left db)))
    unfolding claim_rounds
    won_round chosen old c q = rw (c, claim_rounds) (rw q refl)

  claim_rounds_claims :
      (left : ℕ) (others : ℕ → Runs A → Runs A) (worker_id : String) (now : ℕ) (db db' : Runs A)
      (row : RunRow A)
      → claim_rounds left others worker_id now db ≡ (ok (some row), db')
      → RoundClaim left others db worker_id now row db'
  claim_rounds_claims zero others worker_id now db db' row e = unfold claim_rounds in cc
  claim_rounds_claims (suc left) others worker_id now db db' row e =
      elim (Option-cases (oldest_queued db)) [
        | inl idle ↦
            absurd (none_claimed row (sym (idle_round left others worker_id now db idle) ∙ e))
        | inr (chosen, c) ↦ elim (Option-cases (queued_row chosen.id (others left db))) [
          | inl lost ↦
              let later =
                claim_rounds_claims left others worker_id now (others left db) db' row
                  (sym (lost_round left others worker_id now db chosen c lost) ∙ e) in
              record {
                before = later.before;
                updated = later.updated;
                own = later.own;
                at_update = inr later.at_update;
                claim = later.claim;
                left_behind = later.left_behind;
                is_read = later.is_read;
              }
          | inr (old, q) ↦
              let same = same_run worker_id now chosen.id (others left db) old q in
              let (behind, reads) =
                read_claimed_lem chosen.id _ db' row
                  (sym (won_round left others worker_id now db chosen old c q) ∙ e) in
              record {
                before = others left db;
                updated = store (claimed worker_id now old) (others left db);
                own = claimed worker_id now old;
                at_update = inl (refl, (chosen, c, same));
                claim = claimed-IsClaim worker_id now chosen.id (others left db) old q;
                left_behind = behind;
                is_read = ap (λ k. find k db') (sym same) ∙ reads;
              }
        ]
      ]

  -- Whatever other sessions commit during a claim, a run that claim_next hands out was the
  -- oldest queued run of the table that one of its ten rounds read, is still queued in what the
  -- other sessions have made of this table by the update of that round, is running for this
  -- worker behind the update and can not be claimed again, and the update changes no other run;
  -- what claim_next returns is this run as it stands in what the other sessions make of the
  -- table behind the update.
  pub claim_next-IsClaim :
      (others : ℕ → Runs A → Runs A) (worker_id : String) (now : ℕ) (db db' : Runs A)
      (row : RunRow A)
      → claim_next others worker_id now db ≡ (ok (some row), db')
      → RoundClaim 10 others db worker_id now row db'
  unfolding claim_next
  claim_next-IsClaim others worker_id now db db' row e =
      claim_rounds_claims 10 others worker_id now db db' row e

  is_before_trans :
      (a b c : RunRow A) → is_before a b ≡ false → is_before b c ≡ false → is_before a c ≡ false
  unfolding is_before
  is_before_trans a b c h k = ground arith

  is_before_irrefl : (a : RunRow A) → is_before a a ≡ false
  unfolding is_before
  is_before_irrefl a = ground arith

  is_before_asym : (a b : RunRow A) → is_before a b ≡ true → is_before b a ≡ false
  unfolding is_before
  is_before_asym a b h = ground arith

  -- `row` is queued, and no queued run of the table is older.
  abbrev pub IsOldest : RunRow A → Runs A → Type 0
  IsOldest row db =
      (row.status ≡ queued) × All (λ other. other.status ≡ queued → is_before other row ≡ false) db

  abbrev pub HasOldest : Option (RunRow A) → Runs A → Type 0
  HasOldest none db = All (λ other. ¬ (other.status ≡ queued)) db
  HasOldest (some row) db = IsOldest row db

  -- The step of `oldest_queued` at a queued row.
  queued_first :
      (first : RunRow A) (db : Runs A) (rest : Option (RunRow A))
      → first.status ≡ queued
      → HasOldest rest db
      → HasOldest
          (elim rest [
            | none ↦ some first
            | some other ↦ if is_before other first then some other else some first
          ])
          (first ∷ db)
  queued_first first db none q h = (
    q,
    (λ _. is_before_irrefl first, All-map _ _ (λ other idle queued. absurd (idle queued)) db h),
  )
  queued_first first db (some other) q h = elim (Bool-cases (is_before other first)) [
    | inl older ↦ rw older (h.0, (λ _. is_before_asym other first older, h.1))
    | inr younger ↦ rw younger (
      q,
      (
        λ _. is_before_irrefl first,
        All-map _ _ (λ x oldest queued. is_before_trans x other first (oldest queued) younger) db
            h.1,
      ),
    )
  ]

  -- The step at any other row.
  idle_first :
      (first : RunRow A) (db : Runs A) (rest : Option (RunRow A))
      → ¬ (first.status ≡ queued)
      → HasOldest rest db
      → HasOldest rest (first ∷ db)
  idle_first first db none idle h = (idle, h)
  idle_first first db (some other) idle h = (h.0, (λ q. absurd (idle q), h.1))

  -- The run that oldest_queued chooses is queued and no queued run of the table was created
  -- before it, or with it under a smaller id; it chooses none only where no run is queued.
  pub oldest_queued_first : (db : Runs A) → HasOldest (oldest_queued db) db
  unfolding oldest_queued
  oldest_queued_first [] = tt
  oldest_queued_first (first ∷ db) = elim (Bool-cases (is first.status queued)) [
    | inl q ↦
        rw q (queued_first first db (oldest_queued db) (ground arith) (oldest_queued_first db))
    | inr idle ↦
        rw idle
          (idle_first first db (oldest_queued db) (λ q. ground arith) (oldest_queued_first db))
  ]

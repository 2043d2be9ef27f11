-- ===== src/Runs/Create/Retry.antt =====
-- A submission that is sent again with its idempotency key.
use text.Mathlib.Text.{◌==◌ as str_eq}
use text.Mathlib.TextEquality.{eq_iff}
use mathlib.Core.Path.{subst}
use depotflux_demo.Prelude.{
  ℕ, ◌≡◌, ◌≢◌, refl, inl, inr, Bool, false, none, some, [], ◌∷◌, ◌++◌, String, if◌then◌else◌,
  Bool-cases, Option-cases, Result, ok, err, arith,
}
use depotflux_demo.Runs.Row.{RunCreateRequest, RunRow, Runs}
use depotflux_demo.Runs.Repository.{RunError, conflict}
use depotflux_demo.Runs.Create.{
  given, has_key, find_by_key, resolve_idempotent, is_taken, new_row, after_collision, insert_row,
  existing_run, create,
}

given-some : (key : String) → key ≢ "" → given (some key) ≡ some key
unfolding given
given-some key h = ground (arith, eq_iff key "")

module _ {A : Type 0} where
  find_by_key-append :
      (key : String) (row : RunRow A) (db : Runs A)
      → find_by_key key db ≡ none
      → row.idempotency_key ≡ some key
      → find_by_key key (db ++ row ∷ []) ≡ some row
  unfolding find_by_key has_key
  find_by_key-append key row [] e k = ground (arith, eq_iff key key)
  find_by_key-append key row (old ∷ db) e k = ground (arith, find_by_key-append key row db)

  -- The row that holds the key has the fingerprint of the request.
  abbrev Holds : String → String → Result RunError (RunRow A × Bool) × Runs A → Type 0
  Holds key fingerprint (ok (row, _), db) =
      (find_by_key key db ≡ some row) × (row.request_fingerprint ≡ fingerprint)
  Holds key fingerprint (err _, db) = Unit

  resolved-Holds :
      (key fingerprint : String) (existing : RunRow A) (db : Runs A)
      → find_by_key key db ≡ some existing
      → Holds key fingerprint (resolve_idempotent existing fingerprint, db)
  unfolding resolve_idempotent
  resolved-Holds key fingerprint existing db e =
      elim (Bool-cases (str_eq existing.request_fingerprint fingerprint)) [
        | inl same ↦ rw same (e, (eq_iff _ _).0 same)
        | inr other ↦ rw other tt
      ]

  collision-Holds :
      (key fingerprint : String) (db : Runs A)
      → Holds key fingerprint (after_collision (some key) fingerprint db)
  unfolding after_collision
  collision-Holds key fingerprint db = elim (Option-cases (find_by_key key db)) [
    | inl missing ↦ rw (missing, after_collision) tt
    | inr (existing, e) ↦ rw (e, after_collision) (resolved-Holds key fingerprint existing db e)
  ]

  free_key :
      (key : String) (row : RunRow A) (db : Runs A)
      → is_taken row db ≡ false
      → row.idempotency_key ≡ some key
      → find_by_key key db ≡ none
  unfolding is_taken
  free_key key row db free k = ground arith

  insert-Holds :
      (key fingerprint : String) (row : RunRow A) (db : Runs A)
      → key ≢ ""
      → row.idempotency_key ≡ some key
      → row.request_fingerprint ≡ fingerprint
      → Holds key fingerprint (insert_row row fingerprint db)
  unfolding insert_row
  insert-Holds key fingerprint row db full k f = elim (Bool-cases (is_taken row db)) [
    | inl taken ↦
        rw (taken, insert_row) (rw (k, given-some key full) (collision-Holds key fingerprint db))
    | inr free ↦
        rw (free, insert_row) (find_by_key-append key row db (free_key key row db free k) k, f)
  ]

  create-Holds :
      (request_fingerprint : RunCreateRequest → String) (others : Runs A → Runs A)
      (request : RunCreateRequest) (requested_by key : String) (new_id now : ℕ) (db : Runs A)
      → key ≢ ""
      → Holds key
          (request_fingerprint request)
          (create request_fingerprint others request requested_by (some key) new_id now db)
  unfolding create existing_run new_row
  create-Holds request_fingerprint others request user key new_id now db full =
      rw (given-some key full, create)
        (elim (Option-cases (find_by_key key db)) [
          | inl missing ↦
              rw (missing, existing_run)
                (insert-Holds key (request_fingerprint request)
                  (new_row request (request_fingerprint request) user (some key) new_id now)
                  (others db) full refl refl)
          | inr (existing, e) ↦
              rw (e, existing_run) (resolved-Holds key (request_fingerprint request) existing db e)
        ])

  -- After a submission with a non-empty idempotency key was answered with a run, whatever other
  -- sessions committed inside it, a second one with that key on the table it left creates
  -- nothing: it is answered by the same run if the fingerprints of the two requests are equal,
  -- and by a conflict otherwise.
  pub create_retry :
      (request_fingerprint : RunCreateRequest → String) (others others' : Runs A → Runs A)
      (request request' : RunCreateRequest) (requested_by requested_by' key : String)
      (new_id new_id' now now' : ℕ) (db db' : Runs A) (row : RunRow A) (created : Bool)
      → key ≢ ""
      → create request_fingerprint others request requested_by (some key) new_id now db
        ≡ (ok (row, created), db')
      → create request_fingerprint others' request' requested_by' (some key) new_id' now' db' ≡ (
        (if str_eq (request_fingerprint request) (request_fingerprint request')
            then ok (row, false)
            else err conflict),
        db',
      )
  unfolding create existing_run resolve_idempotent
  create_retry request_fingerprint others others' request request' user user' key new_id new_id' now
        now' db db' row created full answered =
      let held : Holds key (request_fingerprint request) (ok (row, created), db') =
        subst (Holds key (request_fingerprint request)) answered
          (create-Holds request_fingerprint others request user key new_id now db full) in
      rw (given-some key full, create) (rw (held.0, existing_run) (rw held.1 (ground arith)))

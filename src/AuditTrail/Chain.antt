-- ===== src/AuditTrail/Chain.antt =====
-- The chain of hashes is kept by an appended record, and its last hash fixes the whole of it.
use text.Mathlib.TextEquality.{eq_iff}
use depotflux_demo.Prelude.{
  ℕ, ◌≡◌, refl, sym, ap, ◌∙◌, true, List, [], ◌∷◌, ◌++◌, String, length, All, All-map, arith,
}
use depotflux_demo.Runs.Json.{Fields}
use depotflux_demo.AuditTrail.{
  AuditContent, AuditRecord, genesis_hash, last_hash, new_record, append_record, verify_from,
  verify,
}

module _ {A : Type 0} where
  record_path :
      (x y : AuditRecord A) → x.content ≡ y.content → x.record_hash ≡ y.record_hash → x ≡ y
  record_path x y c h = cc (c, h)

  cons_path :
      (x y : AuditRecord A) (xs ys : List (AuditRecord A)) → x ≡ y → xs ≡ ys → x ∷ xs ≡ y ∷ ys
  cons_path x y xs ys p q = cc (p, q)

module _ {A : Type 0} (digest : AuditContent A → String) where
  verify_from-append :
      (previous : String) (rows : List (AuditRecord A)) (row : AuditRecord A)
      → row.content.previous_hash ≡ last_hash previous rows
      → row.record_hash ≡ digest row.content
      → verify_from digest previous (rows ++ row ∷ []) ≡ verify_from digest previous rows
  unfolding verify_from last_hash
  verify_from-append previous [] row p d =
      rw ((eq_iff row.content.previous_hash previous).1 p)
        (rw ((eq_iff (digest row.content) row.record_hash).1 (sym d)) refl)
  verify_from-append previous (first ∷ rows) row p d =
      ground (arith, verify_from-append first.record_hash rows row p d)

  -- A record that follows: the tests of `verify` at it.
  verify_from-cons :
      (previous : String) (row : AuditRecord A) (rows : List (AuditRecord A))
      → verify_from digest previous (row ∷ rows) ≡ true
      → (row.content.previous_hash ≡ previous)
        × (digest row.content ≡ row.record_hash)
        × (verify_from digest row.record_hash rows ≡ true)
  unfolding verify_from
  verify_from-cons previous row rows h = (
    (eq_iff row.content.previous_hash previous).0 (ground (arith, h)),
    (eq_iff (digest row.content) row.record_hash).0 (ground (arith, h)),
    ground (arith, h),
  )

  -- No two different contents, one of each trail, have one digest.
  abbrev pub HasNoCollision : List (AuditRecord A) → List (AuditRecord A) → Type 0
  HasNoCollision xs ys =
      All (λ x. All (λ y. digest x.content ≡ digest y.content → x.content ≡ y.content) ys) xs

  fixed_by_last_hash :
      (p q : String) (xs ys : List (AuditRecord A))
      → length xs ≡ length ys
      → HasNoCollision xs ys
      → verify_from digest p xs ≡ true
      → verify_from digest q ys ≡ true
      → last_hash p xs ≡ last_hash q ys
      → (p ≡ q) × (xs ≡ ys)
  unfolding last_hash
  fixed_by_last_hash p q [] [] same free vx vy e = (e, refl)
  fixed_by_last_hash p q [] (y ∷ ys) same free vx vy e = absurd (omega (arith, same))
  fixed_by_last_hash p q (x ∷ xs) [] same free vx vy e = absurd (omega (arith, same))
  fixed_by_last_hash p q (x ∷ xs) (y ∷ ys) same free vx vy e =
      let (px, dx, wx) = verify_from-cons p x xs vx in
      let (py, dy, wy) = verify_from-cons q y ys vy in
      let (hashes, rows) =
        fixed_by_last_hash x.record_hash y.record_hash xs ys (omega (arith, same))
          (All-map _ _ (λ _ h. h.1) xs free.1) wx wy e in
      let contents : x.content ≡ y.content = free.0.0 (dx ∙ hashes ∙ sym dy) in
      let first : x ≡ y = record_path x y contents hashes in
      (sym px ∙ ap (λ c. c.previous_hash) contents ∙ py, cons_path x y xs ys first rows)

  -- An appended record changes nothing in whether the trail verifies.
  pub verify-append_record :
      (now : ℕ) (event_type outcome : String) (details : Fields A) (records : List (AuditRecord A))
      → verify digest (append_record digest now event_type outcome details records)
        ≡ verify digest records
  unfolding verify append_record new_record
  verify-append_record now event_type outcome details records =
      verify_from-append genesis_hash records
        (new_record digest now event_type outcome details records) refl refl

  -- Two audit trails of one length that both verify and end in the same hash are the same
  -- trail, record by record, provided no two different records of them have one digest.
  pub last_hash_fixes_trail :
      (trail other : List (AuditRecord A))
      → length trail ≡ length other
      → HasNoCollision trail other
      → verify digest trail ≡ true
      → verify digest other ≡ true
      → last_hash genesis_hash trail ≡ last_hash genesis_hash other
      → trail ≡ other
  unfolding verify
  last_hash_fixes_trail trail other same free vt vo e =
      (fixed_by_last_hash genesis_hash genesis_hash trail other same free vt vo e).1

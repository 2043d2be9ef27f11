-- ===== src/AuditTrail.antt =====
-- `AuditTrail` of aggregator_demo/gridtwin/security.py. The canonical JSON of a record without its
-- hash and the SHA-256 of it are a parameter, and so is the clock.
pub mod Chain
mod Tests
use text.Mathlib.Text.{◌==◌ as str_eq}
use depotflux_demo.Prelude.{
  ℕ, suc, Bool, true, false, not, List, [], ◌∷◌, ◌++◌, String, length, if◌then◌else◌,
}
use depotflux_demo.Runs.Json.{Fields}

-- A record without its hash.
pub record AuditContent (A : Type 0) : Type 0 where
  pub sequence : ℕ
  pub occurred_at : ℕ
  pub event_type : String
  pub outcome : String
  pub details : Fields A
  pub previous_hash : String

pub record AuditRecord (A : Type 0) : Type 0 where
  pub content : AuditContent A
  pub record_hash : String

-- `"0" * 64`
abbrev pub genesis_hash : String
genesis_hash = "0000000000000000000000000000000000000000000000000000000000000000"

module _ {A : Type 0} where
  -- The hash of the last record, behind `previous` for none.
  unfoldable pub last_hash : String → List (AuditRecord A) → String
  last_hash previous [] = previous
  last_hash previous (row ∷ rows) = last_hash row.record_hash rows

  module _ (digest : AuditContent A → String) where
    unfoldable pub new_record :
        ℕ → String → String → Fields A → List (AuditRecord A) → AuditRecord A
    new_record now event_type outcome details records =
        let content : AuditContent A = record {
          sequence = suc (length records);
          occurred_at = now;
          event_type = event_type;
          outcome = outcome;
          details = details;
          previous_hash = last_hash genesis_hash records;
        } in
        record { content = content; record_hash = digest content }

    -- `append`
    unfoldable pub append_record :
        ℕ → String → String → Fields A → List (AuditRecord A) → List (AuditRecord A)
    append_record now event_type outcome details records =
        records ++ new_record now event_type outcome details records ∷ []

    -- The loop of `verify`.
    unfoldable pub verify_from : String → List (AuditRecord A) → Bool
    verify_from previous [] = true
    verify_from previous (row ∷ rows) =
        let rest = verify_from row.record_hash rows in
        if not (str_eq row.content.previous_hash previous)
        then false
        else if not (str_eq (digest row.content) row.record_hash)
        then false
        else rest

    unfoldable pub verify : List (AuditRecord A) → Bool
    verify records = verify_from genesis_hash records

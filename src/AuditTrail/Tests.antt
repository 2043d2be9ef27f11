-- ===== src/AuditTrail/Tests.antt =====
-- A trail of two records, and the theorems at it.
use depotflux_demo.Prelude.{ℕ, ◌≡◌, ◌≢◌, refl, sym, true, false, List, [], String}
use text.Mathlib.TextEquality.{eq_iff}
use depotflux_demo.Runs.Json.{end}
use depotflux_demo.AuditTrail.{
  AuditContent, AuditRecord, last_hash, new_record, append_record, verify_from, verify,
}
use depotflux_demo.AuditTrail.Chain.{HasNoCollision, last_hash_fixes_trail}

-- A digest that tells the records of the trail apart.
abbrev digest : AuditContent ℕ → String
digest content = content.event_type

abbrev trail : List (AuditRecord ℕ)
trail =
    append_record digest 2 "setpoint_rejected" "rejected" end
      (append_record digest 1 "telemetry_evaluated" "accepted" end [])

is_verified : verify digest trail ≡ true
unfolding verify verify_from append_record new_record last_hash
is_verified = refl

names_differ : ◌≢◌ {A = String} "telemetry_evaluated" "setpoint_rejected"
names_differ e = absurd (differ ((eq_iff "telemetry_evaluated" "setpoint_rejected").1 e))
  where
    differ : false ≡ true → ⊥
    differ p = cc p

has_no_collision : HasNoCollision digest trail trail
unfolding append_record new_record
has_no_collision = (
  (λ _. refl, (λ e. absurd (names_differ e), tt)),
  ((λ e. absurd (names_differ (sym e)), (λ _. refl, tt)), tt),
)

last_hash_fixes_trail_example : trail ≡ trail
last_hash_fixes_trail_example =
    last_hash_fixes_trail digest trail trail refl has_no_collision is_verified is_verified refl

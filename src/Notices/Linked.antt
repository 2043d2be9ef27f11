-- ===== src/Notices/Linked.antt =====
-- What the notice of a candidate says, behind `link_notice`.
use depotflux_demo.Prelude.{
  ℕ, ◌≡◌, refl, inl, inr, Bool, true, not, ◌||◌, none, some, [], ◌∷◌, ◌++◌, String, ◌==◌, ==_iff,
  if◌then◌else◌, Result, ok, err, Option-cases, Bool-cases, arith,
}
use depotflux_demo.Floats.{Floats}
use depotflux_demo.Runs.Row.{RunRow}
use depotflux_demo.Notices.{
  NoticeScenario, is_scenario, NoticeRow, NoticeCreateRequest, NoticeError, other_notice,
  NoticeCall, Notices, find_by_candidate, charger_count, energy_of, new_notice, insert_notice,
  link_notice,
}

is_scenario_lem : (a b : NoticeScenario) → is_scenario a b ≡ true → a ≡ b
is_scenario_lem a b h = ground (arith, h)

pub is_scenario_refl : (a : NoticeScenario) → is_scenario a a ≡ true
is_scenario_refl a = ground arith

module _ ⦃F : Floats⦄ where
  -- The notice of a candidate, for the request.
  pub record IsLinked (request : NoticeCreateRequest) (candidate_id : ℕ) (notice : NoticeRow)
      (notices : Notices) : Type 0 where
    pub held : find_by_candidate candidate_id notices ≡ some notice
    pub same_baseline : notice.baseline_run_id ≡ request.baseline_run_id
    pub same_scenario : notice.scenario ≡ request.scenario

  abbrev pub Linked : NoticeCreateRequest → ℕ → Result NoticeError NoticeRow × Notices → Type 0
  Linked request candidate_id (ok notice, notices) = IsLinked request candidate_id notice notices
  Linked request candidate_id (err _, notices) = Unit

  pub find_by_candidate-append :
      (j : ℕ) (new : NoticeRow) (notices : Notices)
      → find_by_candidate j notices ≡ none
      → new.candidate_run_id ≡ j
      → find_by_candidate j (notices ++ new ∷ []) ≡ some new
  unfolding find_by_candidate
  find_by_candidate-append j new [] e same = ground (arith, same)
  find_by_candidate-append j new (old ∷ notices) e same =
      ground (arith, e, find_by_candidate-append j new notices)

  pub find_by_candidate-candidate :
      (j : ℕ) (notice : NoticeRow) (notices : Notices)
      → find_by_candidate j notices ≡ some notice
      → notice.candidate_run_id ≡ j
  unfolding find_by_candidate
  find_by_candidate-candidate j notice [] e = cc e
  find_by_candidate-candidate j notice (old ∷ notices) e =
      ground (arith, e, find_by_candidate-candidate j notice notices)

  module _ (text_length : String → ℕ) (later : Notices → Notices) (request : NoticeCreateRequest)
      (call : NoticeCall) (baseline candidate : RunRow F.Float)
      (named : baseline.id ≡ request.baseline_run_id) where
    insert_notice-Linked :
        (notices : Notices)
        → Linked request candidate.id
            (insert_notice text_length later request call baseline candidate notices)
    unfolding insert_notice new_notice
    insert_notice-Linked notices =
        elim (Option-cases (charger_count text_length (energy_of baseline))) [
          | inl missing ↦ rw (missing, insert_notice) tt
          | inr (count, counted) ↦
              elim (Option-cases (find_by_candidate candidate.id (later notices))) [
                | inl free ↦
                    rw (counted, insert_notice)
                      (rw free (record {
                        held = find_by_candidate-append candidate.id _ (later notices) free refl;
                        same_baseline = named;
                        same_scenario = refl;
                      }))
                | inr (other, taken) ↦ rw (counted, insert_notice) (rw taken tt)
              ]
        ]

    existing-Linked :
        (existing : NoticeRow) (notices : Notices)
        → find_by_candidate candidate.id notices ≡ some existing
        → Linked request candidate.id (
            if not (existing.baseline_run_id == request.baseline_run_id)
              || not (is_scenario existing.scenario request.scenario)
            then (err other_notice, notices)
            else (ok existing, notices))
    existing-Linked existing notices held =
        elim (Bool-cases (existing.baseline_run_id == request.baseline_run_id)) [
          | inr other ↦ rw other tt
          | inl same ↦ elim (Bool-cases (is_scenario existing.scenario request.scenario)) [
            | inr other ↦ rw same (rw other tt)
            | inl agreed ↦ rw same (
                rw agreed (record {
                  held = held;
                  same_baseline = (==_iff existing.baseline_run_id request.baseline_run_id).0 same;
                  same_scenario = is_scenario_lem existing.scenario request.scenario agreed;
                }))
          ]
        ]

    pub link_notice-Linked :
        (created : Bool) (notices : Notices)
        → Linked request candidate.id
            (link_notice text_length later request call baseline candidate created notices)
    unfolding link_notice
    link_notice-Linked created notices =
        elim (Option-cases (find_by_candidate candidate.id notices)) [
          | inr (existing, held) ↦ rw (held, link_notice) (existing-Linked existing notices held)
          | inl free ↦ elim (Bool-cases created) [
            | inl new ↦ rw (free, link_notice) (rw new (insert_notice-Linked notices))
            | inr old ↦ rw (free, link_notice) (rw old tt)
          ]
        ]

-- ===== src/Approvals/Timeline/Order.antt =====
-- The timeline of a run is in chronological order, and complete.
use mathlib.Core.List.{Perm}
use mathlib.Core.List.Perm
use depotflux_demo.Prelude.{
  ℕ, ◌≤◌, ◌≡◌, none, some, List, [], ◌∷◌, leb, ok, err, All, All-map, Bool-cases, refl, ◌⊎◌, arith,
  Option-cases, inl, inr,
}
use depotflux_demo.Runs.Row.{RunRow, Runs, find}
use depotflux_demo.Approvals.{Approvals, unknown_run}
use depotflux_demo.Approvals.Timeline.{
  AuditEvent, OperationalNoticeRow, ControlSimulationRow, DispatchAttemptRow, insert_event,
  sort_events, collected_events, timeline,
}

-- No event is before one that stands in front of it.
abbrev pub IsChronological : List AuditEvent → Type 0
IsChronological [] = Unit
IsChronological (e ∷ es) = All (λ x. e.occurred_at ≤ x.occurred_at) es × IsChronological es

All-insert_event :
    (t : ℕ) (e : AuditEvent) (es : List AuditEvent)
    → t ≤ e.occurred_at
    → All (λ x. t ≤ x.occurred_at) es
    → All (λ x. t ≤ x.occurred_at) (insert_event e es)
unfolding insert_event
All-insert_event t e [] le h = (le, tt)
All-insert_event t e (x ∷ xs) le h = ground (arith, All-insert_event t e xs le h.1)

insert_event-IsChronological :
    (e : AuditEvent) (es : List AuditEvent)
    → IsChronological es
    → IsChronological (insert_event e es)
unfolding insert_event
insert_event-IsChronological e [] h = (tt, tt)
insert_event-IsChronological e (x ∷ xs) h = elim (Bool-cases (leb e.occurred_at x.occurred_at)) [
  | inl first ↦ rw first (
    (
      ground (arith, first),
      All-map (λ y. x.occurred_at ≤ y.occurred_at) (λ y. e.occurred_at ≤ y.occurred_at)
          (λ y le. ground (arith, first)) xs h.0,
    ),
    h,
  )
  | inr later ↦ rw later (
    All-insert_event x.occurred_at e xs (ground (arith, later)) h.0,
    insert_event-IsChronological e xs h.1,
  )
]

sort_events-IsChronological : (es : List AuditEvent) → IsChronological (sort_events es)
unfolding sort_events
sort_events-IsChronological [] = tt
sort_events-IsChronological (e ∷ es) =
    insert_event-IsChronological e (sort_events es) (sort_events-IsChronological es)

insert_event-Perm : (e : AuditEvent) (es : List AuditEvent) → Perm (e ∷ es) (insert_event e es)
unfolding insert_event
insert_event-Perm e [] = Perm.refl (e ∷ [])
insert_event-Perm e (x ∷ xs) = elim (Bool-cases (leb e.occurred_at x.occurred_at)) [
  | inl first ↦ rw first (Perm.refl (e ∷ x ∷ xs))
  | inr later ↦ rw later (Perm.trans (Perm.swap x e xs) (Perm.cons x (insert_event-Perm e xs)))
]

sort_events-Perm : (es : List AuditEvent) → Perm es (sort_events es)
unfolding sort_events
sort_events-Perm [] = Perm.refl []
sort_events-Perm (e ∷ es) =
    Perm.trans (Perm.cons e (sort_events-Perm es)) (insert_event-Perm e (sort_events es))

module _ {A : Type 0} where
  -- The timeline of a run that the table does not hold is an error; that of any other is a list
  -- in chronological order with exactly the events that were collected from the tables.
  pub timeline-IsChronological :
      (runs : Runs A) (run_id : ℕ) (notices : List OperationalNoticeRow) (approvals : Approvals)
      (simulations : List ControlSimulationRow) (attempts : List DispatchAttemptRow)
      → ((find run_id runs ≡ none)
          × (timeline runs run_id notices approvals simulations attempts ≡ err unknown_run))
        ⊎ ((run : RunRow A) × (events : List AuditEvent) × (find run_id runs ≡ some run)
            × (timeline runs run_id notices approvals simulations attempts ≡ ok events)
            × IsChronological events
            × Perm (collected_events run run_id notices approvals simulations attempts) events)
  unfolding timeline
  timeline-IsChronological runs run_id notices approvals simulations attempts =
      elim (Option-cases (find run_id runs)) [
        | inl e ↦ inl (e, rw (e, timeline) refl)
        | inr (run, e) ↦
            let events = collected_events run run_id notices approvals simulations attempts in
            inr (
              run,
              sort_events events,
              e,
              rw (e, timeline) refl,
              sort_events-IsChronological events,
              sort_events-Perm events,
            )
      ]

-- ===== src/Execution/Orchestrator/Cancellation.antt =====
-- What a cancellation does, in each case.
use collaborative_programmin.Base.{
  ℕ, ◌≡◌, ◌⊎◌, inl, inr, refl, sym, ◌∙◌, true, false, Option, none, some, arith,
}
use collaborative_programmin.Base.Dict.{lookup, lookup-delete}
use collaborative_programmin.Execution.Job.{State, cancelled, Job, can_transition, is_active}
use collaborative_programmin.Execution.Registry.{job_not_found}
use collaborative_programmin.Execution.Context.{cancel, release}
use collaborative_programmin.Execution.Scheduler.{withdraw}
use collaborative_programmin.Execution.Orchestrator.{
  Platform, Reply, ok, registry_error, cancellation_conflict, publish, persist, job_cancelled,
  cancel_at, cancelled_with, cancel_job,
}
use collaborative_programmin.Execution.Orchestrator.Moves.{
  entered, moved, transition_cases, lookup_there, snapped,
}

-- What a cancellation of an active job leaves.
abbrev pub IsCancelled : ℕ → ℕ → Job → Platform → Type 0
IsCancelled now id j p =
    (lookup id p.registry.by_id ≡ some (entered cancelled (cancel_at now) j))
    × (lookup id p.scheduler.entries ≡ none)
    × (lookup id p.contexts.by_job ≡ none)

-- The result of a cancellation of the job that is there, if one is.
abbrev pub Cancels : ℕ → ℕ → Platform → Option Job → Reply (Unit {0}) × Platform → Type 0
Cancels now id p none r = r ≡ (registry_error job_not_found, p)
Cancels now id p (some j) r =
    ((is_active j.state ≡ false) × (r ≡ (cancellation_conflict, p)))
    ⊎ ((is_active j.state ≡ true) × (r.0 ≡ ok tt) × IsCancelled now id j r.1)

cancellable : (s : State) → can_transition s cancelled ≡ is_active s
unfolding can_transition is_active
cancellable s = ground arith

-- A cancellation fails on an unknown job, and on a job that has finished, and changes nothing then;
-- of an active job it makes a cancelled one, which the scheduler no longer has and which has no
-- execution context.
pub cancel_job_lem :
    (now id : ℕ) (p : Platform)
    → Cancels now id p (lookup id p.registry.by_id) (cancel_job now id p)
unfolding cancel_job
cancel_job_lem now id p =
    transition_cases id cancelled (cancel_at now) p.registry
      (λ x. Cancels now id p (lookup id p.registry.by_id) (cancelled_with id x p))
      (λ missing. unfold cancelled_with in rw missing refl)
      (λ j here illegal.
        unfold cancelled_with in rw here (inl (sym (cancellable j.state) ∙ illegal, refl)))
      λ j here legal.
        let p1 = record p {
          registry = moved id cancelled (cancel_at now) j p.registry;
          contexts = cancel id p.contexts;
          scheduler = withdraw id p.scheduler;
        } in
        unfold cancelled_with publish persist in
        rw here (
          inr (
            sym (cancellable j.state) ∙ legal,
            refl,
            snapped
                (λ s. IsCancelled now id j (
                  persist s
                    (record (publish job_cancelled s.id p1) { contexts = release id p1.contexts })))
                id p1 (entered cancelled (cancel_at now) j)
                (lookup_there id cancelled (cancel_at now) p.registry j)
                (
                  lookup_there id cancelled (cancel_at now) p.registry j,
                  unfold withdraw in ground (arith, lookup-delete id id p.scheduler.entries),
                  unfold release in
                      ground (arith, lookup-delete id id (cancel id p.contexts).by_job),
                ),
          ))

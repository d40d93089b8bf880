-- ===== src/Execution/Orchestrator/Soundness.antt =====
-- What holds of the platform between two calls.
use collaborative_programmin.Base.{
  ℕ, ◌≤◌, ◌≡◌, subst, Bool, true, false, not, ◌&&◌, ◌||◌, Option, none, some, arith, ◌==◌,
  if◌then◌else◌, inl, inr, Bool-cases,
}
use collaborative_programmin.Base.Dict.{lookup}
use collaborative_programmin.Execution.Job.{
  State, pending, validated, queued, dispatched, running, streaming, completed, failed, timed_out,
  cancelled, retrying, archived, code, Job, outcome_for, is_active,
}
use collaborative_programmin.Execution.Registry.Invariant.{IsIndexed}
use collaborative_programmin.Execution.Context.{Context}
use collaborative_programmin.Execution.Orchestrator.{Platform}

-- The states that a job keeps between calls.
abbrev pub at_rest : State → Bool
at_rest pending = false
at_rest validated = false
at_rest retrying = false
at_rest archived = false
at_rest queued = true
at_rest dispatched = true
at_rest running = true
at_rest streaming = true
at_rest completed = true
at_rest failed = true
at_rest timed_out = true
at_rest cancelled = true

-- The states before a start.
abbrev pub waits : State → Bool
waits s = code s == code queued || code s == code dispatched

pub record IsSettled (j : Job) : Type 0 where
  pub rests : at_rest j.state ≡ true
  pub outcome : j.outcome ≡ outcome_for j.state
  pub retries : j.retry_count ≤ j.max_retries
  pub unfinished : (is_active j.state && not (j.completed_at == 0)) ≡ false
  pub unstarted : (waits j.state && not (j.started_at == 0)) ≡ false

-- The context is there, and the manager has not cancelled it.
abbrev pub is_live : Option Context → Bool
is_live none = false
is_live (some c) = not c.cancelled

pub record IsSound (p : Platform) : Type 0 where
  pub indexed : IsIndexed p.registry
  pub settled : (i : ℕ) (j : Job) → lookup i p.registry.by_id ≡ some j → IsSettled j
  pub mirrored : (i : ℕ) → lookup i p.store ≡ lookup i p.registry.by_id
  pub attended :
      (i : ℕ) (j : Job)
      → lookup i p.registry.by_id ≡ some j
      → is_active j.state ≡ true
      → is_live (lookup i p.contexts.by_job) ≡ true
  pub owned : (i : ℕ) → lookup i p.registry.by_id ≡ none → lookup i p.contexts.by_job ≡ none

-- A call that leaves one job changed, and the rest alone.
pub written-IsSound :
    (p p' : Platform) (id : ℕ) (j : Job)
    → IsSound p
    → IsIndexed p'.registry
    → ((i : ℕ)
        → lookup i p'.registry.by_id ≡ (if id == i then some j else lookup i p.registry.by_id))
    → ((i : ℕ) → lookup i p'.store ≡ (if id == i then some j else lookup i p.store))
    → ((i : ℕ) → (id == i) ≡ false → lookup i p'.contexts.by_job ≡ lookup i p.contexts.by_job)
    → IsSettled j
    → (is_active j.state ≡ true → is_live (lookup id p'.contexts.by_job) ≡ true)
    → IsSound p'
written-IsSound p p' id j h indexed jobs stored others settled live = record {
  indexed = indexed;
  settled = λ i x at. elim (Bool-cases (id == i)) [
    | inl same ↦ let is : j ≡ x = ground (arith, at, jobs i, same) in subst IsSettled is settled
    | inr other ↦ h.settled i x (ground (arith, at, jobs i, other))
  ];
  mirrored = λ i. ground (arith, jobs i, stored i, h.mirrored i);
  attended = λ i x at active. elim (Bool-cases (id == i)) [
    | inl same ↦
        let is : j ≡ x = ground (arith, at, jobs i, same) in
        ground (arith, live (rw is active), same)
    | inr other ↦
        ground (arith, others i other, h.attended i x (ground (arith, at, jobs i, other)) active)
  ];
  owned = λ i at. ground (arith, at, jobs i, others i, h.owned i);
}

-- ===== src/Execution/Orchestrator/Archival.antt =====
-- An archival, on a sound platform.
use collaborative_programmin.Base.{
  ℕ, ◌≡◌, refl, ap, sym, subst, ◌∙◌, Bool, true, false, none, some, arith, ◌==◌, if◌then◌else◌,
}
use collaborative_programmin.Base.Dict.{lookup, delete, lookup-delete}
use collaborative_programmin.Execution.Job.{archived, Job, can_transition}
use collaborative_programmin.Execution.Registry.{Registry, remove, remove_as}
use collaborative_programmin.Execution.Registry.Invariant.{IsIndexed, remove-IsIndexed}
use collaborative_programmin.Execution.Context.{Contexts, release}
use collaborative_programmin.Execution.Storage.{erase}
use collaborative_programmin.Execution.Orchestrator.{
  execution_archived, Platform, Reply, ok, snapshot_of, publish,
}
use collaborative_programmin.Execution.Orchestrator.Marks.{sunk, archived_with, archive_job}
use collaborative_programmin.Execution.Orchestrator.Moves.{
  entered, moved, transition_cases, transition_ok, lookup-moved, lookup_there, moved-IsIndexed,
}
use collaborative_programmin.Execution.Orchestrator.Soundness.{IsSound}

-- A call that takes one job away, and leaves the rest alone.
removed-IsSound :
    (p p' : Platform) (id : ℕ)
    → IsSound p
    → IsIndexed p'.registry
    → ((i : ℕ) → lookup i p'.registry.by_id ≡ (if id == i then none else lookup i p.registry.by_id))
    → ((i : ℕ) → lookup i p'.store ≡ (if id == i then none else lookup i p.store))
    → ((i : ℕ)
        → lookup i p'.contexts.by_job ≡ (if id == i then none else lookup i p.contexts.by_job))
    → IsSound p'
removed-IsSound p p' id h indexed jobs stored contexts = record {
  indexed = indexed;
  settled = λ i x at. h.settled i x (ground (arith, at, jobs i));
  mirrored = λ i. ground (arith, jobs i, stored i, h.mirrored i);
  attended = λ i x at active.
      ground (arith, at, jobs i, contexts i, h.attended i x (ground (arith, at, jobs i)) active);
  owned = λ i at. ground (arith, at, jobs i, contexts i, h.owned i);
}

module _ (id now : ℕ) (p : Platform) where
  -- The registry without the job.
  abbrev pub without : Job → Registry
  without j =
      (remove_as id (moved id archived (λ j. j) j p.registry)
        (some (entered archived (λ j. j) j))).1

  abbrev pub final : Job → Job
  final j = entered archived (λ j. j) j

  -- What a successful archival leaves.
  abbrev pub archived_platform : Bool → Job → Platform
  archived_platform sink j =
      let p1 =
        sunk sink now (final j)
          (record p { registry = without j; contexts = release id p.contexts }) in
      publish execution_archived (final j).id (record p1 { store = erase id p1.store })

  pub archive_job_ok :
      (sink : Bool) (j : Job)
      → lookup id p.registry.by_id ≡ some j
      → can_transition j.state archived ≡ true
      → archive_job sink now id p ≡ (ok (final j), archived_platform sink j)
  unfolding archive_job archived_with remove snapshot_of
  archive_job_ok sink j here legal =
      rw (transition_ok id archived (λ j. j) p.registry j here legal)
        (rw (lookup_there id archived (λ j. j) p.registry j) refl)

  sunk_fields :
      (sink : Bool) (j : Job) (q : Platform)
      → ((sunk sink now j q).registry ≡ q.registry)
        × ((sunk sink now j q).store ≡ q.store)
        × ((sunk sink now j q).contexts ≡ q.contexts)
  unfolding sunk
  sunk_fields true j q = (refl, refl, refl)
  sunk_fields false j q = (refl, refl, refl)

  -- The jobs that it leaves.
  pub archived_jobs :
      (sink : Bool) (j : Job) (i : ℕ)
      → lookup i (archived_platform sink j).registry.by_id
        ≡ (if id == i then none else lookup i p.registry.by_id)
  unfolding publish remove_as
  archived_jobs sink j i =
      let (registry, store, contexts) =
        sunk_fields sink (final j)
          (record p { registry = without j; contexts = release id p.contexts }) in
      ap (λ (r : Registry). lookup i r.by_id) registry
      ∙ ground (
        arith,
        lookup-delete id i (moved id archived (λ j. j) j p.registry).by_id,
        lookup-moved id archived (λ j. j) p.registry j i,
      )

  archived-IsSound :
      (sink : Bool) (j : Job)
      → lookup id p.registry.by_id ≡ some j
      → can_transition j.state archived ≡ true
      → IsSound p
      → IsSound (archived_platform sink j)
  unfolding publish remove_as erase release
  archived-IsSound sink j here legal h =
      let (registry, store, contexts) =
        sunk_fields sink (final j)
          (record p { registry = without j; contexts = release id p.contexts }) in
      let gone : (remove id (moved id archived (λ j. j) j p.registry)).1 ≡ without j =
        unfold remove in
        ap (λ o. (remove_as id (moved id archived (λ j. j) j p.registry) o).1)
          (lookup_there id archived (λ j. j) p.registry j) in
      removed-IsSound p _ id h
        (subst IsIndexed (gone ∙ sym registry) (
          remove-IsIndexed id _ (
            moved-IsIndexed id archived (λ j. j) p.registry j
              (λ j. record { id = refl; user = refl; room = refl; session = refl; language = refl })
              (λ j. refl) here legal h.indexed)))
        (archived_jobs sink j)
        (λ i. ap (λ s. lookup i (delete id s)) store ∙ lookup-delete id i p.store)
        (λ i.
          ap (λ (c : Contexts). lookup i c.by_job) contexts ∙ lookup-delete id i p.contexts.by_job)

  pub archive_job-IsSound : (sink : Bool) → IsSound p → IsSound (archive_job sink now id p).1
  unfolding archive_job
  archive_job-IsSound sink h =
      transition_cases id archived (λ j. j) p.registry
        (λ x. IsSound (archived_with sink now id x p).1) (λ missing. unfold archived_with in h)
        (λ j here illegal. unfold archived_with in h)
        λ j here legal.
          let done : IsSound (archive_job sink now id p).1 =
            subst (λ (x : Reply Job × Platform). IsSound x.1)
              (sym (archive_job_ok sink j here legal)) (archived-IsSound sink j here legal h) in
          subst (λ x. IsSound (archived_with sink now id x p).1)
            (transition_ok id archived (λ j. j) p.registry j here legal) done

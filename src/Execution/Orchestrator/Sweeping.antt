-- ===== src/Execution/Orchestrator/Sweeping.antt =====
-- What a sweep archives.
use collaborative_programmin.Base.{
  ℕ, ◌≡◌, ◌↔◌, inl, inr, refl, ap, sym, subst, ◌∙◌, Bool, true, false, ◌&&◌, ◌||◌, List, [], ◌∷◌,
  Option, none, some, arith, ◌==◌, ==_iff, not, leb, ◌+◌, if◌then◌else◌, Bool-cases, Any,
}
use collaborative_programmin.Base.Dict.{lookup}
use collaborative_programmin.Execution.Job.{
  State, completed, failed, timed_out, cancelled, archived, code, Job, can_transition, is_finished,
}
use collaborative_programmin.Execution.Registry.Queries.{Member}
use collaborative_programmin.Execution.Registry.Candidates.{is_old, finished_before_lem}
use collaborative_programmin.Execution.Registry.Sweep.{finished_at}
use collaborative_programmin.Execution.Orchestrator.{Platform, Settings, Reply}
use collaborative_programmin.Execution.Orchestrator.Marks.{
  archived_with, archive_job, archive_loop, archive_finished, sweep_of,
}
use collaborative_programmin.Execution.Orchestrator.Moves.{transition_cases, transition_ok}
use collaborative_programmin.Execution.Orchestrator.Soundness.{IsSound, at_rest}
use collaborative_programmin.Execution.Orchestrator.Archival.{archive_job_ok, archived_jobs}

abbrev archivable : Option Job → Bool
archivable none = false
archivable (some j) = can_transition j.state archived

abbrev has_id : ℕ → List Job → Bool
has_id i [] = false
has_id i (j ∷ js) = j.id == i || has_id i js

archive_job_jobs :
    (sink : Bool) (now id i : ℕ) (p : Platform)
    → lookup i (archive_job sink now id p).1.registry.by_id ≡ (
        if id == i && archivable (lookup i p.registry.by_id)
        then none
        else lookup i p.registry.by_id)
unfolding archive_job
archive_job_jobs sink now id i p =
    transition_cases id archived (λ j. j) p.registry
      (λ x. lookup i (archived_with sink now id x p).1.registry.by_id ≡ (
        if id == i && archivable (lookup i p.registry.by_id)
        then none
        else lookup i p.registry.by_id))
      (λ missing. unfold archived_with in ground (arith, missing))
      (λ j here illegal. unfold archived_with in ground (arith, here, illegal))
      λ j here legal.
        let done : lookup i (archive_job sink now id p).1.registry.by_id ≡ (
            if id == i && archivable (lookup i p.registry.by_id)
            then none
            else lookup i p.registry.by_id) =
          ground (
            arith,
            here,
            legal,
            ap (λ (x : Reply Job × Platform). lookup i x.1.registry.by_id)
                (archive_job_ok id now p sink j here legal),
            archived_jobs id now p sink j i,
          ) in
        subst
          (λ x. lookup i (archived_with sink now id x p).1.registry.by_id ≡ (
            if id == i && archivable (lookup i p.registry.by_id)
            then none
            else lookup i p.registry.by_id))
          (transition_ok id archived (λ j. j) p.registry j here legal) done

archive_loop_jobs :
    (sink : Bool) (now i : ℕ) (js : List Job) (p : Platform)
    → lookup i (archive_loop sink now js p).1.registry.by_id ≡ (
        if has_id i js && archivable (lookup i p.registry.by_id)
        then none
        else lookup i p.registry.by_id)
unfolding archive_loop
archive_loop_jobs sink now i [] p = refl
archive_loop_jobs sink now i (j ∷ js) p = ground (
  arith,
  archive_job_jobs sink now j.id i p,
  archive_loop_jobs sink now i js (archive_job sink now j.id p).1,
)

has_id_iff : (i : ℕ) (js : List Job) → (has_id i js ≡ true) ↔ ((j : Job) × Member j js × (j.id ≡ i))
has_id_iff i [] = ((λ e. absurd (ground (arith, e))), λ h. absurd h.1)
has_id_iff i (x ∷ xs) =
    let (to, from) = has_id_iff i xs in
    (
      (λ e. elim (Bool-cases (x.id == i)) [
        | inl here ↦ (x, inl refl, (==_iff x.id i).0 here)
        | inr other ↦ let (j, m, is) = to (ground (arith, e, other)) in (j, inr m, is)
      ]),
      λ (j, m, is). elim m [
        | inl here ↦ ground (arith, is, ap (λ (x : Job). x.id) here)
        | inr later ↦ ground (arith, from (j, later, is))
      ],
    )

-- Completed at a known time, or else created, at least the retention ago.
abbrev pub is_due : ℕ → ℕ → Job → Bool
is_due retention now j =
    (not (j.completed_at == 0) && leb (j.completed_at + retention) now)
    || (j.completed_at == 0 && leb (j.created_at + retention) now)

-- What a sweep leaves of a job.
abbrev pub kept : Settings → ℕ → Option Job → Option Job
kept st now none = none
kept st now (some j) =
    if is_finished j.state && is_due st.archive_retention now j then none else some j

due_old : (retention now : ℕ) (j : Job) → is_due retention now j ≡ is_old retention now j
unfolding finished_at
due_old retention now j = ground arith

-- A finished job at rest is in one of the four states that a sweep looks at, and may be archived.
sorted :
    (j : Job)
    → at_rest j.state ≡ true
    → (Any (λ s. code j.state ≡ code s) (completed ∷ failed ∷ timed_out ∷ cancelled ∷ [])
        ↔ (is_finished j.state ≡ true))
unfolding is_finished
sorted j rests = ground (arith, rests)

archivable_finished : (s : State) → at_rest s ≡ true → can_transition s archived ≡ is_finished s
unfolding can_transition is_finished
archivable_finished s rests = ground (arith, rests)

module _ (st : Settings) (now : ℕ) (p : Platform) (h : IsSound p) (js : List Job)
    (members : (j : Job)
      → Member j js ↔ (
          (lookup j.id p.registry.by_id ≡ some j)
          × (is_old st.archive_retention now j ≡ true)
          × Any
              (λ s. code j.state ≡ code s)
              (completed ∷ failed ∷ timed_out ∷ cancelled ∷ []))) where
  found_iff :
      (i : ℕ) (j : Job)
      → lookup i p.registry.by_id ≡ some j
      → (has_id i js ≡ true)
        ↔ ((is_finished j.state ≡ true) × (is_old st.archive_retention now j ≡ true))
  found_iff i j at =
      let (to, from) = has_id_iff i js in
      let (there, back) = sorted j (h.settled i j at).rests in
      let filed = h.indexed.filed i j at in
      (
        (λ e.
            let (x, m, is) = to e in
            let (x_at, old, in_four) = (members x).0 m in
            let same : x ≡ j = ground (arith, x_at, at, is) in
            let there' =
              subst
                (λ (x : Job).
                  Any (λ s. code x.state ≡ code s)
                    (completed ∷ failed ∷ timed_out ∷ cancelled ∷ []))
                same in_four in
            (there there', ap (λ x. is_old st.archive_retention now x) (sym same) ∙ old)),
        λ (fin, old). from (
          j,
          (members j).1 (ap (λ k. lookup k p.registry.by_id) filed ∙ at, old, back fin),
          filed,
        ),
      )

  kept_jobs :
      (sink : Bool) (i : ℕ) (o : Option Job)
      → lookup i p.registry.by_id ≡ o
      → (if has_id i js && archivable o then none else o) ≡ kept st now o
  kept_jobs sink i none at = ground arith
  kept_jobs sink i (some j) at = ground (
    arith,
    found_iff i j at,
    due_old st.archive_retention now j,
    archivable_finished j.state (h.settled i j at).rests,
  )

-- A sweep of a sound platform does not panic, and takes away exactly the finished jobs that
-- completed, or were created if the time of completion is not known, at least the retention ago;
-- every other job stays as it is.
pub archive_finished_lem :
    (st : Settings) (sink : Bool) (now : ℕ) (p : Platform)
    → IsSound p
    → (r : ℕ × Platform) × (archive_finished st sink now p ≡ some r)
      × ((i : ℕ) → lookup i r.1.registry.by_id ≡ kept st now (lookup i p.registry.by_id))
unfolding archive_finished sweep_of
archive_finished_lem st sink now p h =
    let (js, found, members) = finished_before_lem st.archive_retention now p.registry h.indexed in
    (
      archive_loop sink now js p,
      rw found refl,
      λ i.
          archive_loop_jobs sink now i js p
          ∙ kept_jobs st now p h js members sink i (lookup i p.registry.by_id) refl,
    )

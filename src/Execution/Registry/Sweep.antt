-- ===== src/Execution/Registry/Sweep.antt =====
-- internal/execution/registry/registry.go: `FinishedBefore`, the candidates for archival. Its cutoff is
-- `retention` before `now`; the comparison is written with a sum.
use collaborative_programmin.Base.{
  ℕ, ◌+◌, List, [], ◌∷◌, ◌++◌, Option, none, some, ◌==◌, leb, if◌then◌else◌,
}
use collaborative_programmin.Execution.Job.{Job, State, completed, failed, timed_out, cancelled}
use collaborative_programmin.Execution.Registry.{Registry, jobs_in_state}

-- When the job finished, or was created if that is not known.
unfoldable pub finished_at : Job → ℕ
finished_at j = if j.completed_at == 0 then j.created_at else j.completed_at

unfoldable pub old_ones : ℕ → ℕ → List Job → List Job
unfolding finished_at
old_ones retention now [] = []
old_ones retention now (j ∷ js) =
    if leb (finished_at j + retention) now
    then j ∷ old_ones retention now js
    else old_ones retention now js

unfoldable pub gathered : ℕ → ℕ → Option (List Job) → Option (List Job) → Option (List Job)
unfolding old_ones
gathered retention now none rest = none
gathered retention now (some js) none = none
gathered retention now (some js) (some more) = some (old_ones retention now js ++ more)

unfoldable pub finished_in : ℕ → ℕ → List State → Registry → Option (List Job)
unfolding gathered
finished_in retention now [] r = some []
finished_in retention now (s ∷ ss) r =
    gathered retention now (jobs_in_state s r) (finished_in retention now ss r)

unfoldable pub finished_before : ℕ → ℕ → Registry → Option (List Job)
unfolding finished_in
finished_before retention now r =
    finished_in retention now (completed ∷ failed ∷ timed_out ∷ cancelled ∷ []) r

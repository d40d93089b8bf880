-- ===== src/Execution/Examples.antt =====
-- Jobs at work: concrete jobs and registries on which the theorems about internal/execution are
-- applied.
use collaborative_programmin.Base.{
  ℕ, pos, ◌≡◌, ◌⊎◌, ◌↔◌, refl, true, false, List, [], ◌∷◌, none, some,
}
use collaborative_programmin.Base.Dict.{lookup, insert}
use collaborative_programmin.Execution.Job.{
  pending, validated, archived, can_transition, ResourceProfile, Request, Job, Defaults, new_job,
}
use collaborative_programmin.Execution.Registry.{
  Registry, new_registry, add, transition, jobs_of_user,
}
use collaborative_programmin.Execution.Registry.Invariant.{IsIndexed, SameIdentity}
use collaborative_programmin.Execution.Registry.Queries.{Member, jobs_of_user_lem}
use collaborative_programmin.Execution.Registry.History.{
  Call, adds, moves, updates, removes, step, run, run-new-IsIndexed, step_lawful,
}

abbrev profile : ResourceProfile
profile = record {
  tier = 1;
  memory_bytes = pos 1000;
  cpu_millicores = pos 500;
  pids_limit = pos 10;
  tmpfs_bytes = pos 100;
  wall_timeout = pos 0;
}

abbrev request : Request
request = record {
  request_id = 1;
  correlation_id = 2;
  user_id = 3;
  session_id = 4;
  room_id = 5;
  language = 6;
  source = 7;
  stdin = 0;
  compiler_options = [];
  execution_options = record { args = []; env = []; network_access = false };
  priority = pos 1;
  timeout = pos 0;
  resources = none;
  metadata = [];
  authenticated = true;
  roles = [];
}

abbrev defaults : ℕ → Defaults
defaults id = record {
  id = id;
  request_id = 1;
  correlation_id = 2;
  now = 100;
  timeout = 30;
  max_retries = 2;
  resources = profile;
}

abbrev job : ℕ → Job
job id = new_job request (defaults id)

-- A callback that records a worker.
abbrev assign : Job → Job
assign j = record j { worker_id = 9 }

abbrev calls : List Call
calls =
    adds (job 20)
    ∷ adds (job 21)
    ∷ moves 20 validated assign
    ∷ updates 21 (λ j. record j { state = archived })
    ∷ removes 21
    ∷ []

same_identity : (j : Job) → SameIdentity j (assign j)
same_identity j = record { id = refl; user = refl; room = refl; session = refl; language = refl }

run-new-IsIndexed_example : IsIndexed (run calls new_registry)
run-new-IsIndexed_example = run-new-IsIndexed calls (
  tt,
  (
    tt,
    (
      ((λ j. same_identity j), λ j. refl),
      (
        (λ j. record { id = refl; user = refl; room = refl; session = refl; language = refl }),
        (tt, tt),
      ),
    ),
  ),
)

abbrev loaded : Registry
loaded = run (adds (job 20) ∷ adds (job 21) ∷ []) new_registry

loaded-IsIndexed : IsIndexed loaded
loaded-IsIndexed = run-new-IsIndexed (adds (job 20) ∷ adds (job 21) ∷ []) (tt, (tt, tt))

jobs_of_user_lem_example :
    (js : List Job) × (jobs_of_user 3 loaded ≡ some js)
    × ((j : Job) → Member j js ↔ ((lookup j.id loaded.by_id ≡ some j) × (j.user_id ≡ 3)))
jobs_of_user_lem_example = jobs_of_user_lem loaded 3 loaded-IsIndexed (λ e. cc)

step_lawful_example : (validated ≡ pending) ⊎ (can_transition pending validated ≡ true)
unfolding run step add new_registry insert lookup new_job transition can_transition
step_lawful_example =
    step_lawful (moves 20 validated assign) loaded 20 (job 20)
      (record (job 20) { state = validated; transitions = 1; worker_id = 9 })
      ((λ j. same_identity j), λ j. refl) refl refl

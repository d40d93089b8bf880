-- ===== src/Execution/Orchestrator/Histories.antt =====
-- The platform over histories of calls.
use collaborative_programmin.Base.{
  ℕ, ◌≡◌, refl, Bool, true, ◌||◌, leb, List, [], ◌∷◌, Option, none, some, arith,
}
use collaborative_programmin.Base.Dict.{lookup}
use collaborative_programmin.Execution.Job.{Job, Request, is_active}
use collaborative_programmin.Execution.Registry.Invariant.{new_registry-IsIndexed}
use collaborative_programmin.Execution.Registry.{new_registry}
use collaborative_programmin.Execution.Registry.Sweep.{finished_before}
use collaborative_programmin.Execution.Context.{Context, new_contexts, is_done}
use collaborative_programmin.Execution.Orchestrator.{
  Platform, new_platform, Settings, Minted, submit, cancel_job, retry_job,
}
use collaborative_programmin.Execution.Orchestrator.Marks.{
  mark_dispatched, mark_started, mark_streaming, mark_completed, mark_failed, mark_timed_out,
  archive_job, archive_loop, archive_finished, sweep_of,
}
use collaborative_programmin.Execution.Orchestrator.Soundness.{IsSound, is_live}
use collaborative_programmin.Execution.Orchestrator.Progress.{
  mark_dispatched-IsSound, mark_started-IsSound, mark_streaming-IsSound, mark_completed-IsSound,
  mark_failed-IsSound, mark_timed_out-IsSound, cancel_job-IsSound,
}
use collaborative_programmin.Execution.Orchestrator.Submission.{submit-IsSound, retry_job-IsSound}
use collaborative_programmin.Execution.Orchestrator.Archival.{archive_job-IsSound}

pub data Call : Type 0 where
  submits : Minted → Request → Call
  cancels : (now id : ℕ) → Call
  retries : (parent now later id : ℕ) → Call
  dispatches : (id worker : ℕ) → Call
  starts completes fails times_out : (now id : ℕ) → Call
  streams : (id : ℕ) → Call
  archives : Bool → (now id : ℕ) → Call
  sweeps : Bool → (now : ℕ) → Call

-- What a sweep leaves; after a panic, everything.
unfoldable pub swept : Option (ℕ × Platform) → Platform → Platform
swept none p = p
swept (some (n, p')) p = p'

unfoldable pub step : Settings → Call → Platform → Platform
unfolding swept
step st (submits m req) p = (submit st m req p).1
step st (cancels now id) p = (cancel_job now id p).1
step st (retries parent now later id) p = (retry_job parent now later id p).1
step st (dispatches id worker) p = (mark_dispatched id worker p).1
step st (starts now id) p = (mark_started now id p).1
step st (completes now id) p = (mark_completed now id p).1
step st (fails now id) p = (mark_failed now id p).1
step st (times_out now id) p = (mark_timed_out now id p).1
step st (streams id) p = (mark_streaming id p).1
step st (archives sink now id) p = (archive_job sink now id p).1
step st (sweeps sink now) p = swept (archive_finished st sink now p) p

unfoldable pub run : Settings → List Call → Platform → Platform
run st [] p = p
run st (c ∷ cs) p = run st cs (step st c p)

pub archive_loop-IsSound :
    (sink : Bool) (now : ℕ) (js : List Job) (p : Platform)
    → IsSound p
    → IsSound (archive_loop sink now js p).1
unfolding archive_loop
archive_loop-IsSound sink now [] p h = h
archive_loop-IsSound sink now (j ∷ js) p h =
    archive_loop-IsSound sink now js (archive_job sink now j.id p).1
      (archive_job-IsSound j.id now p sink h)

sweep-IsSound :
    (sink : Bool) (now : ℕ) (o : Option (List Job)) (p : Platform)
    → IsSound p
    → IsSound (swept (sweep_of sink now o p) p)
unfolding swept sweep_of
sweep-IsSound sink now none p h = h
sweep-IsSound sink now (some js) p h = archive_loop-IsSound sink now js p h

step-IsSound : (st : Settings) (c : Call) (p : Platform) → IsSound p → IsSound (step st c p)
unfolding step
step-IsSound st (submits m req) p h = submit-IsSound st m req p h
step-IsSound st (cancels now id) p h = cancel_job-IsSound id p h now
step-IsSound st (retries parent now later id) p h = retry_job-IsSound parent now later id p h
step-IsSound st (dispatches id worker) p h = mark_dispatched-IsSound id p h worker
step-IsSound st (starts now id) p h = mark_started-IsSound id p h now
step-IsSound st (completes now id) p h = mark_completed-IsSound id p h now
step-IsSound st (fails now id) p h = mark_failed-IsSound id p h now
step-IsSound st (times_out now id) p h = mark_timed_out-IsSound id p h now
step-IsSound st (streams id) p h = mark_streaming-IsSound id p h
step-IsSound st (archives sink now id) p h = archive_job-IsSound id now p sink h
step-IsSound st (sweeps sink now) p h =
    unfold archive_finished in
    sweep-IsSound sink now (finished_before st.archive_retention now p.registry) p h

run-IsSound : (st : Settings) (cs : List Call) (p : Platform) → IsSound p → IsSound (run st cs p)
unfolding run
run-IsSound st [] p h = h
run-IsSound st (c ∷ cs) p h = run-IsSound st cs (step st c p) (step-IsSound st c p h)

new_platform-IsSound : (capacity : ℕ) → IsSound (new_platform capacity)
unfolding new_platform new_registry new_contexts lookup
new_platform-IsSound capacity = record {
  indexed = unfold new_registry in new_registry-IsIndexed;
  settled = λ i j at. absurd (ground (arith, at));
  mirrored = λ i. refl;
  attended = λ i j at. absurd (ground (arith, at));
  owned = λ i at. refl;
}

-- The context of every active job is there, and is done exactly when the caller's context from which it
-- is derived is, or its deadline is past; `ended` says which of the callers' contexts have ended.
abbrev pub EndsFromOutside : Platform → Type 0
EndsFromOutside p =
    (i : ℕ) (j : Job)
    → lookup i p.registry.by_id ≡ some j
    → is_active j.state ≡ true
    → (c : Context) × (lookup i p.contexts.by_job ≡ some c)
      × ((ended : ℕ → Bool) (now : ℕ)
          → is_done ended now c ≡ (ended c.parent || leb c.deadline now))

live_ends :
    (o : Option Context)
    → is_live o ≡ true
    → (c : Context) × (o ≡ some c)
      × ((ended : ℕ → Bool) (now : ℕ)
          → is_done ended now c ≡ (ended c.parent || leb c.deadline now))
unfolding is_done
live_ends none live = absurd (ground (arith, live))
live_ends (some c) live = (c, refl, λ ended now. ground (arith, live))

IsSound-EndsFromOutside : (p : Platform) → IsSound p → EndsFromOutside p
IsSound-EndsFromOutside p h i j at active =
    live_ends (lookup i p.contexts.by_job) (h.attended i j at active)

-- After any history of calls of the orchestrator, with any settings, validators and capacity of the
-- scheduler: the indexes of the registry agree with the jobs; the repository holds exactly the jobs of
-- the registry, as they are there; no job is left in a passing state (pending, validated, retrying,
-- archived); the outcome of each job is the one of its state, its retries stay within its limit, and
-- only finished jobs have a time of completion; every active job has an execution context, which is
-- done exactly when the caller's context from which it was derived has ended, or when its deadline is
-- past: the orchestrator itself has not cancelled it; and no context outlives its job.
pub run-new_platform-IsSound :
    (st : Settings) (capacity : ℕ) (cs : List Call)
    → IsSound (run st cs (new_platform capacity))
      × EndsFromOutside (run st cs (new_platform capacity))
run-new_platform-IsSound st capacity cs =
    let h = run-IsSound st cs (new_platform capacity) (new_platform-IsSound capacity) in
    (h, IsSound-EndsFromOutside _ h)

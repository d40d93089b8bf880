-- ===== src/Execution/Orchestrator/Progress.antt =====
-- The marks of the workers and a cancellation, on a sound platform.
use collaborative_programmin.Base.{
  ℕ, ◌≡◌, refl, subst, ◌∙◌, true, false, ◌||◌, ◌∷◌, Option, none, some, arith, ◌==◌,
}
use collaborative_programmin.Execution.Job.{
  State, dispatched, running, streaming, completed, failed, timed_out, cancelled, code, Job,
  can_transition, outcome_for, is_active, is_finished,
}
use collaborative_programmin.Execution.Registry.Invariant.{SameIdentity}
use collaborative_programmin.Execution.Registry.Rewrites.{Keeps, KeepsState}
use collaborative_programmin.Execution.Context.{cancel, release, assign}
use collaborative_programmin.Execution.Scheduler.{withdraw}
use collaborative_programmin.Execution.Orchestrator.{
  Kind, Platform, Reply, ok, rejected, registry_error, scheduler_unavailable, cancellation_conflict,
  retry_conflict, retries_exhausted, not_found, job_dispatched, job_started, job_completed,
  job_failed, job_timed_out, job_cancelled, publish, persist, fail_at, cancel_at, cancelled_with,
  cancel_job,
}
use collaborative_programmin.Execution.Orchestrator.Marks.{
  advance, and_then, dispatch_to, mark_dispatched, start_at, mark_started, mark_streaming,
  complete_at, mark_completed, mark_failed, time_out_at, mark_timed_out,
}
use collaborative_programmin.Execution.Orchestrator.Moves.{
  entered, moved, transition_cases, lookup_there, snapped,
}
use collaborative_programmin.Execution.Orchestrator.Soundness.{IsSettled, IsSound, waits}
use collaborative_programmin.Execution.Orchestrator.Effects.{
  release-Others, cancel-Others, moved-IsSound, advanced-IsSound, assigned-IsSound,
}

-- What each mark makes of a settled job.
module _ (now : ℕ) (j : Job) (h : IsSettled j) where
  started : can_transition j.state running ≡ true → IsSettled (entered running (start_at now) j)
  unfolding can_transition outcome_for is_active
  started legal = record {
    rests = refl;
    outcome = ground (arith, legal, h.outcome);
    retries = h.retries;
    unfinished = ground (arith, legal, h.unfinished);
    unstarted = refl;
  }

  dispatched_on :
      (worker : ℕ)
      → can_transition j.state dispatched ≡ true
      → IsSettled (entered dispatched (dispatch_to worker) j)
  unfolding can_transition outcome_for is_active
  dispatched_on worker legal = record {
    rests = refl;
    outcome = ground (arith, legal, h.outcome);
    retries = h.retries;
    unfinished = ground (arith, legal, h.unfinished);
    unstarted = ground (arith, legal, h.unstarted);
  }

  streamed : can_transition j.state streaming ≡ true → IsSettled (entered streaming (λ j. j) j)
  unfolding can_transition outcome_for is_active
  streamed legal = record {
    rests = refl;
    outcome = ground (arith, legal, h.outcome);
    retries = h.retries;
    unfinished = ground (arith, legal, h.unfinished);
    unstarted = refl;
  }

  completed_at : IsSettled (entered completed (complete_at now) j)
  unfolding outcome_for is_active is_finished
  completed_at = record {
    rests = refl;
    outcome = refl;
    retries = h.retries;
    unfinished = refl;
    unstarted = refl;
  }

  failed_at : IsSettled (entered failed (fail_at now) j)
  unfolding outcome_for is_active is_finished
  failed_at = record {
    rests = refl;
    outcome = refl;
    retries = h.retries;
    unfinished = refl;
    unstarted = refl;
  }

  timed_out_at : IsSettled (entered timed_out (time_out_at now) j)
  unfolding outcome_for is_active is_finished
  timed_out_at = record {
    rests = refl;
    outcome = refl;
    retries = h.retries;
    unfinished = refl;
    unstarted = refl;
  }

  cancelled_at : IsSettled (entered cancelled (cancel_at now) j)
  unfolding outcome_for is_active is_finished
  cancelled_at = record {
    rests = refl;
    outcome = refl;
    retries = h.retries;
    unfinished = refl;
    unstarted = refl;
  }

-- A job that a mark leaves active was active.
active_before :
    (to : State)
    → waits to || code to == 4 || code to == 5 ≡ true
    → is_active to ≡ true
    → (j : Job) → can_transition j.state to ≡ true
    → is_active j.state ≡ true
unfolding can_transition is_active
active_before to on active j legal = ground arith

finished :
    (to : State)
    → is_active to ≡ false
    → is_active to ≡ true
    → (j : Job) → can_transition j.state to ≡ true
    → is_active j.state ≡ true
finished to off active j legal = absurd (ground (arith, off, active))

inactive : {A B : Type 0} (to : State) → is_active to ≡ false → is_active to ≡ true → A → B
inactive to off active a = absurd (ground (arith, off, active))

and_then_same : (x : Reply (Unit {0}) × Platform) → (and_then (λ q. q) x).1 ≡ x.1
unfolding and_then
and_then_same (ok u, p) = refl
and_then_same (rejected f, p) = refl
and_then_same (registry_error e, p) = refl
and_then_same (scheduler_unavailable, p) = refl
and_then_same (cancellation_conflict, p) = refl
and_then_same (retry_conflict, p) = refl
and_then_same (retries_exhausted, p) = refl
and_then_same (not_found, p) = refl

same_job :
    (j j' : Job)
    → j'.id ≡ j.id
    → j'.user_id ≡ j.user_id
    → j'.room_id ≡ j.room_id
    → j'.session_id ≡ j.session_id
    → j'.language ≡ j.language
    → SameIdentity j j'
same_job j j' id user room session language = record {
  id = id;
  user = user;
  room = room;
  session = session;
  language = language;
}

-- A mark that leaves the contexts alone.
advance-IsSound :
    (id : ℕ) (to : State) (f : Job → Job) (p : Platform) (kind : Option Kind)
    → Keeps f
    → KeepsState f
    → ((j : Job) → IsSettled j → can_transition j.state to ≡ true → IsSettled (entered to f j))
    → (is_active to ≡ true
        → (j : Job) → can_transition j.state to ≡ true
        → is_active j.state ≡ true)
    → IsSound p
    → IsSound (advance id to kind f p).1
advance-IsSound id to f p kind keeps same settles was h =
    subst IsSound (and_then_same (advance id to kind f p)) (
      advanced-IsSound id to f p keeps same kind (λ c. c) settles (λ i other. refl) was
        (λ active live. live) h)

module _ (id : ℕ) (p : Platform) (h : IsSound p) where
  pub mark_dispatched-IsSound : (worker : ℕ) → IsSound (mark_dispatched id worker p).1
  unfolding mark_dispatched
  mark_dispatched-IsSound worker =
      advance-IsSound id dispatched (dispatch_to worker)
        (record p { contexts = assign id worker 0 p.contexts }) (some job_dispatched)
        (λ j. same_job j _ refl refl refl refl refl) (λ j. refl)
        (λ j settled. dispatched_on 0 j settled worker) (active_before dispatched refl)
        (assigned-IsSound id worker p h)

  pub mark_started-IsSound : (now : ℕ) → IsSound (mark_started now id p).1
  unfolding mark_started
  mark_started-IsSound now =
      advance-IsSound id running (start_at now) p (some job_started)
        (λ j. same_job j _ refl refl refl refl refl) (λ j. refl) (started now)
        (active_before running refl) h

  pub mark_streaming-IsSound : IsSound (mark_streaming id p).1
  unfolding mark_streaming
  mark_streaming-IsSound =
      advance-IsSound id streaming (λ j. j) p none (λ j. same_job j _ refl refl refl refl refl)
        (λ j. refl) (streamed 0) (active_before streaming refl) h

  pub mark_failed-IsSound : (now : ℕ) → IsSound (mark_failed now id p).1
  unfolding mark_failed is_active
  mark_failed-IsSound now =
      advance-IsSound id failed (fail_at now) p (some job_failed)
        (λ j. same_job j _ refl refl refl refl refl) (λ j. refl)
        (λ j settled legal. failed_at now j settled) (finished failed refl) h

  pub mark_completed-IsSound : (now : ℕ) → IsSound (mark_completed now id p).1
  unfolding mark_completed is_active
  mark_completed-IsSound now =
      advanced-IsSound id completed (complete_at now) p (λ j. same_job j _ refl refl refl refl refl)
        (λ j. refl) (some job_completed) (release id)
        (λ j settled legal. completed_at now j settled) (release-Others id p.contexts)
        (finished completed refl) (inactive completed refl) h

  pub mark_timed_out-IsSound : (now : ℕ) → IsSound (mark_timed_out now id p).1
  unfolding mark_timed_out is_active
  mark_timed_out-IsSound now =
      advanced-IsSound id timed_out (time_out_at now) p (λ j. same_job j _ refl refl refl refl refl)
        (λ j. refl) (some job_timed_out) (cancel id) (λ j settled legal. timed_out_at now j settled)
        (cancel-Others id p.contexts) (finished timed_out refl) (inactive timed_out refl) h

  pub cancel_job-IsSound : (now : ℕ) → IsSound (cancel_job now id p).1
  unfolding cancel_job cancelled_with publish persist is_active
  cancel_job-IsSound now =
      transition_cases id cancelled (cancel_at now) p.registry
        (λ x. IsSound (cancelled_with id x p).1) (λ missing. h) (λ j here illegal. h)
        λ j here legal.
          let p1 = record p {
            registry = moved id cancelled (cancel_at now) j p.registry;
            contexts = cancel id p.contexts;
            scheduler = withdraw id p.scheduler;
          } in
          let s = entered cancelled (cancel_at now) j in
          snapped
            (λ s. IsSound (
              persist s
                (record (publish job_cancelled s.id p1) { contexts = release id p1.contexts })))
            id p1 s (lookup_there id cancelled (cancel_at now) p.registry j)
            (moved-IsSound id cancelled (cancel_at now) p
              (λ j. same_job j _ refl refl refl refl refl) (λ j. refl) j
              (release id (cancel id p.contexts)) (withdraw id p.scheduler)
              (record { kind = job_cancelled; job_id = s.id } ∷ p.events) here legal
              (cancelled_at now j (h.settled id j here))
              (λ i other.
                release-Others id (cancel id p.contexts) i other
                ∙ cancel-Others id p.contexts i other)
              (λ active. absurd (ground (arith, active))) h)

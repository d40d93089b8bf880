-- ===== src/Execution/Orchestrator/Ahead.antt =====
-- The middle of a submission or a retry, when the registry is ahead of the repository.
use collaborative_programmin.Base.{
  ℕ, ◌≤◌, ◌≡◌, ap, ◌∙◌, true, false, List, some, arith, ◌==◌, if◌then◌else◌,
}
use collaborative_programmin.Base.Dict.{lookup, lookup-insert}
use collaborative_programmin.Execution.Job.{
  State, queued, Job, no_outcome, can_transition, outcome_for, is_active, is_finished,
}
use collaborative_programmin.Execution.Registry.Invariant.{IsIndexed, SameIdentity}
use collaborative_programmin.Execution.Context.{Contexts}
use collaborative_programmin.Execution.Scheduler.{Memory}
use collaborative_programmin.Execution.Storage.{save}
use collaborative_programmin.Execution.Orchestrator.{Event, Platform}
use collaborative_programmin.Execution.Orchestrator.Moves.{
  entered, moved, lookup-moved, moved-IsIndexed,
}
use collaborative_programmin.Execution.Orchestrator.Soundness.{
  IsSettled, IsSound, is_live, written-IsSound,
}
use collaborative_programmin.Execution.Orchestrator.Effects.{Others}

-- In the middle of a call, one job is ahead of the store, with a live context.
pub record IsAhead (p0 : Platform) (id : ℕ) (j : Job) (p : Platform) : Type 0 where
  pub sound : IsSound p0
  pub indexed : IsIndexed p.registry
  pub jobs :
      (i : ℕ) → lookup i p.registry.by_id ≡ (if id == i then some j else lookup i p0.registry.by_id)
  pub stored : p.store ≡ p0.store
  pub others : Others id p0.contexts p.contexts
  pub live : is_live (lookup id p.contexts.by_job) ≡ true
  pub outcome : j.outcome ≡ no_outcome
  pub retries : j.retry_count ≤ j.max_retries
  pub unfinished : j.completed_at ≡ 0
  pub unstarted : j.started_at ≡ 0

pub ahead_here :
    (p0 : Platform) (id : ℕ) (j : Job) (p : Platform)
    → IsAhead p0 id j p
    → lookup id p.registry.by_id ≡ some j
ahead_here p0 id j p h = ground (arith, h.jobs id)

pub ahead_id : (p0 : Platform) (id : ℕ) (j : Job) (p : Platform) → IsAhead p0 id j p → j.id ≡ id
ahead_id p0 id j p h = h.indexed.filed id j (ahead_here p0 id j p h)

-- The job and the store come together again.
pub settled_down :
    (p0 : Platform) (id : ℕ) (j : Job) (p : Platform) (c : Contexts) (m : Memory) (es : List Event)
    → IsAhead p0 id j p
    → IsSettled j
    → Others id p.contexts c
    → (is_active j.state ≡ true → is_live (lookup id c.by_job) ≡ true)
    → IsSound (record p { contexts = c; scheduler = m; store = save j p.store; events = es })
unfolding save
settled_down p0 id j p c m es h settled others live =
    written-IsSound p0 _ id j h.sound h.indexed h.jobs
      (λ i.
        ground
          (arith, ahead_id p0 id j p h, lookup-insert j.id i j p.store, ap (lookup i) h.stored))
      (λ i other. others i other ∙ h.others i other) settled live

-- A job that waits in the queue is settled.
pub queued_settled :
    (p0 : Platform) (id : ℕ) (j : Job) (p : Platform)
    → IsAhead p0 id j p
    → j.state ≡ queued
    → IsSettled j
unfolding outcome_for is_active is_finished
queued_settled p0 id j p h at = record {
  rests = ground (arith, at);
  outcome = ground (arith, at, h.outcome);
  retries = h.retries;
  unfinished = ground (arith, h.unfinished);
  unstarted = ground (arith, h.unstarted);
}

-- A transition in the middle of a call, with what else it does.
pub IsAhead-moved :
    (p0 : Platform) (id : ℕ) (j : Job) (p : Platform) (to : State) (f : Job → Job)
    → ((j : Job) → SameIdentity j (f j))
    → ((j : Job) → (f j).state ≡ j.state)
    → can_transition j.state to ≡ true
    → IsSound p0
    → IsIndexed p.registry
    → lookup id p.registry.by_id ≡ some j
    → ((i : ℕ) → (id == i) ≡ false → lookup i p.registry.by_id ≡ lookup i p0.registry.by_id)
    → p.store ≡ p0.store
    → (c : Contexts) → Others id p0.contexts c
    → is_live (lookup id c.by_job) ≡ true
    → (entered to f j).outcome ≡ no_outcome
    → (entered to f j).retry_count ≤ (entered to f j).max_retries
    → (entered to f j).completed_at ≡ 0
    → (entered to f j).started_at ≡ 0
    → (es : List Event)
    → IsAhead p0 id
        (entered to f j)
        (record p { registry = moved id to f j p.registry; contexts = c; events = es })
IsAhead-moved p0 id j p to f keeps same legal sound indexed here jobs stored c others live outcome
      retries unfinished unstarted es =
    record {
      sound = sound;
      indexed = moved-IsIndexed id to f p.registry j keeps same here legal indexed;
      jobs = λ i. ground (arith, lookup-moved id to f p.registry j i, jobs i);
      stored = stored;
      others = others;
      live = live;
      outcome = outcome;
      retries = retries;
      unfinished = unfinished;
      unstarted = unstarted;
    }

pub same_job :
    (j j' : Job)
    → j'.id ≡ j.id
    → j'.user_id ≡ j.user_id
    → j'.room_id ≡ j.room_id
    → j'.session_id ≡ j.session_id
    → j'.language ≡ j.language
    → SameIdentity j j'
same_job j j' id user room session language = record {
  id = id;
  user = user;
  room = room;
  session = session;
  language = language;
}

-- ===== src/Execution/Orchestrator.antt =====
-- internal/execution/orchestrator/orchestrator.go, over the registry, the validation pipeline, the
-- execution contexts, the in-memory scheduler, repository and archive. An operation is one step here:
-- interleavings of the steps of two operations are left out, and so are metrics, logs and the reason
-- and payload of an event. Ids are minted outside; a missing job's snapshot is the zero job.
pub mod Marks
pub mod Moves
pub mod Soundness
pub mod Effects
pub mod Progress
pub mod Ahead
pub mod Submission
pub mod Archival
pub mod Sweeping
pub mod Cancellation
pub mod Histories
pub mod Examples
use collaborative_programmin.Base.{
  ℕ, ℤ, pos, pos_part, suc, ◌+◌, Bool, true, false, not, ◌&&◌, ◌||◌, List, [], ◌∷◌, Option, none,
  some, ◌==◌, ltb, leb, if◌then◌else◌,
}
use collaborative_programmin.Base.Dict.{Dict, lookup}
use collaborative_programmin.Execution.Job.{
  State, pending, validated, queued, dispatched, running, streaming, completed, failed, timed_out,
  cancelled, retrying, archived, Outcome, no_outcome, success, failure, timeout, cancellation,
  ResourceProfile, Request, Job, Defaults, new_job, can_retry,
}
use collaborative_programmin.Execution.Registry.{
  Registry, new_registry, Error, duplicate_job, job_not_found, illegal_transition, Moved,
  moved_from, refused, add, transition, remove,
}
use collaborative_programmin.Execution.Registry.Sweep.{finished_before}
use collaborative_programmin.Execution.Language.{Language, Languages}
use collaborative_programmin.Execution.Validation.{Fault, Check, validate}
use collaborative_programmin.Execution.Context.{
  Contexts, new_contexts, create, cancel, release, assign,
}
use collaborative_programmin.Execution.Scheduler.{Memory, new_scheduler, schedule, withdraw}
use collaborative_programmin.Execution.Storage.{Repository, save, erase, Archive, store_archived}

pub data Kind : Type 0 where
  execution_requested execution_rejected execution_validated execution_archived : Kind
  job_created job_queued job_dispatched job_started job_completed job_failed : Kind
  job_timed_out job_cancelled job_retried : Kind

-- A published event; the job's id is 0 for the events of a request.
pub record Event : Type 0 where
  pub kind : Kind
  pub job_id : ℕ

pub record Settings : Type 0 where
  pub languages : Languages
  pub validators : List Check
  pub stop_on_first : Bool
  pub default_timeout : ℕ
  pub max_timeout : ℕ
  pub max_retries : ℕ
  pub archive_retention : ℕ

-- The orchestrator with the parts that it composes; the latest event is first.
pub record Platform : Type 0 where
  pub registry : Registry
  pub contexts : Contexts
  pub scheduler : Memory
  pub store : Repository
  pub archive : Archive
  pub events : List Event

unfoldable pub new_platform : ℕ → Platform
new_platform capacity = record {
  registry = new_registry;
  contexts = new_contexts;
  scheduler = new_scheduler capacity;
  store = [];
  archive = [];
  events = [];
}

abbrev zero_profile : ResourceProfile
zero_profile = record {
  tier = 0;
  memory_bytes = pos 0;
  cpu_millicores = pos 0;
  pids_limit = pos 0;
  tmpfs_bytes = pos 0;
  wall_timeout = pos 0;
}

abbrev zero_job : Job
zero_job = record {
  id = 0;
  request_id = 0;
  correlation_id = 0;
  user_id = 0;
  session_id = 0;
  room_id = 0;
  language = 0;
  source = 0;
  stdin = 0;
  compiler_options = [];
  execution_options = record { args = []; env = []; network_access = false };
  priority = pos 0;
  state = pending;
  outcome = no_outcome;
  retry_count = 0;
  max_retries = 0;
  created_at = 0;
  scheduled_at = 0;
  started_at = 0;
  completed_at = 0;
  timeout = 0;
  resources = zero_profile;
  cancel_requested = false;
  metadata = [];
  worker_id = 0;
  sandbox_id = 0;
  container_id = 0;
  transitions = 0;
}

-- `reg.Get`, whose flag is dropped.
unfoldable pub snapshot_of : Option Job → Job
snapshot_of none = zero_job
snapshot_of (some j) = j

unfoldable pub snapshot : ℕ → Platform → Job
unfolding snapshot_of
snapshot id p = snapshot_of (lookup id p.registry.by_id)

unfoldable pub publish : Kind → ℕ → Platform → Platform
publish kind id p = record p { events = record { kind = kind; job_id = id } ∷ p.events }

unfoldable pub persist : Job → Platform → Platform
unfolding save
persist j p = record p { store = save j p.store }

-- What an operation returns: no error is `ok`.
pub data Reply {ℓ} (A : Type ℓ) : Type ℓ where
  ok : A → Reply A
  rejected : Fault → Reply A
  registry_error : Error → Reply A
  scheduler_unavailable cancellation_conflict retry_conflict retries_exhausted not_found : Reply A

-- What is minted or read from the clock in the course of a call; `later` is the clock when a refused
-- schedule is handled, `parent` names the caller's context, and `ended` is whether the request's context has ended at each validator.
pub record Minted : Type 0 where
  pub now : ℕ
  pub later : ℕ
  pub request_id : ℕ
  pub correlation_id : ℕ
  pub job_id : ℕ
  pub parent : ℕ
  pub ended : ℕ → Bool

unfoldable pub with_ids : Minted → Request → Request
with_ids m req = record req {
  request_id = if req.request_id == 0 then m.request_id else req.request_id;
  correlation_id = if req.correlation_id == 0 then m.correlation_id else req.correlation_id;
}

unfoldable pub language_profile : Option Language → ResourceProfile
language_profile none = zero_profile
language_profile (some l) = l.profile

unfoldable pub language_timeout : Option Language → ℤ → ℤ
language_timeout none t = t
language_timeout (some l) t =
    if pos_part t == 0 && ltb 0 l.default_timeout then pos l.default_timeout else t

unfoldable pub resolve_defaults : Settings → Minted → Request → Defaults
unfolding language_profile language_timeout
resolve_defaults st m req =
    let lang = lookup req.language st.languages in
    let asked = language_timeout lang req.timeout in
    let given = if pos_part asked == 0 then st.default_timeout else pos_part asked in
    record {
      id = m.job_id;
      request_id = req.request_id;
      correlation_id = req.correlation_id;
      now = m.now;
      timeout = if ltb st.max_timeout given then st.max_timeout else given;
      max_retries = st.max_retries;
      resources = language_profile lang;
    }

abbrev pub fail_at : ℕ → Job → Job
fail_at now j = record j { outcome = failure; completed_at = now }

unfoldable pub failed_with : ℕ → Moved × Registry → Platform → Platform
unfolding snapshot publish persist release
failed_with id (refused e, r) p = p
failed_with id (moved_from s, r) p =
    let p1 = record p { registry = r } in
    let snap = snapshot id p1 in
    let p2 = publish job_failed snap.id p1 in
    persist snap (record p2 { contexts = release id p2.contexts })

unfoldable pub fail_scheduling : ℕ → ℕ → Platform → Platform
unfolding failed_with
fail_scheduling now id p = failed_with id (transition id failed (fail_at now) p.registry) p

-- The end of a submission and of a retry: the job, queued, is handed to the scheduler.
unfoldable pub handed_over : ℕ → ℕ → Bool × Memory → Platform → Reply Job × Platform
unfolding fail_scheduling snapshot publish persist
handed_over now id (false, m) p = (scheduler_unavailable, fail_scheduling now id p)
handed_over now id (true, m) p =
    let snap = snapshot id p in
    (ok snap, persist snap (publish job_queued snap.id (record p { scheduler = m })))

unfoldable pub queue_up : ℕ → ℕ → Moved × Registry → Platform → Reply Job × Platform
unfolding handed_over
queue_up later id (refused e, r) p = (registry_error e, p)
queue_up later id (moved_from s, r) p =
    let p1 = record p { registry = r } in
    handed_over later id (schedule (snapshot id p1) p1.scheduler) p1

unfoldable pub build_context : Minted → Job → Moved × Registry → Platform → Reply Job × Platform
unfolding queue_up create
build_context m j (refused e, r) p = (registry_error e, p)
build_context m j (moved_from s, r) p =
    let p1 = record p { registry = r; contexts = create m.parent m.now j p.contexts } in
    queue_up m.later j.id
      (transition j.id queued (λ jj. record jj { scheduled_at = m.now }) p1.registry) p1

unfoldable pub created : Minted → Job → Option Error × Registry → Platform → Reply Job × Platform
unfolding build_context publish
created m j (some e, r) p = (registry_error e, p)
created m j (none, r) p =
    let p1 = publish job_created j.id (record p { registry = r }) in
    build_context m j (transition j.id validated (λ jj. jj) p1.registry) p1

unfoldable pub screened : Settings → Minted → Request → List Fault → Platform → Reply Job × Platform
unfolding created resolve_defaults publish
screened st m req (f ∷ fs) p = (rejected f, publish execution_rejected 0 p)
screened st m req [] p =
    let j = new_job req (resolve_defaults st m req) in
    let p1 = publish execution_validated 0 p in created m j (add j p1.registry) p1

-- `SubmitExecution`.
unfoldable pub submit : Settings → Minted → Request → Platform → Reply Job × Platform
unfolding screened with_ids publish
submit st m req p =
    let req' = with_ids m req in
    screened st m req' (validate m.ended st.stop_on_first st.validators (some req'))
      (publish execution_requested 0 p)

abbrev pub cancel_at : ℕ → Job → Job
cancel_at now j = record j { outcome = cancellation; completed_at = now; cancel_requested = true }

unfoldable pub cancelled_with : ℕ → Moved × Registry → Platform → Reply (Unit {0}) × Platform
unfolding snapshot publish persist cancel release withdraw
cancelled_with id (refused illegal_transition, r) p = (cancellation_conflict, p)
cancelled_with id (refused job_not_found, r) p = (registry_error job_not_found, p)
cancelled_with id (refused duplicate_job, r) p = (registry_error duplicate_job, p)
cancelled_with id (moved_from s, r) p =
    let p1 = record p {
      registry = r;
      contexts = cancel id p.contexts;
      scheduler = withdraw id p.scheduler;
    } in
    let snap = snapshot id p1 in
    let p2 = publish job_cancelled snap.id p1 in
    (ok tt, persist snap (record p2 { contexts = release id p2.contexts }))

-- `Cancel`.
unfoldable pub cancel_job : ℕ → ℕ → Platform → Reply (Unit {0}) × Platform
unfolding cancelled_with
cancel_job now id p = cancelled_with id (transition id cancelled (cancel_at now) p.registry) p

abbrev pub retry_once : Job → Job
retry_once j = record j {
  retry_count = suc j.retry_count;
  outcome = no_outcome;
  started_at = 0;
  completed_at = 0;
}

unfoldable pub retried : ℕ → ℕ → ℕ → ℕ → Moved × Registry → Platform → Reply Job × Platform
unfolding snapshot publish create queue_up
retried parent now later id (refused illegal_transition, r) p = (retry_conflict, p)
retried parent now later id (refused job_not_found, r) p = (registry_error job_not_found, p)
retried parent now later id (refused duplicate_job, r) p = (registry_error duplicate_job, p)
retried parent now later id (moved_from s, r) p =
    let p1 = record p { registry = r } in
    let snap = snapshot id p1 in
    let p2 = publish job_retried snap.id p1 in
    let p3 = record p2 { contexts = create parent now snap p2.contexts } in
    queue_up later id (transition id queued (λ j. record j { scheduled_at = now }) p3.registry) p3

unfoldable pub retry_of : ℕ → ℕ → ℕ → ℕ → Option Job → Platform → Reply Job × Platform
unfolding retried
retry_of parent now later id none p = (not_found, p)
retry_of parent now later id (some j) p =
    if not (can_retry j.state)
    then (retry_conflict, p)
    else if leb j.max_retries j.retry_count
    then (retries_exhausted, p)
    else retried parent now later id (transition id retrying retry_once p.registry) p

-- `Retry`, called with the context `parent`.
unfoldable pub retry_job : ℕ → ℕ → ℕ → ℕ → Platform → Reply Job × Platform
unfolding retry_of
retry_job parent now later id p = retry_of parent now later id (lookup id p.registry.by_id) p

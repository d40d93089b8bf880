-- ===== src/Execution/Job.antt =====
-- internal/execution/job: state.go and job.go. The states are the twelve declared constants. Values
-- are immutable here, so `Clone` is the identity; strings are numbers, 0 for "". The fields that a request
-- can set below 0 are integers; a job's own timeout is resolved, and not negative.
pub mod Graph
pub mod Creation
use collaborative_programmin.Base.{
  ℕ, ℤ, pos, pos_part, eq_ℤ, ◌-◌, Bool, true, false, not, ◌||◌, ◌&&◌, List, [], ◌∷◌, Option, none,
  some, ◌==◌, if◌then◌else◌,
}
use collaborative_programmin.Base.Dict.{Dict}

pub data State : Type 0 where
  pending validated queued dispatched running streaming : State
  completed failed timed_out cancelled retrying archived : State

-- The value of the constant.
abbrev pub code : State → ℕ
code pending = 0
code validated = 1
code queued = 2
code dispatched = 3
code running = 4
code streaming = 5
code completed = 6
code failed = 7
code timed_out = 8
code cancelled = 9
code retrying = 10
code archived = 11

infix 50 ◌=ˢ◌
abbrev pub ◌=ˢ◌ : State → State → Bool
s =ˢ t = code s == code t

-- The table `transitions`.
unfoldable pub next : State → List State
next pending = validated ∷ failed ∷ cancelled ∷ []
next validated = queued ∷ failed ∷ cancelled ∷ []
next queued = dispatched ∷ failed ∷ timed_out ∷ cancelled ∷ []
next dispatched = running ∷ failed ∷ timed_out ∷ cancelled ∷ []
next running = streaming ∷ completed ∷ failed ∷ timed_out ∷ cancelled ∷ []
next streaming = completed ∷ failed ∷ timed_out ∷ cancelled ∷ []
next completed = archived ∷ []
next failed = retrying ∷ archived ∷ []
next timed_out = retrying ∷ archived ∷ []
next cancelled = archived ∷ []
next retrying = queued ∷ failed ∷ cancelled ∷ []
next archived = []

has_state : State → List State → Bool
has_state s [] = false
has_state s (t ∷ ts) = t =ˢ s || has_state s ts

unfoldable pub can_transition : State → State → Bool
unfolding next has_state
can_transition from to = has_state to (next from)

unfoldable pub is_terminal : State → Bool
is_terminal s = s =ˢ archived

unfoldable pub is_finished : State → Bool
is_finished completed = true
is_finished failed = true
is_finished timed_out = true
is_finished cancelled = true
is_finished archived = true
is_finished s = false

unfoldable pub is_active : State → Bool
unfolding is_finished
is_active s = not (is_finished s)

unfoldable pub can_retry : State → Bool
can_retry s = s =ˢ failed || s =ˢ timed_out

pub data Outcome : Type 0 where
  no_outcome success failure timeout cancellation : Outcome

unfoldable pub outcome_for : State → Outcome
outcome_for completed = success
outcome_for failed = failure
outcome_for timed_out = timeout
outcome_for cancelled = cancellation
outcome_for s = no_outcome

pub record ResourceProfile : Type 0 where
  pub tier : ℕ
  pub memory_bytes : ℤ
  pub cpu_millicores : ℤ
  pub pids_limit : ℤ
  pub tmpfs_bytes : ℤ
  pub wall_timeout : ℤ

unfoldable pub is_zero : ResourceProfile → Bool
is_zero r =
    r.tier == 0
    && eq_ℤ r.memory_bytes (pos 0)
    && eq_ℤ r.cpu_millicores (pos 0)
    && eq_ℤ r.pids_limit (pos 0)
    && eq_ℤ r.tmpfs_bytes (pos 0)
    && eq_ℤ r.wall_timeout (pos 0)

pub record ExecutionOptions : Type 0 where
  pub args : List ℕ
  pub env : Dict ℕ
  pub network_access : Bool

pub record Request : Type 0 where
  pub request_id : ℕ
  pub correlation_id : ℕ
  pub user_id : ℕ
  pub session_id : ℕ
  pub room_id : ℕ
  pub language : ℕ
  pub source : ℕ
  pub stdin : ℕ
  pub compiler_options : List ℕ
  pub execution_options : ExecutionOptions
  pub priority : ℤ
  pub timeout : ℤ
  pub resources : Option ResourceProfile
  pub metadata : Dict ℕ
  pub authenticated : Bool
  pub roles : List ℕ

pub record Job : Type 0 where
  pub id : ℕ
  pub request_id : ℕ
  pub correlation_id : ℕ
  pub user_id : ℕ
  pub session_id : ℕ
  pub room_id : ℕ
  pub language : ℕ
  pub source : ℕ
  pub stdin : ℕ
  pub compiler_options : List ℕ
  pub execution_options : ExecutionOptions
  pub priority : ℤ
  pub state : State
  pub outcome : Outcome
  pub retry_count : ℕ
  pub max_retries : ℕ
  pub created_at : ℕ
  pub scheduled_at : ℕ
  pub started_at : ℕ
  pub completed_at : ℕ
  pub timeout : ℕ
  pub resources : ResourceProfile
  pub cancel_requested : Bool
  pub metadata : Dict ℕ
  pub worker_id : ℕ
  pub sandbox_id : ℕ
  pub container_id : ℕ
  pub transitions : ℕ

pub record Defaults : Type 0 where
  pub id : ℕ
  pub request_id : ℕ
  pub correlation_id : ℕ
  pub now : ℕ
  pub timeout : ℕ
  pub max_retries : ℕ
  pub resources : ResourceProfile

-- The request's override, unless it is missing or the zero value.
unfoldable pub choose : ResourceProfile → Option ResourceProfile → ResourceProfile
choose d none = d
choose d (some r) = if is_zero r then d else r

-- `New`.
unfoldable pub new_job : Request → Defaults → Job
unfolding choose
new_job req d =
    let deadline = if pos_part req.timeout == 0 then d.timeout else pos_part req.timeout in
    let chosen = choose d.resources req.resources in
    record {
      id = d.id;
      request_id = d.request_id;
      correlation_id = d.correlation_id;
      user_id = req.user_id;
      session_id = req.session_id;
      room_id = req.room_id;
      language = req.language;
      source = req.source;
      stdin = req.stdin;
      compiler_options = req.compiler_options;
      execution_options = req.execution_options;
      priority = req.priority;
      state = pending;
      outcome = no_outcome;
      retry_count = 0;
      max_retries = d.max_retries;
      created_at = d.now;
      scheduled_at = 0;
      started_at = 0;
      completed_at = 0;
      timeout = deadline;
      resources =
          if pos_part chosen.wall_timeout == 0
          then record chosen { wall_timeout = pos deadline }
          else chosen;
      cancel_requested = false;
      metadata = req.metadata;
      worker_id = 0;
      sandbox_id = 0;
      container_id = 0;
      transitions = 0;
    }

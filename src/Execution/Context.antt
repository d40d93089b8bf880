-- ===== src/Execution/Context.antt =====
-- internal/execution/context/context.go: the manager of execution contexts. `retired` has the contexts
-- that left the map; `cancelled` is whether the context's own cancel function was called, and `parent`
-- names the caller's context from which it is derived. Tracing and security metadata are left out.
use collaborative_programmin.Base.{
  ℕ, ◌+◌, Bool, true, false, List, [], ◌∷◌, Option, none, some, ◌==◌, if◌then◌else◌, ◌||◌, leb,
}
use collaborative_programmin.Base.Dict.{Dict, lookup, insert, delete}
use collaborative_programmin.Execution.Job.{Job, ResourceProfile}

pub record Context : Type 0 where
  pub parent : ℕ
  pub job_id : ℕ
  pub user_id : ℕ
  pub session_id : ℕ
  pub room_id : ℕ
  pub language : ℕ
  pub resources : ResourceProfile
  pub deadline : ℕ
  pub created_at : ℕ
  pub worker_id : ℕ
  pub sandbox_id : ℕ
  pub cancelled : Bool

pub record Contexts : Type 0 where
  pub by_job : Dict Context
  pub retired : List Context

unfoldable pub new_contexts : Contexts
new_contexts = record { by_job = []; retired = [] }

abbrev pub stop : Context → Context
stop c = record c { cancelled = true }

-- Whether the Go context is done: `context.WithDeadline` ends it with its own cancel function, with its
-- parent (`ended` says which of the callers' contexts have) or at its deadline.
unfoldable pub is_done : (ℕ → Bool) → ℕ → Context → Bool
is_done ended now c = c.cancelled || ended c.parent || leb c.deadline now

-- The previous context of the job, cancelled, if there is one.
unfoldable pub retire : Option Context → List Context → List Context
retire none cs = cs
retire (some c) cs = stop c ∷ cs

unfoldable pub context_of : ℕ → ℕ → Job → Context
context_of parent now j = record {
  parent = parent;
  job_id = j.id;
  user_id = j.user_id;
  session_id = j.session_id;
  room_id = j.room_id;
  language = j.language;
  resources = j.resources;
  deadline = now + j.timeout;
  created_at = now;
  worker_id = 0;
  sandbox_id = 0;
  cancelled = false;
}

-- `Create`, with the time that the code falls back to as `now`.
unfoldable pub create : ℕ → ℕ → Job → Contexts → Contexts
unfolding retire context_of
create parent now j m = record {
  by_job = insert j.id (context_of parent now j) m.by_job;
  retired = retire (lookup j.id m.by_job) m.retired;
}

unfoldable pub cancel_of : ℕ → Contexts → Option Context → Contexts
cancel_of id m none = m
cancel_of id m (some c) = record m { by_job = insert id (stop c) m.by_job }

-- `Cancel`.
unfoldable pub cancel : ℕ → Contexts → Contexts
unfolding cancel_of
cancel id m = cancel_of id m (lookup id m.by_job)

unfoldable pub release : ℕ → Contexts → Contexts
unfolding retire
release id m = record {
  by_job = delete id m.by_job;
  retired = retire (lookup id m.by_job) m.retired;
}

abbrev pub assigned : ℕ → ℕ → Context → Context
assigned worker sandbox c = record c {
  worker_id = if worker == 0 then c.worker_id else worker;
  sandbox_id = if sandbox == 0 then c.sandbox_id else sandbox;
}

unfoldable pub assign_of : ℕ → ℕ → ℕ → Contexts → Option Context → Contexts
assign_of id worker sandbox m none = m
assign_of id worker sandbox m (some c) = record m {
  by_job = insert id (assigned worker sandbox c) m.by_job;
}

unfoldable pub assign : ℕ → ℕ → ℕ → Contexts → Contexts
unfolding assign_of
assign id worker sandbox m = assign_of id worker sandbox m (lookup id m.by_job)

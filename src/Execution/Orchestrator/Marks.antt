-- ===== src/Execution/Orchestrator/Marks.antt =====
-- internal/execution/orchestrator/orchestrator.go: the marks of the workers, and archival.
use collaborative_programmin.Base.{ℕ, suc, Bool, List, [], ◌∷◌, Option, none, some, if◌then◌else◌}
use collaborative_programmin.Execution.Job.{
  State, dispatched, running, streaming, completed, failed, timed_out, archived, success, timeout,
  Job,
}
use collaborative_programmin.Execution.Registry.{
  Registry, Moved, moved_from, refused, transition, remove,
}
use collaborative_programmin.Execution.Registry.Sweep.{finished_before}
use collaborative_programmin.Execution.Context.{cancel, release, assign}
use collaborative_programmin.Execution.Storage.{erase, store_archived}
use collaborative_programmin.Execution.Orchestrator.{
  Kind, execution_archived, job_dispatched, job_started, job_completed, job_failed, job_timed_out,
  Settings, Platform, snapshot, snapshot_of, publish, persist, Reply, ok, registry_error, fail_at,
}

-- No kind is the event type that stands for no event.
unfoldable pub announced : Option Kind → ℕ → Platform → Platform
unfolding publish
announced none id p = p
announced (some kind) id p = publish kind id p

unfoldable pub advanced :
    ℕ → Option Kind → Moved × Registry → Platform → Reply (Unit {0}) × Platform
unfolding announced snapshot persist
advanced id kind (refused e, r) p = (registry_error e, p)
advanced id kind (moved_from s, r) p =
    let p1 = record p { registry = r } in
    let snap = snapshot id p1 in (ok tt, persist snap (announced kind snap.id p1))

unfoldable pub advance :
    ℕ → State → Option Kind → (Job → Job) → Platform → Reply (Unit {0}) × Platform
unfolding advanced
advance id to kind mutate p = advanced id kind (transition id to mutate p.registry) p

abbrev pub dispatch_to : ℕ → Job → Job
dispatch_to worker j = record j { worker_id = worker }

unfoldable pub mark_dispatched : ℕ → ℕ → Platform → Reply (Unit {0}) × Platform
unfolding advance assign
mark_dispatched id worker p =
    advance id dispatched (some job_dispatched) (dispatch_to worker)
      (record p { contexts = assign id worker 0 p.contexts })

abbrev pub start_at : ℕ → Job → Job
start_at now j = record j { started_at = now }

unfoldable pub mark_started : ℕ → ℕ → Platform → Reply (Unit {0}) × Platform
unfolding advance
mark_started now id p = advance id running (some job_started) (start_at now) p

unfoldable pub mark_streaming : ℕ → Platform → Reply (Unit {0}) × Platform
unfolding advance
mark_streaming id p = advance id streaming none (λ j. j) p

-- What is done when the transition was made.
unfoldable pub and_then :
    (Platform → Platform) → Reply (Unit {0}) × Platform → Reply (Unit {0}) × Platform
and_then f (ok u, p) = (ok u, f p)
and_then f (r, p) = (r, p)

abbrev pub complete_at : ℕ → Job → Job
complete_at now j = record j { outcome = success; completed_at = now }

unfoldable pub mark_completed : ℕ → ℕ → Platform → Reply (Unit {0}) × Platform
unfolding advance and_then release
mark_completed now id p =
    and_then (λ q. record q { contexts = release id q.contexts })
      (advance id completed (some job_completed) (complete_at now) p)

unfoldable pub mark_failed : ℕ → ℕ → Platform → Reply (Unit {0}) × Platform
unfolding advance
mark_failed now id p = advance id failed (some job_failed) (fail_at now) p

abbrev pub time_out_at : ℕ → Job → Job
time_out_at now j = record j { outcome = timeout; completed_at = now }

unfoldable pub mark_timed_out : ℕ → ℕ → Platform → Reply (Unit {0}) × Platform
unfolding advance and_then cancel
mark_timed_out now id p =
    and_then (λ q. record q { contexts = cancel id q.contexts })
      (advance id timed_out (some job_timed_out) (time_out_at now) p)

unfoldable pub sunk : Bool → ℕ → Job → Platform → Platform
unfolding store_archived
sunk sink now j p = if sink then record p { archive = store_archived now j p.archive } else p

unfoldable pub archived_with : Bool → ℕ → ℕ → Moved × Registry → Platform → Reply Job × Platform
unfolding remove snapshot_of release sunk erase publish
archived_with sink now id (refused e, r) p = (registry_error e, p)
archived_with sink now id (moved_from s, r) p =
    let (final, r') = remove id r in
    let snap = snapshot_of final in
    let p1 = sunk sink now snap (record p { registry = r'; contexts = release id p.contexts }) in
    (ok snap, publish execution_archived snap.id (record p1 { store = erase id p1.store }))

-- `Archive`, with a sink or without; `now` is the time that the sink is given.
unfoldable pub archive_job : Bool → ℕ → ℕ → Platform → Reply Job × Platform
unfolding archived_with
archive_job sink now id p = archived_with sink now id (transition id archived (λ j. j) p.registry) p

unfoldable pub counted : Reply Job → ℕ → ℕ
counted (ok j) n = suc n
counted r n = n

unfoldable pub archive_loop : Bool → ℕ → List Job → Platform → ℕ × Platform
unfolding archive_job counted
archive_loop sink now [] p = (0, p)
archive_loop sink now (j ∷ js) p =
    let (reply, p1) = archive_job sink now j.id p in
    let (n, p2) = archive_loop sink now js p1 in (counted reply n, p2)

unfoldable pub sweep_of : Bool → ℕ → Option (List Job) → Platform → Option (ℕ × Platform)
unfolding archive_loop
sweep_of sink now none p = none
sweep_of sink now (some js) p = some (archive_loop sink now js p)

-- `ArchiveFinished`, with the clock standing still; `none` is a panic in the registry.
unfoldable pub archive_finished : Settings → Bool → ℕ → Platform → Option (ℕ × Platform)
unfolding sweep_of finished_before
archive_finished st sink now p =
    sweep_of sink now (finished_before st.archive_retention now p.registry) p

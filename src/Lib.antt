-- ===== src/Lib.antt =====
-- The collaborative programming platform (Go), as far as its coordination, its rooms, its execution
-- orchestrator, its streams with consumer groups and its reliability patterns are modelled.
--
-- The parts and their files. A path names a Go package or file from the repository's root.
--   Base, Base/*: Boolean tests on numbers, signed numbers, lists, and maps with identifiers for keys
--     (`Dict`).
--   Coordination/Backend: the interface of internal/coordination/backend/backend.go, as a record of
--     the operations that locks and elections call, with the laws that they rely on. A reply `none`
--     is an error of the backend, after which a write may or may not have been made.
--   Coordination/Memory: internal/coordination/backend/memory.go, the key-value part: `liveLocked`
--     is `live_locked`, `SetNX` is `set_nx` and so on. Memory/Spec is the abstract timed map,
--     Memory/Agreement, Memory/Deletion and Memory/Refinement relate the two, Memory/Adapter shows
--     that the memory is a `Backend`. Memory/Sets has `SAdd`, `SRem`, `SMembers`.
--   Coordination/Locks: internal/coordination/locks/locks.go: `TryAcquire`, `Acquire`, `Renew`,
--     `Release`, `ValidUntil`. Locks/World has the histories of calls of a cluster over one store.
--   Coordination/Leader: internal/coordination/leader/elector.go and election.go: a turn of the loop
--     `run` is `tick`, its end `shut_down`, and `Leader`, `Resign`, `Transfer` are `leader`, `resign`,
--     `transfer`.
--   Coordination/Replication: internal/coordination/replication/replication.go: `LWWMerger.Merge`.
--   Rooms/Lifecycle, Rooms/Permissions: internal/rooms/lifecycle and internal/rooms/permissions.
--   Rooms/Room: internal/rooms/room/room.go: `New`, `Join` and the state changes; Room/Membership has
--     `Leave`, `Remove`, `TransferOwnership`, `SetConnected`, `Touch` and the histories of calls.
--   Execution/Job: internal/execution/job/state.go and job.go: the state machine and `New`.
--   Reliability/CircuitBreaker: internal/reliability/circuitbreaker/circuitbreaker.go: `Allow`, the
--     results that come back through the function it returns, `Reset`.
--   Reliability/SlidingWindow, Reliability/Retry, Reliability/Bulkhead, Reliability/Backpressure:
--     the packages ratelimit, retry with backoff, bulkhead and backpressure of internal/reliability.
--   Execution/Registry: internal/execution/registry/registry.go: `Add`, `Transition`, `Update`,
--     `Remove` and the queries over the secondary indexes; Registry/Sweep is `FinishedBefore`.
--   Execution/Validation, Execution/Language, Execution/Context, Execution/Scheduler,
--     Execution/Storage: the packages of the same names under internal/execution.
--   Execution/Orchestrator: internal/execution/orchestrator/orchestrator.go: `SubmitExecution` is
--     `submit`, `Cancel` is `cancel_job`, `Retry` is `retry_job`; Orchestrator/Marks has the marks of
--     the workers, `Archive` and `ArchiveFinished`, Orchestrator/Histories the calls over time.
--   Queue/Stream: internal/queue/redisstream/emulator.go: `Add`, `CreateGroup`, a turn of
--     `ReadGroup`; Stream/Claims has `Ack`, `AutoClaim`, `Delete`. Stream/Ids has the text
--     of ids. Stream/Histories has the histories of calls, and the clock at each, which may go back.
-- The files Examples apply the theorems at concrete inputs.
--
-- How they interact: the locks and the elections keep their keys in one backend, whose operations are
-- atomic; a room asks its policy before a kick or a transfer and the lifecycle before a change of
-- state; the registry asks the job's state machine before a transition; the orchestrator drives the
-- registry, the contexts, the scheduler and the repository, one call at a time.
--
-- Conventions. Strings that the code only compares are numbers, 0 for the empty string. Times and
-- durations are numbers of nanoseconds, 0 for the zero time and for a duration that is not positive;
-- the fields of a request that the code tests for negative values (timeout, priority, resources),
-- the reply of `TTL` and the count of active tasks are signed. The clock at each operation, minted
-- tokens and the products of floats are arguments, and so is the comparison of floats by which the
-- breaker trips. A job's execution context records the caller's context from which it is derived,
-- whose end is an argument.
--
-- An operation is a function of the state, and concurrency is the order of the calls in a history.
-- The operations of the in-memory backend, of a room, the registry of jobs, the scheduler, the
-- streams, the breaker and the sliding window each run under their component's mutex, so that this
-- is what the code does; the manager of contexts changes its map under its mutex and cancels a
-- context right after. No lock spans a call of the distributed locks, of an election (its turns,
-- `Leader`, `Resign` and `Transfer`), of the orchestrator or of the backpressure manager: there a
-- call is one step too, and what two calls do in between each other is left out. Numbers are
-- unbounded: the code's counters and times stay far below 2^63, and a priority is only compared. No
-- definition runs on fuel: histories and waiting rounds are lists, the retry loop recurses on the
-- attempts that are left, and the wait for a lock returns once a round of its list reads the clock
-- after the deadline.
--
-- Not modelled: goroutines and channels (watchdog of a lock, event buses, publish and subscribe),
-- logging and metrics, the limiters that count in floats, network, database, container and websocket
-- I/O, the Redis client, the subsystems of the queue but its streams, and the subsystems sandbox,
-- runtime, collaboration, presence and persistence.
pub mod Base
pub mod Coordination
pub mod Execution
pub mod Queue
pub mod Reliability
pub mod Rooms

-- ===== src/Reliability/Bulkhead.antt =====
-- internal/reliability/bulkhead/bulkhead.go: `SemaphoreBulkhead`. A ticket is the release function that
-- `Acquire` returns; it knows whether its `once` has run. Where the select statement has two ready
-- cases, `ctx_first` is its choice. Events and metrics are left out, and so is the worker pool.
pub mod Slots
pub mod Examples
use collaborative_programmin.Base.{
  ℕ, suc, ◌+◌, ◌-◌, Bool, true, false, ◌&&◌, ◌||◌, not, List, [], ◌∷◌, Option, none, some, ◌==◌,
  ltb, if◌then◌else◌, length,
}
use collaborative_programmin.Base.Dict.{Dict, lookup, insert}

-- `used` is how many tokens the channel holds; a ticket maps to whether it was released.
pub record Semaphore : Type 0 where
  pub max_concurrent : ℕ
  pub used : ℕ
  pub tickets : Dict Bool

unfoldable pub new_semaphore : ℕ → Semaphore
new_semaphore max = record { max_concurrent = max; used = 0; tickets = [] }

pub data Result : Type 0 where
  context_ended full : Result
  acquired : ℕ → Result

-- `Acquire`; `ticket` is a new one.
unfoldable pub acquire : Bool → Bool → ℕ → Semaphore → Result × Semaphore
acquire ctx_done ctx_first ticket s =
    let room = ltb s.used s.max_concurrent in
    if ctx_done && (ctx_first || not room)
    then (context_ended, s)
    else if room
    then (acquired ticket, record s { used = suc s.used; tickets = insert ticket false s.tickets })
    else (full, s)

unfoldable pub release_of : ℕ → Semaphore → Option Bool → Semaphore
release_of ticket s none = s
release_of ticket s (some true) = s
release_of ticket s (some false) = record s {
  used = s.used - 1;
  tickets = insert ticket true s.tickets;
}

-- A call of the release function.
unfoldable pub release : ℕ → Semaphore → Semaphore
unfolding release_of
release ticket s = release_of ticket s (lookup ticket s.tickets)

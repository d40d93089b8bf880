-- ===== src/Reliability/CircuitBreaker.antt =====
-- internal/reliability/circuitbreaker/circuitbreaker.go. Each operation runs under the breaker's lock,
-- so it is a function of the breaker and of the clock's readings: `now` where the operation begins,
-- `at` where `transitionTo` reads it again. Whether the rate of failures reaches the threshold is a
-- test on two floats, a parameter here. Events and metrics are left out.
pub mod Window
pub mod Invariant
pub mod Recovery
use collaborative_programmin.Base.{
  ℕ, suc, ◌+◌, Bool, true, false, not, ◌&&◌, List, [], ◌∷◌, ◌++◌, Option, none, some, ltb, leb,
  ◌==◌, if◌then◌else◌, length,
}

pub data State : Type 0 where
  closed half_open open_circuit : State

pub record Record : Type 0 where
  pub timestamp : ℕ
  pub success : Bool

pub record Config : Type 0 where
  pub success_threshold : ℕ
  pub failure_window : ℕ
  pub recovery_timeout : ℕ
  pub min_requests : ℕ

pub record Breaker : Type 0 where
  pub cfg : Config
  pub state : State
  pub records : List Record
  pub opened_at : ℕ
  pub successes : ℕ

-- `NewCircuitBreaker`: the window is ten seconds and the threshold one, unless they are positive.
unfoldable pub new_breaker : Config → Breaker
new_breaker cfg = record {
  cfg = record cfg {
    success_threshold = if cfg.success_threshold == 0 then 1 else cfg.success_threshold;
    failure_window = if cfg.failure_window == 0 then 10000000000 else cfg.failure_window;
  };
  state = closed;
  records = [];
  opened_at = 0;
  successes = 0;
}

unfoldable pub transition_to : ℕ → State → Breaker → Breaker
transition_to at open_circuit b = record b { state = open_circuit; opened_at = at; records = [] }
transition_to at closed b = record b { state = closed; successes = 0; records = [] }
transition_to at half_open b = record b { state = half_open; successes = 0 }

unfoldable pub evaluate_in : State → ℕ → Breaker → Breaker
unfolding transition_to
evaluate_in open_circuit now b =
    if leb (b.opened_at + b.cfg.recovery_timeout) now then transition_to now half_open b else b
evaluate_in closed now b = b
evaluate_in half_open now b = b

-- `evaluateStateTransitions`.
unfoldable pub evaluate : ℕ → Breaker → Breaker
unfolding evaluate_in
evaluate now b = evaluate_in b.state now b

abbrev pub is_open : State → Bool
is_open open_circuit = true
is_open closed = false
is_open half_open = false

-- `Allow`: whether the request is permitted. The function that it returns is `record_result`.
unfoldable pub allow : ℕ → Breaker → Bool × Breaker
unfolding evaluate
allow now b = let b' = evaluate now b in (not (is_open b'.state), b')

-- The records from the first one on that is inside the window, if there is one.
unfoldable pub survivors : ℕ → ℕ → List Record → Option (List Record)
survivors window now [] = none
survivors window now (r ∷ rs) =
    let rest = survivors window now rs in
    if ltb now (r.timestamp + window) then some (r ∷ rs) else rest

unfoldable pub kept_or : List Record → Option (List Record) → List Record
kept_or rs none = rs
kept_or rs (some kept) = kept

unfoldable pub prune : ℕ → ℕ → List Record → List Record
unfolding survivors kept_or
prune window now rs = kept_or rs (survivors window now rs)

unfoldable pub failures : List Record → ℕ
failures [] = 0
failures (r ∷ rs) = if r.success then failures rs else suc (failures rs)

-- `Allow` (and `State`, which evaluates the same transitions), a result with the delay of the
-- second reading of the clock, and `Reset`.
pub data Call : Type 0 where
  allows : Call
  results : Bool → (delay : ℕ) → Call
  resets : Call

abbrev pub elapsed : ℕ → List (ℕ × Call) → ℕ
elapsed now [] = now
elapsed now ((d, c) ∷ cs) = elapsed (now + d) cs

module _ (reaches : ℕ → ℕ → Bool) where
  -- Whether a window of records trips the breaker.
  unfoldable pub trips : ℕ → List Record → Bool
  unfolding failures
  trips least rs = leb least (length rs) && reaches (failures rs) (length rs)

  unfoldable pub record_in : State → ℕ → ℕ → Bool → Breaker → Breaker
  unfolding transition_to prune trips
  record_in half_open now at success b =
      let b' = record b { successes = suc b.successes } in
      if success
      then if leb b.cfg.success_threshold (suc b.successes) then transition_to at closed b' else b'
      else transition_to at open_circuit b
  record_in closed now at success b =
      let rs =
        prune b.cfg.failure_window now
          (b.records ++ (record { timestamp = now; success = success } ∷ [])) in
      let b' = record b { records = rs } in
      if trips b.cfg.min_requests rs then transition_to at open_circuit b' else b'
  record_in open_circuit now at success b =
      let rs =
        prune b.cfg.failure_window now
          (b.records ++ (record { timestamp = now; success = success } ∷ [])) in
      let b' = record b { records = rs } in
      if trips b.cfg.min_requests rs then transition_to at open_circuit b' else b'

  -- `recordResult`.
  unfoldable pub record_result : ℕ → ℕ → Bool → Breaker → Breaker
  unfolding record_in
  record_result now at success b = record_in b.state now at success b

  unfoldable pub step : ℕ → Call → Breaker → Breaker
  step now allows b = (allow now b).1
  step now (results success delay) b = record_result now (now + delay) success b
  step now resets b = transition_to now closed b

  -- A history of calls, each after the time that has passed since the one before.
  unfoldable pub run : ℕ → List (ℕ × Call) → Breaker → Breaker
  run now [] b = b
  run now ((d, c) ∷ cs) b = run (now + d) cs (step (now + d) c b)

-- ===== src/Reliability/Retry.antt =====
-- internal/reliability/retry/retry.go and internal/reliability/backoff/backoff.go. The function under
-- retry, the classifier and the ends of the context are parameters: `outcome i` is the error of call i,
-- `ended i` whether the context has ended before call i, `cut i` whether it ends in the wait after it.
-- So are the float product of the exponential strategy and the random draws. Events and metrics are
-- left out.
pub mod Laws
pub mod Examples
use collaborative_programmin.Base.{
  ℕ, zero, suc, ◌+◌, ◌*◌, ◌-◌, Bool, true, false, not, ◌&&◌, ◌||◌, List, [], ◌∷◌, Option, none,
  some, ◌==◌, ltb, leb, if◌then◌else◌,
}

-- A strategy: attempt, base, maximum and last delay.
abbrev pub Strategy : Type 0
Strategy = ℕ → ℕ → ℕ → ℕ → ℕ

unfoldable pub fixed : Strategy
fixed attempt base limit last = base

unfoldable pub linear : Strategy
linear attempt base limit last = if ltb limit (base * attempt) then limit else base * attempt

-- `scaled base attempt` is the float product of the base and the power of 2, as a duration again, and
-- 0 if that is not positive.
unfoldable pub exponential : (ℕ → ℕ → ℕ) → Strategy
exponential scaled attempt base limit last =
    let delay = scaled base attempt in if ltb limit delay || (delay == 0) then limit else delay

-- `jitter` is what the random draw makes of the exponential delay.
unfoldable pub jittered : (ℕ → ℕ → ℕ) → (ℕ → ℕ) → Strategy
unfolding exponential
jittered scaled jitter attempt base limit last =
    let whole = exponential scaled attempt base limit last in
    if whole == 0 then base else if ltb (jitter whole) base then base else jitter whole

-- `draw` is the random number below its argument.
unfoldable pub decorrelated : (ℕ → ℕ) → Strategy
decorrelated draw attempt base limit last =
    let prev = if last == 0 then base else last in
    let high = if leb (prev * 3) base then base + 1 else prev * 3 in
    let delay = base + draw (high - base) in
    if ltb limit delay then limit else if ltb delay base then base else delay

pub record Config : Type 0 where
  pub max_attempts : ℕ
  pub initial_interval : ℕ
  pub max_interval : ℕ

-- `NewRetryExecutor`: at least one attempt.
unfoldable pub normalize : Config → Config
normalize c = record c { max_attempts = if c.max_attempts == 0 then 1 else c.max_attempts }

pub data Ending : Type 0 where
  succeeded context_ended : Ending
  exhausted : ℕ → Ending

-- The delays slept, the number of calls, and how it ended.
pub record Trace : Type 0 where
  pub delays : List ℕ
  pub calls : ℕ
  pub ending : Ending

unfoldable pub is_retryable : Option (ℕ → Bool) → ℕ → Bool
is_retryable none e = true
is_retryable (some f) e = f e

module _ (c : Config) (strategy : Strategy) (classifier : Option (ℕ → Bool)) (ended cut : ℕ → Bool)
    (outcome : ℕ → Option ℕ) where
  -- What follows a call; `rest` is the loop after the wait.
  unfoldable pub after_call : ℕ → ℕ → ℕ → ℕ → Trace → Option ℕ → Trace
  unfolding is_retryable
  after_call left attempt calls delay rest none = record {
    delays = [];
    calls = calls;
    ending = succeeded;
  }
  after_call left attempt calls delay rest (some e) =
      if left == 0
      then record { delays = []; calls = calls; ending = exhausted e }
      else if not (is_retryable classifier e)
      then record { delays = []; calls = calls; ending = exhausted e }
      else if cut attempt
      then record { delays = delay ∷ []; calls = calls; ending = context_ended }
      else record rest { delays = delay ∷ rest.delays }

  -- The loop of `Execute` from an attempt, with `left` attempts after it.
  unfoldable pub attempt_loop : ℕ → ℕ → ℕ → Trace
  unfolding after_call
  attempt_loop zero attempt last =
      if ended attempt
      then record { delays = []; calls = attempt - 1; ending = context_ended }
      else after_call 0 attempt attempt 0
          (record { delays = []; calls = attempt; ending = context_ended }) (outcome attempt)
  attempt_loop (suc left) attempt last =
      let delay = strategy attempt c.initial_interval c.max_interval last in
      let rest = attempt_loop left (suc attempt) delay in
      if ended attempt
      then record { delays = []; calls = attempt - 1; ending = context_ended }
      else after_call (suc left) attempt attempt delay rest (outcome attempt)

  -- `Execute`.
  unfoldable pub execute : Trace
  unfolding attempt_loop normalize
  execute = attempt_loop ((normalize c).max_attempts - 1) 1 0

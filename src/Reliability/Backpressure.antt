-- ===== src/Reliability/Backpressure.antt =====
-- internal/reliability/backpressure/backpressure.go. Each call is one step: the race between the test
-- and the addition in `Acquire` is left out, as are events and metrics. The average is a rounded
-- quotient, whose comparison is written with a product.
pub mod Shedding
pub mod Examples
use collaborative_programmin.Base.{
  ℕ, ℤ, pos, leb_ℤ, ltb_ℤ, suc_ℤ, pred_ℤ, zero, suc, ◌+◌, ◌*◌, ◌-◌, Bool, true, false, ◌&&◌, ◌||◌,
  List, [], ◌∷◌, ◌++◌, ◌==◌, ltb, leb, if◌then◌else◌, length,
}

pub data Priority : Type 0 where
  low normal high : Priority

abbrev pub is_high : Priority → Bool
is_high low = false
is_high normal = false
is_high high = true

pub record Manager : Type 0 where
  pub max_queue_size : ℕ
  pub latency_limit : ℕ
  pub active : ℤ
  pub latencies : List ℕ

unfoldable pub new_manager : ℕ → ℕ → Manager
new_manager max_queue latency_limit = record {
  max_queue_size = max_queue;
  latency_limit = latency_limit;
  active = pos 0;
  latencies = [];
}

unfoldable pub total : List ℕ → ℕ
total [] = 0
total (d ∷ ds) = d + total ds

-- Whether the average, rounded down, is above the limit; 0 without latencies.
unfoldable pub average_above : ℕ → List ℕ → Bool
unfolding total
average_above limit [] = false
average_above limit (d ∷ ds) = leb (suc limit * length (d ∷ ds)) (total (d ∷ ds))

unfoldable pub is_loaded : Manager → Bool
unfolding average_above
is_loaded m =
    leb_ℤ (pos m.max_queue_size) m.active
    || (average_above m.latency_limit m.latencies && leb 5 (length m.latencies))

-- `Acquire`: whether the task is admitted.
unfoldable pub acquire : Priority → Manager → Bool × Manager
unfolding is_loaded
acquire p m =
    if is_loaded m
    then if is_high p && ltb_ℤ m.active (pos (m.max_queue_size + 5))
      then (true, record m { active = suc_ℤ m.active })
      else (false, m)
    else (true, record m { active = suc_ℤ m.active })

unfoldable pub tail : List ℕ → List ℕ
tail [] = []
tail (d ∷ ds) = ds

-- `Release`.
unfoldable pub release : ℕ → Manager → Manager
unfolding tail
release duration m =
    let ds = m.latencies ++ (duration ∷ []) in
    record m { active = pred_ℤ m.active; latencies = if ltb 50 (length ds) then tail ds else ds }

-- ===== src/Reliability/Backpressure/Examples.antt =====
-- Backpressure at work: a queue of size 1 with slow tasks.
use collaborative_programmin.Base.{pos, ◌≤ℤ◌, ◌+◌, ◌≤◌, List, [], ◌∷◌, length}
use collaborative_programmin.Reliability.Backpressure.{low, high, new_manager}
use collaborative_programmin.Reliability.Backpressure.Shedding.{
  Call, acquires, releases, run, load_bound,
}

abbrev calls : List Call
calls = acquires low ∷ acquires low ∷ acquires high ∷ releases 20 ∷ []

load_bound_example :
    let m = run calls (new_manager 1 10) in (m.active ≤ℤ pos (1 + 5)) × (length m.latencies ≤ 50)
load_bound_example = load_bound 1 10 calls

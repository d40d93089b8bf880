-- ===== src/Reliability/Backpressure/Shedding.antt =====
-- How much load is admitted.
use collaborative_programmin.Base.{
  ℕ, pos, ◌≤ℤ◌, ltb_ℤ, ◌+◌, ◌-◌, ◌≤◌, ◌≡◌, refl, Bool, ◌&&◌, List, [], ◌∷◌, ◌++◌, arith, if_cases,
  length, length-append,
}
use collaborative_programmin.Reliability.Backpressure.{
  Priority, is_high, Manager, new_manager, is_loaded, acquire, tail, release,
}

pub data Call : Type 0 where
  acquires : Priority → Call
  releases : (duration : ℕ) → Call

unfoldable pub step : Call → Manager → Manager
step (acquires p) m = (acquire p m).1
step (releases duration) m = release duration m

unfoldable pub run : List Call → Manager → Manager
run [] m = m
run (c ∷ cs) m = run cs (step c m)

record IsBounded (max : ℕ) (m : Manager) : Type 0 where
  sized : m.max_queue_size ≡ max
  active : m.active ≤ℤ pos (max + 5)
  window : length m.latencies ≤ 50

length-tail : (ds : List ℕ) → length (tail ds) ≤ length ds - 1
unfolding tail
length-tail [] = omega arith
length-tail (d ∷ ds) = omega arith

acquire-IsBounded :
    (max : ℕ) (p : Priority) (m : Manager) → IsBounded max m → IsBounded max (acquire p m).1
unfolding acquire is_loaded
acquire-IsBounded max p m h =
    if_cases (λ (r : Bool × Manager). IsBounded max r.1) (is_loaded m) _ _
      (λ _.
        if_cases (λ (r : Bool × Manager). IsBounded max r.1)
          (is_high p && ltb_ℤ m.active (pos (m.max_queue_size + 5))) _ _
          (λ pass. record {
            sized = h.sized;
            active = ground (arith, pass, h.sized);
            window = h.window;
          })
          λ _. h)
      λ calm. record { sized = h.sized; active = ground (arith, calm, h.sized); window = h.window }

release-IsBounded : (max d : ℕ) (m : Manager) → IsBounded max m → IsBounded max (release d m)
unfolding release
release-IsBounded max d m h =
    let ds = m.latencies ++ (d ∷ []) in
    record {
      sized = h.sized;
      active = ground (arith, h.active);
      window = ground (arith, h.window, length-append m.latencies (d ∷ []), length-tail ds);
    }

run-IsBounded :
    (max : ℕ) (cs : List Call) (m : Manager) → IsBounded max m → IsBounded max (run cs m)
unfolding run step
run-IsBounded max [] m h = h
run-IsBounded max (acquires p ∷ cs) m h =
    run-IsBounded max cs (acquire p m).1 (acquire-IsBounded max p m h)
run-IsBounded max (releases d ∷ cs) m h =
    run-IsBounded max cs (release d m) (release-IsBounded max d m h)

-- After any history of calls, made one at a time, releases of tasks that were never admitted included,
-- at most five tasks more than the queue's size are counted as active, and at most 50 latencies are
-- kept.
pub load_bound :
    (max limit : ℕ) (cs : List Call)
    → let m = run cs (new_manager max limit) in
      (m.active ≤ℤ pos (max + 5)) × (length m.latencies ≤ 50)
load_bound max limit cs =
    let h = run-IsBounded max cs (new_manager max limit) start in (h.active, h.window)
  where
    start : IsBounded max (new_manager max limit)
    start =
        unfold new_manager in record { sized = refl; active = omega arith; window = omega arith }

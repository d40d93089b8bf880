-- ===== src/Reliability/Examples.antt =====
-- A breaker at work: concrete histories on which the theorems about internal/reliability are applied.
use collaborative_programmin.Base.{ℕ, ◌*◌, ◌≡◌, refl, Bool, true, false, List, [], ◌∷◌, arith, leb}
use collaborative_programmin.Reliability.CircuitBreaker.{
  Config, Breaker, closed, open_circuit, new_breaker, transition_to, allow, allows, results, run,
  Call, elapsed,
}
use collaborative_programmin.Reliability.CircuitBreaker.Invariant.{IsSound, run-new-IsSound}
use collaborative_programmin.Reliability.CircuitBreaker.Recovery.{wins, open_refuses, recovers}

-- Half of the requests or more.
abbrev half : ℕ → ℕ → Bool
half failed total = leb total (2 * failed)

abbrev config : Config
config = record {
  success_threshold = 2;
  failure_window = 50;
  recovery_timeout = 30;
  min_requests = 2;
}

abbrev tripped : Breaker
tripped = transition_to 100 open_circuit (new_breaker config)

-- Two failures out of three trip the breaker.
abbrev storm : List (ℕ × Call)
storm = (1, allows) ∷ (1, results true 0) ∷ (1, results false 0) ∷ (1, results false 2) ∷ []

run-new-IsSound_example : IsSound half (elapsed 10 storm) (run half 10 storm (new_breaker config))
run-new-IsSound_example = run-new-IsSound half config 10 storm

open_refuses_example :
    (allow 120
      (run half 100 ((5, allows) ∷ (10, results false 0) ∷ (5, results true 0) ∷ []) tripped)).0
    ≡ false
unfolding transition_to new_breaker
open_refuses_example =
    open_refuses half 100 ((5, allows) ∷ (10, results false 0) ∷ (5, results true 0) ∷ []) tripped
      refl (omega arith) (tt, (tt, (tt, tt))) (omega arith)

recovers_example :
    ((allow 130 tripped).0 ≡ true)
    × ((run half 130 (wins ((1, 0) ∷ (2, 0) ∷ [])) (allow 130 tripped).1).state ≡ closed)
    × ((run half 130 (wins ((1, 0) ∷ (2, 0) ∷ [])) (allow 130 tripped).1).records ≡ [])
unfolding transition_to new_breaker
recovers_example =
    recovers half 130 ((1, 0) ∷ (2, 0) ∷ []) tripped refl (omega arith) refl (omega arith)

-- ===== src/Reliability/SlidingWindow/Examples.antt =====
-- A sliding window at work.
use collaborative_programmin.Base.{◌≤◌, [], ◌∷◌, arith}
use collaborative_programmin.Reliability.SlidingWindow.{new_window}
use collaborative_programmin.Reliability.SlidingWindow.Rate.{recent, admitted, window_bound}

-- A window of size 10 for two requests; the third of four calls is refused.
window_bound_example : recent 10 24 (admitted (3 ∷ 5 ∷ 9 ∷ 14 ∷ 24 ∷ []) (new_window 10 2)) ≤ 2
window_bound_example =
    window_bound 10 2 24 (3 ∷ 5 ∷ 9 ∷ 14 ∷ 24 ∷ [])
      (omega arith, (omega arith, (omega arith, (omega arith, (omega arith, omega arith)))))

-- ===== src/Reliability/SlidingWindow.antt =====
-- internal/reliability/ratelimit/ratelimit.go: `SlidingWindow`. The cutoff is `size` before `now`; the
-- comparisons with it are written with sums. Events and metrics are left out, and so are the buckets,
-- which count in floats.
pub mod Rate
pub mod Examples
use collaborative_programmin.Base.{
  ℕ, zero, suc, ◌+◌, Bool, true, false, ◌&&◌, List, [], ◌∷◌, ◌++◌, ◌==◌, ltb, if◌then◌else◌, length,
}

pub record Window : Type 0 where
  pub size : ℕ
  pub max_requests : ℕ
  pub timestamps : List ℕ

unfoldable pub new_window : ℕ → ℕ → Window
new_window size max_requests = record { size = size; max_requests = max_requests; timestamps = [] }

unfoldable pub drop : ℕ → List ℕ → List ℕ
drop zero ts = ts
drop (suc n) [] = []
drop (suc n) (t ∷ ts) = drop n ts

-- The loop that looks for the first timestamp after the cutoff, from place i; 0 if there is none.
unfoldable pub first_after : ℕ → ℕ → ℕ → List ℕ → ℕ
first_after size now i [] = 0
first_after size now i (t ∷ ts) = if ltb now (t + size) then i else first_after size now (suc i) ts

-- Whether there is a last timestamp, and it is before the cutoff.
unfoldable pub last_before : ℕ → ℕ → List ℕ → Bool
last_before size now [] = false
last_before size now (t ∷ []) = ltb (t + size) now
last_before size now (t ∷ u ∷ ts) = last_before size now (u ∷ ts)

unfoldable pub prune : ℕ → ℕ → List ℕ → List ℕ
unfolding first_after last_before drop
prune size now ts =
    let w = first_after size now 0 ts in
    if last_before size now ts then [] else if ltb 0 w then drop w ts else ts

unfoldable pub allow : ℕ → Window → Bool × Window
unfolding prune
allow now w =
    let ts = prune w.size now w.timestamps in
    if ltb (length ts) w.max_requests
    then (true, record w { timestamps = ts ++ (now ∷ []) })
    else (false, record w { timestamps = ts })

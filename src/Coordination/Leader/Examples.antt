-- ===== src/Coordination/Leader/Examples.antt =====
-- Elections at work over the in-memory backend: concrete histories on which the theorems about
-- internal/coordination/leader are applied.
use collaborative_programmin.Base.{ℕ, ◌+◌, ◌≡◌, ◌⊎◌, refl, true, false, List, [], ◌∷◌, none, arith}
use collaborative_programmin.Base.Dict.{lookup, insert}
use collaborative_programmin.Coordination.Memory.{
  Memory, new_memory, set_nx, compare_and_expire, live_locked,
}
use collaborative_programmin.Coordination.Memory.Adapter.{memory_backend}
use collaborative_programmin.Coordination.Leader.{
  Config, Op, ticks, asks, resigns, shuts, new_election, elector_renew, tick, life,
}
use collaborative_programmin.Coordination.Leader.Discipline.{IsTidy, life-new-IsTidy}
use collaborative_programmin.Coordination.Leader.Cluster.{Cluster, step_of, step, run}
use collaborative_programmin.Coordination.Leader.Sole.{sole_leader}

abbrev config : Config
config = record { lease = 100; renew_interval = 30; retry_interval = 10 }

abbrev key : ℕ → ℕ
key scope = scope + 2000

-- Candidate 7 has taken the lead of scope 1 and renews.
abbrev won : Memory
won = (set_nx 5 2001 7 100 new_memory).1

abbrev renewed : Memory
renewed = (elector_renew memory_backend key 20 1 7 100 won).1

-- The elections of candidates 8 and 9.
abbrev cluster : Cluster Memory
cluster = record { members = (0, new_election 1 8) ∷ (1, new_election 1 9) ∷ []; store = renewed }

abbrev turns : List (ℕ × ℕ × Op)
turns = (5, 0, ticks) ∷ (10, 1, resigns) ∷ []

life-new-IsTidy_example :
    IsTidy
      (life memory_backend key config
        (((λ s. s), 5, ticks)
          ∷ ((λ s. s), 40, ticks)
          ∷ ((λ s. s), 50, asks)
          ∷ ((λ s. new_memory), 70, ticks)
          ∷ ((λ s. s), 90, shuts)
          ∷ [])
        (new_election 1 7)
        new_memory).0
life-new-IsTidy_example =
    life-new-IsTidy memory_backend key 1 7 config
      (((λ s. s), 5, ticks)
        ∷ ((λ s. s), 40, ticks)
        ∷ ((λ s. s), 50, asks)
        ∷ ((λ s. new_memory), 70, ticks)
        ∷ ((λ s. s), 90, shuts)
        ∷ [])
      new_memory

sole_leader_example :
    ((tick memory_backend key 35 config
        (new_election 1 9)
        (run memory_backend key config 20 turns cluster).store).1.is_leader
      ≡ false)
    ⊎ (((new_election 1 9).is_leader ≡ true)
        × ((elector_renew memory_backend key 35
              (new_election 1 9).scope
              (new_election 1 9).candidate
              100
              (run memory_backend key config 20 turns cluster).store).0
            ≡ none))
unfolding new_election new_memory set_nx compare_and_expire live_locked lookup insert run step
    step_of
sole_leader_example =
    sole_leader memory_backend key config 20 1 7 won
      (run memory_backend key config 20 turns cluster).store cluster turns (new_election 1 9)
      (omega arith) refl ((λ e. cc), ((λ e. cc), tt)) (omega arith) refl refl (λ e. cc)

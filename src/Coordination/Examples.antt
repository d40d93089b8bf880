-- ===== src/Coordination/Examples.antt =====
-- Locks and elections at work over the in-memory backend: concrete histories on which the theorems
-- about internal/coordination are applied.
use collaborative_programmin.Base.{
  ℕ, ◌+◌, ◌≡◌, ◌≢◌, refl, inl, inr, false, List, [], ◌∷◌, none, some, arith,
}
use collaborative_programmin.Base.Dict.{lookup, insert, delete}
use collaborative_programmin.Coordination.Backend.{Same}
use collaborative_programmin.Coordination.Memory.{
  Memory, new_memory, set_nx, compare_and_expire, compare_and_delete, live_locked,
}
use collaborative_programmin.Coordination.Memory.Adapter.{memory_backend}
use collaborative_programmin.Coordination.Memory.Spec.{
  spec_run, gets, set_nxs, expires, compare_deletes, run as run_memory,
}
use collaborative_programmin.Coordination.Memory.Refinement.{nothing, run-new-refines}
use collaborative_programmin.Coordination.Memory.Sets.{
  elem, s_members, s_adds, s_rems, run as run_sets, spec_run as spec_run_sets, s_members_lem,
}
use collaborative_programmin.Coordination.Locks.{
  Config, Lock, not_held, ok, new_lock, resolve, valid_until, try_acquire, renew, release,
}
use collaborative_programmin.Coordination.Locks.Acquire.{Round, acquire, acquire_returns}
use collaborative_programmin.Coordination.Locks.World.{World, Call, tries, releases, step, run}
use collaborative_programmin.Coordination.Locks.Fencing.{stale_harmless}
use collaborative_programmin.Coordination.Locks.Exclusion.{
  exclusive, owner_renews, tried, valid_until_owned,
}

abbrev config : Config
config = record { default_lease = 100; default_timeout = 50 }

abbrev key : ℕ → ℕ
key r = r + 1000

abbrev idle_world : World Memory
idle_world = record { locks = []; held = 0; store = new_memory }

-- The lock on resource 1 with token 7, taken at 10.
abbrev taken : Lock
taken = new_lock 1 1001 7 (resolve config none) 10

abbrev holding : World Memory
holding = step memory_backend key config 10 (tries 0 1 7 none) idle_world

-- Others try, renew and release in vain.
abbrev history : List (ℕ × Call)
history = (5, tries 1 1 8 none) ∷ (5, tries 2 2 9 none) ∷ (5, releases 2) ∷ []

run-new-refines_example :
    (run_memory 5
      ((1, set_nxs 3 4 10) ∷ (2, expires 3 20) ∷ (15, gets 3) ∷ (9, compare_deletes 3 4) ∷ [])
      new_memory).0
    ≡ (spec_run 5
        ((1, set_nxs 3 4 10) ∷ (2, expires 3 20) ∷ (15, gets 3) ∷ (9, compare_deletes 3 4) ∷ [])
        nothing).0
run-new-refines_example =
    run-new-refines 5
      ((1, set_nxs 3 4 10) ∷ (2, expires 3 20) ∷ (15, gets 3) ∷ (9, compare_deletes 3 4) ∷ [])

exclusive_example :
    (try_acquire memory_backend key config 25 25 1 8 none 1
      (run memory_backend key config 10 history holding).store).0
    ≢ ok taken
unfolding step run try_acquire renew release new_memory new_lock resolve lookup insert delete set_nx
    compare_and_expire compare_and_delete live_locked
exclusive_example =
    exclusive memory_backend key config 10 0 1 7 none idle_world taken refl (omega arith) history
      ((λ e. cc), ((λ e. cc), ((λ e. cc), tt))) (omega arith) 25 8 none 1 taken

owner_renews_example :
    (renew memory_backend key config 25 25 60 taken
      (run memory_backend key config 10 history holding).store).0
    ≢ some not_held
unfolding step run try_acquire renew release new_memory new_lock resolve lookup insert delete set_nx
    compare_and_expire compare_and_delete live_locked
owner_renews_example =
    owner_renews memory_backend key config 10 0 1 7 none idle_world taken refl (omega arith) history
      ((λ e. cc), ((λ e. cc), ((λ e. cc), tt))) (omega arith) 25 60

stale_harmless_example :
    ((renew memory_backend key config 200 200 60 taken holding.store).0 ≢ none)
    × Same memory_backend.owner 200 holding.store
        (renew memory_backend key config 200 200 60 taken holding.store).2
    × ((release memory_backend key config 200 1 taken holding.store).0 ≢ none)
    × Same memory_backend.owner 200 holding.store
        (release memory_backend key config 200 1 taken holding.store).3
unfolding step run try_acquire renew release new_memory new_lock resolve lookup insert delete set_nx
    compare_and_expire compare_and_delete live_locked
stale_harmless_example =
    stale_harmless memory_backend key config 200 200 60 1 taken holding.store refl (λ e. cc)

-- The reply of the attempt comes 2 after the backend's answer, and the drift allows for 3.
abbrev prompt : Lock
prompt = new_lock 1 1001 7 (resolve config none) 12

abbrev replied : World Memory
replied = tried memory_backend key config 10 12 1 7 none new_memory idle_world

valid_until_owned_example :
    (memory_backend.owner 25 (run memory_backend key config 10 history replied).store 1001 ≡ some 7)
    × ((try_acquire memory_backend key config 25 25 1 8 none 1
          (run memory_backend key config 10 history replied).store).0
        ≢ ok prompt)
unfolding step run try_acquire renew release new_memory new_lock resolve lookup insert delete set_nx
    compare_and_expire compare_and_delete live_locked
valid_until_owned_example =
    valid_until_owned memory_backend key config 10 12 1 7 none new_memory prompt (λ l. 3) idle_world
      history 25 8 1 none prompt refl (omega arith) (omega arith)
      ((λ e. cc), ((λ e. cc), ((λ e. cc), tt))) (unfold valid_until in omega arith)

abbrev round : ℕ → Round Memory
round t = record { others = λ s. s; at_call = t; at_reply = t; at_check = t; done = false }

acquire_returns_example :
    acquire memory_backend key config 20 1 8 none 1
      (round 21 ∷ round 50 ∷ round 80 ∷ [])
      holding.store
    ≢ none
unfolding resolve
acquire_returns_example =
    acquire_returns memory_backend key config 20 1 8 none 1 (round 21 ∷ round 50 ∷ round 80 ∷ [])
      holding.store (inr (inr (inl (omega arith))))

s_members_lem_example :
    elem 5 (s_members 3 (run_sets (s_adds 3 (4 ∷ 5 ∷ []) ∷ s_rems 3 (4 ∷ []) ∷ []) new_memory))
    ≡ spec_run_sets (s_adds 3 (4 ∷ 5 ∷ []) ∷ s_rems 3 (4 ∷ []) ∷ []) (λ k x. false) 3 5
s_members_lem_example = s_members_lem (s_adds 3 (4 ∷ 5 ∷ []) ∷ s_rems 3 (4 ∷ []) ∷ []) 3 5

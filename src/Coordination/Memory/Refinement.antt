-- ===== src/Coordination/Memory/Refinement.antt =====
-- The in-memory backend against its specification.
use collaborative_programmin.Base.{ℕ, ◌+◌, ◌≤◌, ◌≡◌, refl, List, [], ◌∷◌, none, arith}
use collaborative_programmin.Base.Dict.{lookup}
use collaborative_programmin.Coordination.Memory.{Memory, new_memory}
use collaborative_programmin.Coordination.Memory.Spec.{
  Call, gets, ttls, sets, set_nxs, deletes, expires, swaps, compare_deletes, compare_expires, step,
  run, Spec, spec_step, spec_run,
}
use collaborative_programmin.Coordination.Memory.Agreement.{
  Agrees, Refines, get-Refines, ttl-Refines, set-Refines, set_nx-Refines, expire-Refines,
  swap-Refines, compare_delete-Refines, compare_expire-Refines,
}
use collaborative_programmin.Coordination.Memory.Deletion.{deletes-Refines}

-- Each call gives the reply of the specification, and leaves the two in agreement.
pub step-Refines :
    (now : ℕ) (c : Call) (m : Memory) (f : Spec)
    → Agrees now m f
    → Refines now (step now c m) (spec_step now c f)
step-Refines now (gets k) m f h = get-Refines now m f h k
step-Refines now (ttls k wall) m f h = ttl-Refines now m f h k wall
step-Refines now (sets k v ttl) m f h = set-Refines now m f h k v ttl
step-Refines now (set_nxs k v ttl) m f h = set_nx-Refines now m f h k v ttl
step-Refines now (deletes ks) m f h = deletes-Refines now m f h ks
step-Refines now (expires k ttl) m f h = expire-Refines now m f h k ttl
step-Refines now (swaps k old new ttl) m f h = swap-Refines now m f h k old new ttl
step-Refines now (compare_deletes k old) m f h = compare_delete-Refines now m f h k old
step-Refines now (compare_expires k old ttl) m f h = compare_expire-Refines now m f h k old ttl

Agrees-later : (now t : ℕ) (m : Memory) (f : Spec) → now ≤ t → Agrees now m f → Agrees t m f
Agrees-later now t m f le h j u le' = h j u (omega arith)

run_refines :
    (now : ℕ) (cs : List (ℕ × Call)) (m : Memory) (f : Spec)
    → Agrees now m f
    → (run now cs m).0 ≡ (spec_run now cs f).0
unfolding run spec_run
run_refines now [] m f h = refl
run_refines now ((d, c) ∷ cs) m f h =
    let (reply, agrees) =
      step-Refines (now + d) c m f (Agrees-later now (now + d) m f (omega arith) h) in
    let rest = run_refines (now + d) cs (step (now + d) c m).1 (spec_step (now + d) c f).1 agrees in
    cc

abbrev pub nothing : Spec
nothing k = none

-- From an empty memory, at any time and after any history of calls of `Get`, `TTL`, `Set`, `SetNX`,
-- `Delete`, `Expire`, `CompareAndSwap`, `CompareAndDelete` and `CompareAndExpire`, every reply is
-- the one of the specification, which is a plain function from keys to entries that is read through
-- the clock and never evicts anything.
pub run-new-refines :
    (now : ℕ) (cs : List (ℕ × Call)) → (run now cs new_memory).0 ≡ (spec_run now cs nothing).0
unfolding new_memory lookup
run-new-refines now cs = run_refines now cs new_memory nothing (λ j t le. refl)

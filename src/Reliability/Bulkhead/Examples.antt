-- ===== src/Reliability/Bulkhead/Examples.antt =====
-- A semaphore at work.
use collaborative_programmin.Base.{◌≤◌, ◌≡◌, ◌↔◌, true, false, [], ◌∷◌}
use collaborative_programmin.Reliability.Bulkhead.{new_semaphore, acquire, full}
use collaborative_programmin.Reliability.Bulkhead.Slots.{out, acquires, releases, run, slots_lem}

slots_lem_example :
    let s =
      run
        (acquires false true ∷ acquires false true ∷ releases 0 ∷ releases 0 ∷ [])
        (new_semaphore 1) in
    (out s.tickets ≤ 1)
    × (s.used ≡ out s.tickets)
    × (((acquire false true 7 s).0 ≡ full) ↔ (out s.tickets ≡ 1))
slots_lem_example =
    slots_lem 1 (acquires false true ∷ acquires false true ∷ releases 0 ∷ releases 0 ∷ []) true 7

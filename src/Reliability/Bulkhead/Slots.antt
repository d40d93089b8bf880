-- ===== src/Reliability/Bulkhead/Slots.antt =====
-- The slots of a semaphore and its tickets.
use collaborative_programmin.Base.{
  ℕ, suc, ◌≤◌, ◌≡◌, ◌↔◌, refl, Bool, true, false, ◌&&◌, ◌||◌, not, List, [], ◌∷◌, Option, none,
  some, arith, ltb, if◌then◌else◌, if_cases,
}
use collaborative_programmin.Base.Dict.{Dict, lookup, insert, count}
use collaborative_programmin.Reliability.Bulkhead.{
  Semaphore, new_semaphore, Result, full, acquire, release_of, release,
}

-- How many tickets are out.
abbrev pub out : Dict Bool → ℕ
out m = count not m

out_new :
    (ticket : ℕ) (m : Dict Bool)
    → lookup ticket m ≡ none
    → out (insert ticket false m) ≡ suc (out m)
unfolding insert lookup count
out_new ticket [] h = refl
out_new ticket ((i, b) ∷ m) h = ground (arith, h, out_new ticket m)

out_back :
    (ticket : ℕ) (m : Dict Bool)
    → lookup ticket m ≡ some false
    → suc (out (insert ticket true m)) ≡ out m
unfolding insert lookup count
out_back ticket [] h = absurd (ground (arith, h))
out_back ticket ((i, b) ∷ m) h = ground (arith, h, out_back ticket m)

pub record IsCounted (max : ℕ) (s : Semaphore) : Type 0 where
  pub sized : s.max_concurrent ≡ max
  pub counted : s.used ≡ out s.tickets
  pub bounded : s.used ≤ s.max_concurrent

pub data Call : Type 0 where
  acquires : (ctx_done ctx_first : Bool) → Call
  releases : (ticket : ℕ) → Call

-- A new ticket is one more than any before.
unfoldable pub fresh : Dict Bool → ℕ
fresh [] = 0
fresh ((i, b) ∷ m) = if ltb (fresh m) (suc i) then suc i else fresh m

fresh_absent : (m : Dict Bool) (k : ℕ) → fresh m ≤ k → lookup k m ≡ none
unfolding fresh lookup
fresh_absent [] k le = refl
fresh_absent ((i, b) ∷ m) k le = ground (arith, le, fresh_absent m k)

unfoldable pub step : Call → Semaphore → Semaphore
step (acquires ctx_done ctx_first) s = (acquire ctx_done ctx_first (fresh s.tickets) s).1
step (releases ticket) s = release ticket s

unfoldable pub run : List Call → Semaphore → Semaphore
run [] s = s
run (c ∷ cs) s = run cs (step c s)

step-IsCounted : (max : ℕ) (c : Call) (s : Semaphore) → IsCounted max s → IsCounted max (step c s)
unfolding step acquire release
step-IsCounted max (acquires ctx_done ctx_first) s h =
    if_cases (λ (r : Result × Semaphore). IsCounted max r.1)
      (ctx_done && (ctx_first || not (ltb s.used s.max_concurrent))) _ _ (λ _. h)
      λ _.
        if_cases (λ (r : Result × Semaphore). IsCounted max r.1) (ltb s.used s.max_concurrent) _ _
          (λ room. record {
            sized = h.sized;
            counted = ground (
              arith,
              h.counted,
              out_new (fresh s.tickets) s.tickets,
              fresh_absent s.tickets (fresh s.tickets),
            );
            bounded = ground (arith, room);
          })
          λ _. h
step-IsCounted max (releases ticket) s h = released (lookup ticket s.tickets) refl
  where
    released :
        (o : Option Bool) → lookup ticket s.tickets ≡ o → IsCounted max (release_of ticket s o)
    released none at = unfold release_of in h
    released (some true) at = unfold release_of in h
    released (some false) at =
        unfold release_of in
        record {
          sized = h.sized;
          counted = omega (arith, h.counted, out_back ticket s.tickets at);
          bounded = omega (arith, h.bounded);
        }

run-IsCounted :
    (max : ℕ) (cs : List Call) (s : Semaphore) → IsCounted max s → IsCounted max (run cs s)
unfolding run
run-IsCounted max [] s h = h
run-IsCounted max (c ∷ cs) s h = run-IsCounted max cs (step c s) (step-IsCounted max c s h)

refused_iff :
    (max : ℕ) (s : Semaphore) (ctx_first : Bool) (ticket : ℕ)
    → IsCounted max s
    → ((acquire false ctx_first ticket s).0 ≡ full) ↔ (out s.tickets ≡ max)
unfolding acquire
refused_iff max s ctx_first ticket h =
    if_cases (λ (r : Result × Semaphore). (r.0 ≡ full) ↔ (out s.tickets ≡ max))
      (ltb s.used s.max_concurrent) _ _
      (λ room. ((λ e. cc), λ e. absurd (ground (arith, room, e, h.counted, h.sized))))
      λ no_room. ((λ e. ground (arith, no_room, h.counted, h.bounded, h.sized)), λ e. refl)

-- After any history of acquisitions and releases, with tickets released late, twice or never and
-- contexts that end, no more tickets are out than the maximum, the channel holds one token for each,
-- and an acquisition whose context has not ended is refused exactly if the maximum is out.
pub slots_lem :
    (max : ℕ) (cs : List Call) (ctx_first : Bool) (ticket : ℕ)
    → let s = run cs (new_semaphore max) in
      (out s.tickets ≤ max)
      × (s.used ≡ out s.tickets)
      × (((acquire false ctx_first ticket s).0 ≡ full) ↔ (out s.tickets ≡ max))
slots_lem max cs ctx_first ticket =
    let h = run-IsCounted max cs (new_semaphore max) new_counted in
    (
      omega (arith, h.counted, h.bounded, h.sized),
      h.counted,
      refused_iff max (run cs (new_semaphore max)) ctx_first ticket h,
    )
  where
    new_counted : IsCounted max (new_semaphore max)
    new_counted =
        unfold new_semaphore count in record { sized = refl; counted = refl; bounded = omega arith }

-- ===== src/Reliability/CircuitBreaker/Recovery.antt =====
-- How a breaker that has tripped refuses, and how it recovers.
use native.Mathlib.Nat.{le_refl}
use collaborative_programmin.Base.{
  ℕ, suc, ◌+◌, ◌≤◌, ◌<◌, ◌≡◌, refl, sym, subst, Bool, true, false, List, [], ◌∷◌, All, arith,
  length,
}
use collaborative_programmin.Reliability.CircuitBreaker.{
  closed, half_open, open_circuit, Breaker, transition_to, evaluate, evaluate_in, allow, record_in,
  record_result, Call, allows, results, resets, step, run, elapsed,
}

abbrev pub IsQuiet : Call → Type 0
IsQuiet allows = Unit
IsQuiet (results success delay) = Unit
IsQuiet resets = ⊥

-- Open, and not to be tried before `d`, neither now nor if it trips again from `now` on.
record Shut (now d : ℕ) (b : Breaker) : Type 0 where
  pub is_shut : b.state ≡ open_circuit
  pub until : d ≤ b.opened_at + b.cfg.recovery_timeout
  pub again : d ≤ now + b.cfg.recovery_timeout

evaluate-Shut :
    (now u d : ℕ) (b : Breaker) → now ≤ u → u < d → Shut now d b → Shut u d (evaluate u b)
unfolding evaluate evaluate_in
evaluate-Shut now u d b le lt h = ground (arith, h.is_shut, h.until, h.again)

later : (now : ℕ) (cs : List (ℕ × Call)) → now ≤ elapsed now cs
later now [] = omega arith
later now ((p, c) ∷ cs) = omega (arith, later (now + p) cs)

-- Successful results, one after the other.
abbrev pub wins : List (ℕ × ℕ) → List (ℕ × Call)
wins [] = []
wins ((p, delay) ∷ ps) = (p, results true delay) ∷ wins ps

module _ (reaches : ℕ → ℕ → Bool) where
  record_result-Shut :
      (now u d delay : ℕ) (success : Bool) (b : Breaker)
      → now ≤ u
      → Shut now d b
      → Shut u d (record_result reaches u (u + delay) success b)
  unfolding record_result record_in transition_to
  record_result-Shut now u d delay success b le h = ground (arith, h.is_shut, h.until, h.again)

  run-Shut :
      (now d : ℕ) (cs : List (ℕ × Call)) (b : Breaker)
      → All (λ (x : ℕ × Call). IsQuiet x.1) cs
      → elapsed now cs < d
      → Shut now d b
      → Shut (elapsed now cs) d (run reaches now cs b)
  unfolding run step allow
  run-Shut now d [] b quiet lt h = h
  run-Shut now d ((p, allows) ∷ cs) b quiet lt h =
      run-Shut (now + p) d cs (evaluate (now + p) b) quiet.1 lt
        (evaluate-Shut now (now + p) d b (omega arith) (omega (arith, later (now + p) cs)) h)
  run-Shut now d ((p, results success delay) ∷ cs) b quiet lt h =
      run-Shut (now + p) d cs (record_result reaches (now + p) (now + p + delay) success b) quiet.1
        lt (record_result-Shut now (now + p) d delay success b (omega arith) h)
  run-Shut now d ((p, resets) ∷ cs) b quiet lt h = absurd quiet.0

  -- From the moment at which a breaker opened until its recovery timeout is over, whatever history of
  -- requests and of late results follows, as long as nobody resets it, every request is refused.
  pub open_refuses :
      (now : ℕ) (cs : List (ℕ × Call)) (b : Breaker)
      → b.state ≡ open_circuit
      → b.opened_at ≤ now
      → All (λ (x : ℕ × Call). IsQuiet x.1) cs
      → elapsed now cs < b.opened_at + b.cfg.recovery_timeout
      → (allow (elapsed now cs) (run reaches now cs b)).0 ≡ false
  unfolding allow
  open_refuses now cs b shut past quiet lt =
      let h =
        run-Shut now (b.opened_at + b.cfg.recovery_timeout) cs b quiet lt
          (record { is_shut = shut; until = omega arith; again = omega arith }) in
      let h' =
        evaluate-Shut (elapsed now cs) (elapsed now cs) (b.opened_at + b.cfg.recovery_timeout)
          (run reaches now cs b) (le_refl _) lt h in
      ground (arith, h'.is_shut)

  wins_close :
      (now : ℕ) (ps : List (ℕ × ℕ)) (b : Breaker)
      → b.state ≡ half_open
      → b.successes + length ps ≡ b.cfg.success_threshold
      → 0 < length ps
      → ((run reaches now (wins ps) b).state ≡ closed)
        × ((run reaches now (wins ps) b).records ≡ [])
  unfolding run step record_result record_in transition_to
  wins_close now [] b half enough some_left = absurd (ground arith)
  wins_close now ((p, delay) ∷ []) b half enough some_left = ground (arith, half)
  wins_close now ((p, delay) ∷ q ∷ ps) b half enough some_left =
      let b' = record b { successes = suc b.successes } in
      let stays : record_result reaches (now + p) (now + p + delay) true b ≡ b' =
        ground (arith, half) in
      subst
        (λ x.
          ((run reaches (now + p) (wins (q ∷ ps)) x).state ≡ closed)
          × ((run reaches (now + p) (wins (q ∷ ps)) x).records ≡ []))
        (sym stays) (wins_close (now + p) (q ∷ ps) b' half (omega arith) (omega arith))

  -- Once the recovery timeout of an open breaker is over, a request is permitted again, and as many
  -- successes in a row as the threshold asks for close the breaker, with an empty window.
  pub recovers :
      (u : ℕ) (ps : List (ℕ × ℕ)) (b : Breaker)
      → b.state ≡ open_circuit
      → b.opened_at + b.cfg.recovery_timeout ≤ u
      → length ps ≡ b.cfg.success_threshold
      → 0 < b.cfg.success_threshold
      → ((allow u b).0 ≡ true)
        × ((run reaches u (wins ps) (allow u b).1).state ≡ closed)
        × ((run reaches u (wins ps) (allow u b).1).records ≡ [])
  unfolding allow evaluate evaluate_in transition_to
  recovers u ps b is_shut over enough pos =
      let b' = transition_to u half_open b in
      let tried : evaluate u b ≡ b' = ground (arith, is_shut) in
      let (shut, clear) = wins_close u ps b' refl (omega arith) (omega arith) in
      rw tried (refl, shut, clear)

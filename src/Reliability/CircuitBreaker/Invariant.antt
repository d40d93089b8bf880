-- ===== src/Reliability/CircuitBreaker/Invariant.antt =====
-- What holds of a breaker after every history of calls.
use collaborative_programmin.Base.{
  ℕ, suc, ◌+◌, ◌≤◌, ◌<◌, ◌≡◌, ◌⊎◌, inl, inr, refl, Bool, false, List, [], ◌∷◌, ◌++◌, All, arith,
  leb, if◌then◌else◌, if_cases,
}
use collaborative_programmin.Reliability.CircuitBreaker.{
  State, closed, half_open, open_circuit, Config, Breaker, new_breaker, transition_to, evaluate,
  evaluate_in, allow, prune, trips, record_in, record_result, Call, allows, results, resets, step,
  run, elapsed,
}
use collaborative_programmin.Reliability.CircuitBreaker.Window.{
  Rising, Recent, Rising-later, prune_lem,
}

module _ (reaches : ℕ → ℕ → Bool) where
  -- The configuration is normal, the records are in the order of time, successes are counted only in
  -- a trial and never reach the threshold, and a closed breaker's window does not trip it.
  pub record IsSound (now : ℕ) (b : Breaker) : Type 0 where
    pub positive : 0 < b.cfg.success_threshold
    pub window : 0 < b.cfg.failure_window
    pub rises : Rising 0 b.records now
    pub counts :
        (b.state ≡ closed) ⊎ (b.state ≡ open_circuit) ⊎ (b.successes < b.cfg.success_threshold)
    pub calm :
        (b.records ≡ [])
        ⊎ (trips reaches b.cfg.min_requests b.records ≡ false)
        ⊎ (b.state ≡ half_open)

  moved-IsSound :
      (now at : ℕ) (to : State) (b : Breaker) → IsSound now b → IsSound now (transition_to at to b)
  unfolding transition_to
  moved-IsSound now at closed b h = record {
    positive = h.positive;
    window = h.window;
    rises = omega arith;
    counts = inl refl;
    calm = inl refl;
  }
  moved-IsSound now at open_circuit b h = record {
    positive = h.positive;
    window = h.window;
    rises = omega arith;
    counts = inr (inl refl);
    calm = inl refl;
  }
  moved-IsSound now at half_open b h = record {
    positive = h.positive;
    window = h.window;
    rises = h.rises;
    counts = inr (inr h.positive);
    calm = inr (inr refl);
  }

  evaluate-IsSound :
      (now : ℕ) (b : Breaker) (s : State) → IsSound now b → IsSound now (evaluate_in s now b)
  unfolding evaluate_in
  evaluate-IsSound now b open_circuit h =
      if_cases (IsSound now) (leb (b.opened_at + b.cfg.recovery_timeout) now) _ _
        (λ _. moved-IsSound now now half_open b h) λ _. h
  evaluate-IsSound now b closed h = h
  evaluate-IsSound now b half_open h = h

  -- A new record, of a breaker that is not on trial.
  watched-IsSound :
      (now u at : ℕ) (success : Bool) (b : Breaker)
      → now ≤ u
      → (b.state ≡ closed) ⊎ (b.state ≡ open_circuit)
      → IsSound now b
      → let rs =
          prune b.cfg.failure_window u
            (b.records ++ (record { timestamp = u; success = success } ∷ [])) in
        let b' = record b { records = rs } in
        IsSound u
          (if trips reaches b.cfg.min_requests rs then transition_to at open_circuit b' else b')
  unfolding transition_to
  watched-IsSound now u at success b le where_ h =
      let (recent, rises) =
        prune_lem b.cfg.failure_window u 0 now success b.records h.window le h.rises in
      if_cases (IsSound u) (trips reaches b.cfg.min_requests _) _ _
        (λ _. record {
          positive = h.positive;
          window = h.window;
          rises = omega arith;
          counts = inr (inl refl);
          calm = inl refl;
        })
        λ quiet. record {
          positive = h.positive;
          window = h.window;
          rises = rises;
          counts = elim where_ [ inl e ↦ inl e | inr e ↦ inr (inl e) ];
          calm = inr (inl quiet);
        }

  later-IsSound : (now u : ℕ) (b : Breaker) → now ≤ u → IsSound now b → IsSound u b
  later-IsSound now u b le h = record {
    positive = h.positive;
    window = h.window;
    rises = Rising-later 0 now u b.records le h.rises;
    counts = h.counts;
    calm = h.calm;
  }

  -- One more success on trial that does not suffice.
  trial-IsSound :
      (u : ℕ) (b : Breaker)
      → b.state ≡ half_open
      → leb b.cfg.success_threshold (suc b.successes) ≡ false
      → IsSound u b
      → IsSound u (record b { successes = suc b.successes })
  trial-IsSound u b half few h = record {
    positive = h.positive;
    window = h.window;
    rises = h.rises;
    counts = inr (inr (ground (arith, few)));
    calm = h.calm;
  }

  won-IsSound :
      (u at : ℕ) (b : Breaker)
      → IsSound u b
      → IsSound u (transition_to at closed (record b { successes = suc b.successes }))
  unfolding transition_to
  won-IsSound u at b h = record {
    positive = h.positive;
    window = h.window;
    rises = omega arith;
    counts = inl refl;
    calm = inl refl;
  }

  record_in-IsSound :
      (now u at : ℕ) (success : Bool) (b : Breaker) (s : State)
      → b.state ≡ s
      → now ≤ u
      → IsSound now b
      → IsSound u (record_in reaches s u at success b)
  unfolding record_in
  record_in-IsSound now u at success b closed is le h =
      watched-IsSound now u at success b le (inl is) h
  record_in-IsSound now u at success b open_circuit is le h =
      watched-IsSound now u at success b le (inr is) h
  record_in-IsSound now u at success b half_open is le h =
      let h' = later-IsSound now u b le h in
      if_cases (IsSound u) success _ _
        (λ _.
          if_cases (IsSound u) (leb b.cfg.success_threshold (suc b.successes)) _ _
            (λ _. won-IsSound u at b h') λ few. trial-IsSound u b is few h')
        λ _. moved-IsSound u at open_circuit b h'

  run-IsSound :
      (now : ℕ) (cs : List (ℕ × Call)) (b : Breaker)
      → IsSound now b
      → IsSound (elapsed now cs) (run reaches now cs b)
  unfolding run step allow evaluate record_result
  run-IsSound now [] b h = h
  run-IsSound now ((p, allows) ∷ cs) b h =
      run-IsSound (now + p) cs _
        (evaluate-IsSound (now + p) b b.state (later-IsSound now (now + p) b (omega arith) h))
  run-IsSound now ((p, results success delay) ∷ cs) b h =
      run-IsSound (now + p) cs _
        (record_in-IsSound now (now + p) (now + p + delay) success b b.state refl (omega arith) h)
  run-IsSound now ((p, resets) ∷ cs) b h =
      run-IsSound (now + p) cs _
        (moved-IsSound (now + p) (now + p) closed b (later-IsSound now (now + p) b (omega arith) h))

  new_breaker-IsSound : (cfg : Config) (now : ℕ) → IsSound now (new_breaker cfg)
  unfolding new_breaker
  new_breaker-IsSound cfg now = record {
    positive = ground arith;
    window = ground arith;
    rises = omega arith;
    counts = inl refl;
    calm = inl refl;
  }

  -- A breaker made by `NewCircuitBreaker` has, after any history of requests, results and resets, its
  -- records in the order of time; on trial, fewer successes than the threshold; and, while it is
  -- closed or open, a window of records that is empty or does not trip it.
  pub run-new-IsSound :
      (cfg : Config) (now : ℕ) (cs : List (ℕ × Call))
      → IsSound (elapsed now cs) (run reaches now cs (new_breaker cfg))
  run-new-IsSound cfg now cs = run-IsSound now cs (new_breaker cfg) (new_breaker-IsSound cfg now)

  -- After a result that a sound breaker records while it is not on trial, every record that it keeps
  -- is inside the sliding window that ends at that moment.
  pub record_result-Recent :
      (now u at : ℕ) (success : Bool) (b : Breaker)
      → now ≤ u
      → (b.state ≡ closed) ⊎ (b.state ≡ open_circuit)
      → IsSound now b
      → All (Recent b.cfg.failure_window u) (record_result reaches u at success b).records
  unfolding record_result record_in transition_to
  record_result-Recent now u at success b le where_ h =
      let recent =
        (prune_lem b.cfg.failure_window u 0 now success b.records h.window le h.rises).0 in
      elim where_ [
        | inl e ↦
            simp e (if_cases Kept (trips reaches b.cfg.min_requests _) _ _ (λ _. tt) λ _. recent)
        | inr e ↦
            simp e (if_cases Kept (trips reaches b.cfg.min_requests _) _ _ (λ _. tt) λ _. recent)
      ]
    where
      Kept : Breaker → Type 0
      Kept x = All (Recent b.cfg.failure_window u) x.records

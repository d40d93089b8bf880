-- ===== src/Reliability/Retry/Laws.antt =====
-- The laws of the retries: how often, how long, and how they end.
use collaborative_programmin.Base.{
  ℕ, zero, suc, ◌+◌, ◌*◌, ◌-◌, ◌≤◌, ◌<◌, ◌≡◌, ◌⊎◌, inl, inr, refl, ap, sym, subst, ◌∙◌, Bool, true,
  false, ◌∷◌, Option, none, some, arith, ◌==◌, length,
}
use collaborative_programmin.Reliability.Retry.{
  Strategy, fixed, linear, exponential, jittered, decorrelated, Config, normalize, succeeded,
  exhausted, Trace, is_retryable, after_call, attempt_loop, execute,
}

-- With a first interval within the maximum, each strategy keeps its delays between the two, whatever
-- the random draws, if the jitter does not lengthen a delay and the float product of the exponential
-- strategy is not below the interval, or not positive.
pub delay_bounds :
    (attempt base limit last : ℕ) (scaled : ℕ → ℕ → ℕ) (jitter draw : ℕ → ℕ)
    → base ≤ limit
    → 0 < attempt
    → ((n : ℕ) → jitter n ≤ n)
    → (base ≤ scaled base attempt) ⊎ (scaled base attempt ≡ 0)
    → let within = λ (s : Strategy).
      (base ≤ s attempt base limit last) × (s attempt base limit last ≤ limit) in
      within fixed
      × within linear
      × within (exponential scaled)
      × within (jittered scaled jitter)
      × within (decorrelated draw)
unfolding fixed linear exponential jittered decorrelated
delay_bounds attempt base limit last scaled jitter draw le first small grown = (
  (ground arith, ground (arith, le)),
  (ground (arith, le, grows attempt first), ground arith),
  (ground (arith, le, grown), ground arith),
  (ground arith, ground (arith, le, small limit, small (scaled base attempt))),
  (ground (arith, le), ground (arith, le)),
)
  where
    grows : (n : ℕ) → 0 < n → base ≤ base * n
    grows zero h = absurd (omega (arith, h))
    grows (suc n) h = grind arith

module _ (c : Config) (strategy : Strategy) (classifier : Option (ℕ → Bool)) (ended cut : ℕ → Bool)
    (outcome : ℕ → Option ℕ) where
  abbrev loop : ℕ → ℕ → ℕ → Trace
  loop = attempt_loop c strategy classifier ended cut outcome

  -- A call that fails with an error that is retried, and the context does not end in between.
  abbrev pub FailsOnce : ℕ → Type 0
  FailsOnce i =
      (ended i ≡ false)
      × (cut i ≡ false)
      × (e : ℕ) × (outcome i ≡ some e)
      × (is_retryable classifier e ≡ true)

  loop_calls :
      (left attempt last : ℕ) → 0 < attempt → (loop left attempt last).calls ≤ attempt + left
  unfolding attempt_loop after_call
  loop_calls zero attempt last h = ground arith
  loop_calls (suc left) attempt last h = ground (
    arith,
    loop_calls left (suc attempt) (strategy attempt c.initial_interval c.max_interval last),
  )

  -- A failed call that is retried hands over to the rest of the loop.
  loop_retries :
      (left attempt last : ℕ)
      → FailsOnce attempt
      → let delay = strategy attempt c.initial_interval c.max_interval last in
        let rest = loop left (suc attempt) delay in
        loop (suc left) attempt last ≡ record rest { delays = delay ∷ rest.delays }
  unfolding attempt_loop after_call
  loop_retries left attempt last (alive, uncut, e, fails, retryable) =
      let more : (suc left == 0) ≡ false = ground arith in
      rw (alive, fails, more, retryable, uncut) refl

  abbrev Succeeds : ℕ → ℕ → Trace → Type 0
  Succeeds calls waits t = (t.ending ≡ succeeded) × (t.calls ≡ calls) × (length t.delays ≡ waits)

  at_once :
      (left attempt last : ℕ)
      → ended attempt ≡ false
      → outcome attempt ≡ none
      → Succeeds (attempt + 0) 0 (loop left attempt last)
  unfolding attempt_loop after_call
  at_once zero attempt last alive works = rw (alive, works) (refl, omega arith, refl)
  at_once (suc left) attempt last alive works = rw (alive, works) (refl, omega arith, refl)

  loop-Succeeds :
      (k left attempt last : ℕ)
      → ((i : ℕ) → i < k → FailsOnce (attempt + i))
      → ended (attempt + k) ≡ false
      → outcome (attempt + k) ≡ none
      → k ≤ left
      → Succeeds (attempt + k) k (loop left attempt last)
  loop-Succeeds zero left attempt last fails alive works le =
      at_once left attempt last (subst (λ i. ended i ≡ false) (omega arith) alive)
        (subst (λ i. outcome i ≡ none) (omega arith) works)
  loop-Succeeds (suc k) zero attempt last fails alive works le = absurd (omega (arith, le))
  loop-Succeeds (suc k) (suc left) attempt last fails alive works le =
      let shift : suc attempt + k ≡ attempt + suc k = omega arith in
      subst (Succeeds (attempt + suc k) (suc k))
        (sym
          (loop_retries left attempt last (subst FailsOnce (omega arith) (fails 0 (omega arith)))))
        (let (done, calls, waits) =
            loop-Succeeds k left (suc attempt)
              (strategy attempt c.initial_interval c.max_interval last)
              (λ i lt. subst FailsOnce (omega arith) (fails (suc i) (omega (arith, lt))))
              (ap ended shift ∙ alive) (ap outcome shift ∙ works) (omega (arith, le)) in
          (done, omega (arith, calls), omega (arith, waits)))

  abbrev GivesUp : ℕ → ℕ → ℕ → Trace → Type 0
  GivesUp e calls waits t = (t.ending ≡ exhausted e) × (t.calls ≡ calls) × (length t.delays ≡ waits)

  at_last :
      (left attempt last e : ℕ)
      → ended attempt ≡ false
      → outcome attempt ≡ some e
      → (0 ≡ left) ⊎ (is_retryable classifier e ≡ false)
      → GivesUp e (attempt + 0) 0 (loop left attempt last)
  unfolding attempt_loop after_call
  at_last zero attempt last e alive fails final = rw (alive, fails) (refl, omega arith, refl)
  at_last (suc left) attempt last e alive fails (inl done) = absurd (omega (arith, done))
  at_last (suc left) attempt last e alive fails (inr fatal) =
      let more : (suc left == 0) ≡ false = ground arith in
      rw (alive, fails, more, fatal) (refl, omega arith, refl)

  loop-GivesUp :
      (k left attempt last e : ℕ)
      → ((i : ℕ) → i < k → FailsOnce (attempt + i))
      → ended (attempt + k) ≡ false
      → outcome (attempt + k) ≡ some e
      → k ≤ left
      → (k ≡ left) ⊎ (is_retryable classifier e ≡ false)
      → GivesUp e (attempt + k) k (loop left attempt last)
  loop-GivesUp zero left attempt last e before alive fails le final =
      at_last left attempt last e (subst (λ i. ended i ≡ false) (omega arith) alive)
        (subst (λ i. outcome i ≡ some e) (omega arith) fails) final
  loop-GivesUp (suc k) zero attempt last e before alive fails le final = absurd (omega (arith, le))
  loop-GivesUp (suc k) (suc left) attempt last e before alive fails le final =
      let shift : suc attempt + k ≡ attempt + suc k = omega arith in
      subst (GivesUp e (attempt + suc k) (suc k))
        (sym
          (loop_retries left attempt last (subst FailsOnce (omega arith) (before 0 (omega arith)))))
        (let (done, calls, waits) =
            loop-GivesUp k left (suc attempt)
              (strategy attempt c.initial_interval c.max_interval last) e
              (λ i lt. subst FailsOnce (omega arith) (before (suc i) (omega (arith, lt))))
              (ap ended shift ∙ alive) (ap outcome shift ∙ fails) (omega (arith, le))
              (elim final [
                | inl last_one ↦ inl (omega (arith, last_one))
                | inr fatal ↦ inr fatal
              ]) in
          (done, omega (arith, calls), omega (arith, waits)))

  -- The function is never called more often than the configuration allows, nor than once if it asks
  -- for no attempts.
  pub execute_calls :
      (execute c strategy classifier ended cut outcome).calls ≤ (normalize c).max_attempts
  unfolding execute normalize
  execute_calls = ground (arith, loop_calls ((normalize c).max_attempts - 1) 1 0)

  -- If the first k calls fail with errors that are retried, k being less than the number of attempts,
  -- the context does not end, and the next call succeeds, then the execution succeeds with that call,
  -- after k waits.
  pub execute_succeeds :
      (k : ℕ)
      → k < (normalize c).max_attempts
      → ((i : ℕ) → i < k → FailsOnce (1 + i))
      → ended (1 + k) ≡ false
      → outcome (1 + k) ≡ none
      → let t = execute c strategy classifier ended cut outcome in
        (t.ending ≡ succeeded) × (t.calls ≡ 1 + k) × (length t.delays ≡ k)
  unfolding execute
  execute_succeeds k lt fails alive works =
      loop-Succeeds k ((normalize c).max_attempts - 1) 1 0 fails alive works (omega (arith, lt))

  -- If the first k calls fail with errors that are retried, the context does not end, and the next
  -- call fails too, and is the last that is allowed or fails with an error that is not retried, then
  -- the execution ends there with that error.
  pub execute_gives_up :
      (k e : ℕ)
      → k < (normalize c).max_attempts
      → ((i : ℕ) → i < k → FailsOnce (1 + i))
      → ended (1 + k) ≡ false
      → outcome (1 + k) ≡ some e
      → (k + 1 ≡ (normalize c).max_attempts) ⊎ (is_retryable classifier e ≡ false)
      → let t = execute c strategy classifier ended cut outcome in
        (t.ending ≡ exhausted e) × (t.calls ≡ 1 + k) × (length t.delays ≡ k)
  unfolding execute
  execute_gives_up k e lt before alive fails final =
      loop-GivesUp k ((normalize c).max_attempts - 1) 1 0 e before alive fails (omega (arith, lt))
        (elim final [ inl last_one ↦ inl (omega (arith, last_one)) | inr fatal ↦ inr fatal ])

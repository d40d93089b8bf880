-- ===== src/Reliability/Retry/Examples.antt =====
-- Retries at work.
use collaborative_programmin.Base.{
  ℕ, zero, suc, ◌+◌, ◌*◌, ◌-◌, ◌≤◌, ◌<◌, ◌≡◌, inl, refl, false, Option, none, some, arith, leb,
  if◌then◌else◌, length,
}
use collaborative_programmin.Reliability.Retry.{
  Strategy, fixed, linear, exponential, jittered, decorrelated, Config, normalize, succeeded,
  exhausted, is_retryable, execute,
}
use collaborative_programmin.Reliability.Retry.Laws.{
  delay_bounds, FailsOnce, execute_succeeds, execute_gives_up,
}

abbrev retry_config : Config
retry_config = record { max_attempts = 3; initial_interval = 2; max_interval = 9 }

-- The first two calls fail, the third succeeds.
abbrev flaky : ℕ → Option ℕ
flaky i = if leb i 2 then some i else none

flaky_fails :
    (i : ℕ) → i < 2 → FailsOnce retry_config linear none (λ i. false) (λ i. false) flaky (1 + i)
unfolding is_retryable
flaky_fails i lt = (refl, refl, 1 + i, ground (arith, lt), refl)

execute_succeeds_example :
    let t = execute retry_config linear none (λ i. false) (λ i. false) flaky in
    (t.ending ≡ succeeded) × (t.calls ≡ 3) × (length t.delays ≡ 2)
unfolding normalize
execute_succeeds_example =
    execute_succeeds retry_config linear none (λ i. false) (λ i. false) flaky 2 (omega arith)
      flaky_fails refl refl

abbrev broken : ℕ → Option ℕ
broken i = some i

broken_fails :
    (i : ℕ) → i < 2 → FailsOnce retry_config linear none (λ i. false) (λ i. false) broken (1 + i)
unfolding is_retryable
broken_fails i lt = (refl, refl, 1 + i, refl, refl)

execute_gives_up_example :
    let t = execute retry_config linear none (λ i. false) (λ i. false) broken in
    (t.ending ≡ exhausted 3) × (t.calls ≡ 3) × (length t.delays ≡ 2)
unfolding normalize
execute_gives_up_example =
    execute_gives_up retry_config linear none (λ i. false) (λ i. false) broken 2 3 (omega arith)
      broken_fails refl refl (inl refl)

-- The powers of 2, without a float.
abbrev product : ℕ → ℕ → ℕ
product base zero = base
product base (suc zero) = base
product base (suc (suc n)) = 2 * product base (suc n)

delay_bounds_example :
    let within = λ (s : Strategy). (2 ≤ s 3 2 9 5) × (s 3 2 9 5 ≤ 9) in
    within fixed
    × within linear
    × within (exponential product)
    × within (jittered product (λ n. n - 1))
    × within (decorrelated (λ n. 1))
delay_bounds_example =
    delay_bounds 3 2 9 5 product (λ n. n - 1) (λ n. 1) (omega arith) (omega arith)
      (λ n. omega arith) (inl (omega arith))

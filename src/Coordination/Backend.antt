-- ===== src/Coordination/Backend.antt =====
-- internal/coordination/backend/backend.go: the interface `Backend`, as far as the locks and the
-- leader election call it. A reply `none` is an error of the backend, after which the write may or
-- may not have been made. A write of a value with a time to live shows until that time is over.
use collaborative_programmin.Base.{
  ℕ, ◌+◌, ◌≤◌, ◌<◌, ◌∙◌, subst, arith, Bool-cases, ==_iff, ◌≡◌, ◌≢◌, ◌⊎◌, inl, inr, Bool, true,
  false, Option, none, some, ◌==◌, ltb, if◌then◌else◌,
}

-- What a key shows at time `t`, if a value was written at `now` with a time to live (0: for ever).
abbrev pub granted : ℕ → ℕ → ℕ → ℕ → Option ℕ
granted now v ttl t = if ttl == 0 then some v else if ltb t (now + ttl) then some v else none

abbrev pub gone : ℕ → Option ℕ
gone t = none

module _ {S : Type 0} (owner : ℕ → S → ℕ → Option ℕ) where
  -- From `now` on nothing is seen of the step from `s` to `s'`.
  abbrev pub Same : ℕ → S → S → Type 0
  Same now s s' = (j t : ℕ) → now ≤ t → owner t s' j ≡ owner t s j

  -- From `now` on the key shows `o`, and every other key what it showed.
  abbrev pub Wrote : ℕ → ℕ → (ℕ → Option ℕ) → S → S → Type 0
  Wrote now k o s s' = (j t : ℕ) → now ≤ t → owner t s' j ≡ (if k == j then o t else owner t s j)

  -- A conditional write: made if the key shows what `P` asks for, refused if not.
  abbrev pub Conditional :
      ℕ → ℕ → (Option ℕ → Type 0) → (ℕ → Option ℕ) → S → Option Bool × S → Type 0
  Conditional now k P o s r =
      ((r.0 ≢ some false) × P (owner now s k) × Wrote now k o s r.1)
      ⊎ ((r.0 ≢ some true) × (r.0 ≡ some false → ¬ P (owner now s k)) × Same now s r.1)

  -- A write that was reported, and a refusal that was reported.
  pub Conditional-true :
      (P : Option ℕ → Type 0) (o : ℕ → Option ℕ) (now k : ℕ) (s : S) (r : Option Bool × S)
      → r.0 ≡ some true
      → Conditional now k P o s r
      → P (owner now s k) × Wrote now k o s r.1
  Conditional-true P o now k s r e (inl (applied, was, wrote)) = (was, wrote)
  Conditional-true P o now k s r e (inr (kept, why, same)) = absurd (kept e)

  pub Conditional-false :
      (P : Option ℕ → Type 0) (o : ℕ → Option ℕ) (now k : ℕ) (s : S) (r : Option Bool × S)
      → r.0 ≡ some false
      → Conditional now k P o s r
      → ¬ P (owner now s k)
  Conditional-false P o now k s r e (inl (applied, was, wrote)) = absurd (applied e)
  Conditional-false P o now k s r e (inr (kept, why, same)) = why e

  -- Where the key does not show what is asked for, nothing is written.
  pub Conditional-refused :
      (P : Option ℕ → Type 0) (o : ℕ → Option ℕ) (now k : ℕ) (s : S) (r : Option Bool × S)
      → ¬ P (owner now s k)
      → Conditional now k P o s r
      → (r.0 ≢ some true) × Same now s r.1
  Conditional-refused P o now k s r no_match (inl (applied, was, wrote)) = absurd (no_match was)
  Conditional-refused P o now k s r no_match (inr (kept, why, same)) = (kept, same)

  -- From `now` until before `d` the key shows the token.
  abbrev pub Holds : ℕ → ℕ → ℕ → ℕ → S → Type 0
  Holds k token d now s = (t : ℕ) → now ≤ t → t < d → owner t s k ≡ some token

  pub conditional_keeps :
      (P : Option ℕ → Type 0) (o : ℕ → Option ℕ) (k token d now u k' : ℕ) (s : S)
      (r : Option Bool × S)
      → ¬ P (some token)
      → now ≤ u
      → Conditional u k' P o s r
      → Holds k token d now s
      → Holds k token d u r.1
  conditional_keeps P o k token d now u k' s r no_match le (inl (applied, was, wrote)) h t le' lt =
      elim (Bool-cases (k' == k)) [
        | inl same ↦
            let was_k : P (owner u s k) = subst (λ x. P (owner u s x)) ((==_iff k' k).0 same) was in
            absurd (no_match (subst P (h u le (omega arith)) was_k))
        | inr other ↦ wrote k t le' ∙ rw other (h t (omega arith) lt)
      ]
  conditional_keeps P o k token d now u k' s r no_match le (inr (kept, why, same)) h t le' lt =
      same k t le' ∙ h t (omega arith) lt

-- What `CompareAndSwap` asks of the key: the expected value, or that it is absent and "" expected.
abbrev pub Expected : ℕ → Option ℕ → Type 0
Expected v none = v ≡ 0
Expected v (some x) = x ≡ v

pub record Backend : Type 1 where
  pub Store : Type 0
  pub owner : ℕ → Store → ℕ → Option ℕ
  pub get : ℕ → ℕ → Store → Option (Option ℕ) × Store
  pub set_nx : ℕ → ℕ → ℕ → ℕ → Store → Option Bool × Store
  pub compare_and_swap : ℕ → ℕ → ℕ → ℕ → ℕ → Store → Option Bool × Store
  pub compare_and_delete : ℕ → ℕ → ℕ → Store → Option Bool × Store
  pub compare_and_expire : ℕ → ℕ → ℕ → ℕ → Store → Option Bool × Store
  pub get_reply :
      (now k : ℕ) (s : Store) (v : Option ℕ) → (get now k s).0 ≡ some v → v ≡ owner now s k
  pub get_same : (now k : ℕ) (s : Store) → Same owner now s (get now k s).1
  pub set_nx_lem :
      (now k v ttl : ℕ) (s : Store)
      → Conditional owner now k (λ o. o ≡ none) (granted now v ttl) s (set_nx now k v ttl s)
  pub compare_and_swap_lem :
      (now k old new ttl : ℕ) (s : Store)
      → Conditional owner now k
          (Expected old)
          (granted now new ttl)
          s
          (compare_and_swap now k old new ttl s)
  pub compare_and_delete_lem :
      (now k old : ℕ) (s : Store)
      → Conditional owner now k (λ o. o ≡ some old) gone s (compare_and_delete now k old s)
  pub compare_and_expire_lem :
      (now k old ttl : ℕ) (s : Store)
      → Conditional owner now k
          (λ o. o ≡ some old)
          (granted now old ttl)
          s
          (compare_and_expire now k old ttl s)

-- ===== src/Coordination/Locks/Exclusion.antt =====
-- Mutual exclusion of the locks, over every history of their calls.
use native.Mathlib.Nat.{le_refl}
use collaborative_programmin.Base.{
  ℕ, ◌+◌, ◌≤◌, ◌<◌, ◌≡◌, ◌≢◌, inl, inr, refl, Bool, true, false, List, [], ◌∷◌, Option, none, some,
  arith, Bool-cases, sym, ap,
}
use collaborative_programmin.Base.Dict.{lookup}
use collaborative_programmin.Coordination.Backend.{
  Backend, Wrote, granted, Holds, conditional_keeps, Conditional-true,
}
use collaborative_programmin.Coordination.Locks.{
  Options, Config, Lock, not_held, ok, resolve, new_lock, acquired, try_acquire, renew, release,
  valid_until,
}
use collaborative_programmin.Coordination.Locks.Fencing.{renew_owner}
use collaborative_programmin.Coordination.Locks.World.{
  World, Call, tries, renews, releases, step, renew_in, release_in, run, token_at, token_of, Avoids,
  elapsed,
}

acquired_ok :
    (l : Lock) (held : ℕ) (r : Option Bool) (l' : Lock)
    → (acquired l held r).0 ≡ ok l'
    → (r ≡ some true) × (l' ≡ l)
unfolding acquired
acquired_ok l held none l' e = cc
acquired_ok l held (some true) l' e = (refl, cc)
acquired_ok l held (some false) l' e = cc

module _ (b : Backend) (lock_key : ℕ → ℕ) (cfg : Config) where
  open b use {
    Store, owner, set_nx, set_nx_lem, compare_and_expire, compare_and_expire_lem,
    compare_and_delete, compare_and_delete_lem,
  }

  module _ (k token d now u : ℕ) (le : now ≤ u) where
    tries_keeps :
        (id resource other : ℕ) (opts : Option Options) (w : World Store)
        → other ≢ token
        → Holds owner k token d now w.store
        → Holds owner k token d u (step b lock_key cfg u (tries id resource other opts) w).store
    unfolding step try_acquire
    tries_keeps id resource other opts w ne h =
        conditional_keeps owner (λ o. o ≡ none) _ k token d now u (lock_key resource) w.store _
          (λ e. cc) le (set_nx_lem u (lock_key resource) other (resolve cfg opts).lease w.store) h

    renew_keeps :
        (id lease : ℕ) (o : Option Lock) (w : World Store)
        → token_at o ≢ some token
        → Holds owner k token d now w.store
        → Holds owner k token d u (renew_in b lock_key cfg u id lease o w).store
    unfolding renew_in renew
    renew_keeps id lease none w ne h = λ t le'. h t (omega arith)
    renew_keeps id lease (some l) w ne h = elim (Bool-cases l.released) [
      | inl e ↦ rw (e, renew) (λ t le'. h t (omega arith))
      | inr e ↦
          rw (e, renew)
            (conditional_keeps owner (λ o. o ≡ some l.token) _ k token d now u l.full_key w.store _
              (λ e. ne (sym e)) le (compare_and_expire_lem u l.full_key l.token _ w.store) h)
    ]

    release_keeps :
        (id : ℕ) (o : Option Lock) (w : World Store)
        → token_at o ≢ some token
        → Holds owner k token d now w.store
        → Holds owner k token d u (release_in b lock_key cfg u id o w).store
    unfolding release_in release
    release_keeps id none w ne h = λ t le'. h t (omega arith)
    release_keeps id (some l) w ne h = elim (Bool-cases l.released) [
      | inl e ↦ rw (e, release) (λ t le'. h t (omega arith))
      | inr e ↦
          rw (e, release)
            (conditional_keeps owner (λ o. o ≡ some l.token) _ k token d now u l.full_key w.store _
              (λ e. ne (sym e)) le (compare_and_delete_lem u l.full_key l.token w.store) h)
    ]

    step_keeps :
        (c : Call) (w : World Store)
        → token_of b lock_key cfg c w ≢ some token
        → Holds owner k token d now w.store
        → Holds owner k token d u (step b lock_key cfg u c w).store
    unfolding step
    step_keeps (tries id resource other opts) w ne h =
        tries_keeps id resource other opts w (λ e. ne (ap some e)) h
    step_keeps (renews id lease) w ne h = renew_keeps id lease (lookup id w.locks) w ne h
    step_keeps (releases id) w ne h = release_keeps id (lookup id w.locks) w ne h

  run_keeps :
      (k token d now : ℕ) (cs : List (ℕ × Call)) (w : World Store)
      → Avoids b lock_key cfg token now cs w
      → Holds owner k token d now w.store
      → Holds owner k token d (elapsed now cs) (run b lock_key cfg now cs w).store
  unfolding run
  run_keeps k token d now [] w av h = h
  run_keeps k token d now ((p, c) ∷ cs) w av h =
      run_keeps k token d (now + p) cs (step b lock_key cfg (now + p) c w) av.1
        (step_keeps k token d now (now + p) (omega arith) c w av.0 h)

  -- What a successful attempt was: the key was free, and shows the token until the lease is over.
  try_acquire_ok :
      (now at resource token : ℕ) (opts : Option Options) (held : ℕ) (s : Store) (l : Lock)
      → (try_acquire b lock_key cfg now at resource token opts held s).0 ≡ ok l
      → (owner now s (lock_key resource) ≡ none)
        × Wrote owner now
            (lock_key resource)
            (granted now token l.lease)
            s
            (try_acquire b lock_key cfg now at resource token opts held s).2
        × (l ≡ new_lock resource (lock_key resource) token (resolve cfg opts) at)
  unfolding try_acquire
  try_acquire_ok now at resource token opts held s l e =
      let (taken, same) = acquired_ok _ held _ l e in
      let (free, wrote) =
        Conditional-true owner (λ o. o ≡ none) _ now (lock_key resource) s _ taken
          (set_nx_lem now (lock_key resource) token (resolve cfg opts).lease s) in
      (free, rw same (unfold new_lock in wrote), same)

  try_acquire-Holds :
      (now at resource token : ℕ) (opts : Option Options) (held : ℕ) (s : Store) (l : Lock)
      → (try_acquire b lock_key cfg now at resource token opts held s).0 ≡ ok l
      → 0 < l.lease
      → Holds owner
          (lock_key resource)
          token
          (now + l.lease)
          now
          (try_acquire b lock_key cfg now at resource token opts held s).2
  try_acquire-Holds now at resource token opts held s l e pos t le lt =
      ground (arith, (try_acquire_ok now at resource token opts held s l e).1 (lock_key resource) t)

  -- The world with the store that an attempt leaves.
  abbrev pub tried : ℕ → ℕ → ℕ → ℕ → Option Options → Store → World Store → World Store
  tried now at resource token opts s w = record w {
    store = (try_acquire b lock_key cfg now at resource token opts w.held s).2;
  }

  -- An attempt on a resource succeeded with a positive lease, and the reply came no later after the
  -- backend's answer (at `now`) than the drift allows for. Then before `ValidUntil`, whatever history
  -- of attempts, renewals and releases with other tokens has followed, the store still shows the
  -- owner's token for the key, and no attempt on the resource succeeds.
  pub valid_until_owned :
      (now at resource token : ℕ) (opts : Option Options) (s : Store) (l : Lock) (drift : ℕ → ℕ)
      (w : World Store) (cs : List (ℕ × Call)) (at' other held' : ℕ) (opts' : Option Options)
      (l' : Lock)
      → (try_acquire b lock_key cfg now at resource token opts w.held s).0 ≡ ok l
      → 0 < l.lease
      → at ≤ now + drift l.lease
      → Avoids b lock_key cfg token now cs (tried now at resource token opts s w)
      → elapsed now cs < valid_until drift l
      → let later = run b lock_key cfg now cs (tried now at resource token opts s w) in
        (owner (elapsed now cs) later.store (lock_key resource) ≡ some token)
        × ((try_acquire b lock_key cfg
              (elapsed now cs)
              at'
              resource
              other
              opts'
              held'
              later.store).0
            ≢ ok l')
  valid_until_owned now at resource token opts s l drift w cs at' other held' opts' l' taken leased
        prompt foreign early =
      (
        still,
        λ e. cc (still, (try_acquire_ok (elapsed now cs) at' resource other opts' held' _ l' e).0),
      )
    where
      got_at : l.acquired_at ≡ at
      got_at =
          unfold new_lock in
          ap (λ (x : Lock). x.acquired_at)
            (try_acquire_ok now at resource token opts w.held s l taken).2

      in_time : elapsed now cs < now + l.lease
      in_time = unfold valid_until in omega (arith, got_at, prompt, early)

      still :
          owner
            (elapsed now cs)
            (run b lock_key cfg now cs (tried now at resource token opts s w)).store
            (lock_key resource)
          ≡ some token
      still =
          run_keeps (lock_key resource) token (now + l.lease) now cs _ foreign
            (try_acquire-Holds now at resource token opts w.held s l taken leased) (elapsed now cs)
            (le_refl _) in_time

  module _ (now id resource token : ℕ) (opts : Option Options) (w : World Store) (l : Lock)
      (taken : (try_acquire b lock_key cfg now now resource token opts w.held w.store).0 ≡ ok l)
      (leased : 0 < l.lease) (cs : List (ℕ × Call))
      (foreign : Avoids b lock_key cfg token now cs
        (step b lock_key cfg now (tries id resource token opts) w))
      (in_time : elapsed now cs < now + l.lease) where
    abbrev later : World Store
    later = run b lock_key cfg now cs (step b lock_key cfg now (tries id resource token opts) w)

    still_owner : owner (elapsed now cs) later.store (lock_key resource) ≡ some token
    unfolding step
    still_owner =
        run_keeps (lock_key resource) token (now + l.lease) now cs _ foreign
          (try_acquire-Holds now now resource token opts w.held w.store l taken leased)
          (elapsed now cs) (le_refl _) in_time

    -- After an attempt on a resource succeeded with a positive lease, as long as the lease lasts and
    -- whatever history of attempts, renewals and releases with other tokens has followed, no attempt
    -- on the resource succeeds: two owners never overlap.
    pub exclusive :
        (at other : ℕ) (opts' : Option Options) (held' : ℕ) (l' : Lock)
        → (try_acquire b lock_key cfg (elapsed now cs) at resource other opts' held' later.store).0
          ≢ ok l'
    exclusive at other opts' held' l' e = cc (
      still_owner,
      (try_acquire_ok (elapsed now cs) at resource other opts' held' later.store l' e).0,
    )

    -- After an attempt on a resource succeeded with a positive lease, as long as the lease lasts and
    -- whatever history of attempts, renewals and releases with other tokens has followed, the owner's
    -- renewal is never told that the lock is not held.
    pub owner_renews :
        (at lease : ℕ)
        → (renew b lock_key cfg (elapsed now cs) at lease l later.store).0 ≢ some not_held
    unfolding new_lock
    owner_renews at lease =
        renew_owner b lock_key cfg (elapsed now cs) at lease l later.store (rw l_is)
          (rw l_is still_owner)
      where
        l_is : l ≡ new_lock resource (lock_key resource) token (resolve cfg opts) now
        l_is = (try_acquire_ok now now resource token opts w.held w.store l taken).2

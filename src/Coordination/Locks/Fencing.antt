-- ===== src/Coordination/Locks/Fencing.antt =====
-- Token fencing: what `Renew` and `Release` do to a lock that is, and one that is no longer, the
-- owner of its key.
use collaborative_programmin.Base.{
  ℕ, ◌-◌, ◌≡◌, ◌≢◌, refl, Bool, true, false, Option, none, some, arith, if◌then◌else◌, ◌==◌,
}
use collaborative_programmin.Coordination.Backend.{
  Backend, Same, Wrote, granted, gone, Conditional-true, Conditional-false, Conditional-refused,
}
use collaborative_programmin.Coordination.Locks.{
  Config, Lock, not_held, renewed, released_with, renew, release,
}

renewed_held :
    (l : Lock) (lease at : ℕ) (r : Option Bool)
    → r ≢ some false
    → (renewed l lease at r).0 ≢ some not_held
unfolding renewed
renewed_held l lease at none ne = λ e. cc
renewed_held l lease at (some true) ne = λ e. cc
renewed_held l lease at (some false) ne = λ e. ne refl

renewed_failed :
    (l : Lock) (lease at : ℕ) (r : Option Bool) → r ≢ some true → (renewed l lease at r).0 ≢ none
unfolding renewed
renewed_failed l lease at none ne = λ e. cc
renewed_failed l lease at (some true) ne = λ e. ne refl
renewed_failed l lease at (some false) ne = λ e. cc

released_failed : (r : Option Bool) → r ≢ some true → released_with r ≢ none
unfolding released_with
released_failed none ne = λ e. cc
released_failed (some true) ne = λ e. ne refl
released_failed (some false) ne = λ e. cc

renewed_done :
    (l : Lock) (lease at : ℕ) (r : Option Bool)
    → (renewed l lease at r).0 ≡ none
    → (r ≡ some true) × ((renewed l lease at r).1 ≡ record l { lease = lease; acquired_at = at })
unfolding renewed
renewed_done l lease at none e = cc
renewed_done l lease at (some true) e = (refl, refl)
renewed_done l lease at (some false) e = cc

released_done : (r : Option Bool) → released_with r ≡ none → r ≡ some true
unfolding released_with
released_done none e = cc
released_done (some true) e = refl
released_done (some false) e = cc

module _ (b : Backend) (lock_key : ℕ → ℕ) (cfg : Config) where
  open b use {
    Store, owner, compare_and_expire, compare_and_delete, compare_and_expire_lem,
    compare_and_delete_lem,
  }

  -- What the two do for a lock that was not released.
  renew_live :
      (now at lease : ℕ) (l : Lock) (s : Store)
      → l.released ≡ false
      → let lease' = if lease == 0 then l.lease else lease in
        let (r, s') = compare_and_expire now l.full_key l.token lease' s in
        let (e, l') = renewed l lease' at r in renew b lock_key cfg now at lease l s ≡ (e, l', s')
  unfolding renew
  renew_live now at lease l s live = ground arith

  release_live :
      (now held : ℕ) (l : Lock) (s : Store)
      → l.released ≡ false
      → let (r, s') = compare_and_delete now l.full_key l.token s in
        release b lock_key cfg now held l s
        ≡ (released_with r, record l { released = true }, held - 1, s')
  unfolding release
  release_live now held l s live = ground arith

  -- The owner's renewal is never refused.
  pub renew_owner :
      (now at lease : ℕ) (l : Lock) (s : Store)
      → l.released ≡ false
      → owner now s l.full_key ≡ some l.token
      → (renew b lock_key cfg now at lease l s).0 ≢ some not_held
  renew_owner now at lease l s live own =
      let lease' = if lease == 0 then l.lease else lease in
      rw (renew_live now at lease l s live) (
        renewed_held l lease' at _ λ e.
          Conditional-false owner (λ o. o ≡ some l.token) _ now l.full_key s _ e
            (compare_and_expire_lem now l.full_key l.token lease' s) own)

  -- A lock not yet released whose key no longer shows its token can neither renew nor release: both fail, and nobody
  -- sees a change in the store, whoever has the key now.
  pub stale_harmless :
      (now at lease held : ℕ) (l : Lock) (s : Store)
      → l.released ≡ false
      → owner now s l.full_key ≢ some l.token
      → ((renew b lock_key cfg now at lease l s).0 ≢ none)
        × Same owner now s (renew b lock_key cfg now at lease l s).2
        × ((release b lock_key cfg now held l s).0 ≢ none)
        × Same owner now s (release b lock_key cfg now held l s).3
  stale_harmless now at lease held l s live stale =
      let lease' = if lease == 0 then l.lease else lease in
      let (no_renew, same) =
        Conditional-refused owner (λ o. o ≡ some l.token) _ now l.full_key s _ stale
          (compare_and_expire_lem now l.full_key l.token lease' s) in
      let (no_release, same') =
        Conditional-refused owner (λ o. o ≡ some l.token) _ now l.full_key s _ stale
          (compare_and_delete_lem now l.full_key l.token s) in
      rw (renew_live now at lease l s live, release_live now held l s live)
        (renewed_failed l lease' at _ no_renew, same, released_failed _ no_release, same')

  -- A renewal of a lock not yet released that reports no error was the owner's: the key showed the
  -- lock's token, and afterwards shows it for the lock's new lease, and no other key's view changed.
  pub renew_ok :
      (now at lease : ℕ) (l : Lock) (s : Store)
      → l.released ≡ false
      → (renew b lock_key cfg now at lease l s).0 ≡ none
      → (owner now s l.full_key ≡ some l.token)
        × Wrote owner now l.full_key
            (granted now l.token (renew b lock_key cfg now at lease l s).1.lease)
            s
            (renew b lock_key cfg now at lease l s).2
  renew_ok now at lease l s live =
      let lease' = if lease == 0 then l.lease else lease in
      rw (renew_live now at lease l s live) λ e.
        let (done, is) = renewed_done l lease' at _ e in
        let (was, wrote) =
          Conditional-true owner (λ o. o ≡ some l.token) _ now l.full_key s _ done
            (compare_and_expire_lem now l.full_key l.token lease' s) in
        (was, rw is wrote)

  -- A release of a lock not yet released that reports no error was the owner's: the key showed the
  -- lock's token, afterwards it has no owner, and no other key's view changed.
  pub release_ok :
      (now held : ℕ) (l : Lock) (s : Store)
      → l.released ≡ false
      → (release b lock_key cfg now held l s).0 ≡ none
      → (owner now s l.full_key ≡ some l.token)
        × Wrote owner now l.full_key gone s (release b lock_key cfg now held l s).3
  release_ok now held l s live = rw (release_live now held l s live) λ e.
      Conditional-true owner (λ o. o ≡ some l.token) _ now l.full_key s _ (released_done _ e)
        (compare_and_delete_lem now l.full_key l.token s)

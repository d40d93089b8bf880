-- ===== src/Coordination/Leader/Safety.antt =====
-- At most one leader for each lease that the store grants.
use native.Mathlib.Nat.{le_refl}
use collaborative_programmin.Base.{
  ℕ, ◌≤◌, ◌≡◌, ◌≢◌, sym, ◌∙◌, Bool, true, false, Option, none, some, arith, Bool-cases, inl, inr,
}
use collaborative_programmin.Coordination.Backend.{Backend, Expected, Holds, conditional_keeps}
use collaborative_programmin.Coordination.Leader.{
  Config, Election, Op, ticks, shuts, resigns, transfers, campaign, confirm, campaign_end,
  campaign_tick, renew_end, renew_tick, tick, shut_down, resign_end, resign, transfer_end, transfer,
  act, asks, leader,
}

module _ (b : Backend) (leader_key : ℕ → ℕ) where
  open b use {
    Store, owner, get, get_same, get_reply, set_nx, set_nx_lem, compare_and_expire,
    compare_and_expire_lem, compare_and_delete_lem, compare_and_swap_lem,
  }

  -- What another candidate does leaves the holder's key alone.
  module _ (k id d now u : ℕ) (le : now ≤ u) (s : Store) (h : Holds owner k id d now s) where
    later : Holds owner k id d u s
    later t le' lt = h t (omega arith) lt

    get_keeps : (k' : ℕ) → Holds owner k id d u (get u k' s).1
    get_keeps k' t le' lt = get_same u k' s k t le' ∙ h t (omega arith) lt

    nx_keeps : (k' v ttl : ℕ) → Holds owner k id d u (set_nx u k' v ttl s).1
    nx_keeps k' v ttl =
        conditional_keeps owner (λ o. o ≡ none) _ k id d now u k' s _ (λ e. cc) le
          (set_nx_lem u k' v ttl s) h

    renew_keeps :
        (k' v ttl : ℕ) → v ≢ id → Holds owner k id d u (b.compare_and_expire u k' v ttl s).1
    renew_keeps k' v ttl ne =
        conditional_keeps owner (λ o. o ≡ some v) _ k id d now u k' s _ (λ e. ne (cc)) le
          (compare_and_expire_lem u k' v ttl s) h

    resign_keeps : (k' v : ℕ) → v ≢ id → Holds owner k id d u (b.compare_and_delete u k' v s).1
    resign_keeps k' v ne =
        conditional_keeps owner (λ o. o ≡ some v) _ k id d now u k' s _ (λ e. ne (cc)) le
          (compare_and_delete_lem u k' v s) h

    transfer_keeps :
        (k' v to ttl : ℕ) → v ≢ id → Holds owner k id d u (b.compare_and_swap u k' v to ttl s).1
    transfer_keeps k' v to ttl ne =
        conditional_keeps owner (Expected v) _ k id d now u k' s _ (λ e. ne (sym e)) le
          (compare_and_swap_lem u k' v to ttl s) h

  module _ (k id d u : ℕ) where
    confirm_keeps :
        (k' v : ℕ) (r : Option Bool × Store)
        → Holds owner k id d u r.1
        → Holds owner k id d u (confirm b leader_key u k' v r).1
    unfolding confirm
    confirm_keeps k' v (none, s) h = h
    confirm_keeps k' v (some true, s) h = h
    confirm_keeps k' v (some false, s) h = get_keeps k id d u u (le_refl u) s h k'

    campaign_end_keeps :
        (cfg : Config) (e : Election) (r : Option Bool × Store)
        → Holds owner k id d u r.1
        → Holds owner k id d u (campaign_end b leader_key u cfg e r).2
    unfolding campaign_end
    campaign_end_keeps cfg e (none, s) h = h
    campaign_end_keeps cfg e (some true, s) h = h
    campaign_end_keeps cfg e (some false, s) h =
        get_keeps k id d u u (le_refl u) s h (leader_key e.scope)

    renew_end_keeps :
        (cfg : Config) (e : Election) (r : Option Bool × Store)
        → Holds owner k id d u r.1
        → Holds owner k id d u (renew_end b leader_key cfg e r).2
    unfolding renew_end
    renew_end_keeps cfg e (none, s) h = h
    renew_end_keeps cfg e (some true, s) h = h
    renew_end_keeps cfg e (some false, s) h = h

    resign_end_keeps :
        (e : Election) (r : Option Bool × Store)
        → Holds owner k id d u r.1
        → Holds owner k id d u (resign_end b leader_key e r).2
    unfolding resign_end
    resign_end_keeps e (none, s) h = h
    resign_end_keeps e (some r, s) h = h

    transfer_end_keeps :
        (e : Election) (r : Option Bool × Store)
        → Holds owner k id d u r.1
        → Holds owner k id d u (transfer_end b leader_key e r).2
    unfolding transfer_end
    transfer_end_keeps e (none, s) h = h
    transfer_end_keeps e (some true, s) h = h
    transfer_end_keeps e (some false, s) h = h

  campaign_keeps :
      (k id d now u scope v lease : ℕ) (s : Store)
      → now ≤ u
      → Holds owner k id d now s
      → Holds owner k id d u (campaign b leader_key u scope v lease s).1
  unfolding campaign
  campaign_keeps k id d now u scope v lease s le h =
      confirm_keeps k id d u (leader_key scope) v _
        (nx_keeps k id d now u le s h (leader_key scope) v lease)

  -- Nothing that another candidate does takes the key from its holder before the lease is over.
  pub act_keeps :
      (k id d now u : ℕ) (cfg : Config) (op : Op) (e : Election) (s : Store)
      → now ≤ u
      → e.candidate ≢ id
      → Holds owner k id d now s
      → Holds owner k id d u (act b leader_key u cfg op e s).1
  unfolding act tick shut_down leader resign transfer renew_tick campaign_tick
  act_keeps k id d now u cfg ticks e s le ne h = elim (Bool-cases e.is_leader) [
    | inl t ↦ simp t (
        renew_end_keeps k id d u cfg e _
          (renew_keeps k id d now u le s h (leader_key e.scope) e.candidate cfg.lease ne))
    | inr f ↦ simp f (
        campaign_end_keeps k id d u cfg e _
          (campaign_keeps k id d now u e.scope e.candidate cfg.lease s le h))
  ]
  act_keeps k id d now u cfg shuts e s le ne h = elim (Bool-cases e.is_leader) [
    | inl t ↦ simp t (resign_keeps k id d now u le s h (leader_key e.scope) e.candidate ne)
    | inr f ↦ simp f (later k id d now u le s h)
  ]
  act_keeps k id d now u cfg asks e s le ne h = get_keeps k id d now u le s h (leader_key e.scope)
  act_keeps k id d now u cfg resigns e s le ne h = elim (Bool-cases e.is_leader) [
    | inl t ↦ simp t (
        resign_end_keeps k id d u e _
          (resign_keeps k id d now u le s h (leader_key e.scope) e.candidate ne))
    | inr f ↦ simp f (later k id d now u le s h)
  ]
  act_keeps k id d now u cfg (transfers to) e s le ne h = elim (Bool-cases e.is_leader) [
    | inl t ↦ simp t (
        transfer_end_keeps k id d u e _
          (transfer_keeps k id d now u le s h (leader_key e.scope) e.candidate to cfg.lease ne))
    | inr f ↦ simp f (later k id d now u le s h)
  ]

-- ===== src/Coordination/Leader/Sole.antt =====
-- One leader at a time, over every history of a cluster.
use native.Mathlib.Nat.{le_refl}
use collaborative_programmin.Base.{
  ℕ, ◌+◌, ◌<◌, ◌≡◌, ◌≢◌, refl, sym, ap, ◌∙◌, Bool, true, false, List, [], ◌∷◌, Option, none, some,
  arith, ◌⊎◌, Bool-cases, inl, inr,
}
use collaborative_programmin.Base.Dict.{lookup}
use collaborative_programmin.Coordination.Backend.{
  Backend, Wrote, granted as granted_at, Holds, Conditional-true, Conditional-refused,
}
use collaborative_programmin.Coordination.Leader.{
  Config, Election, Op, elector_renew, names, transition_lost, campaign, confirm, campaign_end,
  campaign_tick, renew_end, renew_tick, tick, observe,
}
use collaborative_programmin.Coordination.Leader.Safety.{act_keeps}
use collaborative_programmin.Coordination.Leader.Cluster.{
  Cluster, step_of, step, run, candidate_at, Avoids, elapsed,
}

names-true : (v : ℕ) (g : Option (Option ℕ)) → names v g ≡ some true → g ≡ some (some v)
names-true v none e = cc
names-true v (some none) e = cc
names-true v (some (some x)) e = ground arith

module _ (b : Backend) (leader_key : ℕ → ℕ) (cfg : Config) where
  open b use {Store, owner, get, get_same, get_reply, set_nx, set_nx_lem, compare_and_expire_lem}

  run_keeps :
      (k id d now : ℕ) (hs : List (ℕ × ℕ × Op)) (c : Cluster Store)
      → Avoids b leader_key cfg id now hs c
      → Holds owner k id d now c.store
      → Holds owner k id d (elapsed now hs) (run b leader_key cfg now hs c).store
  unfolding run step_of
  run_keeps k id d now [] c av h = h
  run_keeps k id d now ((p, m, op) ∷ hs) c av h =
      run_keeps k id d (now + p) hs (step b leader_key cfg (now + p) (m, op) c) av.1
        (unfold step step_of in go (lookup m c.members) av.0)
    where
      go :
          (o : Option Election)
          → candidate_at o ≢ some id
          → Holds owner k id d (now + p) (step_of b leader_key cfg (now + p) m op o c).store
      go none ne = λ t le lt. h t (omega arith) lt
      go (some e) ne =
          act_keeps b leader_key k id d now (now + p) cfg op e c.store (omega arith)
            (λ q. ne (ap some q)) h

  confirm_named :
      (u k v w : ℕ) (r : Option Bool × Store)
      → r.0 ≢ some true
      → owner u r.1 k ≡ some w
      → (confirm b leader_key u k v r).0 ≡ some true
      → w ≡ v
  unfolding confirm
  confirm_named u k v w (none, s) ne own won = cc
  confirm_named u k v w (some true, s) ne own won = absurd (ne refl)
  confirm_named u k v w (some false, s) ne own won =
      cc (get_reply u k s (some v) (names-true v (get u k s).0 won), own)

  -- Where the key names another, no campaign is won.
  campaign_named :
      (u scope v lease w : ℕ) (s : Store)
      → owner u s (leader_key scope) ≡ some w
      → (campaign b leader_key u scope v lease s).0 ≡ some true
      → w ≡ v
  unfolding campaign
  campaign_named u scope v lease w s own won =
      let (ne, same) =
        Conditional-refused owner (λ o. o ≡ none) _ u (leader_key scope) s _ (λ e. cc)
          (set_nx_lem u (leader_key scope) v lease s) in
      confirm_named u (leader_key scope) v w _ ne (same (leader_key scope) u (le_refl u) ∙ own) won

  campaign_end_led :
      (u : ℕ) (e : Election) (r : Option Bool × Store)
      → e.is_leader ≡ false
      → (campaign_end b leader_key u cfg e r).1.is_leader ≡ true
      → r.0 ≡ some true
  unfolding campaign_end observe
  campaign_end_led u e (none, s) f l = cc
  campaign_end_led u e (some true, s) f l = refl
  campaign_end_led u e (some false, s) f l = ground arith

  renew_end_led :
      (e : Election) (r : Option Bool × Store)
      → e.is_leader ≡ true
      → r.0 ≢ some true
      → (renew_end b leader_key cfg e r).1.is_leader ≡ true
      → r.0 ≡ none
  unfolding renew_end transition_lost
  renew_end_led e (none, s) t ne l = refl
  renew_end_led e (some true, s) t ne l = absurd (ne refl)
  renew_end_led e (some false, s) t ne l = ground arith

  -- While the key names another candidate, an election leads after its turn only if it led before
  -- and the backend failed.
  outsider_led :
      (u w : ℕ) (e : Election) (s : Store)
      → owner u s (leader_key e.scope) ≡ some w
      → e.candidate ≢ w
      → (tick b leader_key u cfg e s).1.is_leader ≡ true
      → (e.is_leader ≡ true)
        × ((elector_renew b leader_key u e.scope e.candidate cfg.lease s).0 ≡ none)
  unfolding tick renew_tick campaign_tick
  outsider_led u w e s own ne led = elim (Bool-cases e.is_leader) [
    | inl t ↦ (
      t,
      renew_end_led e _ t
          (Conditional-refused owner (λ o. o ≡ some e.candidate) _ u (leader_key e.scope) s _
            (λ q. ne (cc))
            (compare_and_expire_lem u (leader_key e.scope) e.candidate cfg.lease s)).0
          (simp t at led),
    )
    | inr f ↦ absurd (
        ne (
          sym (
            campaign_named u e.scope e.candidate cfg.lease w s own
              (campaign_end_led u e _ f (simp f at led)))))
  ]

  -- After a candidate's renewal was granted with a positive lease, for as long as the lease lasts and
  -- after any history of turns, shutdowns, queries, resignations and transfers of other candidates,
  -- another candidate of the scope is not the leader after its turn, unless it held itself to be one
  -- before and the backend failed on its renewal.
  pub sole_leader :
      (now scope id : ℕ) (before s : Store) (c : Cluster Store) (hs : List (ℕ × ℕ × Op))
      (e : Election)
      → 0 < cfg.lease
      → elector_renew b leader_key now scope id cfg.lease before ≡ (some true, c.store)
      → Avoids b leader_key cfg id now hs c
      → elapsed now hs < now + cfg.lease
      → s ≡ (run b leader_key cfg now hs c).store
      → e.scope ≡ scope
      → e.candidate ≢ id
      → ((tick b leader_key (elapsed now hs) cfg e s).1.is_leader ≡ false)
        ⊎ ((e.is_leader ≡ true)
            × ((elector_renew b leader_key (elapsed now hs) e.scope e.candidate cfg.lease s).0
                ≡ none))
  sole_leader now scope id before s c hs e pos granted av lt is_s is_scope ne =
      elim (Bool-cases (tick b leader_key (elapsed now hs) cfg e s).1.is_leader) [
        | inl leads ↦ inr (
            outsider_led (elapsed now hs) id e s
              (rw (is_s, is_scope)
                (run_keeps (leader_key scope) id (now + cfg.lease) now hs c av holds
                  (elapsed now hs) (le_refl _) lt))
              ne leads)
        | inr not_leading ↦ inl not_leading
      ]
    where
      wrote : Wrote owner now (leader_key scope) (granted_at now id cfg.lease) before c.store
      wrote =
          rw granted at
            (Conditional-true owner (λ o. o ≡ some id) _ now (leader_key scope) before _
              (ap (λ r. r.0) granted)
              (compare_and_expire_lem now (leader_key scope) id cfg.lease before)).1

      holds : Holds owner (leader_key scope) id (now + cfg.lease) now c.store
      holds t le' lt' = ground (arith, wrote (leader_key scope) t le')

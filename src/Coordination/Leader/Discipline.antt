-- ===== src/Coordination/Leader/Discipline.antt =====
-- The callbacks of one election, over every life that it can have.
use collaborative_programmin.Base.{
  ℕ, Bool, true, false, List, [], ◌∷◌, Option, none, some, arith, Bool-cases, inl, inr,
}
use collaborative_programmin.Coordination.Backend.{Backend}
use collaborative_programmin.Coordination.Leader.{
  Config, Election, Op, ticks, shuts, resigns, transfers, act, life, renew_failed, shutdown,
  resigned, transferred, Fired, elected, lost, Reason, new_election, transition_won,
  transition_lost, campaign_end, campaign_tick, observe, renew_end, renew_tick, tick, shut_down,
  resign_end, resign, transfer_end, transfer, asks, leader,
}

-- Elections and losses in turn, newest first; the flag says whether an election comes first.
abbrev pub Alternates : Bool → List Fired → Type 0
Alternates false [] = Unit
Alternates true [] = ⊥
Alternates true (elected ∷ fs) = Alternates false fs
Alternates true (lost r ∷ fs) = ⊥
Alternates false (elected ∷ fs) = ⊥
Alternates false (lost r ∷ fs) = Alternates true fs

pub record IsTidy (e : Election) : Type 0 where
  pub in_turn : Alternates e.is_leader e.fired

won-IsTidy : (e : Election) → IsTidy e → IsTidy (transition_won e)
unfolding transition_won
won-IsTidy e h = ground arith

lost-IsTidy : (r : Reason) (e : Election) → IsTidy e → IsTidy (transition_lost r e)
unfolding transition_lost
lost-IsTidy r e h = ground arith

observe-IsTidy : (v : Option (Option ℕ)) (e : Election) → IsTidy e → IsTidy (observe v e)
unfolding observe
observe-IsTidy none e h = h
observe-IsTidy (some none) e h = h
observe-IsTidy (some (some v)) e h = record { in_turn = h.in_turn }

module _ (b : Backend) (leader_key : ℕ → ℕ) where
  open b use {Store, get}

  campaign_end-IsTidy :
      (now : ℕ) (cfg : Config) (e : Election) (r : Option Bool × Store)
      → IsTidy e
      → IsTidy (campaign_end b leader_key now cfg e r).1
  unfolding campaign_end
  campaign_end-IsTidy now cfg e (none, s) h = h
  campaign_end-IsTidy now cfg e (some true, s) h = won-IsTidy e h
  campaign_end-IsTidy now cfg e (some false, s) h =
      observe-IsTidy (get now (leader_key e.scope) s).0 e h

  renew_end-IsTidy :
      (cfg : Config) (e : Election) (r : Option Bool × Store)
      → IsTidy e
      → IsTidy (renew_end b leader_key cfg e r).1
  unfolding renew_end
  renew_end-IsTidy cfg e (none, s) h = h
  renew_end-IsTidy cfg e (some true, s) h = h
  renew_end-IsTidy cfg e (some false, s) h = lost-IsTidy renew_failed e h

  resign_end-IsTidy :
      (e : Election) (r : Option Bool × Store) → IsTidy e → IsTidy (resign_end b leader_key e r).1
  unfolding resign_end
  resign_end-IsTidy e (none, s) h = h
  resign_end-IsTidy e (some r, s) h = lost-IsTidy resigned e h

  transfer_end-IsTidy :
      (e : Election) (r : Option Bool × Store) → IsTidy e → IsTidy (transfer_end b leader_key e r).1
  unfolding transfer_end
  transfer_end-IsTidy e (none, s) h = h
  transfer_end-IsTidy e (some true, s) h = lost-IsTidy transferred e h
  transfer_end-IsTidy e (some false, s) h = h

  act-IsTidy :
      (now : ℕ) (cfg : Config) (op : Op) (e : Election) (s : Store)
      → IsTidy e
      → IsTidy (act b leader_key now cfg op e s).0
  unfolding act tick shut_down leader resign transfer renew_tick campaign_tick
  act-IsTidy now cfg ticks e s h = elim (Bool-cases e.is_leader) [
    | inl t ↦ simp t (renew_end-IsTidy cfg e _ h)
    | inr f ↦ simp f (campaign_end-IsTidy now cfg e _ h)
  ]
  act-IsTidy now cfg shuts e s h = elim (Bool-cases e.is_leader) [
    | inl t ↦ simp t (lost-IsTidy shutdown e h)
    | inr f ↦ simp f h
  ]
  act-IsTidy now cfg asks e s h = observe-IsTidy (get now (leader_key e.scope) s).0 e h
  act-IsTidy now cfg resigns e s h = elim (Bool-cases e.is_leader) [
    | inl t ↦ simp t (resign_end-IsTidy e _ h)
    | inr f ↦ simp f h
  ]
  act-IsTidy now cfg (transfers to) e s h = elim (Bool-cases e.is_leader) [
    | inl t ↦ simp t (transfer_end-IsTidy e _ h)
    | inr f ↦ simp f h
  ]

  life-IsTidy :
      (cfg : Config) (ts : List ((Store → Store) × ℕ × Op)) (e : Election) (s : Store)
      → IsTidy e
      → IsTidy (life b leader_key cfg ts e s).0
  unfolding life
  life-IsTidy cfg [] e s h = h
  life-IsTidy cfg ((others, now, op) ∷ ts) e s h =
      let (e', s') = act b leader_key now cfg op e (others s) in
      life-IsTidy cfg ts e' s' (act-IsTidy now cfg op e (others s) h)

  -- Whatever the backend answers and others write, if no two of a candidate's turns and calls
  -- (shutdown, `Leader`, `Resign`, `Transfer`) overlap, the candidate is told of elections and losses
  -- strictly in turn, the first time of an election, and `IsLeader` says which came last.
  pub life-new-IsTidy :
      (scope candidate : ℕ) (cfg : Config) (ts : List ((Store → Store) × ℕ × Op)) (s : Store)
      → IsTidy (life b leader_key cfg ts (new_election scope candidate) s).0
  life-new-IsTidy scope candidate cfg ts s =
      life-IsTidy cfg ts _ s (unfold new_election in record { in_turn = tt })

-- ===== src/Coordination/Leader/Cluster.antt =====
-- The elections of a cluster over one store, and the histories of what happens to them.
use collaborative_programmin.Base.{ℕ, ◌+◌, ◌≢◌, List, [], ◌∷◌, Option, none, some}
use collaborative_programmin.Base.Dict.{Dict, lookup, insert}
use collaborative_programmin.Coordination.Backend.{Backend}
use collaborative_programmin.Coordination.Leader.{Config, Election, Op, act}

pub record Cluster (S : Type 0) : Type 0 where
  pub members : Dict Election
  pub store : S

abbrev pub candidate_at : Option Election → Option ℕ
candidate_at none = none
candidate_at (some e) = some e.candidate

module _ (b : Backend) (leader_key : ℕ → ℕ) (cfg : Config) where
  open b use {Store}

  unfoldable pub step_of : ℕ → ℕ → Op → Option Election → Cluster Store → Cluster Store
  step_of now id op none c = c
  step_of now id op (some e) c =
      let (e', s') = act b leader_key now cfg op e c.store in
      record { members = insert id e' c.members; store = s' }

  unfoldable pub step : ℕ → ℕ × Op → Cluster Store → Cluster Store
  step now (id, op) c = step_of now id op (lookup id c.members) c

  -- Each event comes after the time that has passed since the one before.
  unfoldable pub run : ℕ → List (ℕ × ℕ × Op) → Cluster Store → Cluster Store
  run now [] c = c
  run now ((p, id, op) ∷ hs) c = run (now + p) hs (step (now + p) (id, op) c)

  -- Nothing in the history happens to an election of this candidate.
  abbrev pub Avoids : ℕ → ℕ → List (ℕ × ℕ × Op) → Cluster Store → Type 0
  Avoids candidate now [] c = Unit
  Avoids candidate now ((p, id, op) ∷ hs) c =
      (candidate_at (lookup id c.members) ≢ some candidate)
      × Avoids candidate (now + p) hs (step (now + p) (id, op) c)

abbrev pub elapsed : ℕ → List (ℕ × ℕ × Op) → ℕ
elapsed now [] = now
elapsed now ((p, id, op) ∷ hs) = elapsed (now + p) hs

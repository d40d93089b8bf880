-- ===== src/Coordination/Locks/World.antt =====
-- The locks of a cluster: those that were handed out, their count and the one store behind them.
-- The calls of internal/coordination/locks/locks.go on them, as steps of a history.
use collaborative_programmin.Base.{ℕ, ◌+◌, ◌≢◌, List, [], ◌∷◌, Option, none, some}
use collaborative_programmin.Base.Dict.{Dict, lookup, insert}
use collaborative_programmin.Coordination.Backend.{Backend}
use collaborative_programmin.Coordination.Locks.{
  Options, Config, Lock, Result, ok, err, try_acquire, renew, release,
}

pub record World (S : Type 0) : Type 0 where
  pub locks : Dict Lock
  pub held : ℕ
  pub store : S

-- An attempt on a resource with a token, whose lock gets the name `id`; a renewal; a release.
pub data Call : Type 0 where
  tries : (id resource token : ℕ) → Option Options → Call
  renews : (id lease : ℕ) → Call
  releases : (id : ℕ) → Call

abbrev pub token_at : Option Lock → Option ℕ
token_at none = none
token_at (some l) = some l.token

module _ (b : Backend) (lock_key : ℕ → ℕ) (cfg : Config) where
  open b use {Store}

  unfoldable pub keep : ℕ → Result Lock → Dict Lock → Dict Lock
  keep id (ok l) ls = insert id l ls
  keep id (err e) ls = ls

  unfoldable pub renew_in : ℕ → ℕ → ℕ → Option Lock → World Store → World Store
  renew_in now id lease none w = w
  renew_in now id lease (some l) w =
      let (e, l', s') = renew b lock_key cfg now now lease l w.store in
      record w { locks = insert id l' w.locks; store = s' }

  unfoldable pub release_in : ℕ → ℕ → Option Lock → World Store → World Store
  release_in now id none w = w
  release_in now id (some l) w =
      let (e, l', held', s') = release b lock_key cfg now w.held l w.store in
      record { locks = insert id l' w.locks; held = held'; store = s' }

  unfoldable pub step : ℕ → Call → World Store → World Store
  unfolding keep renew_in release_in
  step now (tries id resource token opts) w =
      let (r, held', s') = try_acquire b lock_key cfg now now resource token opts w.held w.store in
      record { locks = keep id r w.locks; held = held'; store = s' }
  step now (renews id lease) w = renew_in now id lease (lookup id w.locks) w
  step now (releases id) w = release_in now id (lookup id w.locks) w

  -- A history of calls, each after the time that has passed since the one before.
  unfoldable pub run : ℕ → List (ℕ × Call) → World Store → World Store
  run now [] w = w
  run now ((d, c) ∷ cs) w = run (now + d) cs (step (now + d) c w)

  -- The token with which a call goes to the backend.
  abbrev pub token_of : Call → World Store → Option ℕ
  token_of (tries id resource token opts) w = some token
  token_of (renews id lease) w = token_at (lookup id w.locks)
  token_of (releases id) w = token_at (lookup id w.locks)

  -- No call of the history goes to the backend with this token.
  abbrev pub Avoids : ℕ → ℕ → List (ℕ × Call) → World Store → Type 0
  Avoids token now [] w = Unit
  Avoids token now ((d, c) ∷ cs) w =
      (token_of c w ≢ some token) × Avoids token (now + d) cs (step (now + d) c w)

abbrev pub elapsed : ℕ → List (ℕ × Call) → ℕ
elapsed now [] = now
elapsed now ((d, c) ∷ cs) = elapsed (now + d) cs

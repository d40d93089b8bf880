-- ===== src/Coordination/Locks/Acquire.antt =====
-- `Acquire` of internal/coordination/locks/locks.go: attempts in a loop, until one succeeds, the
-- deadline is past, the backend fails or the context is done. What the loop meets is a list of
-- rounds; `none` says that the rounds were over while it still waited.
use collaborative_programmin.Base.{
  ℕ, ◌+◌, ◌<◌, ◌≢◌, ◌⊎◌, Bool, true, false, ◌||◌, List, [], ◌∷◌, Option, none, some, arith, ◌==◌,
  ltb, if◌then◌else◌,
}
use collaborative_programmin.Coordination.Backend.{Backend}
use collaborative_programmin.Coordination.Locks.{
  Options, Config, Lock, Error, not_acquired, cancelled, Result, err, resolve, new_lock, acquired,
}

-- One turn: what others did to the store before it, the clock at the backend's answer, at the reply
-- and at the test of the deadline, and whether the context is done before the next attempt.
pub record Round (S : Type 0) : Type 0 where
  pub others : S → S
  pub at_call : ℕ
  pub at_reply : ℕ
  pub at_check : ℕ
  pub done : Bool

module _ (b : Backend) (lock_key : ℕ → ℕ) (cfg : Config) where
  open b use {Store, owner, set_nx, set_nx_lem}

  attempt : ℕ → ℕ → Options → Round Store → Store → Option Bool × Store
  attempt key token o r s = set_nx r.at_call key token o.lease (r.others s)

  -- A refused attempt: the error with which the loop ends, or `none` to go on.
  refused : ℕ → ℕ → Round Store → Option Error
  refused timeout deadline r =
      if timeout == 0 || ltb deadline r.at_check
      then some not_acquired
      else if r.done
      then some cancelled
      else none

  unfoldable pub acquire_loop :
      ℕ → ℕ → Options → ℕ → ℕ → List (Round Store) → Store → Option (Result Lock × ℕ × Store)
  unfolding attempt refused acquired
  acquire_loop resource token o deadline held [] s = none
  acquire_loop resource token o deadline held (r ∷ rs) s =
      let (reply, s') = attempt (lock_key resource) token o r s in
      let (result, held') =
        acquired (new_lock resource (lock_key resource) token o r.at_reply) held reply in
      let rest = acquire_loop resource token o deadline held rs s' in
      elim reply [
        | none ↦ some (result, held', s')
        | some true ↦ some (result, held', s')
        | some false ↦ elim (refused o.acquire_timeout deadline r) [
          | none ↦ rest
          | some e ↦ some (err e, held, s')
        ]
      ]

  -- `Acquire`, begun at `start`.
  unfoldable pub acquire :
      ℕ → ℕ → ℕ → Option Options → ℕ → List (Round Store) → Store → Option (Result Lock × ℕ × Store)
  acquire start resource token opts held rs s =
      let o = resolve cfg opts in
      acquire_loop resource token o (start + o.acquire_timeout) held rs s

  -- Some round tests the clock after the deadline.
  abbrev pub Past : ℕ → List (Round Store) → Type 0
  Past deadline [] = ⊥
  Past deadline (r ∷ rs) = (deadline < r.at_check) ⊎ Past deadline rs

  acquire_loop_returns :
      (resource token : ℕ) (o : Options) (deadline held : ℕ) (rs : List (Round Store)) (s : Store)
      → Past deadline rs
      → acquire_loop resource token o deadline held rs s ≢ none
  unfolding acquire_loop
  acquire_loop_returns resource token o deadline held [] s p = absurd p
  acquire_loop_returns resource token o deadline held (r ∷ rs) s p = ground (
    arith,
    acquire_loop_returns resource token o deadline held rs
        (set_nx r.at_call (lock_key resource) token o.lease (r.others s)).1,
  )

  -- `Acquire` never waits past a round that reads the clock after its deadline: it has returned a
  -- lock or an error by then, whatever others do.
  pub acquire_returns :
      (start resource token : ℕ) (opts : Option Options) (held : ℕ) (rs : List (Round Store))
      (s : Store)
      → Past (start + (resolve cfg opts).acquire_timeout) rs
      → acquire start resource token opts held rs s ≢ none
  unfolding acquire
  acquire_returns start resource token opts held rs s =
      acquire_loop_returns resource token (resolve cfg opts) _ held rs s

-- ===== src/Execution/Orchestrator/Moves.antt =====
-- A transition of the registry, by its outcomes.
use collaborative_programmin.Base.{
  ℕ, suc, ◌≡◌, refl, sym, subst, true, false, not, Option, none, some, arith, ◌==◌, if◌then◌else◌,
  if_cases,
}
use collaborative_programmin.Base.Dict.{lookup, insert, lookup-insert}
use collaborative_programmin.Execution.Job.{State, code, Job, can_transition}
use collaborative_programmin.Execution.Registry.{
  Registry, Moved, moved_from, refused, job_not_found, illegal_transition, put, drop, transition_as,
  transition,
}
use collaborative_programmin.Execution.Registry.Invariant.{IsIndexed}
use collaborative_programmin.Execution.Registry.Rewrites.{Keeps, KeepsState, transition-IsIndexed}
use collaborative_programmin.Execution.Orchestrator.{Platform, snapshot, snapshot_of}

abbrev pub entered : State → (Job → Job) → Job → Job
entered to f j = f (record j { state = to; transitions = suc j.transitions })

abbrev pub moved : ℕ → State → (Job → Job) → Job → Registry → Registry
moved id to f j r = record r {
  by_id = insert id (entered to f j) r.by_id;
  by_state = put (code to) id (drop (code j.state) id r.by_state);
}

module _ (id : ℕ) (to : State) (f : Job → Job) (r : Registry) where
  module _ (P : Moved × Registry → Type 0)
      (missing : lookup id r.by_id ≡ none → P (refused job_not_found, r))
      (illegal : (j : Job)
        → lookup id r.by_id ≡ some j
        → can_transition j.state to ≡ false
        → P (refused illegal_transition, r))
      (legal : (j : Job)
        → lookup id r.by_id ≡ some j
        → can_transition j.state to ≡ true
        → P (moved_from j.state, moved id to f j r)) where
    transition_as_cases : (o : Option Job) → lookup id r.by_id ≡ o → P (transition_as id to f r o)
    unfolding transition_as
    transition_as_cases none h = missing h
    transition_as_cases (some j) h =
        if_cases P (not (can_transition j.state to)) _ _
          (λ denied. illegal j h (ground (arith, denied)))
          (λ allowed. legal j h (ground (arith, allowed)))

    pub transition_cases : P (transition id to f r)
    unfolding transition
    transition_cases = transition_as_cases (lookup id r.by_id) refl

  pub transition_ok :
      (j : Job)
      → lookup id r.by_id ≡ some j
      → can_transition j.state to ≡ true
      → transition id to f r ≡ (moved_from j.state, moved id to f j r)
  unfolding transition transition_as
  transition_ok j h allowed = rw (h, allowed) refl

  pub lookup-moved :
      (j : Job) (i : ℕ)
      → lookup i (moved id to f j r).by_id
        ≡ (if id == i then some (entered to f j) else lookup i r.by_id)
  lookup-moved j i = lookup-insert id i (entered to f j) r.by_id

  pub lookup_there : (j : Job) → lookup id (moved id to f j r).by_id ≡ some (entered to f j)
  lookup_there j = ground (arith, lookup-moved j id)

  pub moved-IsIndexed :
      (j : Job)
      → Keeps f
      → KeepsState f
      → lookup id r.by_id ≡ some j
      → can_transition j.state to ≡ true
      → IsIndexed r
      → IsIndexed (moved id to f j r)
  moved-IsIndexed j keeps same h allowed v =
      subst (λ (x : Moved × Registry). IsIndexed x.1) (transition_ok j h allowed)
        (transition-IsIndexed id to f r keeps same v)

-- What holds of the job holds of its snapshot.
pub snapped :
    (P : Job → Type 0) (id : ℕ) (p : Platform) (j : Job)
    → lookup id p.registry.by_id ≡ some j
    → P j
    → P (snapshot id p)
unfolding snapshot snapshot_of
snapped P id p j h x = subst (λ o. P (snapshot_of o)) (sym h) x

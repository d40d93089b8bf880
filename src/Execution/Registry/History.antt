-- ===== src/Execution/Registry/History.antt =====
-- The histories of a registry: its indexes, and the states of its jobs.
use collaborative_programmin.Base.{
  ℕ, suc, ◌≡◌, ◌⊎◌, inl, inr, refl, ap, ◌∙◌, Bool-cases, true, Option, none, some, arith, ◌==◌,
  List, [], ◌∷◌, All, not, if_cases,
}
use collaborative_programmin.Base.Dict.{lookup, insert, lookup-insert, lookup-delete}
use collaborative_programmin.Execution.Job.{Job, State, code, can_transition}
use collaborative_programmin.Execution.Registry.{
  Registry, Moved, put, drop, new_registry, add_as, add, transition_as, transition, update_as,
  update, remove_as, remove,
}
use collaborative_programmin.Execution.Registry.Invariant.{
  IsIndexed, add-IsIndexed, remove-IsIndexed, new_registry-IsIndexed,
}
use collaborative_programmin.Execution.Registry.Rewrites.{
  Keeps, KeepsState, transition-IsIndexed, update-IsIndexed, restored, restored_state,
}

pub data Call : Type 0 where
  adds : Job → Call
  moves : (id : ℕ) → State → (Job → Job) → Call
  updates : (id : ℕ) → (Job → Job) → Call
  removes : (id : ℕ) → Call

unfoldable pub step : Call → Registry → Registry
step (adds j) r = (add j r).1
step (moves id to f) r = (transition id to f r).1
step (updates id f) r = (update id f r).1
step (removes id) r = (remove id r).1

unfoldable pub run : List Call → Registry → Registry
run [] r = r
run (c ∷ cs) r = run cs (step c r)

-- The callbacks of the call do their duty.
abbrev pub IsDutiful : Call → Type 0
IsDutiful (adds j) = Unit
IsDutiful (moves id to f) = Keeps f × KeepsState f
IsDutiful (updates id f) = Keeps f
IsDutiful (removes id) = Unit

step-IsIndexed : (c : Call) (r : Registry) → IsDutiful c → IsIndexed r → IsIndexed (step c r)
unfolding step
step-IsIndexed (adds j) r d v = add-IsIndexed j r v
step-IsIndexed (moves id to f) r d v = transition-IsIndexed id to f r d.0 d.1 v
step-IsIndexed (updates id f) r d v = update-IsIndexed id f r d v
step-IsIndexed (removes id) r d v = remove-IsIndexed id r v

run-IsIndexed :
    (cs : List Call) (r : Registry) → All IsDutiful cs → IsIndexed r → IsIndexed (run cs r)
unfolding run
run-IsIndexed [] r d v = v
run-IsIndexed (c ∷ cs) r d v = run-IsIndexed cs (step c r) d.1 (step-IsIndexed c r d.0 v)

-- From an empty registry, after any history of additions, transitions, updates and removals whose
-- callbacks keep the identity of the job (and, in a transition, the new state), every job is stored
-- under its id and each of the five indexes has exactly the jobs that carry the key.
pub run-new-IsIndexed : (cs : List Call) → All IsDutiful cs → IsIndexed (run cs new_registry)
run-new-IsIndexed cs d = run-IsIndexed cs new_registry d new_registry-IsIndexed

-- A job that is there before and after has the same state, or one that follows by a legal
-- transition.
abbrev Lawful : ℕ → Registry → Registry → Type 0
Lawful i r r' =
    (j j' : Job)
    → lookup i r.by_id ≡ some j
    → lookup i r'.by_id ≡ some j'
    → (j'.state ≡ j.state) ⊎ (can_transition j.state j'.state ≡ true)

add-Lawful :
    (i : ℕ) (j : Job) (r : Registry) (o : Option Job)
    → lookup j.id r.by_id ≡ o
    → Lawful i r (add_as j r o).1
unfolding add_as
add-Lawful i j r none e =
    λ x x' h h'. inl (ground (arith, lookup-insert j.id i j r.by_id, e, h, h'))
add-Lawful i j r (some old) e = λ x x' h h'. inl (ground (arith, h, h'))

remove-Lawful : (i id : ℕ) (r : Registry) (o : Option Job) → Lawful i r (remove_as id r o).1
unfolding remove_as
remove-Lawful i id r none = λ x x' h h'. inl (ground (arith, h, h'))
remove-Lawful i id r (some j) = λ x x' h h'. inl (ground (arith, lookup-delete id i r.by_id, h, h'))

write-Lawful :
    (i id : ℕ) (x x' : Job) (r r' : Registry)
    → r'.by_id ≡ insert id x' r.by_id
    → lookup id r.by_id ≡ some x
    → (x'.state ≡ x.state) ⊎ (can_transition x.state x'.state ≡ true)
    → Lawful i r r'
write-Lawful i id x x' r r' is e moved = λ j j' h h'. elim (Bool-cases (id == i)) [
  | inl same ↦
      let is_x : j ≡ x = ground (arith, h, e, same) in
      let is_x' : j' ≡ x' =
        ground (arith, h', ap (lookup i) is ∙ lookup-insert id i x' r.by_id, same) in
      rw (is_x, is_x') moved
  | inr other ↦ inl (ground (arith, h, h', ap (lookup i) is ∙ lookup-insert id i x' r.by_id, other))
]

transition-Lawful :
    (i id : ℕ) (to : State) (f : Job → Job) (r : Registry) (o : Option Job)
    → lookup id r.by_id ≡ o
    → KeepsState f
    → Lawful i r (transition_as id to f r o).1
unfolding transition_as
transition-Lawful i id to f r none e same = λ x x' h h'. inl (ground (arith, h, h'))
transition-Lawful i id to f r (some j) e same =
    if_cases (λ (x : Moved × Registry). Lawful i r x.1) (not (can_transition j.state to)) _ _
      (λ _ x x' h h'. inl (ground (arith, h, h')))
      λ legal.
        let j' = f (record j { state = to; transitions = suc j.transitions }) in
        let moved : j'.state ≡ to =
          same (record j { state = to; transitions = suc j.transitions }) in
        write-Lawful i id j j' r
          (record r {
            by_id = insert id j' r.by_id;
            by_state = put (code to) id (drop (code j.state) id r.by_state);
          })
          refl e (inr (rw moved (ground (arith, legal))))

update-Lawful :
    (i id : ℕ) (f : Job → Job) (r : Registry) (o : Option Job)
    → lookup id r.by_id ≡ o
    → Lawful i r (update_as id f r o).1
unfolding update_as
update-Lawful i id f r none e = λ x x' h h'. inl (ground (arith, h, h'))
update-Lawful i id f r (some j) e =
    write-Lawful i id j (restored j (f j)) r
      (record r { by_id = insert id (restored j (f j)) r.by_id }) refl e
      (inl (restored_state j (f j)))

-- No operation of the registry moves a job against the state machine: if its callbacks do their duty,
-- a job that is there before and after it has the same state, or one that follows by a legal
-- transition, whatever an update's callback does to the state.
pub step_lawful :
    (c : Call) (r : Registry) (i : ℕ) (j j' : Job)
    → IsDutiful c
    → lookup i r.by_id ≡ some j
    → lookup i (step c r).by_id ≡ some j'
    → (j'.state ≡ j.state) ⊎ (can_transition j.state j'.state ≡ true)
unfolding step add remove transition update
step_lawful (adds x) r i j j' d = add-Lawful i x r (lookup x.id r.by_id) refl j j'
step_lawful (moves id to f) r i j j' d =
    transition-Lawful i id to f r (lookup id r.by_id) refl d.1 j j'
step_lawful (updates id f) r i j j' d = update-Lawful i id f r (lookup id r.by_id) refl j j'
step_lawful (removes id) r i j j' d = remove-Lawful i id r (lookup id r.by_id) j j'

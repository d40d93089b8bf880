-- ===== src/Execution/Registry/Rewrites.antt =====
-- `Transition` and `Update` keep the indexes in agreement with the jobs.
use collaborative_programmin.Base.{
  ℕ, suc, ◌≡◌, refl, ◌∙◌, not, Option, none, some, arith, if◌then◌else◌, if_cases,
}
use collaborative_programmin.Base.Dict.{lookup, insert}
use collaborative_programmin.Execution.Job.{Job, State, code, ◌=ˢ◌, can_transition}
use collaborative_programmin.Execution.Registry.{
  Index, Registry, transition_as, transition, update_as, update, Moved,
}
use collaborative_programmin.Execution.Registry.Invariant.{
  IsIndexed, SameIdentity, Sorts, write-Indexes, move-Sorts, write-Sorts, filed_insert,
}

-- A write of a job that keeps its identity.
rewritten :
    (id : ℕ) (j j' : Job) (r : Registry) (states' : Index)
    → lookup id r.by_id ≡ some j
    → SameIdentity j j'
    → Sorts states' (insert id j' r.by_id)
    → IsIndexed r
    → IsIndexed (record r { by_id = insert id j' r.by_id; by_state = states' })
rewritten id j j' r states' e same sorts v = record {
  filed = filed_insert id j' r.by_id (same.id ∙ v.filed id j e) v.filed;
  users = write-Indexes (λ j. j.user_id) r.by_user r.by_id v.users id j j' e same.user;
  rooms = write-Indexes (λ j. j.room_id) r.by_room r.by_id v.rooms id j j' e same.room;
  sessions =
      write-Indexes (λ j. j.session_id) r.by_session r.by_id v.sessions id j j' e same.session;
  languages =
      write-Indexes (λ j. j.language) r.by_language r.by_id v.languages id j j' e same.language;
  states = sorts;
}

-- The documented duty of a callback: it keeps the identity, and that of `Transition` the state too.
abbrev pub Keeps : (Job → Job) → Type 0
Keeps f = (j : Job) → SameIdentity j (f j)

abbrev pub KeepsState : (Job → Job) → Type 0
KeepsState f = (j : Job) → (f j).state ≡ j.state

transition_as-IsIndexed :
    (id : ℕ) (to : State) (f : Job → Job) (r : Registry) (o : Option Job)
    → lookup id r.by_id ≡ o
    → Keeps f
    → KeepsState f
    → IsIndexed r
    → IsIndexed (transition_as id to f r o).1
unfolding transition_as
transition_as-IsIndexed id to f r none e keeps same v = v
transition_as-IsIndexed id to f r (some j) e keeps same v =
    if_cases (λ (x : Moved × Registry). IsIndexed x.1) (not (can_transition j.state to)) _ _
      (λ _. v)
      λ _.
        let j' = record j { state = to; transitions = suc j.transitions } in
        let kept = keeps j' in
        rewritten id j (f j') r _ e
          (record {
            id = kept.id;
            user = kept.user;
            room = kept.room;
            session = kept.session;
            language = kept.language;
          })
          (move-Sorts r.by_state r.by_id v.states id to j (f j') e (same j')) v

pub transition-IsIndexed :
    (id : ℕ) (to : State) (f : Job → Job) (r : Registry)
    → Keeps f
    → KeepsState f
    → IsIndexed r
    → IsIndexed (transition id to f r).1
unfolding transition
transition-IsIndexed id to f r keeps same v =
    transition_as-IsIndexed id to f r (lookup id r.by_id) refl keeps same v

-- The state that `Update` puts back.
abbrev pub restored : Job → Job → Job
restored j j' = if not (j'.state =ˢ j.state) then record j' { state = j.state } else j'

code_inj : (s t : State) → code s ≡ code t → s ≡ t
code_inj s t e = ground arith

pub restored_state : (j j' : Job) → (restored j j').state ≡ j.state
restored_state j j' =
    if_cases (λ (x : Job). x.state ≡ j.state) (not (j'.state =ˢ j.state)) _ _ (λ _. refl)
      λ e. code_inj j'.state j.state (ground (arith, e))

restored_identity : (j j' : Job) → SameIdentity j j' → SameIdentity j (restored j j')
restored_identity j j' same =
    if_cases (λ (x : Job). SameIdentity j x) (not (j'.state =ˢ j.state)) _ _
      (λ _. record {
        id = same.id;
        user = same.user;
        room = same.room;
        session = same.session;
        language = same.language;
      })
      λ _. same

update_as-IsIndexed :
    (id : ℕ) (f : Job → Job) (r : Registry) (o : Option Job)
    → lookup id r.by_id ≡ o
    → Keeps f
    → IsIndexed r
    → IsIndexed (update_as id f r o).1
unfolding update_as
update_as-IsIndexed id f r none e keeps v = v
update_as-IsIndexed id f r (some j) e keeps v =
    rewritten id j (restored j (f j)) r r.by_state e (restored_identity j (f j) (keeps j))
      (write-Sorts r.by_state r.by_id v.states id j (restored j (f j)) e (restored_state j (f j))) v

pub update-IsIndexed :
    (id : ℕ) (f : Job → Job) (r : Registry) → Keeps f → IsIndexed r → IsIndexed (update id f r).1
unfolding update
update-IsIndexed id f r keeps v = update_as-IsIndexed id f r (lookup id r.by_id) refl keeps v

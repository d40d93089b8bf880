-- ===== src/Execution/Registry.antt =====
-- internal/execution/registry/registry.go: the index of live jobs. Each operation runs under the
-- registry's lock, so it is a function of the registry. A secondary index maps a key to the set of
-- the ids that carry it; the state index has the constants of the states for keys.
pub mod Index
pub mod Invariant
pub mod Rewrites
pub mod Queries
pub mod History
pub mod Sweep
pub mod Candidates
use collaborative_programmin.Base.{
  ℕ, suc, ◌+◌, Bool, true, false, not, List, [], ◌∷◌, Option, none, some, ◌==◌, if◌then◌else◌,
  length,
}
use collaborative_programmin.Base.Dict.{Dict, lookup, insert, delete}
use collaborative_programmin.Execution.Job.{Job, State, code, ◌=ˢ◌, can_transition}

-- A set of ids.
abbrev pub Ids : Type 0
Ids = Dict Unit

abbrev pub Index : Type 0
Index = Dict Ids

unfoldable pub ids_of : Option Ids → Ids
ids_of none = []
ids_of (some s) = s

-- `stateAdd`, and `add` for a key that is not empty.
unfoldable pub put : ℕ → ℕ → Index → Index
unfolding ids_of
put key id idx = insert key (insert id tt (ids_of (lookup key idx))) idx

unfoldable pub drop_from : ℕ → ℕ → Option Ids → Index → Index
drop_from key id none idx = idx
drop_from key id (some s) idx =
    if length (delete id s) == 0 then delete key idx else insert key (delete id s) idx

-- `stateRemove`, and `remove` for a key that is not empty.
unfoldable pub drop : ℕ → ℕ → Index → Index
unfolding drop_from
drop key id idx = drop_from key id (lookup key idx) idx

unfoldable pub add_index : ℕ → ℕ → Index → Index
add_index key id idx = if key == 0 then idx else put key id idx

unfoldable pub remove_index : ℕ → ℕ → Index → Index
remove_index key id idx = if key == 0 then idx else drop key id idx

pub record Registry : Type 0 where
  pub by_id : Dict Job
  pub by_user : Index
  pub by_room : Index
  pub by_session : Index
  pub by_language : Index
  pub by_state : Index

unfoldable pub new_registry : Registry
new_registry = record {
  by_id = [];
  by_user = [];
  by_room = [];
  by_session = [];
  by_language = [];
  by_state = [];
}

pub data Error : Type 0 where
  duplicate_job job_not_found illegal_transition : Error

unfoldable pub add_as : Job → Registry → Option Job → Option Error × Registry
add_as j r (some old) = (some duplicate_job, r)
add_as j r none = (
  none,
  record {
    by_id = insert j.id j r.by_id;
    by_user = add_index j.user_id j.id r.by_user;
    by_room = add_index j.room_id j.id r.by_room;
    by_session = add_index j.session_id j.id r.by_session;
    by_language = add_index j.language j.id r.by_language;
    by_state = put (code j.state) j.id r.by_state;
  },
)

-- `Add`: no error is `none`.
unfoldable pub add : Job → Registry → Option Error × Registry
unfolding add_as
add j r = add_as j r (lookup j.id r.by_id)

pub data Moved : Type 0 where
  moved_from : State → Moved
  refused : Error → Moved

-- A nil callback is the identity.
unfoldable pub transition_as : ℕ → State → (Job → Job) → Registry → Option Job → Moved × Registry
transition_as id to mutate r none = (refused job_not_found, r)
transition_as id to mutate r (some j) =
    if not (can_transition j.state to) then (refused illegal_transition, r) else (
      moved_from j.state,
      record r {
        by_id =
            insert id (mutate (record j { state = to; transitions = suc j.transitions })) r.by_id;
        by_state = put (code to) id (drop (code j.state) id r.by_state);
      },
    )

unfoldable pub transition : ℕ → State → (Job → Job) → Registry → Moved × Registry
unfolding transition_as
transition id to mutate r = transition_as id to mutate r (lookup id r.by_id)

unfoldable pub update_as : ℕ → (Job → Job) → Registry → Option Job → Option Error × Registry
update_as id mutate r none = (some job_not_found, r)
update_as id mutate r (some j) =
    let j' = mutate j in
    (
      none,
      record r {
        by_id =
            insert id (if not (j'.state =ˢ j.state) then record j' { state = j.state } else j')
              r.by_id;
      },
    )

unfoldable pub update : ℕ → (Job → Job) → Registry → Option Error × Registry
unfolding update_as
update id mutate r = update_as id mutate r (lookup id r.by_id)

unfoldable pub remove_as : ℕ → Registry → Option Job → Option Job × Registry
remove_as id r none = (none, r)
remove_as id r (some j) = (
  some j,
  record {
    by_id = delete id r.by_id;
    by_user = remove_index j.user_id id r.by_user;
    by_room = remove_index j.room_id id r.by_room;
    by_session = remove_index j.session_id id r.by_session;
    by_language = remove_index j.language id r.by_language;
    by_state = drop (code j.state) id r.by_state;
  },
)

-- `Remove`: the final snapshot.
unfoldable pub remove : ℕ → Registry → Option Job × Registry
unfolding remove_as
remove id r = remove_as id r (lookup id r.by_id)

-- The jobs of a set of ids, in the order in which the loop meets them. `none` is the panic of a nil
-- dereference, for an id that the registry does not have.
unfoldable pub collect : Dict Job → Ids → Option (List Job)
collect jobs [] = some []
collect jobs ((id, u) ∷ s) =
    let rest = collect jobs s in
    elim (lookup id jobs) [
      | none ↦ none
      | some j ↦ elim rest [ none ↦ none | some js ↦ some (j ∷ js) ]
    ]

unfoldable pub by_index : Index → ℕ → Registry → Option (List Job)
unfolding ids_of
by_index idx key r = collect r.by_id (ids_of (lookup key idx))

-- `ByUser` and `ByState`; the other queries differ in the index.
abbrev pub jobs_of_user : ℕ → Registry → Option (List Job)
jobs_of_user user r = by_index r.by_user user r

abbrev pub jobs_in_state : State → Registry → Option (List Job)
jobs_in_state s r = by_index r.by_state (code s) r

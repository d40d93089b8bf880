-- ===== src/Execution/Registry/Invariant.antt =====
-- The secondary indexes agree with the jobs, after every operation of the registry.
use collaborative_programmin.Base.{
  ℕ, ◌≡◌, refl, ap, Bool, false, not, ◌&&◌, Option, none, some, arith, ◌==◌,
}
use collaborative_programmin.Base.Dict.{Dict, lookup, insert, delete, lookup-insert, lookup-delete}
use collaborative_programmin.Execution.Job.{Job, State, code}
use collaborative_programmin.Execution.Registry.{
  Index, Registry, new_registry, put, drop, add_index, remove_index, add_as, add, remove_as, remove,
  ids_of,
}
use collaborative_programmin.Execution.Registry.Index.{
  has, has-put, has-drop, has-add_index, has-remove_index,
}

-- Whether a job carries a key that is not empty.
abbrev pub carries : (Job → ℕ) → ℕ → Option Job → Bool
carries f k none = false
carries f k (some j) = not (k == 0) && f j == k

abbrev pub in_state : ℕ → Option Job → Bool
in_state k none = false
in_state k (some j) = code j.state == k

-- The index has under each key exactly the jobs that carry it.
abbrev pub Indexes : (Job → ℕ) → Index → Dict Job → Type 0
Indexes f idx jobs = (k i : ℕ) → has idx k i ≡ carries f k (lookup i jobs)

abbrev pub Sorts : Index → Dict Job → Type 0
Sorts idx jobs = (k i : ℕ) → has idx k i ≡ in_state k (lookup i jobs)

pub record IsIndexed (r : Registry) : Type 0 where
  pub filed : (i : ℕ) (j : Job) → lookup i r.by_id ≡ some j → j.id ≡ i
  pub users : Indexes (λ j. j.user_id) r.by_user r.by_id
  pub rooms : Indexes (λ j. j.room_id) r.by_room r.by_id
  pub sessions : Indexes (λ j. j.session_id) r.by_session r.by_id
  pub languages : Indexes (λ j. j.language) r.by_language r.by_id
  pub states : Sorts r.by_state r.by_id

-- What the callers' callbacks must leave alone.
pub record SameIdentity (j j' : Job) : Type 0 where
  pub id : j'.id ≡ j.id
  pub user : j'.user_id ≡ j.user_id
  pub room : j'.room_id ≡ j.room_id
  pub session : j'.session_id ≡ j.session_id
  pub language : j'.language ≡ j.language

module _ (f : Job → ℕ) (idx : Index) (jobs : Dict Job) (h : Indexes f idx jobs) where
  add-Indexes :
      (j : Job)
      → lookup j.id jobs ≡ none
      → Indexes f (add_index (f j) j.id idx) (insert j.id j jobs)
  add-Indexes j e k i =
      ground (arith, has-add_index (f j) j.id k i idx, lookup-insert j.id i j jobs, h k i, e)

  remove-Indexes :
      (id : ℕ) (j : Job)
      → lookup id jobs ≡ some j
      → Indexes f (remove_index (f j) id idx) (delete id jobs)
  remove-Indexes id j e k i =
      ground (arith, has-remove_index (f j) id k i idx, lookup-delete id i jobs, h k i, e)

  pub write-Indexes :
      (id : ℕ) (j j' : Job)
      → lookup id jobs ≡ some j
      → f j' ≡ f j
      → Indexes f idx (insert id j' jobs)
  write-Indexes id j j' e same k i = ground (arith, lookup-insert id i j' jobs, h k i, e)

module _ (idx : Index) (jobs : Dict Job) (h : Sorts idx jobs) where
  add-Sorts :
      (j : Job) → lookup j.id jobs ≡ none → Sorts (put (code j.state) j.id idx) (insert j.id j jobs)
  add-Sorts j e k i =
      ground (arith, has-put (code j.state) j.id k i idx, lookup-insert j.id i j jobs, h k i, e)

  remove-Sorts :
      (id : ℕ) (j : Job)
      → lookup id jobs ≡ some j
      → Sorts (drop (code j.state) id idx) (delete id jobs)
  remove-Sorts id j e k i =
      ground (arith, has-drop (code j.state) id k i idx, lookup-delete id i jobs, h k i, e)

  pub move-Sorts :
      (id : ℕ) (to : State) (j j' : Job)
      → lookup id jobs ≡ some j
      → j'.state ≡ to
      → Sorts (put (code to) id (drop (code j.state) id idx)) (insert id j' jobs)
  move-Sorts id to j j' e moved k i = ground (
    arith,
    has-put (code to) id k i (drop (code j.state) id idx),
    has-drop (code j.state) id k i idx,
    lookup-insert id i j' jobs,
    h k i,
    e,
    ap code moved,
  )

  pub write-Sorts :
      (id : ℕ) (j j' : Job)
      → lookup id jobs ≡ some j
      → j'.state ≡ j.state
      → Sorts idx (insert id j' jobs)
  write-Sorts id j j' e same k i =
      ground (arith, lookup-insert id i j' jobs, h k i, e, ap code same)

pub filed_insert :
    (id : ℕ) (j : Job) (jobs : Dict Job)
    → j.id ≡ id
    → ((i : ℕ) (x : Job) → lookup i jobs ≡ some x → x.id ≡ i)
    → (i : ℕ) (x : Job) → lookup i (insert id j jobs) ≡ some x
    → x.id ≡ i
filed_insert id j jobs same h i x e = ground (arith, lookup-insert id i j jobs, h i x)

add_as-IsIndexed :
    (j : Job) (r : Registry) (o : Option Job)
    → lookup j.id r.by_id ≡ o
    → IsIndexed r
    → IsIndexed (add_as j r o).1
unfolding add_as
add_as-IsIndexed j r (some old) e v = v
add_as-IsIndexed j r none e v = record {
  filed = filed_insert j.id j r.by_id refl v.filed;
  users = add-Indexes (λ j. j.user_id) r.by_user r.by_id v.users j e;
  rooms = add-Indexes (λ j. j.room_id) r.by_room r.by_id v.rooms j e;
  sessions = add-Indexes (λ j. j.session_id) r.by_session r.by_id v.sessions j e;
  languages = add-Indexes (λ j. j.language) r.by_language r.by_id v.languages j e;
  states = add-Sorts r.by_state r.by_id v.states j e;
}

pub add-IsIndexed : (j : Job) (r : Registry) → IsIndexed r → IsIndexed (add j r).1
unfolding add
add-IsIndexed j r v = add_as-IsIndexed j r (lookup j.id r.by_id) refl v

remove_as-IsIndexed :
    (id : ℕ) (r : Registry) (o : Option Job)
    → lookup id r.by_id ≡ o
    → IsIndexed r
    → IsIndexed (remove_as id r o).1
unfolding remove_as
remove_as-IsIndexed id r none e v = v
remove_as-IsIndexed id r (some j) e v = record {
  filed = λ i x h. ground (arith, lookup-delete id i r.by_id, v.filed i x);
  users = remove-Indexes (λ j. j.user_id) r.by_user r.by_id v.users id j e;
  rooms = remove-Indexes (λ j. j.room_id) r.by_room r.by_id v.rooms id j e;
  sessions = remove-Indexes (λ j. j.session_id) r.by_session r.by_id v.sessions id j e;
  languages = remove-Indexes (λ j. j.language) r.by_language r.by_id v.languages id j e;
  states = remove-Sorts r.by_state r.by_id v.states id j e;
}

pub remove-IsIndexed : (id : ℕ) (r : Registry) → IsIndexed r → IsIndexed (remove id r).1
unfolding remove
remove-IsIndexed id r v = remove_as-IsIndexed id r (lookup id r.by_id) refl v

pub new_registry-IsIndexed : IsIndexed new_registry
unfolding new_registry lookup has ids_of
new_registry-IsIndexed = record {
  filed = λ i j e. ground arith;
  users = λ k i. refl;
  rooms = λ k i. refl;
  sessions = λ k i. refl;
  languages = λ k i. refl;
  states = λ k i. refl;
}

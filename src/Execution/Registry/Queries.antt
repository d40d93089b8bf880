-- ===== src/Execution/Registry/Queries.antt =====
-- The queries of a registry whose indexes agree with its jobs.
use collaborative_programmin.Base.{
  ℕ, ◌≡◌, ◌≢◌, ◌↔◌, inl, inr, refl, ap, ◌∙◌, true, some, arith, ◌==◌, List, [], ◌∷◌, Any,
  Bool-cases, Option-cases,
}
use collaborative_programmin.Base.Dict.{Dict, lookup}
use collaborative_programmin.Execution.Job.{Job, State, code}
use collaborative_programmin.Execution.Registry.{
  Ids, Registry, collect, by_index, jobs_of_user, jobs_in_state, ids_of,
}
use collaborative_programmin.Execution.Registry.Index.{is_some, has}
use collaborative_programmin.Execution.Registry.Invariant.{IsIndexed}

abbrev pub Member : Job → List Job → Type 0
Member j js = Any (λ x. x ≡ j) js

-- What the loop of a query returns when the registry has every id of the set.
abbrev Collected : Dict Job → Ids → List Job → Type 0
Collected jobs s js =
    (collect jobs s ≡ some js)
    × ((j : Job)
        → Member j js ↔ ((i : ℕ) × (is_some (lookup i s) ≡ true) × (lookup i jobs ≡ some j)))

Collected-more :
    (jobs : Dict Job) (id : ℕ) (u : Unit) (s : Ids) (x : Job) (js : List Job)
    → lookup id jobs ≡ some x
    → Collected jobs s js
    → Collected jobs ((id, u) ∷ s) (x ∷ js)
unfolding collect lookup
Collected-more jobs id u s x js here (is, members) = (
  ground (arith, here, is),
  λ j. (
    λ m. elim m [
      | inl same ↦ (id, ground arith, here ∙ ap some same)
      | inr later ↦ let (i, found, there) = (members j).0 later in (i, ground (arith, found), there)
    ],
    λ (i, found, there). elim (Bool-cases (id == i)) [
      | inl same ↦ inl (ground (arith, here, there, same))
      | inr other ↦ inr ((members j).1 (i, ground (arith, found, other), there))
    ],
  ),
)

collect_lem :
    (jobs : Dict Job) (s : Ids)
    → ((i : ℕ) → is_some (lookup i s) ≡ true → is_some (lookup i jobs) ≡ true)
    → (js : List Job) × Collected jobs s js
unfolding collect lookup
collect_lem jobs [] h =
    ([], (refl, λ j. ((λ m. absurd m), λ (i, found, there). absurd (ground (arith, found)))))
collect_lem jobs ((id, u) ∷ s) h =
    let (js, rest) = collect_lem jobs s (λ i e. h i (ground (arith, e))) in
    elim (Option-cases (lookup id jobs)) [
      | inl missing ↦ absurd (ground (arith, missing, h id))
      | inr (x, here) ↦ (x ∷ js, Collected-more jobs id u s x js here rest)
    ]

-- `ByUser` for a user id that is not empty never meets an id that the registry lacks, and returns
-- exactly the registry's jobs of that user, each the one that is stored under its id.
pub jobs_of_user_lem :
    (r : Registry) (user : ℕ)
    → IsIndexed r
    → user ≢ 0
    → (js : List Job) × (jobs_of_user user r ≡ some js)
      × ((j : Job) → Member j js ↔ ((lookup j.id r.by_id ≡ some j) × (j.user_id ≡ user)))
unfolding by_index has
jobs_of_user_lem r user v ne =
    let (js, (is, members)) =
      collect_lem r.by_id (ids_of (lookup user r.by_user))
        (λ i e. ground (arith, v.users user i)) in
    (
      js,
      is,
      λ j. (
        λ m.
            let (i, found, there) = (members j).0 m in
            let filed = v.filed i j there in
            (
              ap (λ k. lookup k r.by_id) filed ∙ there,
              ground (arith, v.users user i, there, found),
            ),
        λ (there, owned).
            (members j).1 (j.id, ground (arith, v.users user j.id, there, owned), there),
      ),
    )

-- `ByState` never meets an id that the registry lacks, and returns exactly the registry's jobs in
-- that state, each the one that is stored under its id.
pub jobs_in_state_lem :
    (r : Registry) (s : State)
    → IsIndexed r
    → (js : List Job) × (jobs_in_state s r ≡ some js)
      × ((j : Job) → Member j js ↔ ((lookup j.id r.by_id ≡ some j) × (code j.state ≡ code s)))
unfolding by_index has
jobs_in_state_lem r s v =
    let (js, (is, members)) =
      collect_lem r.by_id (ids_of (lookup (code s) r.by_state))
        (λ i e. ground (arith, v.states (code s) i)) in
    (
      js,
      is,
      λ j. (
        λ m.
            let (i, found, there) = (members j).0 m in
            (
              ap (λ k. lookup k r.by_id) (v.filed i j there) ∙ there,
              ground (arith, v.states (code s) i, there, found),
            ),
        λ (there, sorted).
            (members j).1 (j.id, ground (arith, v.states (code s) j.id, there, sorted), there),
      ),
    )

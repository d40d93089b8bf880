-- ===== src/Execution/Registry/Candidates.antt =====
-- Which jobs a sweep of the registry finds.
use collaborative_programmin.Base.{
  ℕ, ◌+◌, ◌≡◌, ◌↔◌, ◌⊎◌, inl, inr, refl, ap, sym, ◌∙◌, Bool, true, some, arith, leb, List, [], ◌∷◌,
  ◌++◌, Any, Bool-cases,
}
use collaborative_programmin.Base.Dict.{lookup}
use collaborative_programmin.Execution.Job.{
  Job, State, code, completed, failed, timed_out, cancelled,
}
use collaborative_programmin.Execution.Registry.{Registry}
use collaborative_programmin.Execution.Registry.Invariant.{IsIndexed}
use collaborative_programmin.Execution.Registry.Queries.{Member, jobs_in_state_lem}
use collaborative_programmin.Execution.Registry.Sweep.{
  finished_at, old_ones, gathered, finished_in, finished_before,
}

Member-append : (j : Job) (xs ys : List Job) → Member j (xs ++ ys) ↔ (Member j xs ⊎ Member j ys)
Member-append j [] ys =
    ((λ m. inr m), λ m. elim m [ inl none_there ↦ absurd none_there | inr m ↦ m ])
Member-append j (x ∷ xs) ys =
    let (to, from) = Member-append j xs ys in
    (
      (λ m. elim m [
        | inl here ↦ inl (inl here)
        | inr later ↦ elim (to later) [ inl l ↦ inl (inr l) | inr r ↦ inr r ]
      ]),
      λ m. elim m [
        | inl l ↦ elim l [ inl here ↦ inl here | inr later ↦ inr (from (inl later)) ]
        | inr r ↦ inr (from (inr r))
      ],
    )

module _ (retention now : ℕ) where
  abbrev pub is_old : Job → Bool
  is_old j = leb (finished_at j + retention) now

  Member-old_ones :
      (j : Job) (js : List Job)
      → Member j (old_ones retention now js) ↔ (Member j js × (is_old j ≡ true))
  unfolding old_ones
  Member-old_ones j [] = ((λ m. absurd m), λ h. absurd h.0)
  Member-old_ones j (x ∷ xs) =
      let (to, from) = Member-old_ones j xs in
      elim (Bool-cases (is_old x)) [
        | inl old ↦ rw old (
          (λ m. elim m [
            | inl here ↦ (inl here, ap is_old (sym here) ∙ old)
            | inr later ↦ let (a, b) = to later in (inr a, b)
          ]),
          λ (m, is). elim m [ inl here ↦ inl here | inr later ↦ inr (from (later, is)) ],
        )
        | inr young ↦ rw young (
          (λ m. let (a, b) = to m in (inr a, b)),
          λ (m, is). elim m [
            | inl here ↦ absurd (ground (arith, young, is, ap is_old here))
            | inr later ↦ from (later, is)
          ],
        )
      ]

  module _ (r : Registry) (v : IsIndexed r) where
    finished_in_lem :
        (ss : List State)
        → (js : List Job) × (finished_in retention now ss r ≡ some js)
          × ((j : Job)
              → Member j js ↔ (
                  (lookup j.id r.by_id ≡ some j)
                  × (is_old j ≡ true)
                  × Any (λ s. code j.state ≡ code s) ss))
    unfolding finished_in gathered
    finished_in_lem [] = ([], refl, λ j. ((λ m. absurd m), λ h. absurd h.2))
    finished_in_lem (s ∷ ss) =
        let (js, found, members) = jobs_in_state_lem r s v in
        let (more, rest, others) = finished_in_lem ss in
        (
          old_ones retention now js ++ more,
          rw (found, rest) refl,
          λ j.
              let (to, from) = Member-append j (old_ones retention now js) more in
              let (old_to, old_from) = Member-old_ones j js in
              (
                (λ m. elim (to m) [
                  | inl here ↦
                      let (m, old) = old_to here in
                      let (at, in_s) = (members j).0 m in (at, old, inl in_s)
                  | inr later ↦ let (at, old, in_ss) = (others j).0 later in (at, old, inr in_ss)
                ]),
                λ (at, old, sorted). elim sorted [
                  | inl in_s ↦ from (inl (old_from ((members j).1 (at, in_s), old)))
                  | inr in_ss ↦ from (inr ((others j).1 (at, old, in_ss)))
                ],
              ),
        )

    -- The candidates for archival: the jobs of the registry that are completed, failed, timed out or
    -- cancelled, and have been so, or at least been there, for the retention.
    pub finished_before_lem :
        (js : List Job) × (finished_before retention now r ≡ some js)
        × ((j : Job)
            → Member j js ↔ (
                (lookup j.id r.by_id ≡ some j)
                × (is_old j ≡ true)
                × Any
                    (λ s. code j.state ≡ code s)
                    (completed ∷ failed ∷ timed_out ∷ cancelled ∷ [])))
    unfolding finished_before
    finished_before_lem = finished_in_lem (completed ∷ failed ∷ timed_out ∷ cancelled ∷ [])

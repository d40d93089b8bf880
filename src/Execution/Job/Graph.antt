-- ===== src/Execution/Job/Graph.antt =====
-- Paths through the graph of the job states.
use collaborative_programmin.Base.{
  ◌≤◌, ◌≡◌, ◌⊎◌, refl, Bool, true, false, List, [], ◌∷◌, arith, Any, inl, inr, length, ◌||◌,
}
use collaborative_programmin.Execution.Job.{
  State, pending, validated, queued, dispatched, running, streaming, completed, failed, timed_out,
  cancelled, retrying, archived, can_transition, is_finished, can_retry, ◌=ˢ◌,
}

-- Every state of the list follows the one before by a legal transition, from the given one on.
abbrev pub Follows : State → List State → Type 0
Follows s [] = Unit
Follows s (t ∷ ts) = (can_transition s t ≡ true) × Follows t ts

abbrev pub last : State → List State → State
last s [] = s
last s (t ∷ ts) = last t ts

-- A job that has finished goes on only to the archive, or to a retry if `CanRetry` admits its state.
pub after_finish :
    (s t : State)
    → is_finished s ≡ true
    → can_transition s t ≡ true
    → (t ≡ archived) ⊎ ((t ≡ retrying) × (can_retry s ≡ true))
unfolding can_transition is_finished can_retry
after_finish s t f e = ground arith

-- From every state a path of at most two transitions leads to the archive.
pub archivable :
    (s : State) → (ts : List State) × Follows s ts × (last s ts ≡ archived) × (length ts ≤ 2)
unfolding can_transition
archivable pending = (failed ∷ archived ∷ [], (refl, (refl, tt)), refl, omega arith)
archivable validated = (failed ∷ archived ∷ [], (refl, (refl, tt)), refl, omega arith)
archivable queued = (failed ∷ archived ∷ [], (refl, (refl, tt)), refl, omega arith)
archivable dispatched = (failed ∷ archived ∷ [], (refl, (refl, tt)), refl, omega arith)
archivable running = (failed ∷ archived ∷ [], (refl, (refl, tt)), refl, omega arith)
archivable streaming = (failed ∷ archived ∷ [], (refl, (refl, tt)), refl, omega arith)
archivable completed = (archived ∷ [], (refl, tt), refl, omega arith)
archivable failed = (archived ∷ [], (refl, tt), refl, omega arith)
archivable timed_out = (archived ∷ [], (refl, tt), refl, omega arith)
archivable cancelled = (archived ∷ [], (refl, tt), refl, omega arith)
archivable retrying = (failed ∷ archived ∷ [], (refl, (refl, tt)), refl, omega arith)
archivable archived = ([], tt, refl, omega arith)

-- The states of a job whose code is executing, or was and has completed.
abbrev pub has_run : State → Bool
has_run s = s =ˢ running || s =ˢ streaming || s =ˢ completed

before_running :
    (s t : State)
    → has_run s ≡ false
    → can_transition s t ≡ true
    → (t ≡ running) ⊎ (has_run t ≡ false)
unfolding can_transition
before_running s t h e = ground arith

-- A job that completes, from a state in which its code neither runs nor has completed, passes
-- through `running` on the way.
pub through_running :
    (s : State) (ts : List State)
    → has_run s ≡ false
    → Follows s ts
    → last s ts ≡ completed
    → Any (λ t. t ≡ running) ts
through_running s [] h f e = absurd (ground (arith, e))
through_running s (t ∷ ts) h f e = elim (before_running s t h f.0) [
  | inl r ↦ inl r
  | inr h' ↦ inr (through_running t ts h' f.1 e)
]

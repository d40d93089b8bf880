-- ===== src/Execution/Orchestrator/Effects.antt =====
-- The effect of a transition, with what else the call does, on a sound platform.
use collaborative_programmin.Base.{
  ℕ, suc, ◌≡◌, refl, subst, ◌∙◌, true, false, List, ◌∷◌, Option, none, some, arith, ◌==◌, inl, inr,
  Option-cases,
}
use collaborative_programmin.Base.Dict.{lookup, lookup-insert, lookup-delete}
use collaborative_programmin.Execution.Job.{State, Job, can_transition, is_active}
use collaborative_programmin.Execution.Registry.Rewrites.{Keeps, KeepsState}
use collaborative_programmin.Execution.Context.{
  Contexts, cancel, cancel_of, release, assign, assign_of, assigned, create, context_of,
}
use collaborative_programmin.Execution.Scheduler.{Memory}
use collaborative_programmin.Execution.Storage.{save}
use collaborative_programmin.Execution.Orchestrator.{Kind, Event, Platform, publish, persist}
use collaborative_programmin.Execution.Orchestrator.Marks.{announced, advanced, advance, and_then}
use collaborative_programmin.Execution.Orchestrator.Moves.{
  entered, moved, transition_cases, lookup-moved, lookup_there, moved-IsIndexed, snapped,
}
use collaborative_programmin.Execution.Orchestrator.Soundness.{
  IsSettled, IsSound, is_live, written-IsSound,
}

abbrev pub Others : ℕ → Contexts → Contexts → Type 0
Others id c c' = (i : ℕ) → (id == i) ≡ false → lookup i c'.by_job ≡ lookup i c.by_job

pub release-Others : (id : ℕ) (c : Contexts) → Others id c (release id c)
unfolding release
release-Others id c i other = ground (arith, other, lookup-delete id i c.by_job)

pub cancel-Others : (id : ℕ) (c : Contexts) → Others id c (cancel id c)
unfolding cancel cancel_of
cancel-Others id c i other = elim (Option-cases (lookup id c.by_job)) [
  | inl gone ↦ rw gone refl
  | inr (x, here) ↦
      rw here (ground (arith, other, lookup-insert id i (record x { cancelled = true }) c.by_job))
]

pub create-Others :
    (parent now : ℕ) (j : Job) (c : Contexts) → Others j.id c (create parent now j c)
unfolding create
create-Others parent now j c i other =
    ground (arith, other, lookup-insert j.id i (context_of parent now j) c.by_job)

pub create_live :
    (parent now : ℕ) (j : Job) (c : Contexts)
    → is_live (lookup j.id (create parent now j c).by_job) ≡ true
unfolding create context_of
create_live parent now j c =
    ground (arith, lookup-insert j.id j.id (context_of parent now j) c.by_job)

-- An assignment leaves every context as live as it was.
assign_live :
    (id worker sandbox i : ℕ) (c : Contexts)
    → is_live (lookup i (assign id worker sandbox c).by_job) ≡ is_live (lookup i c.by_job)
unfolding assign assign_of
assign_live id worker sandbox i c = elim (Option-cases (lookup id c.by_job)) [
  | inl gone ↦ rw gone refl
  | inr (x, here) ↦
      rw here (ground (arith, here, lookup-insert id i (assigned worker sandbox x) c.by_job))
]

assign-none :
    (id worker sandbox i : ℕ) (c : Contexts)
    → lookup i c.by_job ≡ none
    → lookup i (assign id worker sandbox c).by_job ≡ none
unfolding assign assign_of
assign-none id worker sandbox i c h = elim (Option-cases (lookup id c.by_job)) [
  | inl gone ↦ rw gone h
  | inr (x, here) ↦
      rw here (ground (arith, h, here, lookup-insert id i (assigned worker sandbox x) c.by_job))
]

module _ (id : ℕ) (to : State) (f : Job → Job) (p : Platform) (keeps : Keeps f)
    (same : KeepsState f) where
  -- A call that makes a transition, and leaves the job and its snapshot in the store.
  pub moved-IsSound :
      (j : Job) (c : Contexts) (m : Memory) (es : List Event)
      → lookup id p.registry.by_id ≡ some j
      → can_transition j.state to ≡ true
      → IsSettled (entered to f j)
      → Others id p.contexts c
      → (is_active to ≡ true → is_live (lookup id c.by_job) ≡ true)
      → IsSound p
      → IsSound (record p {
        registry = moved id to f j p.registry;
        contexts = c;
        scheduler = m;
        store = save (entered to f j) p.store;
        events = es;
      })
  unfolding save
  moved-IsSound j c m es here legal settled others live h =
      let filed : (entered to f j).id ≡ id =
        (keeps (record j { state = to; transitions = suc j.transitions })).id
        ∙ h.indexed.filed id j here in
      written-IsSound p _ id (entered to f j) h
        (moved-IsIndexed id to f p.registry j keeps same here legal h.indexed)
        (λ i. lookup-moved id to f p.registry j i)
        (λ i. ground (arith, filed, lookup-insert (entered to f j).id i (entered to f j) p.store))
        others settled
        (λ active. live (
          subst (λ s. is_active s ≡ true)
            (same (record j { state = to; transitions = suc j.transitions })) active))

  -- A mark, with what it does to the contexts.
  pub advanced-IsSound :
      (kind : Option Kind) (g : Contexts → Contexts)
      → ((j : Job) → IsSettled j → can_transition j.state to ≡ true → IsSettled (entered to f j))
      → Others id p.contexts (g p.contexts)
      → (is_active to ≡ true
          → (j : Job) → can_transition j.state to ≡ true
          → is_active j.state ≡ true)
      → (is_active to ≡ true
          → is_live (lookup id p.contexts.by_job) ≡ true
          → is_live (lookup id (g p.contexts).by_job) ≡ true)
      → IsSound p
      → IsSound (and_then (λ q. record q { contexts = g q.contexts }) (advance id to kind f p)).1
  unfolding advance advanced and_then announced publish persist
  advanced-IsSound kind g settles others was live h =
      transition_cases id to f p.registry
        (λ x.
          IsSound (and_then (λ q. record q { contexts = g q.contexts }) (advanced id kind x p)).1)
        (λ missing. h) (λ j here illegal. h)
        λ j here legal.
          let p1 = record p { registry = moved id to f j p.registry } in
          snapped
            (λ s. IsSound (record (persist s (announced kind s.id p1)) {
              contexts = g (announced kind s.id p1).contexts;
            }))
            id p1 (entered to f j) (lookup_there id to f p.registry j)
            (announced_sound j here legal kind)
    where
      announced_sound :
          (j : Job)
          → lookup id p.registry.by_id ≡ some j
          → can_transition j.state to ≡ true
          → (kind : Option Kind)
          → let p1 = record p { registry = moved id to f j p.registry } in
            let s = entered to f j in
            IsSound (record (persist s (announced kind s.id p1)) {
              contexts = g (announced kind s.id p1).contexts;
            })
      announced_sound j here legal none =
          moved-IsSound j (g p.contexts) p.scheduler p.events here legal
            (settles j (h.settled id j here) legal) others
            (λ active. live active (h.attended id j here (was active j legal))) h
      announced_sound j here legal (some k) =
          moved-IsSound j (g p.contexts) p.scheduler
            (record { kind = k; job_id = (entered to f j).id } ∷ p.events) here legal
            (settles j (h.settled id j here) legal) others
            (λ active. live active (h.attended id j here (was active j legal))) h

pub assigned-IsSound :
    (id worker : ℕ) (p : Platform)
    → IsSound p
    → IsSound (record p { contexts = assign id worker 0 p.contexts })
assigned-IsSound id worker p h = record {
  indexed = h.indexed;
  settled = h.settled;
  mirrored = h.mirrored;
  attended = λ i j at active. assign_live id worker 0 i p.contexts ∙ h.attended i j at active;
  owned = λ i at. assign-none id worker 0 i p.contexts (h.owned i at);
}

-- ===== src/Execution/Orchestrator/Submission.antt =====
-- A submission and a retry, on a sound platform.
use collaborative_programmin.Base.{
  ℕ, ◌≤◌, ◌≡◌, refl, ap, sym, subst, ◌∙◌, Bool, true, false, not, List, [], ◌∷◌, Option, none, some,
  arith, leb, if_cases, inl, inr, Option-cases,
}
use collaborative_programmin.Base.Dict.{lookup, lookup-insert}
use collaborative_programmin.Execution.Job.{
  pending, validated, queued, failed, retrying, Job, Request, no_outcome, can_transition, can_retry,
  outcome_for, is_active, new_job,
}
use collaborative_programmin.Execution.Registry.{transition, add, add_as}
use collaborative_programmin.Execution.Registry.Invariant.{IsIndexed, add-IsIndexed}
use collaborative_programmin.Execution.Context.{create, release}
use collaborative_programmin.Execution.Scheduler.{Memory, schedule}
use collaborative_programmin.Execution.Storage.{save}
use collaborative_programmin.Execution.Validation.{Fault, validate}
use collaborative_programmin.Execution.Orchestrator.{
  Event, Platform, Settings, Minted, Reply, snapshot, publish, persist, fail_at, fail_scheduling,
  failed_with, handed_over, queue_up, build_context, created, screened, submit, with_ids,
  resolve_defaults, retry_once, retried, retry_of, retry_job, job_queued, job_failed, job_retried,
  job_created,
}
use collaborative_programmin.Execution.Orchestrator.Moves.{
  entered, moved, transition_ok, lookup-moved, lookup_there, moved-IsIndexed, snapped,
}
use collaborative_programmin.Execution.Orchestrator.Soundness.{IsSound, is_live, written-IsSound}
use collaborative_programmin.Execution.Orchestrator.Effects.{
  release-Others, create-Others, create_live,
}
use collaborative_programmin.Execution.Orchestrator.Ahead.{
  IsAhead, ahead_here, ahead_id, settled_down, queued_settled, IsAhead-moved, same_job,
}

module _ (p0 : Platform) (id later : ℕ) where
  failed-IsSound :
      (j : Job) (p : Platform)
      → IsAhead p0 id j p
      → j.state ≡ queued
      → IsSound (fail_scheduling later id p)
  unfolding fail_scheduling failed_with publish persist save can_transition outcome_for is_active
  failed-IsSound j p h at =
      let here = ahead_here p0 id j p h in
      let legal : can_transition j.state failed ≡ true = ground (arith, at) in
      let s = entered failed (fail_at later) j in
      let p1 = record p { registry = moved id failed (fail_at later) j p.registry } in
      let p2 = record p1 {
        contexts = release id p.contexts;
        store = save s p.store;
        events = record { kind = job_failed; job_id = s.id } ∷ p.events;
      } in
      subst (λ x. IsSound (failed_with id x p))
        (sym (transition_ok id failed (fail_at later) p.registry j here legal))
        (snapped
          (λ s.
            IsSound (
              persist s
                (record (publish job_failed s.id p1) { contexts = release id p1.contexts })))
          id p1 s (lookup_there id failed (fail_at later) p.registry j)
          (written-IsSound p0 p2 id s h.sound
            (moved-IsIndexed id failed (fail_at later) p.registry j
              (λ j. same_job j _ refl refl refl refl refl) (λ j. refl) here legal h.indexed)
            (λ i. ground (arith, lookup-moved id failed (fail_at later) p.registry j i, h.jobs i))
            (λ i.
              ground (
                arith,
                ahead_id p0 id j p h,
                lookup-insert s.id i s p.store,
                ap (lookup i) h.stored,
              ))
            (λ i other. release-Others id p.contexts i other ∙ h.others i other)
            (record {
              rests = refl;
              outcome = refl;
              retries = h.retries;
              unfinished = refl;
              unstarted = refl;
            })
            (λ active. absurd (ground (arith, active)))))

  handed-IsSound :
      (j : Job) (p : Platform) (r : Bool × Memory)
      → IsAhead p0 id j p
      → j.state ≡ queued
      → IsSound (handed_over later id r p).1
  unfolding handed_over publish persist
  handed-IsSound j p (false, m) h at = failed-IsSound j p h at
  handed-IsSound j p (true, m) h at =
      let p1 = record p { scheduler = m } in
      snapped (λ s. IsSound (persist s (publish job_queued s.id p1))) id p j
        (ahead_here p0 id j p h)
        (settled_down p0 id j p p.contexts m
          (record { kind = job_queued; job_id = j.id } ∷ p.events) h (queued_settled p0 id j p h at)
          (λ i other. refl) (λ active. h.live))

  queue_up-IsSound :
      (now : ℕ) (j : Job) (p : Platform)
      → IsAhead p0 id j p
      → can_transition j.state queued ≡ true
      → IsSound
          (queue_up later id
            (transition id queued (λ jj. record jj { scheduled_at = now }) p.registry)
            p).1
  unfolding queue_up
  queue_up-IsSound now j p h legal =
      let f : Job → Job = λ jj. record jj { scheduled_at = now } in
      let here = ahead_here p0 id j p h in
      let p1 = record p { registry = moved id queued f j p.registry } in
      subst (λ x. IsSound (queue_up later id x p).1)
        (sym (transition_ok id queued f p.registry j here legal))
        (handed-IsSound (entered queued f j) p1 (schedule (snapshot id p1) p1.scheduler)
          (IsAhead-moved p0 id j p queued f (λ j. same_job j _ refl refl refl refl refl) (λ j. refl)
            legal h.sound h.indexed here (λ i other. ground (arith, other, h.jobs i)) h.stored
            p.contexts h.others h.live h.outcome h.retries h.unfinished h.unstarted p.events)
          refl)

-- Events do not matter.
published-IsSound :
    (p : Platform) (es : List Event) → IsSound p → IsSound (record p { events = es })
published-IsSound p es h = record {
  indexed = h.indexed;
  settled = h.settled;
  mirrored = h.mirrored;
  attended = h.attended;
  owned = h.owned;
}

module _ (m : Minted) (j : Job) (p : Platform) (h : IsSound p) (new : j.state ≡ pending)
    (outcome : j.outcome ≡ no_outcome) (retries : j.retry_count ≤ j.max_retries)
    (unfinished : j.completed_at ≡ 0) (unstarted : j.started_at ≡ 0) where
  added-IsSound :
      lookup j.id p.registry.by_id ≡ none → IsSound (created m j (add_as j p.registry none) p).1
  unfolding created build_context publish add_as can_transition
  added-IsSound gone =
      let r = (add_as j p.registry none).1 in
      let p1 = record p {
        registry = r;
        events = record { kind = job_created; job_id = j.id } ∷ p.events;
      } in
      let legal : can_transition j.state validated ≡ true = ground (arith, new) in
      let here : lookup j.id r.by_id ≡ some j =
        ground (arith, lookup-insert j.id j.id j p.registry.by_id) in
      subst (λ x. IsSound (build_context m j x p1).1)
        (sym (transition_ok j.id validated (λ jj. jj) r j here legal))
        (queue_up-IsSound p j.id m.later m.now (entered validated (λ jj. jj) j)
          (record p1 {
            registry = moved j.id validated (λ jj. jj) j r;
            contexts = create m.parent m.now j p.contexts;
          })
          (IsAhead-moved p j.id j p1 validated (λ jj. jj)
            (λ j. same_job j _ refl refl refl refl refl) (λ j. refl) legal h
            (subst (λ o. IsIndexed (add_as j p.registry o).1) gone
              (unfold add in add-IsIndexed j p.registry h.indexed))
            here (λ i other. ground (arith, other, lookup-insert j.id i j p.registry.by_id)) refl
            (create m.parent m.now j p.contexts) (create-Others m.parent m.now j p.contexts)
            (create_live m.parent m.now j p.contexts) outcome retries unfinished unstarted
            p1.events)
          refl)

  created-IsSound : IsSound (created m j (add j p.registry) p).1
  unfolding add
  created-IsSound = elim (Option-cases (lookup j.id p.registry.by_id)) [
    | inl gone ↦
        subst (λ o. IsSound (created m j (add_as j p.registry o) p).1) (sym gone)
          (added-IsSound gone)
    | inr (old, here) ↦
        subst (λ o. IsSound (created m j (add_as j p.registry o) p).1) (sym here)
          (unfold created add_as in h)
  ]

pub submit-IsSound :
    (st : Settings) (m : Minted) (req : Request) (p : Platform)
    → IsSound p
    → IsSound (submit st m req p).1
unfolding submit publish
submit-IsSound st m req p h =
    screened-IsSound (with_ids m req)
      (validate m.ended st.stop_on_first st.validators (some (with_ids m req))) _
      (published-IsSound p _ h)
  where
    screened-IsSound :
        (req : Request) (fs : List Fault) (p : Platform)
        → IsSound p
        → IsSound (screened st m req fs p).1
    screened-IsSound req (f ∷ fs) p h = unfold screened publish in published-IsSound p _ h
    screened-IsSound req [] p h =
        unfold screened publish new_job in
        created-IsSound m (new_job req (resolve_defaults st m req)) _ (published-IsSound p _ h) refl
          refl (omega arith) refl refl

module _ (parent now later id : ℕ) (p : Platform) (h : IsSound p) where
  retried-IsSound :
      (j : Job)
      → lookup id p.registry.by_id ≡ some j
      → can_retry j.state ≡ true
      → leb j.max_retries j.retry_count ≡ false
      → IsSound (retried parent now later id (transition id retrying retry_once p.registry) p).1
  unfolding retried publish can_transition can_retry
  retried-IsSound j here retryable left =
      let legal : can_transition j.state retrying ≡ true = ground (arith, retryable) in
      let s = entered retrying retry_once j in
      let p1 = record p { registry = moved id retrying retry_once j p.registry } in
      let same_id : j.id ≡ id = h.indexed.filed id j here in
      subst (λ x. IsSound (retried parent now later id x p).1)
        (sym (transition_ok id retrying retry_once p.registry j here legal))
        (snapped
          (λ s.
            IsSound
              (queue_up later id
                (transition id queued (λ j. record j { scheduled_at = now }) p1.registry)
                (record (publish job_retried s.id p1) {
                  contexts = create parent now s p1.contexts;
                })).1)
          id p1 s (lookup_there id retrying retry_once p.registry j)
          (queue_up-IsSound p id later now s
            (record (publish job_retried s.id p1) { contexts = create parent now s p1.contexts })
            (IsAhead-moved p id j p retrying retry_once (λ j. same_job j _ refl refl refl refl refl)
              (λ j. refl) legal h h.indexed here (λ i other. refl) refl
              (create parent now s p.contexts)
              (λ i other. create-Others parent now s p.contexts i (ground (arith, other, same_id)))
              (subst (λ i. is_live (lookup i (create parent now s p.contexts).by_job) ≡ true)
                same_id (create_live parent now s p.contexts))
              refl (ground (arith, left)) refl refl
              (record { kind = job_retried; job_id = s.id } ∷ p.events))
            refl))

  retry_of-IsSound :
      (o : Option Job)
      → lookup id p.registry.by_id ≡ o
      → IsSound (retry_of parent now later id o p).1
  unfolding retry_of
  retry_of-IsSound none at = h
  retry_of-IsSound (some j) at =
      if_cases (λ (x : Reply Job × Platform). IsSound x.1) (not (can_retry j.state)) _ _
        (λ denied. h)
        λ retryable.
          if_cases (λ (x : Reply Job × Platform). IsSound x.1) (leb j.max_retries j.retry_count) _ _
            (λ spent. h) λ left. retried-IsSound j at (ground (arith, retryable)) left

  pub retry_job-IsSound : IsSound (retry_job parent now later id p).1
  unfolding retry_job
  retry_job-IsSound = retry_of-IsSound (lookup id p.registry.by_id) refl

-- ===== src/Coordination/Memory/Deletion.antt =====
-- `Delete` of the in-memory backend, a loop over its keys, against the specification.
use collaborative_programmin.Base.{
  ℕ, suc, ◌+◌, ◌≤◌, ◌≡◌, refl, List, [], ◌∷◌, Option, none, some, arith, if◌then◌else◌,
  Option-cases, inl, inr,
}
use collaborative_programmin.Coordination.Memory.{
  Entry, Memory, live_locked, delete_on, delete_loop, delete_keys,
}
use collaborative_programmin.Coordination.Memory.Spec.{
  deletes, step, Spec, alive, update, is_free, spec_delete, spec_step,
}
use collaborative_programmin.Coordination.Memory.Agreement.{
  Agrees, Refines, entry_is, evict-Agrees, delete-Agrees,
}

-- What has run out stays so.
alive_later : (now t : ℕ) (o : Option Entry) → now ≤ t → alive now o ≡ none → alive t o ≡ none
alive_later now t none le e = refl
alive_later now t (some x) le e = ground arith

-- One turn of the loop of `Delete`.
delete_key :
    (now n k : ℕ) (m : Memory) (f : Spec)
    → Agrees now m f
    → let (e, m') = live_locked now k m in
      let r = delete_on n k e m' in
      (r.0 ≡ (if is_free now k f then n else suc n)) × Agrees now r.1 (update k none f)
unfolding delete_on
delete_key now n k m f h = elim (Option-cases (alive now (f k))) [
  | inl e ↦ (
    ground (arith, entry_is now m f h k),
    λ j t le.
        ground (arith, entry_is now m f h k, evict-Agrees now m f h k j t, alive_later now t (f k)),
  )
  | inr (x, e) ↦ (
    ground (arith, entry_is now m f h k),
    λ j t le. ground (
      arith,
      entry_is now m f h k,
      delete-Agrees now (live_locked now k m).1 f (evict-Agrees now m f h k) k j t,
    ),
  )
]

delete_loop_refines :
    (now n : ℕ) (ks : List ℕ) (m : Memory) (f : Spec)
    → Agrees now m f
    → let r = delete_loop now n ks m in
      (r.0 ≡ n + (spec_delete now ks f).0) × Agrees now r.1 (spec_delete now ks f).1
unfolding delete_loop spec_delete
delete_loop_refines now n [] m f h = (omega arith, h)
delete_loop_refines now n (k ∷ ks) m f h =
    let (e, m') = live_locked now k m in
    let (n', m'') = delete_on n k e m' in
    let (count, agrees) = delete_key now n k m f h in
    let (counts, last) = delete_loop_refines now n' ks m'' (update k none f) agrees in
    (ground (arith, counts, count), last)

pub deletes-Refines :
    (now : ℕ) (m : Memory) (f : Spec) (h : Agrees now m f) (ks : List ℕ)
    → Refines now (step now (deletes ks) m) (spec_step now (deletes ks) f)
unfolding step delete_keys spec_step
deletes-Refines now m f h ks =
    let (counts, last) = delete_loop_refines now 0 ks m f h in (ground (arith, counts), last)

-- ===== src/Coordination/Memory/Adapter.antt =====
-- The in-memory backend is a `Backend`: its operations, which report no errors, meet the laws that
-- the locks and the leader election rely on.
use native.Mathlib.Decide.{ℕ_discrete}
use collaborative_programmin.Base.{
  ℕ, ◌≤◌, ◌≡◌, refl, inl, inr, ap, ◌∙◌, sym, Bool, true, false, Option, none, some, arith, ◌≢◌,
}
use collaborative_programmin.Base.Dict.{lookup}
use collaborative_programmin.Coordination.Backend.{
  Backend, Same, Conditional, Expected, granted, gone,
}
use collaborative_programmin.Coordination.Memory.{
  Entry, Memory, value_of, get, set_nx, compare_and_swap, compare_and_delete, compare_and_expire,
}
use collaborative_programmin.Coordination.Memory.Spec.{
  Call, gets, set_nxs, swaps, compare_deletes, compare_expires, flag, step, Spec, alive, update,
  spec_step, fresh,
}
use collaborative_programmin.Coordination.Memory.Refinement.{step-Refines}

abbrev pub memory_owner : ℕ → Memory → ℕ → Option ℕ
memory_owner t m k = value_of (alive t (lookup k m.kv))

abbrev entries : Memory → Spec
entries m k = lookup k m.kv

abbrev some_flag : Bool × Memory → Option Bool × Memory
some_flag (r, m) = (some r, m)

flag_is : {a b : Bool} → flag a ≡ flag b → a ≡ b
flag_is e = cc

-- What the specification does, case by case.
module _ (now k : ℕ) (f : Spec) where
  nx_free :
      (v ttl : ℕ)
      → value_of (alive now (f k)) ≡ none
      → spec_step now (set_nxs k v ttl) f ≡ (flag true, update k (fresh now v ttl) f)
  unfolding spec_step
  nx_free v ttl e = ground arith

  nx_taken :
      (v ttl : ℕ)
      → value_of (alive now (f k)) ≢ none
      → spec_step now (set_nxs k v ttl) f ≡ (flag false, f)
  unfolding spec_step
  nx_taken v ttl e = ground arith

  swap_match :
      (old new ttl : ℕ)
      → Expected old (value_of (alive now (f k)))
      → spec_step now (swaps k old new ttl) f ≡ (flag true, update k (fresh now new ttl) f)
  unfolding spec_step
  swap_match old new ttl e = ground arith

  swap_other :
      (old new ttl : ℕ)
      → ¬ Expected old (value_of (alive now (f k)))
      → spec_step now (swaps k old new ttl) f ≡ (flag false, f)
  unfolding spec_step
  swap_other old new ttl e = ground arith

  delete_match :
      (old : ℕ)
      → value_of (alive now (f k)) ≡ some old
      → spec_step now (compare_deletes k old) f ≡ (flag true, update k none f)
  unfolding spec_step
  delete_match old e = ground arith

  delete_other :
      (old : ℕ)
      → value_of (alive now (f k)) ≢ some old
      → spec_step now (compare_deletes k old) f ≡ (flag false, f)
  unfolding spec_step
  delete_other old e = ground arith

  expire_match :
      (old ttl : ℕ)
      → value_of (alive now (f k)) ≡ some old
      → spec_step now (compare_expires k old ttl) f ≡ (flag true, update k (fresh now old ttl) f)
  unfolding spec_step
  expire_match old ttl e = ground arith

  expire_other :
      (old ttl : ℕ)
      → value_of (alive now (f k)) ≢ some old
      → spec_step now (compare_expires k old ttl) f ≡ (flag false, f)
  unfolding spec_step
  expire_other old ttl e = ground arith

Expected-dec : (old : ℕ) (o : Option ℕ) → Dec (Expected old o)
Expected-dec old none = ℕ_discrete old 0
Expected-dec old (some x) = ℕ_discrete x old

IsNone-dec : (o : Option ℕ) → Dec (o ≡ none)
IsNone-dec none = yes refl
IsNone-dec (some x) = no (λ e. cc)

Shows-dec : (old : ℕ) (o : Option ℕ) → Dec (o ≡ some old)
Shows-dec old none = no (λ e. cc)
Shows-dec old (some x) = elim (ℕ_discrete x old) [
  | yes e ↦ yes (ap some e)
  | no ne ↦ no (λ e. ne (ground arith))
]

-- The conditional write of one call, from what the specification does in the two cases.
module _ (now k : ℕ) (m : Memory) (c : Call) (op : Bool × Memory)
    (is_op : step now c m ≡ (flag op.0, op.1)) (P : Option ℕ → Type 0) (o : ℕ → Option ℕ)
    (new : Option Entry) (shows : (t : ℕ) → value_of (alive t new) ≡ o t) where
  reply : (b : Bool) (f : Spec) → spec_step now c (entries m) ≡ (flag b, f) → op.0 ≡ b
  reply b f e = flag_is (
      sym (ap (λ r. r.0) is_op)
      ∙ (step-Refines now c m (entries m) (λ j t le. refl)).0
      ∙ ap (λ r. r.0) e)

  view_of :
      (b : Bool) (f : Spec)
      → spec_step now c (entries m) ≡ (flag b, f)
      → (j t : ℕ) → now ≤ t
      → memory_owner t op.1 j ≡ value_of (alive t (f j))
  view_of b f e j t le =
      ap (λ r. memory_owner t r.1 j) (sym is_op)
      ∙ ap value_of ((step-Refines now c m (entries m) (λ j t le. refl)).1 j t le)
      ∙ ap (λ r. value_of (alive t (r.1 j))) e

  conditional :
      Dec (P (memory_owner now m k))
      → (P (memory_owner now m k)
          → spec_step now c (entries m) ≡ (flag true, update k new (entries m)))
      → (¬ P (memory_owner now m k) → spec_step now c (entries m) ≡ (flag false, entries m))
      → Conditional memory_owner now k P o m (some_flag op)
  conditional (yes p) match other = inl (
    (λ e. ground (arith, reply true _ (match p))),
    p,
    λ j t le. view_of true _ (match p) j t le ∙ ground (arith, shows t),
  )
  conditional (no np) match other =
      inr ((λ e. ground (arith, reply false _ (other np))), (λ _. np), view_of false _ (other np))

shows_fresh : (now v ttl t : ℕ) → value_of (alive t (fresh now v ttl)) ≡ granted now v ttl t
shows_fresh now v ttl t = ground arith

module _ (now k : ℕ) (m : Memory) where
  pub set_nx-Conditional :
      (v ttl : ℕ)
      → Conditional memory_owner now k
          (λ o. o ≡ none)
          (granted now v ttl)
          m
          (some_flag (set_nx now k v ttl m))
  unfolding step
  set_nx-Conditional v ttl =
      conditional now k m (set_nxs k v ttl) (set_nx now k v ttl m) refl (λ o. o ≡ none) _ _
        (shows_fresh now v ttl) (IsNone-dec _) (nx_free now k (entries m) v ttl)
        (nx_taken now k (entries m) v ttl)

  pub swap-Conditional :
      (old new ttl : ℕ)
      → Conditional memory_owner now k
          (Expected old)
          (granted now new ttl)
          m
          (some_flag (compare_and_swap now k old new ttl m))
  unfolding step
  swap-Conditional old new ttl =
      conditional now k m (swaps k old new ttl) (compare_and_swap now k old new ttl m) refl
        (Expected old) _ _ (shows_fresh now new ttl) (Expected-dec old _)
        (swap_match now k (entries m) old new ttl) (swap_other now k (entries m) old new ttl)

  pub delete-Conditional :
      (old : ℕ)
      → Conditional memory_owner now k
          (λ o. o ≡ some old)
          gone
          m
          (some_flag (compare_and_delete now k old m))
  unfolding step
  delete-Conditional old =
      conditional now k m (compare_deletes k old) (compare_and_delete now k old m) refl
        (λ o. o ≡ some old) _ none (λ t. refl) (Shows-dec old _)
        (delete_match now k (entries m) old) (delete_other now k (entries m) old)

  pub expire-Conditional :
      (old ttl : ℕ)
      → Conditional memory_owner now k
          (λ o. o ≡ some old)
          (granted now old ttl)
          m
          (some_flag (compare_and_expire now k old ttl m))
  unfolding step
  expire-Conditional old ttl =
      conditional now k m (compare_expires k old ttl) (compare_and_expire now k old ttl m) refl
        (λ o. o ≡ some old) _ _ (shows_fresh now old ttl) (Shows-dec old _)
        (expire_match now k (entries m) old ttl) (expire_other now k (entries m) old ttl)

  pub get_shows : (v : Option ℕ) → some (get now k m).0 ≡ some v → v ≡ memory_owner now m k
  unfolding step spec_step
  get_shows v e = ground (arith, (step-Refines now (gets k) m (entries m) (λ j t le. refl)).0)

  pub get_keeps : Same memory_owner now m (get now k m).1
  unfolding step spec_step
  get_keeps j t le =
      ap value_of ((step-Refines now (gets k) m (entries m) (λ j t le. refl)).1 j t le)

abbrev pub memory_backend : Backend
memory_backend = record {
  Store = Memory;
  owner = memory_owner;
  get = λ now k m. let (v, m') = get now k m in (some v, m');
  set_nx = λ now k v ttl m. some_flag (set_nx now k v ttl m);
  compare_and_swap = λ now k old new ttl m. some_flag (compare_and_swap now k old new ttl m);
  compare_and_delete = λ now k old m. some_flag (compare_and_delete now k old m);
  compare_and_expire = λ now k old ttl m. some_flag (compare_and_expire now k old ttl m);
  get_reply = λ now k m. get_shows now k m;
  get_same = λ now k m. get_keeps now k m;
  set_nx_lem = λ now k v ttl m. set_nx-Conditional now k m v ttl;
  compare_and_swap_lem = λ now k old new ttl m. swap-Conditional now k m old new ttl;
  compare_and_delete_lem = λ now k old m. delete-Conditional now k m old;
  compare_and_expire_lem = λ now k old ttl m. expire-Conditional now k m old ttl;
}

-- ===== src/Coordination/Memory/Agreement.antt =====
-- Each call on one key of the in-memory backend, against the specification.
use native.Mathlib.Nat.{le_refl}
use collaborative_programmin.Base.{
  ℕ, ◌≤◌, ◌≡◌, refl, ◌∙◌, Option, none, some, arith, ◌==◌, true, false, Bool-cases, Option-cases,
  inl, inr,
}
use collaborative_programmin.Base.Dict.{lookup, insert, delete, lookup-insert, lookup-delete}
use collaborative_programmin.Coordination.Memory.{
  Entry, Memory, expiry, live_locked, evict, get, set, set_nx, expire, ttl_of, compare_and_swap,
  compare_and_delete, compare_and_expire,
}
use collaborative_programmin.Coordination.Memory.Spec.{
  flag, Call, gets, ttls, sets, set_nxs, expires, swaps, compare_deletes, compare_expires, Reply,
  step, Spec, alive, update, spec_step,
}

-- From a time on, the memory and the specification hold the same live entries.
abbrev pub Agrees : ℕ → Memory → Spec → Type 0
Agrees now m f = (j t : ℕ) → now ≤ t → alive t (lookup j m.kv) ≡ alive t (f j)

evict_entry : (now k : ℕ) (m : Memory) (o : Option Entry) → (evict now k m o).0 ≡ alive now o
unfolding evict
evict_entry now k m none = refl
evict_entry now k m (some e) = ground arith

evict_keeps :
    (now k j t : ℕ) (m : Memory) (o : Option Entry)
    → lookup k m.kv ≡ o
    → now ≤ t
    → alive t (lookup j (evict now k m o).1.kv) ≡ alive t (lookup j m.kv)
unfolding evict
evict_keeps now k j t m none e h = refl
evict_keeps now k j t m (some x) e h = ground (arith, lookup-delete k j m.kv)

live_locked_entry : (now k : ℕ) (m : Memory) → (live_locked now k m).0 ≡ alive now (lookup k m.kv)
unfolding live_locked
live_locked_entry now k m = evict_entry now k m (lookup k m.kv)

live_locked_keeps :
    (now k j t : ℕ) (m : Memory)
    → now ≤ t
    → alive t (lookup j (live_locked now k m).1.kv) ≡ alive t (lookup j m.kv)
unfolding live_locked
live_locked_keeps now k j t m h = evict_keeps now k j t m (lookup k m.kv) refl h

-- One call.
abbrev pub Refines : ℕ → Reply × Memory → Reply × Spec → Type 0
Refines now r s = (r.0 ≡ s.0) × Agrees now r.1 s.1

module _ (now : ℕ) (m : Memory) (f : Spec) (h : Agrees now m f) where
  pub get-Refines : (k : ℕ) → Refines now (step now (gets k) m) (spec_step now (gets k) f)
  unfolding step get spec_step
  get-Refines k = (
    ground (arith, live_locked_entry now k m, h k now),
    λ j t le. ground (arith, live_locked_keeps now k j t m, h j t),
  )

  pub ttl-Refines :
      (k wall : ℕ) → Refines now (step now (ttls k wall) m) (spec_step now (ttls k wall) f)
  unfolding step ttl_of spec_step
  ttl-Refines k wall = (
    ground (arith, live_locked_entry now k m, h k now),
    λ j t le. ground (arith, live_locked_keeps now k j t m, h j t),
  )

  insert-Agrees :
      (k : ℕ) (e : Entry) → Agrees now (record m { kv = insert k e m.kv }) (update k (some e) f)
  insert-Agrees k e j t le = ground (arith, h j t, lookup-insert k j e m.kv)

  pub delete-Agrees : (k : ℕ) → Agrees now (record m { kv = delete k m.kv }) (update k none f)
  delete-Agrees k j t le = ground (arith, h j t, lookup-delete k j m.kv)

  -- An eviction is not seen from its time on.
  pub evict-Agrees : (k : ℕ) → Agrees now (live_locked now k m).1 f
  evict-Agrees k j t le = ground (arith, h j t, live_locked_keeps now k j t m)

  pub entry_is : (k : ℕ) → (live_locked now k m).0 ≡ alive now (f k)
  entry_is k = live_locked_entry now k m ∙ h k now (le_refl now)

pub set-Refines :
    (now : ℕ) (m : Memory) (f : Spec) (h : Agrees now m f) (k v ttl : ℕ)
    → Refines now (step now (sets k v ttl) m) (spec_step now (sets k v ttl) f)
unfolding step set spec_step
set-Refines now m f h k v ttl = (refl, insert-Agrees now m f h k _)

-- The three ways in which a call on one key ends: it changes nothing, writes the key or drops it.
module _ (now : ℕ) (m : Memory) (f : Spec) (h : Agrees now m f) (k : ℕ) where
  m' : Memory
  m' = (live_locked now k m).1

  kept :
      (c : Call) (r : Reply)
      → step now c m ≡ (r, m')
      → spec_step now c f ≡ (r, f)
      → Refines now (step now c m) (spec_step now c f)
  unfolding m'
  kept c r p q = rw p (rw q (refl, evict-Agrees now m f h k))

  written :
      (c : Call) (r : Reply) (e : Entry)
      → step now c m ≡ (r, record m' { kv = insert k e m'.kv })
      → spec_step now c f ≡ (r, update k (some e) f)
      → Refines now (step now c m) (spec_step now c f)
  unfolding m'
  written c r e p q = rw p (rw q (refl, insert-Agrees now m' f (evict-Agrees now m f h k) k e))

  dropped :
      (c : Call) (r : Reply)
      → step now c m ≡ (r, record m' { kv = delete k m'.kv })
      → spec_step now c f ≡ (r, update k none f)
      → Refines now (step now c m) (spec_step now c f)
  unfolding m'
  dropped c r p q = rw p (rw q (refl, delete-Agrees now m' f (evict-Agrees now m f h k) k))

  is_entry : (live_locked now k m).0 ≡ alive now (f k)
  is_entry = entry_is now m f h k

  pub set_nx-Refines :
      (v ttl : ℕ) → Refines now (step now (set_nxs k v ttl) m) (spec_step now (set_nxs k v ttl) f)
  unfolding step set_nx spec_step m'
  set_nx-Refines v ttl = elim (Option-cases (alive now (f k))) [
    | inl e ↦
        written (set_nxs k v ttl) (flag true) (record { value = v; expire_at = expiry now ttl })
          (ground (arith, is_entry)) (ground arith)
    | inr (x, e) ↦ kept (set_nxs k v ttl) (flag false) (ground (arith, is_entry)) (ground arith)
  ]

  pub expire-Refines :
      (ttl : ℕ) → Refines now (step now (expires k ttl) m) (spec_step now (expires k ttl) f)
  unfolding step expire spec_step m'
  expire-Refines ttl = elim (Option-cases (alive now (f k))) [
    | inl e ↦ kept (expires k ttl) (flag false) (ground (arith, is_entry)) (ground arith)
    | inr (x, e) ↦
        written (expires k ttl) (flag true) (record x { expire_at = expiry now ttl })
          (ground (arith, is_entry)) (ground arith)
  ]

  pub swap-Refines :
      (old new ttl : ℕ)
      → Refines now (step now (swaps k old new ttl) m) (spec_step now (swaps k old new ttl) f)
  unfolding step compare_and_swap spec_step m'
  swap-Refines old new ttl = elim (Option-cases (alive now (f k))) [
    | inl e ↦ elim (Bool-cases (old == 0)) [
      | inl z ↦
          written (swaps k old new ttl) (flag true)
            (record { value = new; expire_at = expiry now ttl }) (ground (arith, is_entry))
            (ground arith)
      | inr z ↦ kept (swaps k old new ttl) (flag false) (ground (arith, is_entry)) (ground arith)
    ]
    | inr (x, e) ↦ elim (Bool-cases (x.value == old)) [
      | inl z ↦
          written (swaps k old new ttl) (flag true)
            (record { value = new; expire_at = expiry now ttl }) (ground (arith, is_entry))
            (ground arith)
      | inr z ↦ kept (swaps k old new ttl) (flag false) (ground (arith, is_entry)) (ground arith)
    ]
  ]

  pub compare_delete-Refines :
      (old : ℕ)
      → Refines now (step now (compare_deletes k old) m) (spec_step now (compare_deletes k old) f)
  unfolding step compare_and_delete spec_step m'
  compare_delete-Refines old = elim (Option-cases (alive now (f k))) [
    | inl e ↦ kept (compare_deletes k old) (flag false) (ground (arith, is_entry)) (ground arith)
    | inr (x, e) ↦ elim (Bool-cases (x.value == old)) [
      | inl z ↦
          dropped (compare_deletes k old) (flag true) (ground (arith, is_entry)) (ground arith)
      | inr z ↦ kept (compare_deletes k old) (flag false) (ground (arith, is_entry)) (ground arith)
    ]
  ]

  pub compare_expire-Refines :
      (old ttl : ℕ)
      → Refines now
          (step now (compare_expires k old ttl) m)
          (spec_step now (compare_expires k old ttl) f)
  unfolding step compare_and_expire spec_step m'
  compare_expire-Refines old ttl = elim (Option-cases (alive now (f k))) [
    | inl e ↦
        kept (compare_expires k old ttl) (flag false) (ground (arith, is_entry)) (ground arith)
    | inr (x, e) ↦ elim (Bool-cases (x.value == old)) [
      | inl z ↦
          written (compare_expires k old ttl) (flag true)
            (record { value = old; expire_at = expiry now ttl }) (ground (arith, is_entry))
            (ground arith)
      | inr z ↦
          kept (compare_expires k old ttl) (flag false) (ground (arith, is_entry)) (ground arith)
    ]
  ]

-- ===== src/Coordination/Memory/Spec.antt =====
-- What the key-value part of the in-memory backend promises: a function from keys to entries that
-- never evicts, read through the clock. The calls of the backend as data, for both sides.
use collaborative_programmin.Base.{
  ℕ, sub_ℕ, suc, ◌+◌, Bool, true, false, List, [], ◌∷◌, Option, none, some, ◌==◌, if◌then◌else◌,
}
use collaborative_programmin.Coordination.Memory.{
  Entry, Memory, TtlReply, missing, persistent, remaining, is_live, expiry, get, set, set_nx,
  delete_keys, expire, ttl_of, compare_and_swap, compare_and_delete, compare_and_expire,
}

pub data Call : Type 0 where
  gets : ℕ → Call
  ttls : (key wall : ℕ) → Call
  sets set_nxs : ℕ → ℕ → ℕ → Call
  deletes : List ℕ → Call
  expires : ℕ → ℕ → Call
  swaps : ℕ → ℕ → ℕ → ℕ → Call
  compare_deletes : ℕ → ℕ → Call
  compare_expires : ℕ → ℕ → ℕ → Call

pub data Reply : Type 0 where
  done : Reply
  found : Option ℕ → Reply
  flag : Bool → Reply
  removed : ℕ → Reply
  lifetime : TtlReply → Reply

unfoldable pub step : ℕ → Call → Memory → Reply × Memory
step now (gets k) m = let (r, m') = get now k m in (found r, m')
step now (ttls k wall) m = let (r, m') = ttl_of now wall k m in (lifetime r, m')
step now (sets k v ttl) m = (done, set now k v ttl m)
step now (set_nxs k v ttl) m = let (r, m') = set_nx now k v ttl m in (flag r, m')
step now (deletes ks) m = let (r, m') = delete_keys now ks m in (removed r, m')
step now (expires k ttl) m = let (r, m') = expire now k ttl m in (flag r, m')
step now (swaps k old new ttl) m =
    let (r, m') = compare_and_swap now k old new ttl m in (flag r, m')
step now (compare_deletes k old) m = let (r, m') = compare_and_delete now k old m in (flag r, m')
step now (compare_expires k old ttl) m =
    let (r, m') = compare_and_expire now k old ttl m in (flag r, m')

-- A history of calls, each after the time that has passed since the one before.
unfoldable pub run : ℕ → List (ℕ × Call) → Memory → List Reply × Memory
run now [] m = ([], m)
run now ((d, c) ∷ cs) m =
    let (r, m') = step (now + d) c m in let (rs, m'') = run (now + d) cs m' in (r ∷ rs, m'')

abbrev pub Spec : Type 0
Spec = ℕ → Option Entry

-- What is left of an entry at a time.
abbrev pub alive : ℕ → Option Entry → Option Entry
alive t none = none
alive t (some e) = if is_live t e then some e else none

abbrev pub update : ℕ → Option Entry → Spec → Spec
update k o f j = if k == j then o else f j

abbrev pub fresh : ℕ → ℕ → ℕ → Option Entry
fresh now v ttl = some (record { value = v; expire_at = expiry now ttl })

abbrev read : ℕ → ℕ → Spec → Option ℕ
read now k f = elim (alive now (f k)) [ none ↦ none | some e ↦ some e.value ]

-- Whether the key holds the value at this time.
abbrev names : ℕ → ℕ → ℕ → Spec → Bool
names now k v f = elim (alive now (f k)) [ none ↦ false | some e ↦ e.value == v ]

abbrev pub is_free : ℕ → ℕ → Spec → Bool
is_free now k f = elim (alive now (f k)) [ none ↦ true | some e ↦ false ]

unfoldable pub spec_delete : ℕ → List ℕ → Spec → ℕ × Spec
spec_delete now [] f = (0, f)
spec_delete now (k ∷ ks) f =
    let (n, f') = spec_delete now ks (update k none f) in (if is_free now k f then n else suc n, f')

spec_ttl : ℕ → Option Entry → TtlReply
spec_ttl wall none = missing
spec_ttl wall (some e) = if e.expire_at == 0 then persistent else remaining (sub_ℕ e.expire_at wall)

unfoldable pub spec_step : ℕ → Call → Spec → Reply × Spec
unfolding spec_ttl
spec_step now (gets k) f = (found (read now k f), f)
spec_step now (ttls k wall) f = (lifetime (spec_ttl wall (alive now (f k))), f)
spec_step now (sets k v ttl) f = (done, update k (fresh now v ttl) f)
spec_step now (set_nxs k v ttl) f =
    if is_free now k f then (flag true, update k (fresh now v ttl) f) else (flag false, f)
spec_step now (deletes ks) f = let (n, f') = spec_delete now ks f in (removed n, f')
spec_step now (expires k ttl) f = elim (alive now (f k)) [
  | none ↦ (flag false, f)
  | some e ↦ (flag true, update k (fresh now e.value ttl) f)
]
spec_step now (swaps k old new ttl) f =
    if names now k old f
    then (flag true, update k (fresh now new ttl) f)
    else if is_free now k f
    then if old == 0 then (flag true, update k (fresh now new ttl) f) else (flag false, f)
    else (flag false, f)
spec_step now (compare_deletes k old) f =
    if names now k old f then (flag true, update k none f) else (flag false, f)
spec_step now (compare_expires k old ttl) f =
    if names now k old f then (flag true, update k (fresh now old ttl) f) else (flag false, f)

unfoldable pub spec_run : ℕ → List (ℕ × Call) → Spec → List Reply × Spec
spec_run now [] f = ([], f)
spec_run now ((d, c) ∷ cs) f =
    let (r, f') = spec_step (now + d) c f in
    let (rs, f'') = spec_run (now + d) cs f' in (r ∷ rs, f'')

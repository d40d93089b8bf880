-- ===== src/Coordination/Memory.antt =====
-- internal/coordination/backend/memory.go: the in-memory coordination backend, its key-value part
-- and its sets. Each operation runs under the one mutex, so it is a function of the clock's reading
-- and the state; its `error` result is always nil and is left out. The zero time is 0, and a
-- duration that is not positive is 0 (the code tests `ttl <= 0` only).
pub mod Spec
pub mod Agreement
pub mod Deletion
pub mod Refinement
pub mod Adapter
pub mod Sets
use collaborative_programmin.Base.{
  ℕ, ℤ, sub_ℕ, suc, ◌+◌, ◌-◌, Bool, true, false, not, List, [], ◌∷◌, Option, none, some, ◌==◌, ltb,
  if◌then◌else◌,
}
use collaborative_programmin.Base.Dict.{Dict, lookup, insert, delete}

pub record Entry : Type 0 where
  pub value : ℕ
  pub expire_at : ℕ

pub record Memory : Type 0 where
  pub kv : Dict Entry
  pub sets : Dict (Dict {0} Unit)

unfoldable pub new_memory : Memory
new_memory = record { kv = []; sets = [] }

-- The negation of the test by which `liveLocked` evicts.
abbrev pub is_live : ℕ → Entry → Bool
is_live now e = if e.expire_at == 0 then true else ltb now e.expire_at

evict : ℕ → ℕ → Memory → Option Entry → Option Entry × Memory
evict now key m none = (none, m)
evict now key m (some e) =
    if is_live now e then (some e, m) else (none, record m { kv = delete key m.kv })

unfoldable pub live_locked : ℕ → ℕ → Memory → Option Entry × Memory
unfolding evict
live_locked now key m = evict now key m (lookup key m.kv)

abbrev pub expiry : ℕ → ℕ → ℕ
expiry now ttl = if ttl == 0 then 0 else now + ttl

abbrev write : ℕ → ℕ → ℕ → ℕ → Memory → Memory
write now key value ttl m = record m {
  kv = insert key (record { value = value; expire_at = expiry now ttl }) m.kv;
}

abbrev pub value_of : Option Entry → Option ℕ
value_of none = none
value_of (some e) = some e.value

unfoldable pub get : ℕ → ℕ → Memory → Option ℕ × Memory
unfolding live_locked
get now key m = let (e, m') = live_locked now key m in (value_of e, m')

unfoldable pub set : ℕ → ℕ → ℕ → ℕ → Memory → Memory
set now key value ttl m = write now key value ttl m

set_nx_on : ℕ → ℕ → ℕ → ℕ → Option Entry → Memory → Bool × Memory
set_nx_on now key value ttl (some e) m = (false, m)
set_nx_on now key value ttl none m = (true, write now key value ttl m)

unfoldable pub set_nx : ℕ → ℕ → ℕ → ℕ → Memory → Bool × Memory
unfolding live_locked set_nx_on
set_nx now key value ttl m = let (e, m') = live_locked now key m in set_nx_on now key value ttl e m'

delete_on : ℕ → ℕ → Option Entry → Memory → ℕ × Memory
delete_on n key none m = (n, m)
delete_on n key (some e) m = (suc n, record m { kv = delete key m.kv })

delete_loop : ℕ → ℕ → List ℕ → Memory → ℕ × Memory
unfolding live_locked delete_on
delete_loop now n [] m = (n, m)
delete_loop now n (k ∷ ks) m =
    let (e, m') = live_locked now k m in
    let (n', m'') = delete_on n k e m' in delete_loop now n' ks m''

-- `Delete`: how many of the keys were live, and the state.
unfoldable pub delete_keys : ℕ → List ℕ → Memory → ℕ × Memory
unfolding delete_loop
delete_keys now ks m = delete_loop now 0 ks m

expire_on : ℕ → ℕ → ℕ → Option Entry → Memory → Bool × Memory
expire_on now key ttl none m = (false, m)
expire_on now key ttl (some e) m =
    (true, record m { kv = insert key (record e { expire_at = expiry now ttl }) m.kv })

unfoldable pub expire : ℕ → ℕ → ℕ → Memory → Bool × Memory
unfolding live_locked expire_on
expire now key ttl m = let (e, m') = live_locked now key m in expire_on now key ttl e m'

-- The reply of `TTL`: -2 seconds, -1 second, or the time that is left, which is negative if the entry
-- expires between the two readings of a clock.
pub data TtlReply : Type 0 where
  missing persistent : TtlReply
  remaining : ℤ → TtlReply

ttl_on : ℕ → Option Entry → TtlReply
ttl_on wall none = missing
ttl_on wall (some e) = if e.expire_at == 0 then persistent else remaining (sub_ℕ e.expire_at wall)

-- `TTL`: `wall` is the wall clock, which `time.Until` reads after the backend's own clock.
unfoldable pub ttl_of : ℕ → ℕ → ℕ → Memory → TtlReply × Memory
unfolding live_locked ttl_on
ttl_of now wall key m = let (e, m') = live_locked now key m in (ttl_on wall e, m')

swap_on : ℕ → ℕ → ℕ → ℕ → ℕ → Option Entry → Memory → Bool × Memory
swap_on now key expected new ttl none m =
    if not (expected == 0) then (false, m) else (true, write now key new ttl m)
swap_on now key expected new ttl (some e) m =
    if not (e.value == expected) then (false, m) else (true, write now key new ttl m)

unfoldable pub compare_and_swap : ℕ → ℕ → ℕ → ℕ → ℕ → Memory → Bool × Memory
unfolding live_locked swap_on
compare_and_swap now key expected new ttl m =
    let (e, m') = live_locked now key m in swap_on now key expected new ttl e m'

cad_on : ℕ → ℕ → Option Entry → Memory → Bool × Memory
cad_on key expected none m = (false, m)
cad_on key expected (some e) m =
    if not (e.value == expected) then (false, m) else (true, record m { kv = delete key m.kv })

unfoldable pub compare_and_delete : ℕ → ℕ → ℕ → Memory → Bool × Memory
unfolding live_locked cad_on
compare_and_delete now key expected m =
    let (e, m') = live_locked now key m in cad_on key expected e m'

cae_on : ℕ → ℕ → ℕ → ℕ → Option Entry → Memory → Bool × Memory
cae_on now key expected ttl none m = (false, m)
cae_on now key expected ttl (some e) m =
    if not (e.value == expected)
    then (false, m)
    else (true, record m { kv = insert key (record e { expire_at = expiry now ttl }) m.kv })

unfoldable pub compare_and_expire : ℕ → ℕ → ℕ → ℕ → Memory → Bool × Memory
unfolding live_locked cae_on
compare_and_expire now key expected ttl m =
    let (e, m') = live_locked now key m in cae_on now key expected ttl e m'

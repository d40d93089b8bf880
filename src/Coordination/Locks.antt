-- ===== src/Coordination/Locks.antt =====
-- internal/coordination/locks/locks.go: the lock service over the backend. A lock is a key that
-- holds its owner's token. Minted tokens, the clock's readings and the float product of lease and
-- drift factor are arguments; metrics, logs and events are left out. A call is one step; the code holds
-- no lock over one, and what two calls do in between each other is left out.
pub mod Acquire
pub mod World
pub mod Fencing
pub mod Exclusion
use collaborative_programmin.Base.{
  ℕ, suc, ◌+◌, ◌-◌, Bool, true, false, Option, none, some, ◌==◌, ltb, if◌then◌else◌,
}
use collaborative_programmin.Coordination.Backend.{Backend}

pub record Options : Type 0 where
  pub lease : ℕ
  pub acquire_timeout : ℕ
  pub auto_renew : Bool

pub record Config : Type 0 where
  pub default_lease : ℕ
  pub default_timeout : ℕ

pub record Lock : Type 0 where
  pub resource : ℕ
  pub full_key : ℕ
  pub token : ℕ
  pub lease : ℕ
  pub acquired_at : ℕ
  pub released : Bool
  pub lost : Bool

pub data Error : Type 0 where
  unavailable not_acquired not_held cancelled : Error

pub data Result {ℓ} (A : Type ℓ) : Type ℓ where
  ok : A → Result A
  err : Error → Result A

resolve_with : Options → Option Options → Options
resolve_with o none = o
resolve_with o (some p) = record {
  lease = if ltb 0 p.lease then p.lease else o.lease;
  acquire_timeout = if ltb 0 p.acquire_timeout then p.acquire_timeout else o.acquire_timeout;
  auto_renew = p.auto_renew;
}

unfoldable pub resolve : Config → Option Options → Options
unfolding resolve_with
resolve cfg opts =
    resolve_with
      (record {
        lease = cfg.default_lease;
        acquire_timeout = cfg.default_timeout;
        auto_renew = false;
      })
      opts

-- `at` is the clock when the backend's reply is there.
unfoldable pub new_lock : ℕ → ℕ → ℕ → Options → ℕ → Lock
new_lock resource key token o at = record {
  resource = resource;
  full_key = key;
  token = token;
  lease = o.lease;
  acquired_at = at;
  released = false;
  lost = false;
}

-- `ValidUntil`, for the drift that the float product gives for a lease.
unfoldable pub valid_until : (ℕ → ℕ) → Lock → ℕ
valid_until drift l = l.acquired_at + l.lease - drift l.lease

-- The count `held`, behind the result.
acquired : Lock → ℕ → Option Bool → Result Lock × ℕ
acquired l held none = (err unavailable, held)
acquired l held (some true) = (ok l, suc held)
acquired l held (some false) = (err not_acquired, held)

renewed : Lock → ℕ → ℕ → Option Bool → Option Error × Lock
renewed l lease at none = (some unavailable, l)
renewed l lease at (some false) = (some not_held, record l { lost = true })
renewed l lease at (some true) = (none, record l { lease = lease; acquired_at = at })

released_with : Option Bool → Option Error
released_with none = some unavailable
released_with (some false) = some not_held
released_with (some true) = none

module _ (b : Backend) (lock_key : ℕ → ℕ) (cfg : Config) where
  open b use {Store, set_nx, compare_and_expire, compare_and_delete}

  -- `TryAcquire`: the backend answers at `now`, the reply is there at `at`.
  unfoldable pub try_acquire : ℕ → ℕ → ℕ → ℕ → Option Options → ℕ → Store → Result Lock × ℕ × Store
  unfolding acquired
  try_acquire now at resource token opts held s =
      let o = resolve cfg opts in
      let (r, s') = set_nx now (lock_key resource) token o.lease s in
      let (result, held') = acquired (new_lock resource (lock_key resource) token o at) held r in
      (result, held', s')

  -- `Renew`: no error is `none`. A lease that is not positive asks for the old one.
  unfoldable pub renew : ℕ → ℕ → ℕ → Lock → Store → Option Error × Lock × Store
  unfolding renewed
  renew now at lease l s =
      let lease' = if lease == 0 then l.lease else lease in
      let (r, s') = compare_and_expire now l.full_key l.token lease' s in
      let (e, l') = renewed l lease' at r in
      if l.released then (some not_held, l, s) else (e, l', s')

  -- `Release`: the first call alone goes to the backend, and lowers the count in any case.
  unfoldable pub release : ℕ → ℕ → Lock → Store → Option Error × Lock × ℕ × Store
  unfolding released_with
  release now held l s =
      let (r, s') = compare_and_delete now l.full_key l.token s in
      if l.released
      then (none, l, held, s)
      else (released_with r, record l { released = true }, held - 1, s')

-- ===== src/Coordination/Leader.antt =====
-- internal/coordination/leader: the lease elector (elector.go) over the backend, and the election
-- runtime of one candidate (election.go). The clock at the backend's answer is an argument; metrics
-- and logs are left out. What fires callbacks and bus events is kept in `fired`, newest first. A turn
-- of the loop and a call are one step each; the code holds no lock over one, and what two of them do in
-- between each other is left out.
pub mod Discipline
pub mod Safety
pub mod Cluster
pub mod Sole
pub mod Examples
use collaborative_programmin.Base.{
  ℕ, Bool, true, false, List, [], ◌∷◌, Option, none, some, ◌==◌, if◌then◌else◌,
}
use collaborative_programmin.Coordination.Backend.{Backend}

pub record Config : Type 0 where
  pub lease : ℕ
  pub renew_interval : ℕ
  pub retry_interval : ℕ

pub data Reason : Type 0 where
  shutdown renew_failed resigned transferred : Reason

pub data Fired : Type 0 where
  elected : Fired
  lost : Reason → Fired

-- `leader_id` is 0 where the code stores "".
pub record Election : Type 0 where
  pub scope : ℕ
  pub candidate : ℕ
  pub is_leader : Bool
  pub leader_id : ℕ
  pub fired : List Fired

pub data Error : Type 0 where
  unavailable not_leader leadership_lost : Error

unfoldable pub new_election : ℕ → ℕ → Election
new_election scope candidate = record {
  scope = scope;
  candidate = candidate;
  is_leader = false;
  leader_id = 0;
  fired = [];
}

unfoldable pub transition_won : Election → Election
transition_won e =
    if e.is_leader
    then e
    else record e { is_leader = true; leader_id = e.candidate; fired = elected ∷ e.fired }

unfoldable pub transition_lost : Reason → Election → Election
transition_lost reason e =
    if e.is_leader
    then record e { is_leader = false; leader_id = 0; fired = lost reason ∷ e.fired }
    else e

-- The last step of a lost campaign, and of `Leader`: who leads instead, if the backend knows.
unfoldable pub observe : Option (Option ℕ) → Election → Election
observe none e = e
observe (some none) e = e
observe (some (some v)) e = record e { leader_id = v }

abbrev found_leader : Option (Option ℕ) → Option ℕ
found_leader none = none
found_leader (some v) = v

-- Whether a key that is there names the candidate.
abbrev pub names : ℕ → Option (Option ℕ) → Option Bool
names candidate none = none
names candidate (some none) = some false
names candidate (some (some v)) = some (v == candidate)

pub data Op : Type 0 where
  ticks shuts resigns asks : Op
  transfers : ℕ → Op

module _ (b : Backend) (leader_key : ℕ → ℕ) where
  open b use {Store, get, set_nx, compare_and_expire, compare_and_delete, compare_and_swap}

  unfoldable pub confirm : ℕ → ℕ → ℕ → Option Bool × Store → Option Bool × Store
  confirm now k candidate (none, s) = (none, s)
  confirm now k candidate (some true, s) = (some true, s)
  confirm now k candidate (some false, s) = let (v, s') = get now k s in (names candidate v, s')

  -- `Campaign` of the lease elector: take the key, or find oneself named by it.
  unfoldable pub campaign : ℕ → ℕ → ℕ → ℕ → Store → Option Bool × Store
  unfolding confirm
  campaign now scope candidate lease s =
      confirm now (leader_key scope) candidate (set_nx now (leader_key scope) candidate lease s)

  abbrev pub elector_renew : ℕ → ℕ → ℕ → ℕ → Store → Option Bool × Store
  elector_renew now scope candidate lease s =
      compare_and_expire now (leader_key scope) candidate lease s

  abbrev pub elector_resign : ℕ → ℕ → ℕ → Store → Option Bool × Store
  elector_resign now scope candidate s = compare_and_delete now (leader_key scope) candidate s

  abbrev pub elector_transfer : ℕ → ℕ → ℕ → ℕ → ℕ → Store → Option Bool × Store
  elector_transfer now scope from to lease s =
      compare_and_swap now (leader_key scope) from to lease s

  unfoldable pub campaign_end : ℕ → Config → Election → Option Bool × Store → ℕ × Election × Store
  campaign_end now cfg e (none, s) = (cfg.retry_interval, e, s)
  campaign_end now cfg e (some true, s) = (cfg.renew_interval, transition_won e, s)
  campaign_end now cfg e (some false, s) =
      let (v, s') = get now (leader_key e.scope) s in (cfg.retry_interval, observe v e, s')

  -- How long to wait, the election and the store.
  unfoldable pub campaign_tick : ℕ → Config → Election → Store → ℕ × Election × Store
  unfolding campaign_end observe
  campaign_tick now cfg e s = campaign_end now cfg e (campaign now e.scope e.candidate cfg.lease s)

  unfoldable pub renew_end : Config → Election → Option Bool × Store → ℕ × Election × Store
  renew_end cfg e (none, s) = (cfg.retry_interval, e, s)
  renew_end cfg e (some false, s) = (cfg.retry_interval, transition_lost renew_failed e, s)
  renew_end cfg e (some true, s) = (cfg.renew_interval, e, s)

  unfoldable pub renew_tick : ℕ → Config → Election → Store → ℕ × Election × Store
  unfolding renew_end
  renew_tick now cfg e s = renew_end cfg e (elector_renew now e.scope e.candidate cfg.lease s)

  -- One turn of the loop `run`.
  unfoldable pub tick : ℕ → Config → Election → Store → ℕ × Election × Store
  tick now cfg e s = if e.is_leader then renew_tick now cfg e s else campaign_tick now cfg e s

  -- The end of the loop, when its context is done.
  unfoldable pub shut_down : ℕ → Election → Store → Election × Store
  shut_down now e s =
      let (r, s') = elector_resign now e.scope e.candidate s in
      if e.is_leader then (transition_lost shutdown e, s') else (e, s)

  unfoldable pub resign_end : Election → Option Bool × Store → Option Error × Election × Store
  resign_end e (none, s) = (some unavailable, e, s)
  resign_end e (some r, s) = (none, transition_lost resigned e, s)

  unfoldable pub resign : ℕ → Election → Store → Option Error × Election × Store
  unfolding resign_end
  resign now e s =
      let done = resign_end e (elector_resign now e.scope e.candidate s) in
      if e.is_leader then done else (some not_leader, e, s)

  unfoldable pub transfer_end : Election → Option Bool × Store → Option Error × Election × Store
  transfer_end e (none, s) = (some unavailable, e, s)
  transfer_end e (some false, s) = (some leadership_lost, e, s)
  transfer_end e (some true, s) = (none, transition_lost transferred e, s)

  unfoldable pub transfer : ℕ → Config → ℕ → Election → Store → Option Error × Election × Store
  unfolding transfer_end
  transfer now cfg to e s =
      let done = transfer_end e (elector_transfer now e.scope e.candidate to cfg.lease s) in
      if e.is_leader then done else (some not_leader, e, s)

  -- `Leader`: none stands for an error, of the backend or that there is no leader.
  unfoldable pub leader : ℕ → Election → Store → Option ℕ × Election × Store
  unfolding observe
  leader now e s = let (v, s') = get now (leader_key e.scope) s in (found_leader v, observe v e, s')

  -- What the loop and its callers do to one election.
  unfoldable pub act : ℕ → Config → Op → Election → Store → Election × Store
  act now cfg ticks e s = let (wait, e', s') = tick now cfg e s in (e', s')
  act now cfg shuts e s = shut_down now e s
  act now cfg asks e s = let (found, e', s') = leader now e s in (e', s')
  act now cfg resigns e s = let (err, e', s') = resign now e s in (e', s')
  act now cfg (transfers to) e s = let (err, e', s') = transfer now cfg to e s in (e', s')

  -- A life: at each turn what others did to the store, the clock and what happens to the election.
  unfoldable pub life :
      Config → List ((Store → Store) × ℕ × Op) → Election → Store → Election × Store
  life cfg [] e s = (e, s)
  life cfg ((others, now, op) ∷ ts) e s =
      let (e', s') = act now cfg op e (others s) in life cfg ts e' s'

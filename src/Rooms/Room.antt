-- ===== src/Rooms/Room.antt =====
-- internal/rooms/room/room.go: the room aggregate. Each operation runs under the room's lock, so it
-- is a function of the clock and the room. Names, session ids and connection ids are numbers, 0
-- where the code has ""; metadata is an opaque handle, `none` where it is nil. The handles reserved
-- for later modules (document, presence, execution) are left out.
pub mod Membership
pub mod Invariant
pub mod Transfer
pub mod Ownership
pub mod Effects
pub mod Joins
pub mod Authority
use collaborative_programmin.Base.{
  ℕ, suc, ◌+◌, Bool, true, false, not, ◌&&◌, ◌||◌, List, [], ◌∷◌, Option, none, some, ◌==◌, ltb,
  leb, if◌then◌else◌, length,
}
use collaborative_programmin.Base.Dict.{Dict, lookup, insert, delete, count}
use collaborative_programmin.Rooms.Lifecycle.{
  State, created, waiting, active, idle, closed, destroyed, ◌=ˢ◌, can_transition, validate,
}
use collaborative_programmin.Rooms.Permissions.{
  Role, participant, owner, administrator, at_least, is_valid, Action, kick, transfer_ownership,
  Policy, allows,
}

pub record Config : Type 0 where
  pub max_participants : ℕ
  pub idle_timeout : ℕ
  pub expire_timeout : ℕ
  pub recovery_timeout : ℕ
  pub public_room : Bool

pub record Participant : Type 0 where
  pub user_id : ℕ
  pub role : Role
  pub session_id : ℕ
  pub conn_id : ℕ
  pub joined_at : ℕ
  pub last_seen : ℕ
  pub connected : Bool
  pub metadata : Option ℕ

pub record Room : Type 0 where
  pub id : ℕ
  pub name : ℕ
  pub owner_id : ℕ
  pub state : State
  pub created_at : ℕ
  pub last_activity : ℕ
  pub participants : Dict Participant
  pub policy : Policy
  pub cfg : Config
  pub metadata : Option ℕ

pub data Error : Type 0 where
  room_closed room_full duplicate_participant participant_not_found not_a_participant : Error
  cannot_remove_owner invalid_role already_owner permission_denied invalid_transition : Error

pub data Result {ℓ} (A : Type ℓ) : Type ℓ where
  ok : A → Result A
  err : Error → Result A

pub record Params : Type 0 where
  pub room_id : ℕ
  pub room_name : ℕ
  pub user : ℕ
  pub config : Config
  pub rules : Policy
  pub attributes : Option ℕ
  pub session : ℕ
  pub conn : ℕ
  pub now : ℕ

-- `New`: the owner is the first participant, connected if a connection is given.
unfoldable pub new_room : Params → Room
new_room p = record {
  id = p.room_id;
  name = p.room_name;
  owner_id = p.user;
  state = created;
  created_at = p.now;
  last_activity = p.now;
  participants =
      (
        p.user,
        record {
          user_id = p.user;
          role = owner;
          session_id = p.session;
          conn_id = p.conn;
          joined_at = p.now;
          last_seen = p.now;
          connected = not (p.conn == 0);
          metadata = none;
        },
      )
      ∷ [];
  policy = p.rules;
  cfg = p.config;
  metadata = p.attributes;
}

unfoldable pub connected_count : Room → ℕ
connected_count r = count (λ p. p.connected) r.participants

-- No error is `none`.
unfoldable pub require : Policy → Action → Option Participant → Option Error
require pol a none = some not_a_participant
require pol a (some p) = if allows pol p.role a then none else some permission_denied

unfoldable pub authorize : ℕ → Action → Room → Option Error
unfolding require
authorize actor a r = require r.policy a (lookup actor r.participants)

-- `transitionLocked`: whether there is no error, and the room.
unfoldable pub transition : State → ℕ → Room → Bool × Room
transition to now r =
    if not (validate r.state to) then (false, r) else if r.state =ˢ to then (true, r) else (
      true,
      record r { state = to; last_activity = if to =ˢ active then now else r.last_activity },
    )

unfoldable pub drive_active : ℕ → Room → Bool × Room
drive_active now r =
    if r.state =ˢ active
    then (false, r)
    else if can_transition r.state active
    then (true, record r { state = active; last_activity = now })
    else (false, r)

pub record JoinRequest : Type 0 where
  pub user : ℕ
  pub role : Role
  pub session : ℕ
  pub conn : ℕ
  pub attributes : Option ℕ

pub record JoinResult : Type 0 where
  pub joined : Participant
  pub reconnected : Bool
  pub state_changed : Bool
  pub previous : State
  pub new_state : State

unfoldable pub or_else : Option ℕ → Option ℕ → Option ℕ
or_else none o = o
or_else (some a) o = some a

-- A member that was disconnected, with its new binding.
unfoldable pub rebound : JoinRequest → ℕ → Participant → Participant
unfolding or_else
rebound q now p = record p {
  connected = true;
  session_id = q.session;
  conn_id = q.conn;
  last_seen = now;
  metadata = or_else q.attributes p.metadata;
}

unfoldable pub newcomer : JoinRequest → ℕ → Participant
newcomer q now = record {
  user_id = q.user;
  role = q.role;
  session_id = q.session;
  conn_id = q.conn;
  joined_at = now;
  last_seen = now;
  connected = true;
  metadata = q.attributes;
}

abbrev pub is_full : Room → Bool
is_full r = ltb 0 r.cfg.max_participants && leb r.cfg.max_participants (length r.participants)

-- The common end of both ways to join.
unfoldable pub enter : Participant → Bool → JoinRequest → ℕ → Room → Result JoinResult × Room
enter p again q now r =
    let (changed, r') =
      drive_active now
        (record r { participants = insert q.user p r.participants; last_activity = now }) in
    (
      ok (record {
        joined = p;
        reconnected = again;
        state_changed = changed;
        previous = r.state;
        new_state = r'.state;
      }),
      r',
    )

unfoldable pub join_as : JoinRequest → ℕ → Room → Option Participant → Result JoinResult × Room
unfolding enter
join_as q now r (some p) =
    if p.connected then (err duplicate_participant, r) else enter (rebound q now p) true q now r
join_as q now r none =
    if is_full r then (err room_full, r) else enter (newcomer q now) false q now r

unfoldable pub join : JoinRequest → ℕ → Room → Result JoinResult × Room
unfolding join_as
join q now r =
    if not (is_valid q.role)
    then (err invalid_role, r)
    else if r.state =ˢ closed || r.state =ˢ destroyed
    then (err room_closed, r)
    else join_as q now r (lookup q.user r.participants)

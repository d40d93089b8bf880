-- ===== src/Rooms/Room/Membership.antt =====
-- The other operations of internal/rooms/room/room.go: leaving, kicking, handing over, connection
-- changes, activity and lifecycle moves; and all operations as steps of a history.
use collaborative_programmin.Base.{
  ℕ, Bool, true, false, not, ◌&&◌, ◌||◌, List, [], ◌∷◌, Option, none, some, ◌==◌, if◌then◌else◌,
  length,
}
use collaborative_programmin.Base.Dict.{Dict, lookup, insert, delete}
use collaborative_programmin.Rooms.Lifecycle.{State, waiting, active, idle, ◌=ˢ◌}
use collaborative_programmin.Rooms.Permissions.{
  participant, owner, administrator, at_least, kick, transfer_ownership,
}
use collaborative_programmin.Rooms.Room.{
  Participant, Room, Error, participant_not_found, cannot_remove_owner, already_owner, Result, ok,
  err, connected_count, authorize, transition, drive_active, JoinRequest, join,
}

pub record LeaveResult : Type 0 where
  pub left : Participant
  pub owner_left : Bool
  pub empty : Bool
  pub state_changed : Bool
  pub previous : State
  pub new_state : State

-- The drift to waiting, when nobody is connected any more.
unfoldable pub drift : ℕ → Room → Bool × Room
drift now r =
    if connected_count r == 0 && (r.state =ˢ active || r.state =ˢ idle)
    then transition waiting now r
    else (false, r)

unfoldable pub remove_as : ℕ → ℕ → Room → Option Participant → Result LeaveResult × Room
unfolding drift
remove_as user now r none = (err participant_not_found, r)
remove_as user now r (some p) =
    let parts = delete user r.participants in
    let (changed, r') = drift now (record r { participants = parts; last_activity = now }) in
    (
      ok (record {
        left = p;
        owner_left = user == r.owner_id;
        empty = length parts == 0;
        state_changed = changed;
        previous = r.state;
        new_state = r'.state;
      }),
      r',
    )

-- `removeLocked`, which is all that `Leave` does.
unfoldable pub leave : ℕ → ℕ → Room → Result LeaveResult × Room
unfolding remove_as
leave user now r = remove_as user now r (lookup user r.participants)

unfoldable pub is_admin : Option Participant → Bool
is_admin none = false
is_admin (some p) = at_least p.role administrator

unfoldable pub remove_checked : Option Error → ℕ → ℕ → ℕ → Room → Result LeaveResult × Room
unfolding is_admin
remove_checked (some e) actor target now r = (err e, r)
remove_checked none actor target now r =
    if target == r.owner_id && not (is_admin (lookup actor r.participants))
    then (err cannot_remove_owner, r)
    else leave target now r

-- `Remove`: a kick.
unfoldable pub remove : ℕ → ℕ → ℕ → Room → Result LeaveResult × Room
unfolding remove_checked
remove actor target now r = remove_checked (authorize actor kick r) actor target now r

pub record TransferResult : Type 0 where
  pub previous_owner : ℕ
  pub new_owner : ℕ

unfoldable pub demote : ℕ → Option Participant → Dict Participant → Dict Participant
demote id none ps = ps
demote id (some p) ps = insert id (record p { role = participant }) ps

unfoldable pub hand_over : ℕ → ℕ → Room → Option Participant → Result TransferResult × Room
unfolding demote
hand_over to now r none = (err participant_not_found, r)
hand_over to now r (some p) =
    let demoted = demote r.owner_id (lookup r.owner_id r.participants) r.participants in
    (
      ok (record { previous_owner = r.owner_id; new_owner = to }),
      record r {
        participants = insert to (record p { role = owner }) demoted;
        owner_id = to;
        last_activity = now;
      },
    )

unfoldable pub transfer_checked : Option Error → ℕ → ℕ → Room → Result TransferResult × Room
unfolding hand_over
transfer_checked (some e) to now r = (err e, r)
transfer_checked none to now r =
    if to == r.owner_id
    then (err already_owner, r)
    else hand_over to now r (lookup to r.participants)

unfoldable pub transfer : ℕ → ℕ → ℕ → Room → Result TransferResult × Room
unfolding transfer_checked
transfer actor to now r = transfer_checked (authorize actor transfer_ownership r) to now r

unfoldable pub bind : Bool → ℕ → ℕ → ℕ → Participant → Participant
bind true conn session now p = record p {
  connected = true;
  last_seen = now;
  conn_id = conn;
  session_id = session;
}
bind false conn session now p = record p { connected = false; last_seen = now; conn_id = 0 }

unfoldable pub connect_as :
    ℕ → Bool → ℕ → ℕ → ℕ → Room → Option Participant → Option (Participant × Bool) × Room
unfolding bind
connect_as user up conn session now r none = (none, r)
connect_as user up conn session now r (some p) =
    let p' = bind up conn session now p in
    let r' = record r {
      participants = insert user p' r.participants;
      last_activity = if up then now else r.last_activity;
    } in
    (some (p', not up && connected_count r' == 0), r')

-- `SetConnected`: the member, if there is one, and whether nobody is connected any more.
unfoldable pub set_connected : ℕ → Bool → ℕ → ℕ → ℕ → Room → Option (Participant × Bool) × Room
unfolding connect_as
set_connected user up conn session now r =
    connect_as user up conn session now r (lookup user r.participants)

unfoldable pub touch : ℕ → Room → Bool × Room
touch now r = drive_active now (record r { last_activity = now })

pub data Call : Type 0 where
  joins : JoinRequest → Call
  leaves : ℕ → Call
  kicks hands_over : ℕ → ℕ → Call
  connects : (user : ℕ) → Bool → (conn session : ℕ) → Call
  touches : Call
  moves : State → Call

unfoldable pub step : ℕ → Call → Room → Room
step now (joins q) r = (join q now r).1
step now (leaves u) r = (leave u now r).1
step now (kicks a u) r = (remove a u now r).1
step now (hands_over a u) r = (transfer a u now r).1
step now (connects u up conn session) r = (set_connected u up conn session now r).1
step now touches r = (touch now r).1
step now (moves to) r = (transition to now r).1

-- A history of calls with the clock at each.
unfoldable pub run : List (ℕ × Call) → Room → Room
run [] r = r
run ((now, c) ∷ cs) r = run cs (step now c r)

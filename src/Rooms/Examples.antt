-- ===== src/Rooms/Examples.antt =====
-- Rooms at work: concrete rooms on which the theorems about internal/rooms are applied.
use mathlib.Core.Option
use collaborative_programmin.Base.{
  ℕ, ◌≡◌, ◌≢◌, ◌⊎◌, inl, refl, true, false, [], ◌∷◌, none, some, arith, ◌==◌, if◌then◌else◌,
}
use collaborative_programmin.Base.Dict.{lookup, insert, delete, count}
use collaborative_programmin.Rooms.Lifecycle.{created, active, closed, can_transition}
use collaborative_programmin.Rooms.Lifecycle.Graph.{Ended}
use collaborative_programmin.Rooms.Permissions.{
  participant, owner, administrator, kick, default_policy, rank, at_least, is_valid,
  transfer_ownership, requirement, allows,
}
use collaborative_programmin.Rooms.Room.{
  Config, Room, Participant, Params, new_room, JoinRequest, JoinResult, newcomer, rebound,
  transition, drive_active, authorize, connected_count, join, ok,
}
use collaborative_programmin.Rooms.Room.Membership.{
  drift, set_connected, touch, joins, leaves, hands_over, moves, LeaveResult, TransferResult,
  connects, step, run, leave, remove, transfer,
}
use collaborative_programmin.Rooms.Room.Invariant.{IsValid, run-new-IsValid}
use collaborative_programmin.Rooms.Room.Transfer.{transfer_ok}
use collaborative_programmin.Rooms.Room.Ownership.{IsSole, run-new-IsSole}
use collaborative_programmin.Rooms.Room.Effects.{closed_for_good}
use collaborative_programmin.Rooms.Room.Joins.{join_new}
use collaborative_programmin.Rooms.Room.Authority.{Clean, Deserted, failure_unchanged, remove_ok}

abbrev small : Config
small = record {
  max_participants = 2;
  idle_timeout = 30;
  expire_timeout = 60;
  recovery_timeout = 10;
  public_room = true;
}

abbrev params : Params
params = record {
  room_id = 1;
  room_name = 2;
  user = 10;
  config = small;
  rules = default_policy;
  attributes = none;
  session = 5;
  conn = 6;
  now = 100;
}

abbrev request : ℕ → JoinRequest
request u = record { user = u; role = participant; session = 7; conn = 8; attributes = none }

abbrev opened : Room
opened = new_room params

abbrev pair : Room
pair = run ((110, joins (request 11)) ∷ []) opened

abbrev away : Room
away = run ((120, connects 11 false 0 0) ∷ []) pair

abbrev shut : Room
shut = run ((130, moves closed) ∷ []) pair

-- A third user does not fit into a room for two.
third_refused : (join (request 12) 115 pair).1 ≡ pair
unfolding insert delete count run step join leave remove transfer set_connected touch new_room rank
    is_valid lookup drive_active transition can_transition newcomer rebound authorize default_policy
    connected_count drift allows requirement at_least
third_refused = refl

run-new-IsValid_example : IsValid (
    run
      ((110, joins (request 11))
        ∷ (111, joins (request 12))
        ∷ (112, hands_over 10 11)
        ∷ (113, leaves 10)
        ∷ [])
      opened)
run-new-IsValid_example = run-new-IsValid params (
    (110, joins (request 11))
    ∷ (111, joins (request 12))
    ∷ (112, hands_over 10 11)
    ∷ (113, leaves 10)
    ∷ [])

run-new-IsSole_example :
    IsSole
      (run ((110, joins (request 11)) ∷ (112, hands_over 10 11) ∷ (113, leaves 10) ∷ []) opened)
unfolding rank
run-new-IsSole_example =
    run-new-IsSole params
      ((110, joins (request 11)) ∷ (112, hands_over 10 11) ∷ (113, leaves 10) ∷ [])
      (omega arith, (tt, (tt, tt)))

abbrev told_new : JoinResult
told_new = record {
  joined = newcomer (request 11) 110;
  reconnected = false;
  state_changed = true;
  previous = created;
  new_state = active;
}

join_new_example :
    (¬ Ended opened.state)
    × ((join (request 11) 110 opened).1.state ≡ active)
    × (told_new.reconnected ≡ false)
    × (lookup 11 (join (request 11) 110 opened).1.participants ≡ (
        if 11 == 11
        then some (record {
          user_id = 11;
          role = (request 11).role;
          session_id = (request 11).session;
          conn_id = (request 11).conn;
          joined_at = 110;
          last_seen = 110;
          connected = true;
          metadata = (request 11).attributes;
        })
        else lookup 11 opened.participants))
unfolding insert delete count run step join leave remove transfer set_connected touch new_room rank
    is_valid lookup drive_active transition can_transition newcomer rebound authorize default_policy
    connected_count drift allows requirement at_least
join_new_example = join_new (request 11) 110 opened told_new 11 refl refl

abbrev member : Participant
member = record (newcomer (request 11) 110) { connected = false; last_seen = 120; conn_id = 0 }

abbrev told_again : JoinResult
told_again = record {
  joined = rebound (request 11) 125 member;
  reconnected = true;
  state_changed = false;
  previous = active;
  new_state = active;
}

closed_for_good_example :
    Ended (run ((140, leaves 11) ∷ []) shut).state
    × ((join (request 12) 150 (run ((140, leaves 11) ∷ []) shut)).0 ≢ ok told_new)
unfolding insert delete count run step join leave remove transfer set_connected touch new_room rank
    is_valid lookup drive_active transition can_transition newcomer rebound authorize default_policy
    connected_count drift allows requirement at_least
closed_for_good_example =
    closed_for_good ((140, leaves 11) ∷ []) shut (request 12) 150 told_new (inl refl)

failure_unchanged_example :
    Clean pair (join (request 12) 115 pair)
    × Clean pair (leave 12 115 pair)
    × Clean pair (remove 10 12 115 pair)
    × Clean pair (transfer 10 12 115 pair)
failure_unchanged_example = failure_unchanged (request 12) 10 12 115 pair

abbrev told_left : LeaveResult
told_left = record {
  left = newcomer (request 11) 110;
  owner_left = false;
  empty = false;
  state_changed = false;
  previous = active;
  new_state = active;
}

remove_ok_example :
    ((p : Participant) × (lookup 10 pair.participants ≡ some p)
      × (allows pair.policy p.role kick ≡ true)
      × ((11 ≢ pair.owner_id) ⊎ (at_least p.role administrator ≡ true)))
    × (lookup 11 pair.participants ≡ some told_left.left)
    × (lookup 10 (remove 10 11 140 pair).1.participants
        ≡ (if 11 == 10 then none else lookup 10 pair.participants))
    × (¬ Deserted (remove 10 11 140 pair).1)
unfolding insert delete count run step join leave remove transfer set_connected touch new_room rank
    is_valid lookup drive_active transition can_transition newcomer rebound authorize default_policy
    connected_count drift allows requirement at_least
remove_ok_example = remove_ok 10 11 140 pair told_left 10 refl

abbrev told_transfer : TransferResult
told_transfer = record { previous_owner = 10; new_owner = 11 }

transfer_ok_example :
    ((p : Participant) × (lookup 10 pair.participants ≡ some p)
      × (allows pair.policy p.role transfer_ownership ≡ true))
    × (11 ≢ pair.owner_id)
    × ((transfer 10 11 140 pair).1.owner_id ≡ 11)
    × ((p : Participant) × (lookup 11 pair.participants ≡ some p)
        × (lookup 10 (transfer 10 11 140 pair).1.participants ≡ (
            if 11 == 10
            then some (record p { role = owner })
            else if pair.owner_id == 10
            then Option.map
                (λ (x : Participant). record x { role = participant })
                (lookup pair.owner_id pair.participants)
            else lookup 10 pair.participants)))
unfolding insert delete count run step join leave remove transfer set_connected touch new_room rank
    is_valid lookup drive_active transition can_transition newcomer rebound authorize default_policy
    connected_count drift allows requirement at_least
transfer_ok_example = transfer_ok 10 11 140 10 pair told_transfer refl

-- ===== src/Rooms/Room/Effects.antt =====
-- How the operations of a room move its state.
use collaborative_programmin.Base.{
  ℕ, ◌≡◌, ◌≢◌, Bool, true, List, [], ◌∷◌, Option, none, some, arith,
}
use collaborative_programmin.Base.Dict.{lookup, insert, delete}
use collaborative_programmin.Rooms.Lifecycle.{State, waiting, can_transition}
use collaborative_programmin.Rooms.Lifecycle.Graph.{Ended, Ended-step}
use collaborative_programmin.Rooms.Room.{
  Participant, Room, Error, ok, transition, drive_active, JoinRequest, JoinResult, rebound,
  newcomer, enter, join_as, join,
}
use collaborative_programmin.Rooms.Room.Membership.{
  drift, remove_as, leave, remove_checked, remove, hand_over, transfer_checked, transfer,
  connect_as, set_connected, touch, Call, joins, leaves, kicks, hands_over, connects, touches,
  moves, step, run,
}

abbrev Legal : Room → Room → Type 0
Legal r r' = can_transition r.state r'.state ≡ true

transition-Legal : (to : State) (now : ℕ) (r : Room) → Legal r (transition to now r).1
unfolding transition can_transition
transition-Legal to now r = ground arith

drive_active-Legal : (now : ℕ) (r : Room) → Legal r (drive_active now r).1
unfolding drive_active can_transition
drive_active-Legal now r = ground arith

stay_legal : (s : State) → can_transition s s ≡ true
unfolding can_transition
stay_legal s = ground arith

join_as-Legal :
    (q : JoinRequest) (now : ℕ) (r : Room) (o : Option Participant) → Legal r (join_as q now r o).1
unfolding join_as enter
join_as-Legal q now r none = ground (
  arith,
  stay_legal r.state,
  drive_active-Legal now (record r {
    participants = insert q.user (newcomer q now) r.participants;
    last_activity = now;
  }),
)
join_as-Legal q now r (some p) = ground (
  arith,
  stay_legal r.state,
  drive_active-Legal now (record r {
    participants = insert q.user (rebound q now p) r.participants;
    last_activity = now;
  }),
)

remove_as-Legal : (u now : ℕ) (r : Room) (o : Option Participant) → Legal r (remove_as u now r o).1
unfolding remove_as drift
remove_as-Legal u now r none = stay_legal r.state
remove_as-Legal u now r (some p) = ground (
  arith,
  stay_legal r.state,
  transition-Legal waiting now
      (record r { participants = delete u r.participants; last_activity = now }),
)

hand_over-Legal :
    (to now : ℕ) (r : Room) (o : Option Participant) → Legal r (hand_over to now r o).1
unfolding hand_over
hand_over-Legal to now r none = stay_legal r.state
hand_over-Legal to now r (some p) = stay_legal r.state

connect_as-Legal :
    (u : ℕ) (up : Bool) (conn session now : ℕ) (r : Room) (o : Option Participant)
    → Legal r (connect_as u up conn session now r o).1
unfolding connect_as
connect_as-Legal u up conn session now r none = stay_legal r.state
connect_as-Legal u up conn session now r (some p) = stay_legal r.state

remove_checked-Legal :
    (e : Option Error) (a u now : ℕ) (r : Room) → Legal r (remove_checked e a u now r).1
unfolding remove_checked leave
remove_checked-Legal (some e) a u now r = stay_legal r.state
remove_checked-Legal none a u now r =
    ground (arith, stay_legal r.state, remove_as-Legal u now r (lookup u r.participants))

transfer_checked-Legal :
    (e : Option Error) (u now : ℕ) (r : Room) → Legal r (transfer_checked e u now r).1
unfolding transfer_checked
transfer_checked-Legal (some e) u now r = stay_legal r.state
transfer_checked-Legal none u now r =
    ground (arith, stay_legal r.state, hand_over-Legal u now r (lookup u r.participants))

-- Every operation moves the state along an edge of the lifecycle graph, or leaves it where it is.
pub step_legal :
    (now : ℕ) (c : Call) (r : Room) → can_transition r.state (step now c r).state ≡ true
unfolding step join leave remove transfer set_connected touch
step_legal now (joins q) r =
    ground (arith, stay_legal r.state, join_as-Legal q now r (lookup q.user r.participants))
step_legal now (leaves u) r = remove_as-Legal u now r (lookup u r.participants)
step_legal now (kicks a u) r = remove_checked-Legal _ a u now r
step_legal now (hands_over a u) r = transfer_checked-Legal _ u now r
step_legal now (connects u up conn session) r =
    connect_as-Legal u up conn session now r (lookup u r.participants)
step_legal now touches r = drive_active-Legal now (record r { last_activity = now })
step_legal now (moves to) r = transition-Legal to now r

run-Ended : (cs : List (ℕ × Call)) (r : Room) → Ended r.state → Ended (run cs r).state
unfolding run
run-Ended [] r h = h
run-Ended ((now, c) ∷ cs) r h =
    run-Ended cs (step now c r) (Ended-step r.state (step now c r).state h (step_legal now c r))

join-Ended :
    (q : JoinRequest) (now : ℕ) (r : Room) (res : JoinResult)
    → Ended r.state
    → (join q now r).0 ≢ ok res
unfolding join
join-Ended q now r res h = ground arith

-- A room that is closed stays closed or destroyed through every history of operations, and lets
-- nobody in after it.
pub closed_for_good :
    (cs : List (ℕ × Call)) (r : Room) (q : JoinRequest) (now : ℕ) (res : JoinResult)
    → Ended r.state
    → Ended (run cs r).state × ((join q now (run cs r)).0 ≢ ok res)
closed_for_good cs r q now res h =
    (run-Ended cs r h, join-Ended q now (run cs r) res (run-Ended cs r h))

-- ===== src/Rooms/Room/Invariant.antt =====
-- What holds of a room after every history of calls.
use mathlib.Core.Path.{subst₂}
use collaborative_programmin.Base.{
  ℕ, ◌≤◌, ◌<◌, ◌≡◌, refl, Bool, true, false, List, [], ◌∷◌, Option, none, some, arith, ◌==◌, length,
  if_cases, not, ◌||◌, ◌∙◌, ap, sym, ◌&&◌,
}
use collaborative_programmin.Base.Dict.{
  Dict, lookup, insert, delete, Distinct, lookup-insert, lookup-delete, insert-Distinct,
  delete-Distinct, length-insert_new, length-insert_old, length-delete,
}
use collaborative_programmin.Rooms.Lifecycle.{State, ◌=ˢ◌, closed, destroyed, waiting}
use collaborative_programmin.Rooms.Permissions.{participant, is_valid}
use collaborative_programmin.Rooms.Room.{
  Participant, Room, Error, Params, new_room, transition, drive_active, JoinRequest, Result,
  rebound, newcomer, is_full, enter, join_as, join,
}
use collaborative_programmin.Rooms.Room.Membership.{
  drift, is_admin, remove_as, leave, remove_checked, remove, demote, hand_over, transfer_checked,
  transfer, bind, connect_as, set_connected, touch, Call, joins, leaves, kicks, hands_over,
  connects, touches, moves, step, run,
}

-- The members are filed under their own ids, each once, and no more than the capacity allows for.
pub record Members (max : ℕ) (ps : Dict Participant) : Type 0 where
  pub distinct : Distinct ps
  pub filed : (k : ℕ) (p : Participant) → lookup k ps ≡ some p → p.user_id ≡ k
  pub fits : 0 < max → length ps ≤ max

abbrev pub IsValid : Room → Type 0
IsValid r = Members r.cfg.max_participants r.participants

insert_old :
    (max k : ℕ) (p q : Participant) (ps : Dict Participant)
    → lookup k ps ≡ some p
    → q.user_id ≡ p.user_id
    → Members max ps
    → Members max (insert k q ps)
insert_old max k p q ps e same v = record {
  distinct = insert-Distinct k q ps v.distinct;
  filed = λ j x h. ground (arith, lookup-insert k j q ps, v.filed j x, v.filed k p);
  fits = λ h. ground (arith, length-insert_old k q p ps e, v.fits h);
}

insert_new :
    (max k : ℕ) (q : Participant) (ps : Dict Participant)
    → lookup k ps ≡ none
    → q.user_id ≡ k
    → (0 < max → length ps < max)
    → Members max ps
    → Members max (insert k q ps)
insert_new max k q ps e is room v = record {
  distinct = insert-Distinct k q ps v.distinct;
  filed = λ j x h. ground (arith, lookup-insert k j q ps, v.filed j x);
  fits = λ h. ground (arith, length-insert_new k q ps e, room h);
}

delete_old :
    (max k : ℕ) (p : Participant) (ps : Dict Participant)
    → lookup k ps ≡ some p
    → Members max ps
    → Members max (delete k ps)
delete_old max k p ps e v = record {
  distinct = delete-Distinct k ps v.distinct;
  filed = λ j x h. ground (arith, lookup-delete k j ps, v.filed j x);
  fits = λ h. ground (arith, length-delete k p ps v.distinct e, v.fits h);
}

-- What a state change leaves alone.
abbrev pub SameMembers : Room → Room → Type 0
SameMembers r r' =
    (r'.participants ≡ r.participants)
    × (r'.cfg ≡ r.cfg)
    × (r'.owner_id ≡ r.owner_id)
    × (r'.policy ≡ r.policy)

pub transition-members : (to : State) (now : ℕ) (r : Room) → SameMembers r (transition to now r).1
unfolding transition
transition-members to now r = ground arith

pub drive_active-members : (now : ℕ) (r : Room) → SameMembers r (drive_active now r).1
unfolding drive_active
drive_active-members now r = ground arith

pub drift-members : (now : ℕ) (r : Room) → SameMembers r (drift now r).1
unfolding drift
drift-members now r = ground (arith, transition-members waiting now r)

carry : (r r' : Room) → SameMembers r r' → IsValid r → IsValid r'
carry r r' s v = subst₂ Members (ap (λ c. c.max_participants) (sym s.1)) (sym s.0) v

drive_active-IsValid : (now : ℕ) (r : Room) → IsValid r → IsValid (drive_active now r).1
drive_active-IsValid now r v = carry r (drive_active now r).1 (drive_active-members now r) v

drift-IsValid : (now : ℕ) (r : Room) → IsValid r → IsValid (drift now r).1
drift-IsValid now r v = carry r (drift now r).1 (drift-members now r) v

abbrev joined : Participant → JoinRequest → ℕ → Room → Room
joined p q now r = record r { participants = insert q.user p r.participants; last_activity = now }

abbrev AfterIsValid : {A : Type 0} → Result A × Room → Type 0
AfterIsValid x = IsValid x.1

join_as-IsValid :
    (q : JoinRequest) (now : ℕ) (r : Room) (o : Option Participant)
    → lookup q.user r.participants ≡ o
    → IsValid r
    → IsValid (join_as q now r o).1
unfolding join_as enter
join_as-IsValid q now r none e v =
    if_cases AfterIsValid (is_full r) _ _ (λ _. v)
      λ room. drive_active-IsValid now (joined (newcomer q now) q now r) (
        insert_new _ q.user (newcomer q now) r.participants e (unfold newcomer in refl)
          (λ h. ground arith) v)
join_as-IsValid q now r (some p) e v =
    if_cases AfterIsValid p.connected _ _ (λ _. v)
      λ down.
        drive_active-IsValid now (joined (rebound q now p) q now r)
          (insert_old _ q.user p (rebound q now p) r.participants e (unfold rebound in refl) v)

join-IsValid : (q : JoinRequest) (now : ℕ) (r : Room) → IsValid r → IsValid (join q now r).1
unfolding join
join-IsValid q now r v =
    if_cases AfterIsValid (not (is_valid q.role)) _ _ (λ _. v)
      λ _.
        if_cases AfterIsValid (r.state =ˢ closed || r.state =ˢ destroyed) _ _ (λ _. v)
          λ _. join_as-IsValid q now r _ refl v

remove_as-IsValid :
    (user now : ℕ) (r : Room) (o : Option Participant)
    → lookup user r.participants ≡ o
    → IsValid r
    → IsValid (remove_as user now r o).1
unfolding remove_as
remove_as-IsValid user now r none e v = v
remove_as-IsValid user now r (some p) e v =
    let r' = record r { participants = delete user r.participants; last_activity = now } in
    drift-IsValid now r' (delete_old _ user p r.participants e v)

leave-IsValid : (user now : ℕ) (r : Room) → IsValid r → IsValid (leave user now r).1
unfolding leave
leave-IsValid user now r v = remove_as-IsValid user now r _ refl v

remove_checked-IsValid :
    (e : Option Error) (actor target now : ℕ) (r : Room)
    → IsValid r
    → IsValid (remove_checked e actor target now r).1
unfolding remove_checked
remove_checked-IsValid (some e) actor target now r v = v
remove_checked-IsValid none actor target now r v =
    if_cases AfterIsValid (target == r.owner_id && not (is_admin (lookup actor r.participants))) _ _
      (λ _. v) λ _. leave-IsValid target now r v

demote-Members :
    (max id : ℕ) (o : Option Participant) (ps : Dict Participant)
    → lookup id ps ≡ o
    → Members max ps
    → Members max (demote id o ps)
unfolding demote
demote-Members max id none ps e v = v
demote-Members max id (some p) ps e v = insert_old max id p _ ps e refl v

lookup-demote :
    (id k : ℕ) (o : Option Participant) (ps : Dict Participant)
    → (id == k) ≡ false
    → lookup k (demote id o ps) ≡ lookup k ps
unfolding demote
lookup-demote id k none ps ne = refl
lookup-demote id k (some p) ps ne =
    ground (arith, lookup-insert id k (record p { role = participant }) ps)

hand_over-IsValid :
    (to now : ℕ) (r : Room) (o : Option Participant)
    → (to == r.owner_id) ≡ false
    → lookup to r.participants ≡ o
    → IsValid r
    → IsValid (hand_over to now r o).1
unfolding hand_over
hand_over-IsValid to now r none ne e v = v
hand_over-IsValid to now r (some p) ne e v =
    insert_old _ to p _ _ (lookup-demote r.owner_id to _ r.participants (ground arith) ∙ e) refl
      (demote-Members _ r.owner_id _ r.participants refl v)

transfer_checked-IsValid :
    (e : Option Error) (to now : ℕ) (r : Room) → IsValid r → IsValid (transfer_checked e to now r).1
unfolding transfer_checked
transfer_checked-IsValid (some e) to now r v = v
transfer_checked-IsValid none to now r v =
    if_cases AfterIsValid (to == r.owner_id) _ _ (λ _. v)
      λ ne. hand_over-IsValid to now r _ ne refl v

bind_id :
    (up : Bool) (conn session now : ℕ) (p : Participant)
    → (bind up conn session now p).user_id ≡ p.user_id
unfolding bind
bind_id true conn session now p = refl
bind_id false conn session now p = refl

connect_as-IsValid :
    (user : ℕ) (up : Bool) (conn session now : ℕ) (r : Room) (o : Option Participant)
    → lookup user r.participants ≡ o
    → IsValid r
    → IsValid (connect_as user up conn session now r o).1
unfolding connect_as
connect_as-IsValid user up conn session now r none e v = v
connect_as-IsValid user up conn session now r (some p) e v =
    insert_old _ user p _ r.participants e (bind_id up conn session now p) v

-- Every operation keeps the members of a room filed under their own ids, each once, and their number
-- within the capacity.
pub step-IsValid : (now : ℕ) (c : Call) (r : Room) → IsValid r → IsValid (step now c r)
unfolding step remove transfer set_connected touch
step-IsValid now (joins q) r v = join-IsValid q now r v
step-IsValid now (leaves u) r v = leave-IsValid u now r v
step-IsValid now (kicks a u) r v = remove_checked-IsValid _ a u now r v
step-IsValid now (hands_over a u) r v = transfer_checked-IsValid _ u now r v
step-IsValid now (connects u up conn session) r v =
    connect_as-IsValid u up conn session now r _ refl v
step-IsValid now touches r v = drive_active-IsValid now (record r { last_activity = now }) v
step-IsValid now (moves to) r v = carry r (transition to now r).1 (transition-members to now r) v

run-IsValid : (cs : List (ℕ × Call)) (r : Room) → IsValid r → IsValid (run cs r)
unfolding run
run-IsValid [] r v = v
run-IsValid ((now, c) ∷ cs) r v = run-IsValid cs (step now c r) (step-IsValid now c r v)

-- A room that was made by `New` has, after any history of operations, every member filed under its
-- own id, once, and, if it has a capacity, at most that many members.
pub run-new-IsValid : (p : Params) (cs : List (ℕ × Call)) → IsValid (run cs (new_room p))
unfolding new_room lookup
run-new-IsValid p cs =
    run-IsValid cs (new_room p)
      (record { distinct = (refl, tt); filed = λ k x h. ground arith; fits = λ h. omega arith })

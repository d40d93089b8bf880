-- ===== src/Rooms/Room/Ownership.antt =====
-- The owners of a room over its histories.
use mathlib.Core.Option
use collaborative_programmin.Base.{
  ℕ, ◌≤◌, ◌<◌, ◌≡◌, refl, Bool, true, false, not, ◌&&◌, ◌||◌, List, [], ◌∷◌, Option, none, some,
  arith, ◌==◌, if◌then◌else◌, if_cases, All, ap, sym, ◌∙◌,
}
use collaborative_programmin.Base.Dict.{lookup, insert, delete, lookup-insert, lookup-delete}
use collaborative_programmin.Rooms.Lifecycle.{closed, destroyed, ◌=ˢ◌}
use collaborative_programmin.Rooms.Permissions.{
  rank, is_valid, participant, owner, kick, transfer_ownership,
}
use collaborative_programmin.Rooms.Room.{
  Participant, Room, Params, new_room, Error, is_full, Result, transition, drive_active, authorize,
  JoinRequest, rebound, newcomer, enter, join_as, join,
}
use collaborative_programmin.Rooms.Room.Invariant.{
  SameMembers, transition-members, drive_active-members, drift-members,
}
use collaborative_programmin.Rooms.Room.Membership.{
  drift, remove_as, leave, is_admin, remove_checked, remove, demote, hand_over, transfer_checked,
  transfer, bind, connect_as, set_connected, touch, Call, joins, leaves, kicks, hands_over,
  connects, touches, moves, step, run,
}
use collaborative_programmin.Rooms.Room.Transfer.{lookup-demote}

-- Nobody but the owner has the owner's rank or a higher one.
abbrev pub IsSole : Room → Type 0
IsSole r =
    (k : ℕ) (p : Participant) → lookup k r.participants ≡ some p → 4 ≤ rank p.role → k ≡ r.owner_id

-- A join that asks for less than the owner's rank; any other operation.
abbrev pub IsModest : Call → Type 0
IsModest (joins q) = rank q.role < 4
IsModest (leaves u) = Unit
IsModest (kicks a u) = Unit
IsModest (hands_over a u) = Unit
IsModest (connects u up conn session) = Unit
IsModest touches = Unit
IsModest (moves to) = Unit

carry-IsSole : (r r' : Room) → SameMembers r r' → IsSole r → IsSole r'
carry-IsSole r r' s v k p e h = v k p (ap (lookup k) (sym s.0) ∙ e) h ∙ sym s.2

abbrev AfterIsSole : {A : Type 0} → Result A × Room → Type 0
AfterIsSole x = IsSole x.1

newcomer_role : (q : JoinRequest) (now : ℕ) → (newcomer q now).role ≡ q.role
unfolding newcomer
newcomer_role q now = refl

rebound_role : (q : JoinRequest) (now : ℕ) (p : Participant) → (rebound q now p).role ≡ p.role
unfolding rebound
rebound_role q now p = refl

-- A write of a member with a role below the owner's, or of one that had the role before.
insert-IsSole :
    (u : ℕ) (x : Participant) (r r' : Room)
    → r'.participants ≡ insert u x r.participants
    → r'.owner_id ≡ r.owner_id
    → (4 ≤ rank x.role → u ≡ r.owner_id)
    → IsSole r
    → IsSole r'
insert-IsSole u x r r' e same low v k p h big =
    ground (arith, ap (lookup k) e ∙ lookup-insert u k x r.participants, v k p)

join_as-IsSole :
    (q : JoinRequest) (now : ℕ) (r : Room) (o : Option Participant)
    → lookup q.user r.participants ≡ o
    → rank q.role < 4
    → IsSole r
    → IsSole (join_as q now r o).1
unfolding join_as enter
join_as-IsSole q now r none e low v =
    if_cases AfterIsSole (is_full r) _ _ (λ _. v)
      λ _.
        let r' = record r {
          participants = insert q.user (newcomer q now) r.participants;
          last_activity = now;
        } in
        carry-IsSole r' (drive_active now r').1 (drive_active-members now r') (
          insert-IsSole q.user (newcomer q now) r r' refl refl
            (λ big. absurd (ground (arith, ap rank (newcomer_role q now)))) v)
join_as-IsSole q now r (some p) e low v =
    if_cases AfterIsSole p.connected _ _ (λ _. v)
      λ _.
        let r' = record r {
          participants = insert q.user (rebound q now p) r.participants;
          last_activity = now;
        } in
        carry-IsSole r' (drive_active now r').1 (drive_active-members now r') (
          insert-IsSole q.user (rebound q now p) r r' refl refl
            (λ big. v q.user p e (ground (arith, ap rank (rebound_role q now p)))) v)

join-IsSole :
    (q : JoinRequest) (now : ℕ) (r : Room) → rank q.role < 4 → IsSole r → IsSole (join q now r).1
unfolding join
join-IsSole q now r low v =
    if_cases AfterIsSole (not (is_valid q.role)) _ _ (λ _. v)
      λ _.
        if_cases AfterIsSole (r.state =ˢ closed || r.state =ˢ destroyed) _ _ (λ _. v)
          λ _. join_as-IsSole q now r _ refl low v

remove_as-IsSole :
    (u now : ℕ) (r : Room) (o : Option Participant) → IsSole r → IsSole (remove_as u now r o).1
unfolding remove_as
remove_as-IsSole u now r none v = v
remove_as-IsSole u now r (some p) v =
    let r' = record r { participants = delete u r.participants; last_activity = now } in
    carry-IsSole r' (drift now r').1 (drift-members now r')
      (λ k x h big. ground (arith, lookup-delete u k r.participants, v k x))

remove_checked-IsSole :
    (e : Option Error) (a u now : ℕ) (r : Room) → IsSole r → IsSole (remove_checked e a u now r).1
unfolding remove_checked leave
remove_checked-IsSole (some e) a u now r v = v
remove_checked-IsSole none a u now r v =
    if_cases AfterIsSole (u == r.owner_id && not (is_admin (lookup a r.participants))) _ _ (λ _. v)
      λ _. remove_as-IsSole u now r (lookup u r.participants) v

demoted_rank :
    (o : Option Participant) (x : Participant)
    → Option.map (λ (p : Participant). record p { role = participant }) o ≡ some x
    → x.role ≡ participant
demoted_rank none x e = cc
demoted_rank (some p) x e = ground arith

hand_over-IsSole :
    (to now : ℕ) (r : Room) (o : Option Participant)
    → (to == r.owner_id) ≡ false
    → IsSole r
    → IsSole (hand_over to now r o).1
unfolding hand_over rank
hand_over-IsSole to now r none ne v = v
hand_over-IsSole to now r (some p) ne v = λ k x h big. ground (
  arith,
  lookup-insert to k (record p { role = owner })
      (demote r.owner_id (lookup r.owner_id r.participants) r.participants),
  lookup-demote r.owner_id k (lookup r.owner_id r.participants) r.participants refl,
  demoted_rank (lookup r.owner_id r.participants) x,
  v k x,
)

transfer_checked-IsSole :
    (e : Option Error) (to now : ℕ) (r : Room) → IsSole r → IsSole (transfer_checked e to now r).1
unfolding transfer_checked
transfer_checked-IsSole (some e) to now r v = v
transfer_checked-IsSole none to now r v =
    if_cases AfterIsSole (to == r.owner_id) _ _ (λ _. v)
      λ ne. hand_over-IsSole to now r (lookup to r.participants) ne v

bind_role :
    (up : Bool) (conn session now : ℕ) (p : Participant)
    → (bind up conn session now p).role ≡ p.role
unfolding bind
bind_role true conn session now p = refl
bind_role false conn session now p = refl

connect_as-IsSole :
    (u : ℕ) (up : Bool) (conn session now : ℕ) (r : Room) (o : Option Participant)
    → lookup u r.participants ≡ o
    → IsSole r
    → IsSole (connect_as u up conn session now r o).1
unfolding connect_as
connect_as-IsSole u up conn session now r none e v = v
connect_as-IsSole u up conn session now r (some p) e v =
    insert-IsSole u (bind up conn session now p) r
      (record r {
        participants = insert u (bind up conn session now p) r.participants;
        last_activity = if up then now else r.last_activity;
      })
      refl refl (λ big. v u p e (ground (arith, ap rank (bind_role up conn session now p)))) v

step-IsSole : (now : ℕ) (c : Call) (r : Room) → IsModest c → IsSole r → IsSole (step now c r)
unfolding step remove leave transfer set_connected touch
step-IsSole now (joins q) r low v = join-IsSole q now r low v
step-IsSole now (leaves u) r low v = remove_as-IsSole u now r (lookup u r.participants) v
step-IsSole now (kicks a u) r low v = remove_checked-IsSole (authorize a kick r) a u now r v
step-IsSole now (hands_over a u) r low v =
    transfer_checked-IsSole (authorize a transfer_ownership r) u now r v
step-IsSole now (connects u up conn session) r low v =
    connect_as-IsSole u up conn session now r (lookup u r.participants) refl v
step-IsSole now touches r low v =
    let r' = record r { last_activity = now } in
    carry-IsSole r' (drive_active now r').1 (drive_active-members now r') v
step-IsSole now (moves to) r low v =
    carry-IsSole r (transition to now r).1 (transition-members to now r) v

run-IsSole :
    (cs : List (ℕ × Call)) (r : Room)
    → All (λ (x : ℕ × Call). IsModest x.1) cs
    → IsSole r
    → IsSole (run cs r)
unfolding run
run-IsSole [] r low v = v
run-IsSole ((now, c) ∷ cs) r low v =
    run-IsSole cs (step now c r) low.1 (step-IsSole now c r low.0 v)

-- In a room made by `New`, after any history of operations in which every join asked for less than
-- the owner's rank, no member but the recorded owner has the owner's rank or a higher one: ownership
-- is neither doubled nor left behind by transfers, departures and returns.
pub run-new-IsSole :
    (p : Params) (cs : List (ℕ × Call))
    → All (λ (x : ℕ × Call). IsModest x.1) cs
    → IsSole (run cs (new_room p))
unfolding new_room lookup
run-new-IsSole p cs low = run-IsSole cs (new_room p) low (λ k x h big. ground arith)

-- ===== src/Rooms/Room/Authority.antt =====
-- Failures of a room's operations, and the authority that a success takes.
use collaborative_programmin.Base.{
  ℕ, ◌≡◌, ◌≢◌, ◌⊎◌, refl, true, not, ◌&&◌, ◌||◌, Option, none, some, arith, ◌==◌, if◌then◌else◌,
  Option-cases, Bool-cases, if_cases, subst, inl, inr, ap, sym, ◌∙◌,
}
use collaborative_programmin.Base.Dict.{lookup, delete, lookup-delete}
use collaborative_programmin.Rooms.Lifecycle.{active, idle, closed, destroyed, ◌=ˢ◌, can_transition}
use collaborative_programmin.Rooms.Permissions.{
  Action, is_valid, administrator, at_least, kick, transfer_ownership, allows,
}
use collaborative_programmin.Rooms.Room.{
  Participant, Room, Error, room_closed, room_full, duplicate_participant, participant_not_found,
  cannot_remove_owner, invalid_role, already_owner, is_full, Result, ok, err, transition,
  connected_count, authorize, require, JoinRequest, enter, join_as, join,
}
use collaborative_programmin.Rooms.Room.Membership.{
  LeaveResult, drift, remove_as, leave, is_admin, remove_checked, remove, hand_over,
  transfer_checked, transfer,
}

-- An operation ends in an error that changed nothing, or in success.
abbrev pub Clean : {A : Type 0} → Room → Result A × Room → Type 0
Clean {A} r x = ((e : Error) × (x.0 ≡ err e) × (x.1 ≡ r)) ⊎ ((a : A) × (x.0 ≡ ok a))

fails : {A : Type 0} (r : Room) (e : Error) → Clean {A = A} r (err e, r)
fails r e = inl (e, refl, refl)

join_as-Clean :
    (q : JoinRequest) (now : ℕ) (r : Room) (o : Option Participant) → Clean r (join_as q now r o)
unfolding join_as enter
join_as-Clean q now r none =
    if_cases (Clean r) (is_full r) _ _ (λ _. fails r room_full) (λ _. inr (_, refl))
join_as-Clean q now r (some p) =
    if_cases (Clean r) p.connected _ _ (λ _. fails r duplicate_participant) (λ _. inr (_, refl))

join-Clean : (q : JoinRequest) (now : ℕ) (r : Room) → Clean r (join q now r)
unfolding join
join-Clean q now r =
    if_cases (Clean r) (not (is_valid q.role)) _ _ (λ _. fails r invalid_role)
      λ _.
        if_cases (Clean r) (r.state =ˢ closed || r.state =ˢ destroyed) _ _
          (λ _. fails r room_closed) λ _. join_as-Clean q now r (lookup q.user r.participants)

remove_as-Clean : (u now : ℕ) (r : Room) (o : Option Participant) → Clean r (remove_as u now r o)
unfolding remove_as
remove_as-Clean u now r none = fails r participant_not_found
remove_as-Clean u now r (some p) = inr (_, refl)

remove_checked-Clean :
    (e : Option Error) (a u now : ℕ) (r : Room) → Clean r (remove_checked e a u now r)
unfolding remove_checked leave
remove_checked-Clean (some e) a u now r = fails r e
remove_checked-Clean none a u now r =
    if_cases (Clean r) (u == r.owner_id && not (is_admin (lookup a r.participants))) _ _
      (λ _. fails r cannot_remove_owner) λ _. remove_as-Clean u now r (lookup u r.participants)

hand_over-Clean : (to now : ℕ) (r : Room) (o : Option Participant) → Clean r (hand_over to now r o)
unfolding hand_over
hand_over-Clean to now r none = fails r participant_not_found
hand_over-Clean to now r (some p) = inr (_, refl)

transfer_checked-Clean :
    (e : Option Error) (to now : ℕ) (r : Room) → Clean r (transfer_checked e to now r)
unfolding transfer_checked
transfer_checked-Clean (some e) to now r = fails r e
transfer_checked-Clean none to now r =
    if_cases (Clean r) (to == r.owner_id) _ _ (λ _. fails r already_owner)
      λ _. hand_over-Clean to now r (lookup to r.participants)

-- Joining, leaving, kicking and handing over either succeed or return an error and leave the room
-- exactly as it was.
pub failure_unchanged :
    (q : JoinRequest) (a u now : ℕ) (r : Room)
    → Clean r (join q now r)
      × Clean r (leave u now r)
      × Clean r (remove a u now r)
      × Clean r (transfer a u now r)
unfolding leave remove transfer
failure_unchanged q a u now r = (
  join-Clean q now r,
  remove_as-Clean u now r (lookup u r.participants),
  remove_checked-Clean (authorize a kick r) a u now r,
  transfer_checked-Clean (authorize a transfer_ownership r) u now r,
)

pub authorized :
    (a : ℕ) (act : Action) (r : Room)
    → authorize a act r ≡ none
    → (p : Participant) × (lookup a r.participants ≡ some p) × (allows r.policy p.role act ≡ true)
unfolding authorize require
authorized a act r e = elim (Option-cases (lookup a r.participants)) [
  | inl absent ↦ absurd (ground (arith, absent))
  | inr (p, present) ↦ (p, present, ground (arith, present))
]

remove_checked_ok :
    (e : Option Error) (a u now : ℕ) (r : Room) (res : LeaveResult)
    → (remove_checked e a u now r).0 ≡ ok res
    → (e ≡ none)
      × ((u ≢ r.owner_id) ⊎ (is_admin (lookup a r.participants) ≡ true))
      × (leave u now r ≡ remove_checked e a u now r)
unfolding remove_checked
remove_checked_ok (some e) a u now r res h = cc
remove_checked_ok none a u now r res h = (
  refl,
  elim (Bool-cases (u == r.owner_id)) [
    | inl same ↦ inr (ground arith)
    | inr other ↦ inl (λ e. ground arith)
  ],
  ground arith,
)

-- An active or idle room in which nobody is connected.
abbrev pub Deserted : Room → Type 0
Deserted r = (connected_count r ≡ 0) × ((r.state ≡ active) ⊎ (r.state ≡ idle))

drift_not-Deserted : (now : ℕ) (r : Room) → ¬ Deserted (drift now r).1
unfolding drift transition connected_count can_transition
drift_not-Deserted now r h = ground arith

drift_members : (now : ℕ) (r : Room) → (drift now r).1.participants ≡ r.participants
unfolding drift transition
drift_members now r = ground arith

remove_as_ok :
    (u now : ℕ) (r : Room) (o : Option Participant) (res : LeaveResult) (k : ℕ)
    → lookup u r.participants ≡ o
    → (remove_as u now r o).0 ≡ ok res
    → (lookup u r.participants ≡ some res.left)
      × (lookup k (remove_as u now r o).1.participants
          ≡ (if u == k then none else lookup k r.participants))
      × (¬ Deserted (remove_as u now r o).1)
unfolding remove_as
remove_as_ok u now r none res k is h = cc
remove_as_ok u now r (some p) res k is h =
    let r' = record r { participants = delete u r.participants; last_activity = now } in
    (
      is ∙ ground arith,
      ap (lookup k) (drift_members now r') ∙ lookup-delete u k r.participants,
      drift_not-Deserted now r',
    )

-- Whoever leaves was a member and is none any more; nobody else's membership changes; and the room
-- is not left active or idle with nobody connected.
pub leave_ok :
    (u now : ℕ) (r : Room) (res : LeaveResult) (k : ℕ)
    → (leave u now r).0 ≡ ok res
    → (lookup u r.participants ≡ some res.left)
      × (lookup k (leave u now r).1.participants
          ≡ (if u == k then none else lookup k r.participants))
      × (¬ Deserted (leave u now r).1)
unfolding leave
leave_ok u now r res k h = remove_as_ok u now r (lookup u r.participants) res k refl h

-- A kick that succeeds was made by a member whose role the room's policy allows to kick, and who is
-- an administrator if the target is the owner; the target was a member and is none any more, nobody
-- else's membership changes, and the room is not left active or idle with nobody connected.
pub remove_ok :
    (a u now : ℕ) (r : Room) (res : LeaveResult) (k : ℕ)
    → (remove a u now r).0 ≡ ok res
    → ((p : Participant) × (lookup a r.participants ≡ some p)
        × (allows r.policy p.role kick ≡ true)
        × ((u ≢ r.owner_id) ⊎ (at_least p.role administrator ≡ true)))
      × (lookup u r.participants ≡ some res.left)
      × (lookup k (remove a u now r).1.participants
          ≡ (if u == k then none else lookup k r.participants))
      × (¬ Deserted (remove a u now r).1)
unfolding remove is_admin
remove_ok a u now r res k h =
    let (free, guard, is) = remove_checked_ok (authorize a kick r) a u now r res h in
    let (p, present, allowed) = authorized a kick r free in
    let (was, members, quiet) = leave_ok u now r res k (ap (λ x. x.0) is ∙ h) in
    (
      (p, present, allowed, ground (arith, guard, present)),
      was,
      ap (λ x. lookup k x.1.participants) (sym is) ∙ members,
      subst (λ x. ¬ Deserted x.1) is quiet,
    )

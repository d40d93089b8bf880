-- ===== src/Rooms/Room/Transfer.antt =====
-- The transfer of a room's ownership.
use mathlib.Core.Option
use collaborative_programmin.Base.{
  ℕ, ◌≡◌, ◌≢◌, refl, true, Option, none, some, arith, ◌==◌, if◌then◌else◌, ap, sym, ◌∙◌,
}
use collaborative_programmin.Base.Dict.{Dict, lookup, lookup-insert}
use collaborative_programmin.Rooms.Permissions.{participant, owner, transfer_ownership, allows}
use collaborative_programmin.Rooms.Room.{Participant, Room, Error, ok, authorize}
use collaborative_programmin.Rooms.Room.Authority.{authorized}
use collaborative_programmin.Rooms.Room.Membership.{
  TransferResult, demote, hand_over, transfer_checked, transfer,
}

pub lookup-demote :
    (id k : ℕ) (o : Option Participant) (ps : Dict Participant)
    → lookup id ps ≡ o
    → lookup k (demote id o ps) ≡ (
        if id == k
        then Option.map (λ (p : Participant). record p { role = participant }) o
        else lookup k ps)
unfolding demote
lookup-demote id k none ps e = ground (arith, e)
lookup-demote id k (some p) ps e = lookup-insert id k (record p { role = participant }) ps

hand_over_ok :
    (to now k : ℕ) (r : Room) (o : Option Participant) (res : TransferResult)
    → (hand_over to now r o).0 ≡ ok res
    → (p : Participant) × (o ≡ some p)
      × ((hand_over to now r o).1.owner_id ≡ to)
      × (lookup k (hand_over to now r o).1.participants ≡ (
          if to == k
          then some (record p { role = owner })
          else if r.owner_id == k
          then Option.map
              (λ (x : Participant). record x { role = participant })
              (lookup r.owner_id r.participants)
          else lookup k r.participants))
unfolding hand_over
hand_over_ok to now k r none res h = cc
hand_over_ok to now k r (some p) res h = (
  p,
  refl,
  refl,
  lookup-insert to k (record p { role = owner }) _
      ∙ ap (λ x. if to == k then some (record p { role = owner }) else x)
          (lookup-demote r.owner_id k _ r.participants refl),
)

transfer_checked_ok :
    (e : Option Error) (to now : ℕ) (r : Room) (res : TransferResult)
    → (transfer_checked e to now r).0 ≡ ok res
    → (e ≡ none)
      × (to ≢ r.owner_id)
      × (transfer_checked e to now r ≡ hand_over to now r (lookup to r.participants))
unfolding transfer_checked
transfer_checked_ok (some e) to now r res h = cc
transfer_checked_ok none to now r res h = (refl, (λ e. ground arith), ground arith)

-- A transfer that succeeds was made by a member whose role the room's policy allows to transfer; the
-- new owner, who was another member than the owner, has the owner's role and the old owner, if still
-- a member, that of a participant; nobody else's membership changes.
pub transfer_ok :
    (a to now k : ℕ) (r : Room) (res : TransferResult)
    → (transfer a to now r).0 ≡ ok res
    → ((p : Participant) × (lookup a r.participants ≡ some p)
        × (allows r.policy p.role transfer_ownership ≡ true))
      × (to ≢ r.owner_id)
      × ((transfer a to now r).1.owner_id ≡ to)
      × ((p : Participant) × (lookup to r.participants ≡ some p)
          × (lookup k (transfer a to now r).1.participants ≡ (
              if to == k
              then some (record p { role = owner })
              else if r.owner_id == k
              then Option.map
                  (λ (x : Participant). record x { role = participant })
                  (lookup r.owner_id r.participants)
              else lookup k r.participants)))
unfolding transfer
transfer_ok a to now k r res h =
    let (free, other, is) = transfer_checked_ok (authorize a transfer_ownership r) to now r res h in
    let (p, was, owns, members) =
      hand_over_ok to now k r (lookup to r.participants) res (sym (ap (λ x. x.0) is) ∙ h) in
    (
      authorized a transfer_ownership r free,
      other,
      ap (λ x. x.1.owner_id) is ∙ owns,
      (p, was, ap (λ x. lookup k x.1.participants) is ∙ members),
    )

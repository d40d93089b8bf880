-- ===== src/Rooms/Room/Joins.antt =====
-- What a join does when it succeeds.
use collaborative_programmin.Base.{
  ℕ, ◌≡◌, refl, true, false, none, some, arith, ◌==◌, if◌then◌else◌, ap, sym, ◌∙◌,
}
use collaborative_programmin.Base.Dict.{lookup, insert, lookup-insert}
use collaborative_programmin.Rooms.Lifecycle.{active, can_transition}
use collaborative_programmin.Rooms.Lifecycle.Graph.{Ended}
use collaborative_programmin.Rooms.Room.{
  Participant, Room, ok, drive_active, JoinRequest, JoinResult, rebound, newcomer, enter, join_as,
  join,
}

drives : (now : ℕ) (r : Room) → ¬ Ended r.state → (drive_active now r).1.state ≡ active
unfolding drive_active can_transition
drives now r h = ground arith

drives_members : (now : ℕ) (r : Room) → (drive_active now r).1.participants ≡ r.participants
unfolding drive_active
drives_members now r = ground arith

join_open :
    (q : JoinRequest) (now : ℕ) (r : Room) (res : JoinResult)
    → (join q now r).0 ≡ ok res
    → (¬ Ended r.state) × (join q now r ≡ join_as q now r (lookup q.user r.participants))
unfolding join
join_open q now r res e = ((λ h. ground arith), ground arith)

abbrev entered : Participant → JoinRequest → ℕ → Room → Room
entered p q now r = record r { participants = insert q.user p r.participants; last_activity = now }

-- The two ways through a join that succeeds.
join_as_new :
    (q : JoinRequest) (now : ℕ) (r : Room) (res : JoinResult)
    → ¬ Ended r.state
    → (join_as q now r none).0 ≡ ok res
    → ((join_as q now r none).1.state ≡ active)
      × (res.reconnected ≡ false)
      × ((join_as q now r none).1.participants ≡ insert q.user (newcomer q now) r.participants)
unfolding join_as enter
join_as_new q now r res opened e =
    let r' = entered (newcomer q now) q now r in
    (ground (arith, drives now r' opened), ground arith, ground (arith, drives_members now r'))

join_as_again :
    (q : JoinRequest) (now : ℕ) (r : Room) (p : Participant) (res : JoinResult)
    → ¬ Ended r.state
    → (join_as q now r (some p)).0 ≡ ok res
    → ((join_as q now r (some p)).1.state ≡ active)
      × (res.reconnected ≡ true)
      × (p.connected ≡ false)
      × ((join_as q now r (some p)).1.participants ≡ insert q.user (rebound q now p) r.participants)
unfolding join_as enter
join_as_again q now r p res opened e =
    let r' = entered (rebound q now p) q now r in
    (
      ground (arith, drives now r' opened),
      ground arith,
      ground arith,
      ground (arith, drives_members now r'),
    )

-- A user who was no member and joins: the room was neither closed nor destroyed, and is active
-- after it; the user is a connected member with the requested role, session, connection and
-- attributes, who joined and was seen at this time; nobody else's membership changes.
pub join_new :
    (q : JoinRequest) (now : ℕ) (r : Room) (res : JoinResult) (k : ℕ)
    → (join q now r).0 ≡ ok res
    → lookup q.user r.participants ≡ none
    → (¬ Ended r.state)
      × ((join q now r).1.state ≡ active)
      × (res.reconnected ≡ false)
      × (lookup k (join q now r).1.participants ≡ (
          if q.user == k
          then some (record {
            user_id = q.user;
            role = q.role;
            session_id = q.session;
            conn_id = q.conn;
            joined_at = now;
            last_seen = now;
            connected = true;
            metadata = q.attributes;
          })
          else lookup k r.participants))
unfolding newcomer
join_new q now r res k e absent =
    let (opened, is) = join_open q now r res e in
    let is' = is ∙ ap (join_as q now r) absent in
    let (now_active, fresh, members) =
      join_as_new q now r res opened (sym (ap (λ x. x.0) is') ∙ e) in
    (
      opened,
      ap (λ x. x.1.state) is' ∙ now_active,
      fresh,
      ap (λ x. lookup k x.1.participants) is'
          ∙ ap (lookup k) members
          ∙ lookup-insert q.user k (newcomer q now) r.participants,
    )

-- A member who joins again: the member was disconnected and the room neither closed nor destroyed;
-- the room is active after it, and the member keeps the role and the time of joining, whatever role
-- was asked for, and has the new binding; nobody else's membership changes.
pub join_again :
    (q : JoinRequest) (now : ℕ) (r : Room) (p : Participant) (res : JoinResult) (k : ℕ)
    → (join q now r).0 ≡ ok res
    → lookup q.user r.participants ≡ some p
    → (¬ Ended r.state)
      × ((join q now r).1.state ≡ active)
      × (res.reconnected ≡ true)
      × (p.connected ≡ false)
      × ((rebound q now p).role ≡ p.role)
      × ((rebound q now p).joined_at ≡ p.joined_at)
      × ((rebound q now p).connected ≡ true)
      × ((rebound q now p).conn_id ≡ q.conn)
      × (lookup k (join q now r).1.participants
          ≡ (if q.user == k then some (rebound q now p) else lookup k r.participants))
unfolding rebound
join_again q now r p res k e present =
    let (opened, is) = join_open q now r res e in
    let is' = is ∙ ap (join_as q now r) present in
    let (now_active, again, was_down, members) =
      join_as_again q now r p res opened (sym (ap (λ x. x.0) is') ∙ e) in
    (
      opened,
      ap (λ x. x.1.state) is' ∙ now_active,
      again,
      was_down,
      refl,
      refl,
      refl,
      refl,
      ap (λ x. lookup k x.1.participants) is'
          ∙ ap (lookup k) members
          ∙ lookup-insert q.user k _ r.participants,
    )

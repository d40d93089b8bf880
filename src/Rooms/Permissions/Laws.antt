-- ===== src/Rooms/Permissions/Laws.antt =====
-- Authority is monotone in the rank, and policies change one action at a time.
use collaborative_programmin.Base.{◌≡◌, ◌↔◌, true, arith, ◌⊎◌, [], if◌then◌else◌, ◌==◌}
use collaborative_programmin.Base.Dict.{lookup, lookup-insert}
use collaborative_programmin.Rooms.Permissions.{
  Role, observer, participant, moderator, owner, administrator, other, at_least, Action,
  transfer_ownership, close_room, modify_settings, action_code, Policy, default_policy, with_min,
  requirement, allows,
}

-- What a role may do, every role of at least its rank may do, under every policy.
pub allows_mono :
    (p : Policy) (a : Action) (r s : Role)
    → at_least s r ≡ true
    → allows p r a ≡ true
    → allows p s a ≡ true
unfolding allows at_least
allows_mono p a r s h k = ground arith

-- `With` sets the least role of one action and keeps that of every other.
pub requirement-with_min :
    (p : Policy) (a b : Action) (r : Role)
    → requirement (with_min a r p) b
      ≡ (if action_code a == action_code b then r else requirement p b)
unfolding requirement with_min
requirement-with_min p a b r = ground (arith, lookup-insert (action_code a) (action_code b) r p)

-- A policy that was built of nothing fails closed: only the administrator may act.
pub empty_policy : (r : Role) (a : Action) → (allows [] r a ≡ true) ↔ (r ≡ administrator)
unfolding allows requirement lookup at_least
empty_policy observer a = ground arith
empty_policy participant a = ground arith
empty_policy moderator a = ground arith
empty_policy owner a = ground arith
empty_policy administrator a = ground arith
empty_policy (other n) a = ground arith

-- Under the default policy, a role that may close a room, hand it over or change its settings is
-- the owner's or the administrator's.
pub default_guards :
    (r : Role) (a : Action)
    → (a ≡ close_room) ⊎ (a ≡ transfer_ownership) ⊎ (a ≡ modify_settings)
    → allows default_policy r a ≡ true
    → (r ≡ owner) ⊎ (r ≡ administrator)
unfolding allows requirement lookup at_least default_policy
default_guards r a g h = ground arith

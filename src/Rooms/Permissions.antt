-- ===== src/Rooms/Permissions.antt =====
-- internal/rooms/permissions/permissions.go. A role is a uint8: one of the five constants, or some
-- other value, which has rank 0. A policy is a map from actions to the least role that may act.
pub mod Laws
use collaborative_programmin.Base.{
  ℕ, Bool, true, false, List, [], ◌∷◌, Option, none, some, ◌==◌, leb, not, if◌then◌else◌,
}
use collaborative_programmin.Base.Dict.{Dict, lookup, insert}

pub data Role : Type 0 where
  observer participant moderator owner administrator : Role
  other : ℕ → Role

unfoldable pub rank : Role → ℕ
rank observer = 1
rank participant = 2
rank moderator = 3
rank owner = 4
rank administrator = 5
rank (other n) = 0

unfoldable pub at_least : Role → Role → Bool
unfolding rank
at_least r s = leb (rank s) (rank r)

unfoldable pub is_valid : Role → Bool
unfolding rank
is_valid r = not (rank r == 0)

pub data Action : Type 0 where
  observe join leave kick transfer_ownership close_room modify_settings : Action

-- The value of the constant, the key of the map.
abbrev pub action_code : Action → ℕ
action_code observe = 0
action_code join = 1
action_code leave = 2
action_code kick = 3
action_code transfer_ownership = 4
action_code close_room = 5
action_code modify_settings = 6

abbrev pub Policy : Type 0
Policy = Dict Role

unfoldable pub default_policy : Policy
default_policy =
    (0, observer)
    ∷ (1, observer)
    ∷ (2, observer)
    ∷ (3, moderator)
    ∷ (4, owner)
    ∷ (5, owner)
    ∷ (6, owner)
    ∷ []

unfoldable pub with_min : Action → Role → Policy → Policy
with_min a r p = insert (action_code a) r p

or_administrator : Option Role → Role
or_administrator none = administrator
or_administrator (some r) = r

unfoldable pub requirement : Policy → Action → Role
unfolding or_administrator
requirement p a = or_administrator (lookup (action_code a) p)

unfoldable pub allows : Policy → Role → Action → Bool
allows p r a = at_least r (requirement p a)

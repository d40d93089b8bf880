-- ===== src/Rooms/Lifecycle.antt =====
-- internal/rooms/lifecycle: state.go and machine.go. The states are the seven declared constants;
-- no other value of the int32 is ever stored, so the test `Valid` of `Validate` always passes.
pub mod Graph
use collaborative_programmin.Base.{ℕ, Bool, true, false, List, [], ◌∷◌, ◌==◌, ◌||◌, if◌then◌else◌}

pub data State : Type 0 where
  created waiting active idle expiring closed destroyed : State

-- The value of the constant.
abbrev pub code : State → ℕ
code created = 0
code waiting = 1
code active = 2
code idle = 3
code expiring = 4
code closed = 5
code destroyed = 6

infix 50 ◌=ˢ◌
abbrev pub ◌=ˢ◌ : State → State → Bool
s =ˢ t = code s == code t

-- The table `transitions`, which `Next` lists.
unfoldable pub next : State → List State
next created = waiting ∷ active ∷ closed ∷ []
next waiting = active ∷ expiring ∷ closed ∷ []
next active = waiting ∷ idle ∷ closed ∷ []
next idle = active ∷ waiting ∷ expiring ∷ closed ∷ []
next expiring = active ∷ closed ∷ []
next closed = destroyed ∷ []
next destroyed = []

has : State → List State → Bool
has s [] = false
has s (t ∷ ts) = t =ˢ s || has s ts

unfoldable pub can_transition : State → State → Bool
unfolding next has
can_transition from to = if from =ˢ to then true else has to (next from)

-- `Validate`: whether there is no error.
abbrev pub validate : State → State → Bool
validate from to = can_transition from to

unfoldable pub is_terminal : State → Bool
is_terminal s = s =ˢ destroyed

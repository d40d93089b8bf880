-- ===== src/Rooms/Lifecycle/Graph.antt =====
-- Paths through the graph of the lifecycle.
use collaborative_programmin.Base.{◌≡◌, ◌≢◌, ◌⊎◌, refl, true, List, [], ◌∷◌, arith, Any, inl, inr}
use collaborative_programmin.Rooms.Lifecycle.{
  State, created, waiting, active, idle, expiring, closed, destroyed, can_transition, ◌=ˢ◌,
}

-- Every state of the list follows the one before by a legal transition, from the given one on.
abbrev pub Follows : State → List State → Type 0
Follows s [] = Unit
Follows s (t ∷ ts) = (can_transition s t ≡ true) × Follows t ts

abbrev pub last : State → List State → State
last s [] = s
last s (t ∷ ts) = last t ts

abbrev pub Ended : State → Type 0
Ended s = (s ≡ closed) ⊎ (s ≡ destroyed)

pub Ended-step : (s t : State) → Ended s → can_transition s t ≡ true → Ended t
unfolding can_transition
Ended-step s t h e = ground arith

-- A room that is closed or destroyed never leaves these two states again.
pub Follows-Ended : (s : State) (ts : List State) → Ended s → Follows s ts → Ended (last s ts)
Follows-Ended s [] h f = h
Follows-Ended s (t ∷ ts) h f = Follows-Ended t ts (Ended-step s t h f.0) f.1

-- Every state but `destroyed` may be closed at once, and of these only a closed room is destroyed.
pub closing :
    (s : State)
    → s ≢ destroyed
    → (can_transition s closed ≡ true) × (can_transition s destroyed ≡ (s =ˢ closed))
unfolding can_transition
closing s h = ground arith

before_closed :
    (s t : State)
    → s ≢ destroyed
    → s ≢ closed
    → can_transition s t ≡ true
    → (t ≡ closed) ⊎ ((t ≢ destroyed) × (t ≢ closed))
unfolding can_transition
before_closed s closed h k e = inl refl
before_closed s destroyed h k e = ground arith
before_closed s created h k e = inr ((λ q. cc), λ q. cc)
before_closed s waiting h k e = inr ((λ q. cc), λ q. cc)
before_closed s active h k e = inr ((λ q. cc), λ q. cc)
before_closed s idle h k e = inr ((λ q. cc), λ q. cc)
before_closed s expiring h k e = inr ((λ q. cc), λ q. cc)

-- A path from a state that is neither closed nor destroyed to `destroyed` goes through `closed`.
pub through_closed :
    (s : State) (ts : List State)
    → s ≢ destroyed
    → s ≢ closed
    → Follows s ts
    → last s ts ≡ destroyed
    → Any (λ t. t ≡ closed) ts
through_closed s [] h k f e = absurd (h e)
through_closed s (t ∷ ts) h k f e = elim (before_closed s t h k f.0) [
  | inl c ↦ inl c
  | inr (h', k') ↦ inr (through_closed t ts h' k' f.1 e)
]

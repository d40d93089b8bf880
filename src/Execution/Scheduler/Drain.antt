-- ===== src/Execution/Scheduler/Drain.antt =====
-- The order in which the scheduler gives up its jobs.
use collaborative_programmin.Base.{
  ℕ, suc, ◌<ℤ◌, ◌≤◌, eq_ℤ_sound, ◌≡◌, ◌⊎◌, inl, inr, refl, ap, ◌∙◌, true, false, List, [], ◌∷◌,
  arith, if_cases, length, All, Any, ◌↔◌,
}
use collaborative_programmin.Base.Dict.{Dict}
use collaborative_programmin.Execution.Scheduler.{Entry, Memory, ahead, place, sort, drain}

-- More urgent, or as urgent and not scheduled later.
abbrev pub Precedes : Entry → Entry → Type 0
Precedes x y = (y.priority <ℤ x.priority) ⊎ ((y.priority ≡ x.priority) × (x.seq ≤ y.seq))

-- Each entry precedes all that follow.
abbrev pub InOrder : List Entry → Type 0
InOrder [] = Unit
InOrder (x ∷ xs) = All (λ y. Precedes x y) xs × InOrder xs

-- Nothing that follows is ahead of what comes before.
abbrev Sorted : List Entry → Type 0
Sorted [] = Unit
Sorted (x ∷ xs) = All (λ y. ahead y x ≡ false) xs × Sorted xs

behind-Precedes : (x y : Entry) → ahead y x ≡ false → Precedes x y
unfolding ahead
behind-Precedes x y h = ground (arith, h, eq_ℤ_sound y.priority x.priority)

All-Precedes :
    (x : Entry) (ys : List Entry) → All (λ y. ahead y x ≡ false) ys → All (λ y. Precedes x y) ys
All-Precedes x [] h = tt
All-Precedes x (y ∷ ys) h = (behind-Precedes x y h.0, All-Precedes x ys h.1)

Sorted-InOrder : (xs : List Entry) → Sorted xs → InOrder xs
Sorted-InOrder [] h = tt
Sorted-InOrder (x ∷ xs) h = (All-Precedes x xs h.0, Sorted-InOrder xs h.1)

abbrev pub HasEntry : Entry → List Entry → Type 0
HasEntry e es = Any (λ x. x ≡ e) es

place-All :
    (x e : Entry) (xs : List Entry)
    → ahead e x ≡ false
    → All (λ y. ahead y x ≡ false) xs
    → All (λ y. ahead y x ≡ false) (place e xs)
unfolding place
place-All x e [] le h = (le, tt)
place-All x e (y ∷ ys) le h =
    if_cases (λ (zs : List Entry). All (λ y. ahead y x ≡ false) zs) (ahead y e) _ _
      (λ _. (h.0, place-All x e ys le h.1)) λ _. (le, h)

ahead_back : (y e : Entry) → ahead y e ≡ true → ahead e y ≡ false
unfolding ahead
ahead_back y e h = ground arith

behind_trans : (a b c : Entry) → ahead b a ≡ false → ahead c b ≡ false → ahead c a ≡ false
unfolding ahead
behind_trans a b c h k = ground arith

All-behind :
    (e y : Entry) (ys : List Entry)
    → ahead y e ≡ false
    → All (λ z. ahead z y ≡ false) ys
    → All (λ z. ahead z e ≡ false) ys
All-behind e y [] h k = tt
All-behind e y (z ∷ zs) h k = (behind_trans e y z h k.0, All-behind e y zs h k.1)

place-Sorted : (e : Entry) (xs : List Entry) → Sorted xs → Sorted (place e xs)
unfolding place
place-Sorted e [] h = (tt, tt)
place-Sorted e (x ∷ xs) h =
    if_cases (λ (zs : List Entry). Sorted zs) (ahead x e) _ _
      (λ first. (place-All x e xs (ahead_back x e first) h.0, place-Sorted e xs h.1))
      λ later. ((later, All-behind e x xs later h.0), h)

sort-Sorted : (m : Dict Entry) → Sorted (sort m)
unfolding sort
sort-Sorted [] = tt
sort-Sorted ((i, e) ∷ m) = place-Sorted e (sort m) (sort-Sorted m)

length-place : (e : Entry) (xs : List Entry) → length (place e xs) ≡ suc (length xs)
unfolding place
length-place e [] = refl
length-place e (x ∷ xs) = ground (arith, length-place e xs)

length-sort : (m : Dict Entry) → length (sort m) ≡ length m
unfolding sort
length-sort [] = refl
length-sort ((i, e) ∷ m) = length-place e (sort m) ∙ ap suc (length-sort m)

place_has : (e z : Entry) (xs : List Entry) → (HasEntry z (place e xs)) ↔ ((e ≡ z) ⊎ HasEntry z xs)
unfolding place
place_has e z [] = ((λ m. m), λ m. m)
place_has e z (x ∷ xs) =
    let (to, from) = place_has e z xs in
    if_cases (λ (zs : List Entry). HasEntry z zs ↔ ((e ≡ z) ⊎ HasEntry z (x ∷ xs))) (ahead x e) _ _
      (λ _. (
        (λ m. elim m [
          | inl here ↦ inr (inl here)
          | inr later ↦ elim (to later) [ inl is ↦ inl is | inr more ↦ inr (inr more) ]
        ]),
        λ m. elim m [
          | inl is ↦ inr (from (inl is))
          | inr rest ↦ elim rest [ inl here ↦ inl here | inr more ↦ inr (from (inr more)) ]
        ],
      ))
      λ _. ((λ m. m), λ m. m)

sort_has : (z : Entry) (m : Dict Entry) → HasEntry z (sort m) ↔ Any (λ (kv : ℕ × Entry). kv.1 ≡ z) m
unfolding sort
sort_has z [] = ((λ m. m), λ m. m)
sort_has z ((i, e) ∷ m) =
    let (to, from) = sort_has z m in
    let (in_to, in_from) = place_has e z (sort m) in
    (
      (λ h. elim (in_to h) [ inl is ↦ inl is | inr more ↦ inr (to more) ]),
      λ h. elim h [ inl is ↦ in_from (inl is) | inr more ↦ in_from (inr (from more)) ],
    )

-- A drain returns the entries of all the jobs that are scheduled, and no others, as many as there are,
-- the more urgent first and of the same priority the earlier scheduled, and leaves none.
pub drain_lem :
    (m : Memory)
    → let (out, m') = drain m in
      InOrder out
      × ((z : Entry) → HasEntry z out ↔ Any (λ (kv : ℕ × Entry). kv.1 ≡ z) m.entries)
      × (length out ≡ length m.entries)
      × (m'.entries ≡ [])
unfolding drain
drain_lem m = (
  Sorted-InOrder _ (sort-Sorted m.entries),
  (λ z. sort_has z m.entries),
  length-sort m.entries,
  refl,
)

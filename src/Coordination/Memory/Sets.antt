-- ===== src/Coordination/Memory/Sets.antt =====
-- The sets of internal/coordination/backend/memory.go: `SAdd`, `SRem`, `SMembers`. A set is a map
-- whose keys are its members; the order in which a loop meets them is that of the list.
use collaborative_programmin.Base.{
  ℕ, suc, ◌≡◌, refl, ◌∙◌, Bool, true, false, not, ◌&&◌, ◌||◌, List, [], ◌∷◌, Option, none, some,
  arith, ◌==◌, if◌then◌else◌, length,
}
use collaborative_programmin.Base.Dict.{Dict, lookup, insert, delete, lookup-insert, lookup-delete}
use collaborative_programmin.Coordination.Memory.{Memory, new_memory}

abbrev pub Roster : Type 0
Roster = Dict Unit

unfoldable pub roster_of : Option Roster → Roster
roster_of none = []
roster_of (some s) = s

-- The loop of `SAdd`, after `n` members were new.
unfoldable pub add_loop : ℕ → List ℕ → Roster → ℕ × Roster
add_loop n [] s = (n, s)
add_loop n (x ∷ xs) s = elim (lookup x s) [
  | none ↦ add_loop (suc n) xs (insert x tt s)
  | some u ↦ add_loop n xs s
]

unfoldable pub s_add : ℕ → List ℕ → Memory → ℕ × Memory
unfolding add_loop roster_of
s_add key members m =
    let (n, s) = add_loop 0 members (roster_of (lookup key m.sets)) in
    (n, record m { sets = insert key s m.sets })

unfoldable pub remove_loop : ℕ → List ℕ → Roster → ℕ × Roster
remove_loop n [] s = (n, s)
remove_loop n (x ∷ xs) s = elim (lookup x s) [
  | none ↦ remove_loop n xs s
  | some u ↦ remove_loop (suc n) xs (delete x s)
]

unfoldable pub s_rem_from : ℕ → List ℕ → Memory → Option Roster → ℕ × Memory
unfolding remove_loop
s_rem_from key members m none = (0, m)
s_rem_from key members m (some s) =
    let (n, s') = remove_loop 0 members s in
    (n, record m { sets = if length s' == 0 then delete key m.sets else insert key s' m.sets })

unfoldable pub s_rem : ℕ → List ℕ → Memory → ℕ × Memory
unfolding s_rem_from
s_rem key members m = s_rem_from key members m (lookup key m.sets)

unfoldable pub names_of : Roster → List ℕ
names_of [] = []
names_of ((x, u) ∷ s) = x ∷ names_of s

unfoldable pub s_members : ℕ → Memory → List ℕ
unfolding names_of roster_of
s_members key m = names_of (roster_of (lookup key m.sets))

abbrev pub is_some {ℓ} : {A : Type ℓ} → Option A → Bool
is_some none = false
is_some (some a) = true

abbrev pub elem : ℕ → List ℕ → Bool
elem x [] = false
elem x (y ∷ ys) = y == x || elem x ys

-- Whether the set of a key has a member.
unfoldable pub has_member : Memory → ℕ → ℕ → Bool
unfolding roster_of
has_member m k x = is_some (lookup x (roster_of (lookup k m.sets)))

pub data Call : Type 0 where
  s_adds s_rems : ℕ → List ℕ → Call

unfoldable pub run : List Call → Memory → Memory
run [] m = m
run (s_adds k xs ∷ cs) m = run cs (s_add k xs m).1
run (s_rems k xs ∷ cs) m = run cs (s_rem k xs m).1

-- What the sets are to be: a relation of keys and members.
unfoldable pub spec_run : List Call → (ℕ → ℕ → Bool) → ℕ → ℕ → Bool
spec_run [] f = f
spec_run (s_adds key xs ∷ cs) f = spec_run cs (λ k x. (key == k && elem x xs) || f k x)
spec_run (s_rems key xs ∷ cs) f = spec_run cs (λ k x. not (key == k && elem x xs) && f k x)

add_loop_members :
    (n : ℕ) (xs : List ℕ) (s : Roster) (x : ℕ)
    → is_some (lookup x (add_loop n xs s).1) ≡ (elem x xs || is_some (lookup x s))
unfolding add_loop
add_loop_members n [] s x = refl
add_loop_members n (y ∷ ys) s x = ground (
  arith,
  add_loop_members n ys s x,
  add_loop_members (suc n) ys (insert y tt s) x,
  lookup-insert y x tt s,
)

remove_loop_members :
    (n : ℕ) (xs : List ℕ) (s : Roster) (x : ℕ)
    → is_some (lookup x (remove_loop n xs s).1) ≡ (not (elem x xs) && is_some (lookup x s))
unfolding remove_loop
remove_loop_members n [] s x = refl
remove_loop_members n (y ∷ ys) s x = ground (
  arith,
  remove_loop_members n ys s x,
  remove_loop_members (suc n) ys (delete y s) x,
  lookup-delete y x s,
)

nobody : (s : Roster) (x : ℕ) → length s ≡ 0 → lookup x s ≡ none
unfolding lookup
nobody [] x e = refl
nobody ((y, u) ∷ s) x e = ground arith

s_add_members :
    (key : ℕ) (xs : List ℕ) (m : Memory) (k x : ℕ)
    → has_member (s_add key xs m).1 k x ≡ ((key == k && elem x xs) || has_member m k x)
unfolding has_member s_add roster_of
s_add_members key xs m k x = ground (
  arith,
  lookup-insert key k (add_loop 0 xs (roster_of (lookup key m.sets))).1 m.sets,
  add_loop_members 0 xs (roster_of (lookup key m.sets)) x,
)

s_rem_from_members :
    (key : ℕ) (xs : List ℕ) (m : Memory) (o : Option Roster) (k x : ℕ)
    → lookup key m.sets ≡ o
    → has_member (s_rem_from key xs m o).1 k x ≡ (not (key == k && elem x xs) && has_member m k x)
unfolding has_member s_rem_from roster_of lookup
s_rem_from_members key xs m none k x e = ground (arith, e)
s_rem_from_members key xs m (some s) k x e = ground (
  arith,
  e,
  lookup-insert key k (remove_loop 0 xs s).1 m.sets,
  lookup-delete key k m.sets,
  remove_loop_members 0 xs s x,
  nobody (remove_loop 0 xs s).1 x,
)

run_members :
    (cs : List Call) (m : Memory) (f : ℕ → ℕ → Bool)
    → ((k x : ℕ) → has_member m k x ≡ f k x)
    → (k x : ℕ) → has_member (run cs m) k x ≡ spec_run cs f k x
unfolding run spec_run s_rem
run_members [] m f h = h
run_members (s_adds key xs ∷ cs) m f h =
    run_members cs (s_add key xs m).1 _ λ k x. ground (arith, s_add_members key xs m k x, h k x)
run_members (s_rems key xs ∷ cs) m f h =
    run_members cs (s_rem key xs m).1 _
      λ k x. ground (arith, s_rem_from_members key xs m (lookup key m.sets) k x refl, h k x)

names_of_members : (s : Roster) (x : ℕ) → elem x (names_of s) ≡ is_some (lookup x s)
unfolding names_of lookup
names_of_members [] x = refl
names_of_members ((y, u) ∷ s) x = ground (arith, names_of_members s x)

-- From an empty memory, after any history of `SAdd` and `SRem`, `SMembers` lists under every key
-- exactly the members that were added to the key and not removed after it.
pub s_members_lem :
    (cs : List Call) (k x : ℕ)
    → elem x (s_members k (run cs new_memory)) ≡ spec_run cs (λ k x. false) k x
unfolding s_members has_member new_memory lookup roster_of
s_members_lem cs k x =
    names_of_members (roster_of (lookup k (run cs new_memory).sets)) x
    ∙ run_members cs new_memory (λ k x. false) (λ k x. refl) k x

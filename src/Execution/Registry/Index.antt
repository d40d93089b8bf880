-- ===== src/Execution/Registry/Index.antt =====
-- The ids that an index has under a key, through the operations on it.
use collaborative_programmin.Base.{
  ℕ, ◌≡◌, refl, Bool, true, false, not, ◌&&◌, ◌||◌, Option, none, some, arith, ◌==◌, length, [],
  ◌∷◌,
}
use collaborative_programmin.Base.Dict.{lookup, insert, delete, lookup-insert, lookup-delete}
use collaborative_programmin.Execution.Registry.{
  Ids, Index, ids_of, put, drop_from, drop, add_index, remove_index,
}

abbrev pub is_some {ℓ} : {A : Type ℓ} → Option A → Bool
is_some none = false
is_some (some a) = true

-- Whether the index has the id under the key.
unfoldable pub has : Index → ℕ → ℕ → Bool
unfolding ids_of
has idx key id = is_some (lookup id (ids_of (lookup key idx)))

pub has-put :
    (key id k i : ℕ) (idx : Index)
    → has (put key id idx) k i ≡ ((key == k && id == i) || has idx k i)
unfolding has put ids_of
has-put key id k i idx = ground (
  arith,
  lookup-insert key k (insert id tt (ids_of (lookup key idx))) idx,
  lookup-insert id i tt (ids_of (lookup key idx)),
)

length-none : (s : Ids) (i : ℕ) → length s ≡ 0 → lookup i s ≡ none
unfolding lookup
length-none [] i e = refl
length-none ((j, u) ∷ s) i e = ground arith

has-drop_from :
    (key id k i : ℕ) (o : Option Ids) (idx : Index)
    → lookup key idx ≡ o
    → has (drop_from key id o idx) k i ≡ (not (key == k && id == i) && has idx k i)
unfolding has drop_from ids_of lookup
has-drop_from key id k i none idx e = ground (arith, e)
has-drop_from key id k i (some s) idx e = ground (
  arith,
  e,
  lookup-insert key k (delete id s) idx,
  lookup-delete key k idx,
  lookup-delete id i s,
  length-none (delete id s) i,
)

pub has-drop :
    (key id k i : ℕ) (idx : Index)
    → has (drop key id idx) k i ≡ (not (key == k && id == i) && has idx k i)
unfolding drop
has-drop key id k i idx = has-drop_from key id k i (lookup key idx) idx refl

pub has-add_index :
    (key id k i : ℕ) (idx : Index)
    → has (add_index key id idx) k i ≡ ((not (key == 0) && key == k && id == i) || has idx k i)
unfolding add_index
has-add_index key id k i idx = ground (arith, has-put key id k i idx)

pub has-remove_index :
    (key id k i : ℕ) (idx : Index)
    → has (remove_index key id idx) k i
      ≡ (not (not (key == 0) && key == k && id == i) && has idx k i)
unfolding remove_index
has-remove_index key id k i idx = ground (arith, has-drop key id k i idx)

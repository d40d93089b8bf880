-- ===== src/Base/Dict.antt =====
-- Go's maps with identifiers for keys, as association lists. A write replaces the entry of its key,
-- a deletion removes it, and a map built by these has each key once (`Distinct`).
use collaborative_programmin.Base.{
  ℕ, suc, ◌+◌, ◌≡◌, refl, Bool, List, [], ◌∷◌, Option, none, some, arith, ◌==◌, if◌then◌else◌,
  length,
}

abbrev pub Dict {ℓ} : Type ℓ → Type ℓ
Dict V = List (ℕ × V)

module _ {ℓ} {V : Type ℓ} where
  unfoldable pub delete : ℕ → Dict V → Dict V
  delete key [] = []
  delete key ((i, old) ∷ rest) = if i == key then delete key rest else (i, old) ∷ delete key rest

  unfoldable pub insert : ℕ → V → Dict V → Dict V
  insert key new [] = (key, new) ∷ []
  insert key new ((i, old) ∷ rest) =
      if i == key then (key, new) ∷ rest else (i, old) ∷ insert key new rest

  unfoldable pub lookup : ℕ → Dict V → Option V
  lookup key [] = none
  lookup key ((i, here) ∷ rest) = if i == key then some here else lookup key rest

  -- How many entries pass a test.
  unfoldable pub count : (V → Bool) → Dict V → ℕ
  count p [] = 0
  count p ((j, v) ∷ m) = if p v then suc (count p m) else count p m

  abbrev pub Distinct : Dict V → Type ℓ
  Distinct [] = Unit
  Distinct ((j, v) ∷ m) = (lookup j m ≡ none) × Distinct m

  pub lookup-delete :
      (key i : ℕ) (m : Dict V) → lookup i (delete key m) ≡ (if key == i then none else lookup i m)
  unfolding delete lookup
  lookup-delete key i [] = ground arith
  lookup-delete key i ((a, old) ∷ rest) = ground (arith, lookup-delete key i rest)

  pub lookup-insert :
      (key i : ℕ) (new : V) (m : Dict V)
      → lookup i (insert key new m) ≡ (if key == i then some new else lookup i m)
  unfolding insert lookup
  lookup-insert key i new [] = refl
  lookup-insert key i new ((a, old) ∷ rest) = ground (lookup-insert key i new rest, arith)

  pub insert-Distinct : (k : ℕ) (v : V) (m : Dict V) → Distinct m → Distinct (insert k v m)
  unfolding insert lookup
  insert-Distinct k v [] d = (refl, tt)
  insert-Distinct k v ((i, w) ∷ m) d =
      ground (arith, insert-Distinct k v m d.1, lookup-insert k i v m)

  pub delete-Distinct : (k : ℕ) (m : Dict V) → Distinct m → Distinct (delete k m)
  unfolding delete
  delete-Distinct k [] d = tt
  delete-Distinct k ((i, w) ∷ m) d = ground (arith, delete-Distinct k m d.1, lookup-delete k i m)

  delete_absent : (k : ℕ) (m : Dict V) → lookup k m ≡ none → delete k m ≡ m
  unfolding delete lookup
  delete_absent k [] h = refl
  delete_absent k ((i, w) ∷ m) h = ground (arith, delete_absent k m)

  pub length-insert_new :
      (k : ℕ) (v : V) (m : Dict V) → lookup k m ≡ none → length (insert k v m) ≡ length m + 1
  unfolding insert lookup
  length-insert_new k v [] h = omega arith
  length-insert_new k v ((i, w) ∷ m) h = ground (arith, length-insert_new k v m)

  pub length-insert_old :
      (k : ℕ) (v w : V) (m : Dict V) → lookup k m ≡ some w → length (insert k v m) ≡ length m
  unfolding insert lookup
  length-insert_old k v w [] h = cc
  length-insert_old k v w ((i, u) ∷ m) h = ground (arith, length-insert_old k v w m)

  pub length-delete :
      (k : ℕ) (v : V) (m : Dict V)
      → Distinct m
      → lookup k m ≡ some v
      → length m ≡ length (delete k m) + 1
  unfolding delete lookup
  length-delete k v [] d h = cc
  length-delete k v ((i, u) ∷ m) d h = ground (arith, length-delete k v m d.1, delete_absent k m)

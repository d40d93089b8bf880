-- ===== src/Queue/Stream/Order.antt =====
-- The order of ids, and of the entries of a stream.
use collaborative_programmin.Base.{ℕ, ◌≡◌, true, false, List, [], ◌∷◌, ◌++◌, arith}
use collaborative_programmin.Queue.Stream.{Stamp, before, ◌=ⁱ◌, Entry, Emulator, next_id, last_id}

pub before_trans : (a b c : Stamp) → before a b ≡ true → before b c ≡ true → before a c ≡ true
unfolding before
before_trans a b c h k = ground arith

-- `a` is not after `b`, which is before `c`.
pub before-le : (a b c : Stamp) → before b a ≡ false → before b c ≡ true → before a c ≡ true
unfolding before
before-le a b c h k = ground arith

-- `a` is before `b`, which is not after `c`.
pub before-ge : (a b c : Stamp) → before a b ≡ true → before c b ≡ false → before a c ≡ true
unfolding before
before-ge a b c h k = ground arith

pub before_asym : (a b : Stamp) → before a b ≡ true → before b a ≡ false
unfolding before
before_asym a b h = ground arith

pub before_irrefl : (a : Stamp) → before a a ≡ false
unfolding before
before_irrefl a = ground arith

pub before_total : (a b : Stamp) → before a b ≡ false → before b a ≡ false → (a =ⁱ b) ≡ true
unfolding before
before_total a b h k = ground arith

pub same_stamp : (a b : Stamp) → (a =ⁱ b) ≡ true → a ≡ b
same_stamp a b h = ground arith

pub le_trans : (a b c : Stamp) → before b a ≡ false → before c b ≡ false → before c a ≡ false
unfolding before
le_trans a b c h k = ground arith

abbrev pub clock : Emulator → Stamp
clock e = record { ms = e.ms; seq = e.seq }

pub next_id-before : (now : ℕ) (e : Emulator) → before (clock e) (next_id now e) ≡ true
unfolding next_id before
next_id-before now e = ground arith

-- Entries after `lo` whose ids increase and do not pass `hi`.
abbrev pub Ordered : Stamp → List Entry → Stamp → Type 0
Ordered lo [] hi = before hi lo ≡ false
Ordered lo (x ∷ xs) hi = (before lo x.id ≡ true) × Ordered x.id xs hi

pub Ordered-append :
    (lo c id : Stamp) (fields : ℕ) (xs : List Entry)
    → before c id ≡ true
    → Ordered lo xs c
    → Ordered lo (xs ++ (record { id = id; fields = fields; deleted = false } ∷ [])) id
Ordered-append lo c id fields [] lt h = (before-le lo c id h lt, before_irrefl id)
Ordered-append lo c id fields (x ∷ xs) lt h = (h.0, Ordered-append x.id c id fields xs lt h.1)

-- Nothing in the list is at or before its lower bound.
pub Ordered-lower :
    (lo lo' hi : Stamp) (xs : List Entry)
    → before lo lo' ≡ false
    → Ordered lo xs hi
    → Ordered lo' xs hi
Ordered-lower lo lo' hi [] le h = le_trans lo' lo hi le h
Ordered-lower lo lo' hi (x ∷ xs) le h = (before-le lo' lo x.id le h.0, h.1)

pub last_id-le :
    (lo hi : Stamp) (xs : List Entry) → Ordered lo xs hi → before hi (last_id lo xs) ≡ false
unfolding last_id
last_id-le lo hi [] h = h
last_id-le lo hi (x ∷ xs) h = last_id-le x.id hi xs h.1

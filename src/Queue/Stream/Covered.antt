-- ===== src/Queue/Stream/Covered.antt =====
-- The entries of a stream that need no further delivery, after each operation.
use collaborative_programmin.Base.{
  ℕ, zero, suc, ◌≡◌, refl, Bool, true, false, not, ◌||◌, List, [], ◌∷◌, ◌++◌, some, arith, ◌==◌,
  if◌then◌else◌, if_cases, Bool-cases, Option-cases, inl, inr, ap, sym, subst, All,
}
use collaborative_programmin.Queue.Stream.{
  Stamp, before, ◌=ⁱ◌, zero_stamp, Entry, Group, Stream, ReadArgs, read_in, read_loop, room_of,
  passes, deliver,
}
use collaborative_programmin.Queue.Stream.Claims.{
  ack_in, ClaimArgs, claim_in, delete_loop, erase, live_entry, member, mark, entry_of, live_of,
  sorted_ids,
}
use collaborative_programmin.Queue.Stream.Order.{before_trans, Ordered}
use collaborative_programmin.Queue.Stream.Reading.{read_loop_skip, read_loop_take, deliver_last}
use collaborative_programmin.Queue.Stream.Orderly.{IsOrderly}
use collaborative_programmin.Queue.Stream.Kept.{
  is_some, is_pending, is_pending-file, is_pending-ack_loop, is_pending-claim_loop, read_loop_keeps,
}

pub All-map :
    {A : Type 0} (P Q : A → Type 0) (xs : List A) → ((x : A) → P x → Q x) → All P xs → All Q xs
All-map P Q [] f h = tt
All-map P Q (x ∷ xs) f h = (f x h.0, All-map P Q xs f h.1)

All-both :
    {A : Type 0} (P Q : A → Type 0) (xs : List A) → All P xs → All Q xs → All (λ x. P x × Q x) xs
All-both P Q [] h k = tt
All-both P Q (x ∷ xs) h k = ((h.0, k.0), All-both P Q xs h.1 k.1)

pub All-after :
    (lo hi : Stamp) (xs : List Entry) → Ordered lo xs hi → All (λ y. before lo y.id ≡ true) xs
All-after lo hi [] h = tt
All-after lo hi (x ∷ xs) h = (
  h.0,
  All-map (λ y. before x.id y.id ≡ true) (λ y. before lo y.id ≡ true) xs
      (λ y. before_trans lo x.id y.id h.0) (All-after x.id hi xs h.1),
)

before_other : (a b : Stamp) → before a b ≡ true → (a =ⁱ b) ≡ false
unfolding before
before_other a b h = ground (arith, h)

All-found :
    (lo hi : Stamp) (xs : List Entry) → Ordered lo xs hi → All (λ y. entry_of y.id xs ≡ some y) xs
unfolding entry_of
All-found lo hi [] h = tt
All-found lo hi (x ∷ xs) h = (
  ground arith,
  All-map (λ y. (before x.id y.id ≡ true) × (entry_of y.id xs ≡ some y)) _ xs
      (λ y both. ground (arith, both.1, before_other x.id y.id both.0))
      (All-both _ _ xs (All-after x.id hi xs h.1) (All-found x.id hi xs h.1)),
)

-- An entry of an orderly stream that is not deleted is live.
All-live :
    (c : Stamp) (s : Stream)
    → IsOrderly c s
    → All (λ y. (y.deleted || is_some (live_entry y.id s)) ≡ true) s.entries
unfolding live_entry live_of
All-live c s h =
    All-map (λ y. ((y.deleted || member y.id s.index) ≡ true) × (entry_of y.id s.entries ≡ some y))
      _ s.entries (λ y both. ground (arith, both.0, both.1))
      (All-both _ _ s.entries h.listed (All-found zero_stamp c s.entries h.ordered))

-- The entry needs no further delivery.
abbrev pub safe : List Stamp → Group → Entry → Bool
safe acked g x =
    x.deleted || before g.last_delivered x.id || is_pending x.id g.pending || member x.id acked

abbrev pub Covered : List Stamp → Group → List Entry → Type 0
Covered acked g xs = All (λ x. safe acked g x ≡ true) xs

member-append :
    (i : Stamp) (xs ys : List Stamp) → member i (xs ++ ys) ≡ (member i xs || member i ys)
unfolding member
member-append i [] ys = refl
member-append i (x ∷ xs) ys = ground (arith, member-append i xs ys)

pub acked_Covered :
    (acked ids : List Stamp) (s : Stream) (g : Group) (xs : List Entry)
    → Covered acked g xs
    → Covered (ids ++ acked) (ack_in ids s g).1 xs
unfolding ack_in
acked_Covered acked ids s g xs =
    All-map (λ x. safe acked g x ≡ true) _ xs
      λ x h. ground (arith, h, is_pending-ack_loop x.id ids g.pending, member-append x.id ids acked)

pub more_Covered :
    (acked ids : List Stamp) (g : Group) (xs : List Entry)
    → Covered acked g xs
    → Covered (ids ++ acked) g xs
more_Covered acked ids g xs =
    All-map (λ x. safe acked g x ≡ true) _ xs λ x h. ground (arith, h, member-append x.id ids acked)

pub claimed_Covered :
    (now : ℕ) (args : ClaimArgs) (acked : List Stamp) (c : Stamp) (s : Stream) (g : Group)
    → IsOrderly c s
    → Covered acked g s.entries
    → Covered acked (claim_in now args s g).1 s.entries
unfolding claim_in
claimed_Covered now args acked c s g orderly h =
    All-map (λ x. ((x.deleted || is_some (live_entry x.id s)) ≡ true) × (safe acked g x ≡ true)) _
      s.entries
      (λ x both. ground (
        arith,
        both.0,
        both.1,
        is_pending-claim_loop x.id now args s (sorted_ids g.pending)
            (if args.count == 0 then 100 else args.count) g.pending,
      ))
      (All-both _ _ s.entries (All-live c s orderly) h)

-- What the loop of a read does to the entries that it passes through.
abbrev Settled : Group → Group → Entry → Type 0
Settled g g' y =
    (y.deleted
      || not (before g.last_delivered y.id)
      || before g'.last_delivered y.id
      || is_pending y.id g'.pending)
    ≡ true

unmoved : (g : Group) (xs : List Entry) → All (Settled g g) xs
unmoved g [] = tt
unmoved g (x ∷ xs) = (ground arith, unmoved g xs)

skipped : (g g' : Group) (x : Entry) → passes g.last_delivered x ≡ true → Settled g g' x
unfolding passes
skipped g g' x h = ground (arith, h)

-- What is settled after the first entry is handed out was already to be settled.
later :
    (g g1 g' : Group) (x y : Entry)
    → g1.last_delivered ≡ x.id
    → before x.id y.id ≡ true
    → Settled g1 g' y
    → Settled g g' y
later g g1 g' x y at after h = ground (arith, h, after, ap (λ i. before i y.id) at)

module _ (now consumer : ℕ) where
  delivered_pending :
      (x : Entry) (g : Group) → is_pending x.id (deliver now consumer false x g).pending ≡ true
  unfolding deliver
  delivered_pending x g = ground (
    arith,
    is_pending-file (record { id = x.id; consumer = consumer; delivered_at = now; count = 1 }) x.id
        g.pending,
  )

  read_loop_settles :
      (room : ℕ) (lo hi : Stamp) (xs : List Entry) (g : Group)
      → Ordered lo xs hi
      → All (Settled g (read_loop now consumer false room xs g).1) xs
  read_loop_settles room lo hi [] g h = tt
  read_loop_settles zero lo hi (x ∷ xs) g h = unfold read_loop in unmoved g (x ∷ xs)
  read_loop_settles (suc room) lo hi (x ∷ xs) g h = elim (Bool-cases (passes g.last_delivered x)) [
    | inl e ↦
        subst (λ r. All (Settled g r.1) (x ∷ xs))
          (sym (read_loop_skip now consumer false room x xs g e))
          (
            skipped g (read_loop now consumer false (suc room) xs g).1 x e,
            read_loop_settles (suc room) x.id hi xs g h.1,
          )
    | inr e ↦
        subst (λ r. All (Settled g r.1) (x ∷ xs))
          (sym (read_loop_take now consumer false room x xs g e))
          (let g1 = deliver now consumer false x g in
            let g' = (read_loop now consumer false room xs g1).1 in
            (
              ground (
                arith,
                read_loop_keeps x.id now consumer false room xs g1,
                delivered_pending x g,
              ),
              All-map (λ y. (before x.id y.id ≡ true) × Settled g1 g' y) _ xs
                  (λ y both. later g g1 g' x y (deliver_last now consumer false x g) both.0 both.1)
                  (All-both _ _ xs (All-after x.id hi xs h.1)
                    (read_loop_settles room x.id hi xs g1 h.1)),
            ))
  ]

pub read_Covered :
    (now : ℕ) (args : ReadArgs) (acked : List Stamp) (c : Stamp) (s : Stream) (g : Group)
    → args.no_ack ≡ false
    → IsOrderly c s
    → Covered acked g s.entries
    → Covered acked (read_in now args s g).1 s.entries
unfolding read_in
read_Covered now args acked c s g filed orderly h =
    let g' = (read_loop now args.consumer false (room_of args.count s.entries) s.entries g).1 in
    rw filed (
      All-map (λ x. Settled g g' x × (safe acked g x ≡ true)) _ s.entries
        (λ x both. ground (
          arith,
          both.0,
          both.1,
          read_loop_keeps x.id now args.consumer false (room_of args.count s.entries) s.entries g,
        ))
        (All-both _ _ s.entries
          (read_loop_settles now args.consumer (room_of args.count s.entries) zero_stamp c s.entries
            g orderly.ordered)
          h))

deleted_Covered :
    (acked : List Stamp) (g : Group) (id : Stamp) (xs : List Entry)
    → Covered acked g xs
    → Covered acked g (mark id xs)
unfolding mark
deleted_Covered acked g id [] h = tt
deleted_Covered acked g id (x ∷ xs) h =
    if_cases (λ (ys : List Entry). Covered acked g ys) (x.id =ⁱ id) _ _
      (λ _. (refl, deleted_Covered acked g id xs h.1)) λ _. (h.0, deleted_Covered acked g id xs h.1)

pub delete_loop-Covered :
    (acked : List Stamp) (g : Group) (ids : List Stamp) (s : Stream)
    → Covered acked g s.entries
    → Covered acked g (delete_loop ids s).1.entries
unfolding delete_loop erase
delete_loop-Covered acked g [] s h = h
delete_loop-Covered acked g (id ∷ ids) s h = elim (Option-cases (live_entry id s)) [
  | inl missing ↦ rw (missing, delete_loop) (delete_loop-Covered acked g ids s h)
  | inr (x, here) ↦
      rw (here, delete_loop)
        (delete_loop-Covered acked g ids (erase id s) (deleted_Covered acked g id s.entries h))
]

pub appended_Covered :
    (acked : List Stamp) (g : Group) (id : Stamp) (fields : ℕ) (xs : List Entry)
    → before g.last_delivered id ≡ true
    → Covered acked g xs
    → Covered acked g (xs ++ (record { id = id; fields = fields; deleted = false } ∷ []))
appended_Covered acked g id fields [] lt h = (ground (arith, lt), tt)
appended_Covered acked g id fields (x ∷ xs) lt h =
    (h.0, appended_Covered acked g id fields xs lt h.1)

pub zero_Covered :
    (acked : List Stamp) (c : Stamp) (xs : List Entry)
    → Ordered zero_stamp xs c
    → Covered acked (record { last_delivered = zero_stamp; pending = [] }) xs
zero_Covered acked c xs h =
    All-map (λ y. before zero_stamp y.id ≡ true) _ xs (λ y lt. ground (arith, lt))
      (All-after zero_stamp c xs h)

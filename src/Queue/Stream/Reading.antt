-- ===== src/Queue/Stream/Reading.antt =====
-- What a read of new entries hands out, and what it leaves.
use collaborative_programmin.Base.{
  ℕ, zero, suc, ◌≤◌, ◌≡◌, ◌⊎◌, inl, inr, refl, ap, sym, ◌∙◌, Bool, true, false, List, [], ◌∷◌, ◌++◌,
  arith, if◌then◌else◌, Bool-cases, length,
}
use collaborative_programmin.Queue.Stream.{
  Stamp, before, passes, Entry, Group, Stream, Delivery, deliver, read_loop, ReadArgs, Turn, failed,
  wait, delivered, turn_of, room_of, read_in,
}
use collaborative_programmin.Queue.Stream.Order.{
  before-le, before_asym, before_irrefl, Ordered, Ordered-lower, le_trans,
}

abbrev pub of_entry : Entry → Delivery
of_entry x = record { id = x.id; fields = x.fields }

-- The entries that a group which has come as far as `last` is still to be given.
unfoldable pub undelivered : Stamp → List Entry → List Delivery
undelivered last [] = []
undelivered last (x ∷ xs) =
    if passes last x then undelivered last xs else of_entry x ∷ undelivered last xs

-- Deliveries whose ids increase from after `lo` and do not pass `hi`.
abbrev pub Climbs : Stamp → List Delivery → Stamp → Type 0
Climbs lo [] hi = before hi lo ≡ false
Climbs lo (d ∷ ds) hi = (before lo d.id ≡ true) × Climbs d.id ds hi

pub Climbs-append :
    (lo mid hi : Stamp) (ds ds' : List Delivery)
    → Climbs lo ds mid
    → Climbs mid ds' hi
    → Climbs lo (ds ++ ds') hi
Climbs-append lo mid hi [] [] h k = le_trans lo mid hi h k
Climbs-append lo mid hi [] (d ∷ ds') h k = (before-le lo mid d.id h k.0, k.1)
Climbs-append lo mid hi (d ∷ ds) ds' h k = (h.0, Climbs-append d.id mid hi ds ds' h.1 k)

pub Climbs-bounds : (lo hi : Stamp) (ds : List Delivery) → Climbs lo ds hi → before hi lo ≡ false
Climbs-bounds lo hi [] h = h
Climbs-bounds lo hi (d ∷ ds) h =
    le_trans lo d.id hi (before_asym lo d.id h.0) (Climbs-bounds d.id hi ds h.1)

pub passes_not : (last : Stamp) (x : Entry) → passes last x ≡ false → before last x.id ≡ true
unfolding passes
passes_not last x h = ground (arith, h)

-- An entry at or before `last` is passed over, and so is one passed over before.
pub passes_later :
    (lo hi : Stamp) (x : Entry) → before hi lo ≡ false → passes lo x ≡ true → passes hi x ≡ true
unfolding passes before
passes_later lo hi x le h = ground (arith, h)

pub passes_old : (last : Stamp) (x : Entry) → before last x.id ≡ false → passes last x ≡ true
unfolding passes
passes_old last x h = ground (arith, h)

undelivered_all :
    (lo lo' hi : Stamp) (xs : List Entry)
    → before lo' lo ≡ false
    → Ordered lo' xs hi
    → undelivered lo xs ≡ undelivered lo' xs
unfolding undelivered passes
undelivered_all lo lo' hi [] le h = refl
undelivered_all lo lo' hi (x ∷ xs) le h = ground (
  arith,
  before-le lo lo' x.id le h.0,
  undelivered_all lo lo' hi xs le (Ordered-lower x.id lo' hi xs (before_asym lo' x.id h.0) h.1),
  h.0,
)

-- An entry at or before `last` is passed over.
undelivered_skip :
    (last : Stamp) (x : Entry) (xs : List Entry)
    → passes last x ≡ true
    → undelivered last (x ∷ xs) ≡ undelivered last xs
unfolding undelivered
undelivered_skip last x xs h = ground (arith, h)

undelivered_take :
    (last : Stamp) (x : Entry) (xs : List Entry)
    → passes last x ≡ false
    → undelivered last (x ∷ xs) ≡ of_entry x ∷ undelivered last xs
unfolding undelivered
undelivered_take last x xs h = ground (arith, h)

module _ (now consumer : ℕ) (no_ack : Bool) where
  pub deliver_last :
      (x : Entry) (g : Group) → (deliver now consumer no_ack x g).last_delivered ≡ x.id
  unfolding deliver
  deliver_last x g = refl

  pub read_loop_skip :
      (room : ℕ) (x : Entry) (xs : List Entry) (g : Group)
      → passes g.last_delivered x ≡ true
      → read_loop now consumer no_ack (suc room) (x ∷ xs) g
        ≡ read_loop now consumer no_ack (suc room) xs g
  unfolding read_loop
  read_loop_skip room x xs g h = ground (arith, h)

  pub read_loop_take :
      (room : ℕ) (x : Entry) (xs : List Entry) (g : Group)
      → passes g.last_delivered x ≡ false
      → let r = read_loop now consumer no_ack room xs (deliver now consumer no_ack x g) in
        read_loop now consumer no_ack (suc room) (x ∷ xs) g ≡ (of_entry x ∷ r.0, r.1)
  unfolding read_loop
  read_loop_take room x xs g h = ground (arith, h)

  pub read_loop-Climbs :
      (room : ℕ) (xs : List Entry) (g : Group)
      → let r = read_loop now consumer no_ack room xs g in
        Climbs g.last_delivered r.0 r.1.last_delivered
  unfolding deliver
  read_loop-Climbs room [] g = unfold read_loop in before_irrefl g.last_delivered
  read_loop-Climbs zero (x ∷ xs) g = unfold read_loop in before_irrefl g.last_delivered
  read_loop-Climbs (suc room) (x ∷ xs) g = elim (Bool-cases (passes g.last_delivered x)) [
    | inl skip ↦ rw (read_loop_skip room x xs g skip) (read_loop-Climbs (suc room) xs g)
    | inr take ↦ rw (read_loop_take room x xs g take) (
      passes_not g.last_delivered x take,
      read_loop-Climbs room xs (deliver now consumer no_ack x g),
    )
  ]

  pub read_loop_parts :
      (room : ℕ) (lo hi : Stamp) (xs : List Entry) (g : Group)
      → Ordered lo xs hi
      → let r = read_loop now consumer no_ack room xs g in
        r.0 ++ undelivered r.1.last_delivered xs ≡ undelivered g.last_delivered xs
  unfolding deliver
  read_loop_parts room lo hi [] g h = unfold read_loop in refl
  read_loop_parts zero lo hi (x ∷ xs) g h = unfold read_loop in refl
  read_loop_parts (suc room) lo hi (x ∷ xs) g h = elim (Bool-cases (passes g.last_delivered x)) [
    | inl skip ↦ rw (read_loop_skip room x xs g skip) (
        ap (λ t. (read_loop now consumer no_ack (suc room) xs g).0 ++ t)
          (undelivered_skip (read_loop now consumer no_ack (suc room) xs g).1.last_delivered x xs (
            passes_later g.last_delivered _ x
              (Climbs-bounds _ _ _ (read_loop-Climbs (suc room) xs g)) skip))
        ∙ read_loop_parts (suc room) x.id hi xs g h.1
        ∙ sym (undelivered_skip g.last_delivered x xs skip))
    | inr take ↦ rw (read_loop_take room x xs g take) (
        let g' = deliver now consumer no_ack x g in
        ap (λ t. of_entry x ∷ ((read_loop now consumer no_ack room xs g').0 ++ t))
          (undelivered_skip (read_loop now consumer no_ack room xs g').1.last_delivered x xs
            (passes_old _ x (Climbs-bounds _ _ _ (read_loop-Climbs room xs g'))))
        ∙ ap (λ t. of_entry x ∷ t)
            (read_loop_parts room x.id hi xs g' h.1
              ∙ sym (
                  undelivered_all g.last_delivered x.id hi xs
                    (before_asym g.last_delivered x.id (passes_not g.last_delivered x take)) h.1))
        ∙ sym (undelivered_take g.last_delivered x xs take))
  ]

  -- No more than there is room for; less only if nothing is left.
  read_loop_full :
      (room : ℕ) (lo hi : Stamp) (xs : List Entry) (g : Group)
      → Ordered lo xs hi
      → let r = read_loop now consumer no_ack room xs g in
        (length r.0 ≤ room) × ((length r.0 ≡ room) ⊎ (undelivered r.1.last_delivered xs ≡ []))
  unfolding deliver
  read_loop_full room lo hi [] g h = unfold read_loop undelivered in (omega arith, inr refl)
  read_loop_full zero lo hi (x ∷ xs) g h = unfold read_loop in (omega arith, inl refl)
  read_loop_full (suc room) lo hi (x ∷ xs) g h = elim (Bool-cases (passes g.last_delivered x)) [
    | inl skip ↦ rw (read_loop_skip room x xs g skip) (
        let (fits, left) = read_loop_full (suc room) x.id hi xs g h.1 in
        let r = read_loop now consumer no_ack (suc room) xs g in
        let passed = undelivered_skip r.1.last_delivered x xs (
          passes_later g.last_delivered r.1.last_delivered x
            (Climbs-bounds _ _ _ (read_loop-Climbs (suc room) xs g)) skip) in
        (fits, elim left [ inl full ↦ inl full | inr none_left ↦ inr (passed ∙ none_left) ]))
    | inr take ↦ rw (read_loop_take room x xs g take) (
        let g' = deliver now consumer no_ack x g in
        let (fits, left) = read_loop_full room x.id hi xs g' h.1 in
        let r = read_loop now consumer no_ack room xs g' in
        let passed =
          undelivered_skip r.1.last_delivered x xs
            (passes_old r.1.last_delivered x (Climbs-bounds _ _ _ (read_loop-Climbs room xs g'))) in
        (
          omega (arith, fits),
          elim left [ inl full ↦ inl (ap suc full) | inr none_left ↦ inr (passed ∙ none_left) ],
        ))
  ]

abbrev pub out_of : Turn → List Delivery
out_of (delivered ds) = ds
out_of failed = []
out_of wait = []

pub out_of-turn_of : (block : Bool) (ds : List Delivery) → out_of (turn_of block ds) ≡ ds
unfolding turn_of
out_of-turn_of block (d ∷ ds) = refl
out_of-turn_of true [] = refl
out_of-turn_of false [] = refl

-- A turn of `ReadGroup` hands out the first of the entries that the group is still to be given, in
-- the order of their ids, and leaves exactly the rest to be given: none is skipped and none is given
-- again. It hands out no more than its count, and fewer only if nothing is left.
pub read_in_lem :
    (now : ℕ) (args : ReadArgs) (s : Stream) (g : Group) (lo hi : Stamp)
    → Ordered lo s.entries hi
    → let r = read_in now args s g in
      (out_of r.0 ++ undelivered r.1.last_delivered s.entries
        ≡ undelivered g.last_delivered s.entries)
      × (length (out_of r.0) ≤ room_of args.count s.entries)
      × ((length (out_of r.0) ≡ room_of args.count s.entries)
          ⊎ (undelivered r.1.last_delivered s.entries ≡ []))
unfolding read_in
read_in_lem now args s g lo hi h =
    let room = room_of args.count s.entries in
    let (fits, left) = read_loop_full now args.consumer args.no_ack room lo hi s.entries g h in
    rw (out_of-turn_of args.block (read_loop now args.consumer args.no_ack room s.entries g).0)
      (read_loop_parts now args.consumer args.no_ack room lo hi s.entries g h, fits, left)

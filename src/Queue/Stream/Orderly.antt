-- ===== src/Queue/Stream/Orderly.antt =====
-- The invariant of the streams: ordered entries, an index of those not deleted, and groups that have
-- not come further than the clock.
use collaborative_programmin.Base.{
  ℕ, zero, suc, ◌≡◌, refl, Bool, true, false, ◌||◌, List, [], ◌∷◌, ◌++◌, Option, none, some, arith,
  ◌==◌, if_cases, Bool-cases, Option-cases, inl, inr, All,
}
use collaborative_programmin.Base.Dict.{lookup, insert, lookup-insert}
use collaborative_programmin.Queue.Stream.{
  Stamp, before, ◌=ⁱ◌, zero_stamp, Entry, Group, Stream, Emulator, new_emulator, stream_of, add,
  create_group, open_group, append_entry, next_id, on_group, ReadArgs, Turn, failed, read_in,
  read_group, read_loop, Reply, room_of, deliver,
}
use collaborative_programmin.Queue.Stream.Claims.{
  ack, ack_in, claim_in, auto_claim, delete_entries, delete_loop, close, erase, live_entry, member,
  mark, unlist,
}
use collaborative_programmin.Queue.Stream.Order.{
  before_asym, le_trans, Ordered, Ordered-append, last_id-le, clock, next_id-before,
}
use collaborative_programmin.Queue.Stream.Histories.{
  Call, adds, opens, reads, acks, claims, deletes, closes, step, run, on_group_cases,
  on_stream_cases,
}

-- The index has every entry that is not deleted.
abbrev pub Listed : List Stamp → List Entry → Type 0
Listed idx xs = All (λ x. (x.deleted || member x.id idx) ≡ true) xs

pub record IsOrderly (c : Stamp) (s : Stream) : Type 0 where
  pub ordered : Ordered zero_stamp s.entries c
  pub listed : Listed s.index s.entries
  pub behind : (k : ℕ) (g : Group) → lookup k s.groups ≡ some g → before c g.last_delivered ≡ false

abbrev pub AllOrderly : Emulator → Type 0
AllOrderly e = (n : ℕ) (s : Stream) → lookup n e.streams ≡ some s → IsOrderly (clock e) s

Ordered-raise :
    (lo hi hi' : Stamp) (xs : List Entry)
    → before hi' hi ≡ false
    → Ordered lo xs hi
    → Ordered lo xs hi'
Ordered-raise lo hi hi' [] le h = le_trans lo hi hi' h le
Ordered-raise lo hi hi' (x ∷ xs) le h = (h.0, Ordered-raise x.id hi hi' xs le h.1)

raised : (c c' : Stamp) (s : Stream) → before c' c ≡ false → IsOrderly c s → IsOrderly c' s
raised c c' s le h = record {
  ordered = Ordered-raise zero_stamp c c' s.entries le h.ordered;
  listed = h.listed;
  behind = λ k g e. le_trans g.last_delivered c c' (h.behind k g e) le;
}

-- A write of one stream.
written :
    (n : ℕ) (s : Stream) (e : Emulator)
    → IsOrderly (clock e) s
    → AllOrderly e
    → AllOrderly (record e { streams = insert n s e.streams })
written n s e new h m t at = elim (Bool-cases (n == m)) [
  | inl same ↦ let is : t ≡ s = ground (arith, at, lookup-insert n m s e.streams, same) in rw is new
  | inr other ↦ h m t (ground (arith, at, lookup-insert n m s e.streams, other))
]

Listed-more :
    (id : Stamp) (idx : List Stamp) (xs : List Entry) → Listed idx xs → Listed (id ∷ idx) xs
unfolding member
Listed-more id idx [] h = tt
Listed-more id idx (x ∷ xs) h = (ground (arith, h.0), Listed-more id idx xs h.1)

Listed-append :
    (id : Stamp) (fields : ℕ) (idx : List Stamp) (xs : List Entry)
    → Listed idx xs
    → Listed (id ∷ idx) (xs ++ (record { id = id; fields = fields; deleted = false } ∷ []))
unfolding member
Listed-append id fields idx [] h = (ground arith, tt)
Listed-append id fields idx (x ∷ xs) h = (ground (arith, h.0), Listed-append id fields idx xs h.1)

pub stream_of-IsOrderly :
    (c : Stamp) (o : Option Stream)
    → ((s : Stream) → o ≡ some s → IsOrderly c s)
    → IsOrderly c (stream_of o)
unfolding stream_of lookup before
stream_of-IsOrderly c none h = record {
  ordered = ground arith;
  listed = tt;
  behind = λ k g e. ground arith;
}
stream_of-IsOrderly c (some s) h = h s refl

appended :
    (c id : Stamp) (fields : ℕ) (s : Stream)
    → before c id ≡ true
    → IsOrderly c s
    → IsOrderly id (append_entry id fields s)
unfolding append_entry
appended c id fields s lt h = record {
  ordered = Ordered-append zero_stamp c id fields s.entries lt h.ordered;
  listed = Listed-append id fields s.index s.entries h.listed;
  behind = λ k g e. le_trans g.last_delivered c id (h.behind k g e) (before_asym c id lt);
}

add-AllOrderly :
    (now n fields : ℕ) (e : Emulator) → AllOrderly e → AllOrderly (add now n fields e).1
unfolding add
add-AllOrderly now n fields e h =
    if_cases (λ (r : Reply Stamp × Emulator). AllOrderly r.1) e.closed _ _ (λ _. h)
      λ _.
        let id = next_id now e in
        let e' = record e { ms = id.ms; seq = id.seq } in
        written n (append_entry id fields (stream_of (lookup n e.streams))) e'
          (appended (clock e) id fields (stream_of (lookup n e.streams)) (next_id-before now e)
            (stream_of-IsOrderly (clock e) (lookup n e.streams) (h n)))
          (λ m t at.
            raised (clock e) id t (before_asym (clock e) id (next_id-before now e)) (h m t at))

-- A write of one group of a stream.
regrouped :
    (c : Stamp) (k : ℕ) (g : Group) (s : Stream)
    → before c g.last_delivered ≡ false
    → IsOrderly c s
    → IsOrderly c (record s { groups = insert k g s.groups })
regrouped c k g s le h = record {
  ordered = h.ordered;
  listed = h.listed;
  behind = λ j g' at. elim (Bool-cases (k == j)) [
    | inl same ↦
        let is : g' ≡ g = ground (arith, at, lookup-insert k j g s.groups, same) in rw is le
    | inr other ↦ h.behind j g' (ground (arith, at, lookup-insert k j g s.groups, other))
  ];
}

opened :
    (c : Stamp) (k : ℕ) (from_end : Bool) (s : Stream) (o : Option Group)
    → IsOrderly c s
    → IsOrderly c (open_group from_end k s o)
unfolding open_group
opened c k from_end s (some g) h = h
opened c k from_end s none h =
    regrouped c k _ s
      (if_cases (λ (x : Stamp). before c x ≡ false) from_end _ _
        (λ _. last_id-le zero_stamp c s.entries h.ordered) (λ _. before_zero c))
      h
  where
    before_zero : (a : Stamp) → before a zero_stamp ≡ false
    before_zero a = unfold before in ground arith

open-AllOrderly :
    (n k : ℕ) (from_end : Bool) (e : Emulator)
    → AllOrderly e
    → AllOrderly (create_group n k from_end e).1
unfolding create_group
open-AllOrderly n k from_end e h =
    if_cases (λ (r : Reply (Unit {0}) × Emulator). AllOrderly r.1) e.closed _ _ (λ _. h)
      λ _.
        let s = stream_of (lookup n e.streams) in
        written n (open_group from_end k s (lookup k s.groups)) e
          (opened (clock e) k from_end s (lookup k s.groups)
            (stream_of-IsOrderly (clock e) (lookup n e.streams) (h n)))
          h

-- An operation on a group that does not move it past the clock.
group-AllOrderly :
    {A : Type 0} (x : A) (n k : ℕ) (f : Stream → Group → A × Group) (e : Emulator)
    → ((s : Stream) (g : Group)
        → IsOrderly (clock e) s
        → before (clock e) g.last_delivered ≡ false
        → before (clock e) (f s g).1.last_delivered ≡ false)
    → AllOrderly e
    → AllOrderly (on_group x n k f e).1
group-AllOrderly x n k f e keeps h =
    on_group_cases (λ r. AllOrderly r.1) x n k f e h
      λ s g here there.
        let orderly = h n s here in
        written n (record s { groups = insert k (f s g).1 s.groups }) e
          (regrouped (clock e) k (f s g).1 s (keeps s g orderly (orderly.behind k g there)) orderly)
          h

id_of_last : (lo hi : Stamp) (xs : List Entry) → Ordered lo xs hi → before hi lo ≡ false
id_of_last lo hi [] h = h
id_of_last lo hi (x ∷ xs) h =
    le_trans lo x.id hi (before_asym lo x.id h.0) (id_of_last x.id hi xs h.1)

read_loop_last :
    (now consumer : ℕ) (no_ack : Bool) (room : ℕ) (lo hi : Stamp) (xs : List Entry) (g : Group)
    → Ordered lo xs hi
    → before hi g.last_delivered ≡ false
    → before hi (read_loop now consumer no_ack room xs g).1.last_delivered ≡ false
unfolding read_loop deliver
read_loop_last now consumer no_ack room lo hi [] g h le = le
read_loop_last now consumer no_ack zero lo hi (x ∷ xs) g h le = le
read_loop_last now consumer no_ack (suc room) lo hi (x ∷ xs) g h le = ground (
  arith,
  le,
  read_loop_last now consumer no_ack (suc room) x.id hi xs g h.1,
  read_loop_last now consumer no_ack room x.id hi xs (deliver now consumer no_ack x g) h.1,
  id_of_last x.id hi xs h.1,
)

Ordered-mark : (id lo hi : Stamp) (xs : List Entry) → Ordered lo xs hi → Ordered lo (mark id xs) hi
unfolding mark
Ordered-mark id lo hi [] h = h
Ordered-mark id lo hi (x ∷ xs) h =
    if_cases (λ (ys : List Entry). Ordered lo ys hi) (x.id =ⁱ id) _ _
      (λ _. (h.0, Ordered-mark id x.id hi xs h.1)) λ _. (h.0, Ordered-mark id x.id hi xs h.1)

member-unlist :
    (id i : Stamp) (idx : List Stamp) → (i =ⁱ id) ≡ false → member i (unlist id idx) ≡ member i idx
unfolding member unlist
member-unlist id i [] ne = refl
member-unlist id i (x ∷ xs) ne = ground (arith, member-unlist id i xs ne)

Listed-mark :
    (id : Stamp) (idx : List Stamp) (xs : List Entry)
    → Listed idx xs
    → Listed (unlist id idx) (mark id xs)
unfolding mark
Listed-mark id idx [] h = tt
Listed-mark id idx (x ∷ xs) h =
    if_cases (λ (ys : List Entry). Listed (unlist id idx) ys) (x.id =ⁱ id) _ _
      (λ _. (refl, Listed-mark id idx xs h.1))
      λ ne. (ground (arith, h.0, member-unlist id x.id idx ne), Listed-mark id idx xs h.1)

erase-IsOrderly : (c id : Stamp) (s : Stream) → IsOrderly c s → IsOrderly c (erase id s)
unfolding erase
erase-IsOrderly c id s h = record {
  ordered = Ordered-mark id zero_stamp c s.entries h.ordered;
  listed = Listed-mark id s.index s.entries h.listed;
  behind = h.behind;
}

delete_loop-IsOrderly :
    (c : Stamp) (ids : List Stamp) (s : Stream) → IsOrderly c s → IsOrderly c (delete_loop ids s).1
unfolding delete_loop
delete_loop-IsOrderly c [] s h = h
delete_loop-IsOrderly c (id ∷ ids) s h = elim (Option-cases (live_entry id s)) [
  | inl missing ↦ rw (missing, delete_loop) (delete_loop-IsOrderly c ids s h)
  | inr (x, here) ↦
      rw (here, delete_loop) (delete_loop-IsOrderly c ids (erase id s) (erase-IsOrderly c id s h))
]

delete-AllOrderly :
    (n : ℕ) (ids : List Stamp) (e : Emulator) → AllOrderly e → AllOrderly (delete_entries n ids e).1
unfolding delete_entries
delete-AllOrderly n ids e h =
    on_stream_cases (λ r. AllOrderly r.1) 0 n (delete_loop ids) e h
      λ s here.
        written n (delete_loop ids s).1 e (delete_loop-IsOrderly (clock e) ids s (h n s here)) h

read-AllOrderly :
    (now n k : ℕ) (args : ReadArgs) (e : Emulator)
    → AllOrderly e
    → AllOrderly (read_group now n k args e).1
unfolding read_group
read-AllOrderly now n k args e h =
    if_cases (λ (r : Turn × Emulator). AllOrderly r.1) e.closed _ _ (λ _. h)
      λ _.
        group-AllOrderly failed n k (read_in now args) e
          (λ s g orderly le.
            unfold read_in in
            read_loop_last now args.consumer args.no_ack (room_of args.count s.entries) zero_stamp
              (clock e) s.entries g orderly.ordered le)
          h

pub step-AllOrderly : (now : ℕ) (c : Call) (e : Emulator) → AllOrderly e → AllOrderly (step now c e)
unfolding step
step-AllOrderly now (adds n fields) e h = add-AllOrderly now n fields e h
step-AllOrderly now (opens n k from_end) e h = open-AllOrderly n k from_end e h
step-AllOrderly now (reads n k args) e h = read-AllOrderly now n k args e h
step-AllOrderly now (acks n k ids) e h =
    unfold ack ack_in in group-AllOrderly 0 n k (ack_in ids) e (λ s g orderly le. le) h
step-AllOrderly now (claims n k args) e h =
    unfold auto_claim claim_in in
    group-AllOrderly _ n k (claim_in now args) e (λ s g orderly le. le) h
step-AllOrderly now (deletes n ids) e h = delete-AllOrderly n ids e h
step-AllOrderly now closes e h = unfold close in h

pub new-AllOrderly : AllOrderly new_emulator
unfolding new_emulator lookup
new-AllOrderly n s e = ground arith

run-AllOrderly : (cs : List (ℕ × Call)) (e : Emulator) → AllOrderly e → AllOrderly (run cs e)
unfolding run
run-AllOrderly [] e h = h
run-AllOrderly ((now, c) ∷ cs) e h = run-AllOrderly cs (step now c e) (step-AllOrderly now c e h)

-- After any history of an emulator, the entries of every stream have strictly increasing ids, none
-- after the last id given out; the index has every entry that is not deleted; and no group has come
-- further than the last id given out, whatever the clock of the system did in between.
pub run-new-IsOrderly :
    (cs : List (ℕ × Call)) (n : ℕ) (s : Stream)
    → lookup n (run cs new_emulator).streams ≡ some s
    → IsOrderly (clock (run cs new_emulator)) s
run-new-IsOrderly cs n s here = run-AllOrderly cs new_emulator new-AllOrderly n s here

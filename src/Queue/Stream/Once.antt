-- ===== src/Queue/Stream/Once.antt =====
-- The deliveries of a group over a history.
use collaborative_programmin.Base.{
  ℕ, ◌≡◌, refl, Bool, true, false, ◌&&◌, List, [], ◌∷◌, Option, none, some, arith, ◌==◌, ==_iff,
  if◌then◌else◌, if_cases, Bool-cases, inl, inr, ap, sym, subst, ◌∙◌,
}
use collaborative_programmin.Base.Dict.{lookup, insert}
use collaborative_programmin.Queue.Stream.{
  Stamp, before, zero_stamp, Group, Stream, Emulator, new_emulator, stream_of, create_group,
  open_group, Delivery, ReadArgs, Reply, Turn, failed, read_in, read_group, read_loop, room_of,
}
use collaborative_programmin.Queue.Stream.Claims.{ack, ack_in, claim_in, auto_claim, close}
use collaborative_programmin.Queue.Stream.Order.{before_irrefl}
use collaborative_programmin.Queue.Stream.Reading.{
  Climbs, Climbs-append, out_of, out_of-turn_of, read_loop-Climbs,
}
use collaborative_programmin.Queue.Stream.Histories.{
  Call, adds, opens, reads, acks, claims, deletes, closes, step, run, on_group_cases, reached_in,
  reached, handed, handed_run,
}
use collaborative_programmin.Queue.Stream.Reached.{
  reached-insert, reached_group, Advances, stays, reached_after, reached_at, group_stays,
  ack_in_stays, claim_in_stays, deletes_stay, fresh_stream, adds_stay,
}

before_zero : (a : Stamp) → before a zero_stamp ≡ false
unfolding before
before_zero a = ground arith

rises_by :
    (b : Bool) (top old new : Stamp)
    → new ≡ (if b then top else old)
    → (b ≡ true → old ≡ zero_stamp)
    → before new old ≡ false
rises_by true top old new e h = rw (e, h refl) (before_zero top)
rises_by false top old new e h = rw e (before_irrefl old)

opened_rises :
    (group k : ℕ) (from_end : Bool) (s : Stream) (o : Option Group)
    → lookup k s.groups ≡ o
    → before (reached_in group (some (open_group from_end k s o))) (reached_in group (some s))
      ≡ false
unfolding open_group
opened_rises group k from_end s (some g) h = before_irrefl (reached_in group (some s))
opened_rises group k from_end s none h =
    rises_by (k == group) _ (reached_in group (some s)) _ (reached_group group k _ s)
      (λ same. unfold reached_in in ground (arith, h, same))

opens_rise :
    (name group n k : ℕ) (from_end : Bool) (e : Emulator)
    → before (reached name group (create_group n k from_end e).1) (reached name group e) ≡ false
unfolding create_group
opens_rise name group n k from_end e =
    if_cases
      (λ (r : Reply (Unit {0}) × Emulator).
        before (reached name group r.1) (reached name group e) ≡ false)
      e.closed _ _ (λ _. before_irrefl (reached name group e))
      λ _.
        let s = stream_of (lookup n e.streams) in
        let s' = open_group from_end k s (lookup k s.groups) in
        elim (Bool-cases (n == name)) [
          | inl same ↦
              let new : reached name group (record e { streams = insert n s' e.streams })
                  ≡ reached_in group (some s') =
                ground (arith, reached-insert name group n s' e, same) in
              let old : reached name group e ≡ reached_in group (some s) =
                at_name name n e same ∙ sym (fresh_stream group (lookup n e.streams)) in
              rw (new, old) (opened_rises group k from_end s (lookup k s.groups) refl)
          | inr other ↦
              let new : reached name group (record e { streams = insert n s' e.streams })
                  ≡ reached name group e =
                ground (arith, reached-insert name group n s' e, other) in
              rw new (before_irrefl (reached name group e))
        ]
  where
    at_name :
        (name n : ℕ) (e : Emulator)
        → (n == name) ≡ true
        → reached name group e ≡ reached_in group (lookup n e.streams)
    at_name name n e same =
        unfold reached in
        ap (λ m. reached_in group (lookup m e.streams)) (sym ((==_iff n name).0 same))

Climbs-by :
    (b : Bool) (ds : List Delivery) (from top old new : Stamp)
    → new ≡ (if b then top else old)
    → (b ≡ true → old ≡ from)
    → Climbs from ds top
    → Climbs old (if b then ds else []) new
Climbs-by true ds from top old new e h c = rw (e, h refl) c
Climbs-by false ds from top old new e h c = rw e (before_irrefl old)

read_in-Climbs :
    (now : ℕ) (args : ReadArgs) (s : Stream) (g : Group)
    → Climbs g.last_delivered
        (out_of (read_in now args s g).0)
        (read_in now args s g).1.last_delivered
unfolding read_in
read_in-Climbs now args s g =
    let room = room_of args.count s.entries in
    rw (out_of-turn_of args.block (read_loop now args.consumer args.no_ack room s.entries g).0)
      (read_loop-Climbs now args.consumer args.no_ack room s.entries g)

reads_advance :
    (name group n k now : ℕ) (args : ReadArgs) (e : Emulator)
    → Advances name group e (handed name group now (reads n k args) e) (read_group now n k args e).1
unfolding read_group handed
reads_advance name group n k now args e =
    if_cases Fine e.closed _ _ (λ _. nothing failed refl)
      λ _.
        on_group_cases Fine failed n k (read_in now args) e (nothing failed refl) λ s g here there.
          Climbs-by (n == name && k == group) (out_of (read_in now args s g).0) g.last_delivered
            (read_in now args s g).1.last_delivered (reached name group e) _
            (reached_after name group n k s g (read_in now args s g).1 e here)
            (reached_at name group n k s g e here there) (read_in-Climbs now args s g)
  where
    Fine : Turn × Emulator → Type 0
    Fine r = Advances name group e (if n == name && k == group then out_of r.0 else []) r.1

    nothing : (t : Turn) → out_of t ≡ [] → Fine (t, e)
    nothing t h =
        if_cases (λ ds. Advances name group e ds e) (n == name && k == group) (out_of t) []
          (λ _. rw h (before_irrefl (reached name group e)))
          (λ _. before_irrefl (reached name group e))

step-Advances :
    (name group now : ℕ) (c : Call) (e : Emulator)
    → Advances name group e (handed name group now c e) (step now c e)
unfolding step handed
step-Advances name group now (reads n k args) e = reads_advance name group n k now args e
step-Advances name group now (adds n fields) e =
    stays name group e _ (adds_stay name group n fields now e)
step-Advances name group now (opens n k from_end) e = opens_rise name group n k from_end e
step-Advances name group now (acks n k ids) e =
    stays name group e _
      (unfold ack in group_stays name group n k 0 (ack_in ids) e (ack_in_stays ids))
step-Advances name group now (claims n k args) e = stays name group e _ (
    unfold auto_claim in
    group_stays name group n k _ (claim_in now args) e (claim_in_stays now args))
step-Advances name group now (deletes n ids) e =
    stays name group e _ (deletes_stay name group n ids e)
step-Advances name group now closes e = stays name group e _ (unfold close reached in refl)

handed_run-Climbs :
    (name group : ℕ) (cs : List (ℕ × Call)) (e : Emulator)
    → Climbs (reached name group e) (handed_run name group cs e) (reached name group (run cs e))
unfolding handed_run run
handed_run-Climbs name group [] e = before_irrefl (reached name group e)
handed_run-Climbs name group ((now, c) ∷ cs) e =
    Climbs-append _ _ _ (handed name group now c e) _ (step-Advances name group now c e)
      (handed_run-Climbs name group cs (step now c e))

new_reached : (name group : ℕ) → reached name group new_emulator ≡ zero_stamp
unfolding new_emulator reached reached_in lookup
new_reached name group = refl

-- Over any history of an emulator, with any calls on any streams and groups and by any consumers,
-- the new entries that the reads of one group hand out have strictly increasing ids: no entry is
-- given to the group as new twice, and none out of order.
pub handed_once :
    (name group : ℕ) (cs : List (ℕ × Call))
    → Climbs zero_stamp
        (handed_run name group cs new_emulator)
        (reached name group (run cs new_emulator))
handed_once name group cs =
    subst
      (λ x.
        Climbs x (handed_run name group cs new_emulator) (reached name group (run cs new_emulator)))
      (new_reached name group) (handed_run-Climbs name group cs new_emulator)

-- ===== src/Queue/Stream/Lossless.antt =====
-- The entries of a stream over the histories of an emulator.
use collaborative_programmin.Base.{
  ℕ, ◌≡◌, refl, Bool, true, false, not, ◌&&◌, List, [], ◌∷◌, ◌++◌, Option, none, some, arith, ◌==◌,
  ==_iff, if◌then◌else◌, if_cases, Bool-cases, inl, inr, ap, sym, subst, ◌∙◌, All,
}
use collaborative_programmin.Base.Dict.{lookup, insert, lookup-insert}
use collaborative_programmin.Queue.Stream.{
  Stamp, zero_stamp, Group, Stream, Emulator, new_emulator, stream_of, add, create_group,
  open_group, append_entry, last_id, next_id, on_group, ReadArgs, Turn, failed, read_in, read_group,
  Reply,
}
use collaborative_programmin.Queue.Stream.Claims.{
  ack, ack_in, ClaimArgs, claim_in, auto_claim, delete_entries, delete_loop, close,
}
use collaborative_programmin.Queue.Stream.Order.{before-le, Ordered, clock, next_id-before}
use collaborative_programmin.Queue.Stream.Orderly.{
  AllOrderly, step-AllOrderly, new-AllOrderly, stream_of-IsOrderly,
}
use collaborative_programmin.Queue.Stream.Histories.{
  Call, adds, opens, reads, acks, claims, deletes, closes, step, run, on_group_cases,
  on_stream_cases,
}
use collaborative_programmin.Queue.Stream.Reached.{delete_loop-groups}
use collaborative_programmin.Queue.Stream.Covered.{
  Covered, acked_Covered, more_Covered, claimed_Covered, read_Covered, delete_loop-Covered,
  appended_Covered, zero_Covered,
}

module _ (name group : ℕ) where
  -- The calls that leave the group's deliveries pending: it does not start at the end of the
  -- stream, and its reads are acknowledged.
  unfoldable pub keeps : Call → Bool
  keeps (opens n k from_end) = not (n == name && k == group && from_end)
  keeps (reads n k args) = not (n == name && k == group && args.no_ack)
  keeps (adds n fields) = true
  keeps (acks n k ids) = true
  keeps (claims n k args) = true
  keeps (deletes n ids) = true
  keeps closes = true

  -- The ids that a call acknowledges to the group.
  unfoldable pub acked_by : Call → List Stamp
  acked_by (acks n k ids) = if n == name && k == group then ids else []
  acked_by (opens n k from_end) = []
  acked_by (reads n k args) = []
  acked_by (adds n fields) = []
  acked_by (claims n k args) = []
  acked_by (deletes n ids) = []
  acked_by closes = []

  unfoldable pub acked_run : List Stamp → List (ℕ × Call) → List Stamp
  acked_run acked [] = acked
  acked_run acked ((now, c) ∷ cs) = acked_run (acked_by c ++ acked) cs

  abbrev pub Lossless : List Stamp → Emulator → Type 0
  Lossless acked e =
      (s : Stream) (g : Group)
      → lookup name e.streams ≡ some s
      → lookup group s.groups ≡ some g
      → Covered acked g s.entries

  -- A write of one stream.
  written :
      (acked : List Stamp) (n : ℕ) (s : Stream) (e : Emulator)
      → ((n == name) ≡ true
          → (g : Group) → lookup group s.groups ≡ some g
          → Covered acked g s.entries)
      → Lossless acked e
      → Lossless acked (record e { streams = insert n s e.streams })
  written acked n s e new h t g at there = elim (Bool-cases (n == name)) [
    | inl same ↦
        let is : s ≡ t = ground (arith, at, lookup-insert n name s e.streams, same) in
        subst (λ t. Covered acked g t.entries) is (new same g (rw is there))
    | inr other ↦ h t g (ground (arith, at, lookup-insert n name s e.streams, other)) there
  ]

  -- A write of one group of a stream.
  regrouped :
      (acked : List Stamp) (n k : ℕ) (s : Stream) (g : Group) (e : Emulator)
      → lookup n e.streams ≡ some s
      → ((n == name && k == group) ≡ true → Covered acked g s.entries)
      → Lossless acked e
      → Lossless acked
          (record e { streams = insert n (record s { groups = insert k g s.groups }) e.streams })
  regrouped acked n k s g e here new h =
      written acked n (record s { groups = insert k g s.groups }) e
        (λ same g' there. elim (Bool-cases (k == group)) [
          | inl same' ↦
              let is : g ≡ g' = ground (arith, there, lookup-insert k group g s.groups, same') in
              subst (λ g. Covered acked g s.entries) is (new (ground (arith, same, same')))
          | inr other ↦
              h s g' (ground (arith, here, same))
                (ground (arith, there, lookup-insert k group g s.groups, other))
        ])
        h

  more_Lossless :
      (acked ids : List Stamp) (e : Emulator) → Lossless acked e → Lossless (ids ++ acked) e
  more_Lossless acked ids e h s g at there = more_Covered acked ids g s.entries (h s g at there)

  group_Lossless :
      {A : Type 0} (acked : List Stamp) (x : A) (n k : ℕ) (f : Stream → Group → A × Group)
      (e : Emulator)
      → ((s : Stream) (g : Group)
          → (n == name && k == group) ≡ true
          → lookup name e.streams ≡ some s
          → lookup group s.groups ≡ some g
          → Covered acked (f s g).1 s.entries)
      → Lossless acked e
      → Lossless acked (on_group x n k f e).1
  group_Lossless acked x n k f e keep h =
      on_group_cases (λ r. Lossless acked r.1) x n k f e h
        λ s g here there.
          regrouped acked n k s (f s g).1 e here
            (λ same. keep s g same (ground (arith, here, same)) (ground (arith, there, same))) h

  -- A stream that is missing has no groups.
  stream_of_there :
      (o : Option Stream) (g : Group)
      → lookup group (stream_of o).groups ≡ some g
      → o ≡ some (stream_of o)
  unfolding stream_of lookup
  stream_of_there none g h = absurd (ground (arith, h))
  stream_of_there (some s) g h = refl

  at_name : (n : ℕ) (e : Emulator) → (n == name) ≡ true → lookup n e.streams ≡ lookup name e.streams
  at_name n e same = ap (λ m. lookup m e.streams) ((==_iff n name).0 same)

  add-Lossless :
      (acked : List Stamp) (now n fields : ℕ) (e : Emulator)
      → AllOrderly e
      → Lossless acked e
      → Lossless acked (add now n fields e).1
  unfolding add append_entry
  add-Lossless acked now n fields e orderly h =
      if_cases (λ (r : Reply Stamp × Emulator). Lossless acked r.1) e.closed _ _ (λ _. h)
        λ _.
          let id = next_id now e in
          let s = stream_of (lookup n e.streams) in
          written acked n (append_entry id fields s) (record e { ms = id.ms; seq = id.seq })
            (λ same g there.
              let here = stream_of_there (lookup n e.streams) g there in
              appended_Covered acked g id fields s.entries
                (before-le g.last_delivered (clock e) id ((orderly n s here).behind group g there)
                  (next_id-before now e))
                (h s g (sym (at_name n e same) ∙ here) there))
            h

  opened_Covered :
      (acked : List Stamp) (c : Stamp) (k : ℕ) (from_end : Bool) (s : Stream) (o : Option Group)
      (g : Group)
      → lookup k s.groups ≡ o
      → (k == group && from_end) ≡ false
      → Ordered zero_stamp s.entries c
      → ((g : Group) → lookup group s.groups ≡ some g → Covered acked g s.entries)
      → lookup group (open_group from_end k s o).groups ≡ some g
      → Covered acked g (open_group from_end k s o).entries
  unfolding open_group
  opened_Covered acked c k from_end s (some g') g at start ordered h there = h g there
  opened_Covered acked c k from_end s none g at start ordered h there =
      elim (Bool-cases (k == group)) [
        | inl same ↦
            let is : record { last_delivered = zero_stamp; pending = [] } ≡ g = ground (
              arith,
              there,
              start,
              same,
              lookup-insert k group
                  (record {
                    last_delivered = if from_end then last_id zero_stamp s.entries else zero_stamp;
                    pending = [];
                  })
                  s.groups,
            ) in
            subst (λ g. Covered acked g s.entries) is (zero_Covered acked c s.entries ordered)
        | inr other ↦ h g (
            ground (
              arith,
              there,
              other,
              lookup-insert k group
                  (record {
                    last_delivered = if from_end then last_id zero_stamp s.entries else zero_stamp;
                    pending = [];
                  })
                  s.groups,
            ))
      ]

  open_Lossless :
      (acked : List Stamp) (n k : ℕ) (from_end : Bool) (e : Emulator)
      → (n == name && k == group && from_end) ≡ false
      → AllOrderly e
      → Lossless acked e
      → Lossless acked (create_group n k from_end e).1
  unfolding create_group
  open_Lossless acked n k from_end e start orderly h =
      if_cases (λ (r : Reply (Unit {0}) × Emulator). Lossless acked r.1) e.closed _ _ (λ _. h)
        λ _.
          let s = stream_of (lookup n e.streams) in
          let fine = stream_of-IsOrderly (clock e) (lookup n e.streams) (orderly n) in
          written acked n (open_group from_end k s (lookup k s.groups)) e
            (λ same g there.
              opened_Covered acked (clock e) k from_end s (lookup k s.groups) g refl
                (ground (arith, start, same)) fine.ordered
                (λ g there.
                  h s g (sym (at_name n e same) ∙ stream_of_there (lookup n e.streams) g there)
                    there)
                there)
            h

  read_Lossless :
      (acked : List Stamp) (now n k : ℕ) (args : ReadArgs) (e : Emulator)
      → (n == name && k == group && args.no_ack) ≡ false
      → AllOrderly e
      → Lossless acked e
      → Lossless acked (read_group now n k args e).1
  unfolding read_group
  read_Lossless acked now n k args e files orderly h =
      if_cases (λ (r : Turn × Emulator). Lossless acked r.1) e.closed _ _ (λ _. h)
        λ _.
          group_Lossless acked failed n k (read_in now args) e
            (λ s g same here there.
              read_Covered now args acked (clock e) s g (ground (arith, files, same))
                (orderly name s here) (h s g here there))
            h

  ack-Lossless :
      (acked : List Stamp) (n k : ℕ) (ids : List Stamp) (e : Emulator)
      → Lossless acked e
      → Lossless ((if n == name && k == group then ids else []) ++ acked) (ack n k ids e).1
  unfolding ack
  ack-Lossless acked n k ids e h =
      let new = if n == name && k == group then ids else [] in
      group_Lossless (new ++ acked) 0 n k (ack_in ids) e
        (λ s g same here there.
          let all : new ≡ ids = ground (arith, same) in
          subst (λ i. Covered (i ++ acked) (ack_in ids s g).1 s.entries) (sym all)
            (acked_Covered acked ids s g s.entries (h s g here there)))
        (more_Lossless acked new e h)

  claim_Lossless :
      (acked : List Stamp) (now n k : ℕ) (args : ClaimArgs) (e : Emulator)
      → AllOrderly e
      → Lossless acked e
      → Lossless acked (auto_claim now n k args e).1
  unfolding auto_claim
  claim_Lossless acked now n k args e orderly h =
      group_Lossless acked _ n k (claim_in now args) e
        (λ s g same here there.
          claimed_Covered now args acked (clock e) s g (orderly name s here) (h s g here there))
        h

  delete_Lossless :
      (acked : List Stamp) (n : ℕ) (ids : List Stamp) (e : Emulator)
      → Lossless acked e
      → Lossless acked (delete_entries n ids e).1
  unfolding delete_entries
  delete_Lossless acked n ids e h =
      on_stream_cases (λ r. Lossless acked r.1) 0 n (delete_loop ids) e h
        λ s here.
          written acked n (delete_loop ids s).1 e
            (λ same g there. delete_loop-Covered acked g ids s (
              h s g (sym (at_name n e same) ∙ here)
                (ground (arith, there, ap (lookup group) (delete_loop-groups ids s)))))
            h

  step-Lossless :
      (acked : List Stamp) (now : ℕ) (c : Call) (e : Emulator)
      → keeps c ≡ true
      → AllOrderly e
      → Lossless acked e
      → Lossless (acked_by c ++ acked) (step now c e)
  unfolding step keeps acked_by
  step-Lossless acked now (adds n fields) e kept orderly h =
      add-Lossless acked now n fields e orderly h
  step-Lossless acked now (opens n k from_end) e kept orderly h =
      open_Lossless acked n k from_end e (ground (arith, kept)) orderly h
  step-Lossless acked now (reads n k args) e kept orderly h =
      read_Lossless acked now n k args e (ground (arith, kept)) orderly h
  step-Lossless acked now (acks n k ids) e kept orderly h = ack-Lossless acked n k ids e h
  step-Lossless acked now (claims n k args) e kept orderly h =
      claim_Lossless acked now n k args e orderly h
  step-Lossless acked now (deletes n ids) e kept orderly h = delete_Lossless acked n ids e h
  step-Lossless acked now closes e kept orderly h = unfold close in h

  run-Lossless :
      (acked : List Stamp) (cs : List (ℕ × Call)) (e : Emulator)
      → All (λ c. keeps c.1 ≡ true) cs
      → AllOrderly e
      → Lossless acked e
      → Lossless (acked_run acked cs) (run cs e)
  unfolding run acked_run
  run-Lossless acked [] e kept orderly h = h
  run-Lossless acked ((now, c) ∷ cs) e kept orderly h =
      run-Lossless (acked_by c ++ acked) cs (step now c e) kept.1 (step-AllOrderly now c e orderly)
        (step-Lossless acked now c e kept.0 orderly h)

new_Lossless : (name group : ℕ) → Lossless name group [] new_emulator
unfolding new_emulator lookup
new_Lossless name group s g h = absurd (ground (arith, h))

-- After any history of an emulator in which the group of the stream does not start at the stream's
-- end and is read with acknowledgement, each entry of the stream that is not deleted is still to be
-- given to the group, pending in it, or acknowledged to it: claims, deletions and what happens to
-- other streams and groups lose none.
pub run-new-Covered :
    (name group : ℕ) (cs : List (ℕ × Call)) (s : Stream) (g : Group)
    → All (λ c. keeps name group c.1 ≡ true) cs
    → lookup name (run cs new_emulator).streams ≡ some s
    → lookup group s.groups ≡ some g
    → Covered (acked_run name group [] cs) g s.entries
run-new-Covered name group cs s g kept =
    run-Lossless name group [] cs new_emulator kept new-AllOrderly (new_Lossless name group) s g

-- ===== src/Queue/Examples.antt =====
-- Streams at work: a history of an emulator on which the theorems about internal/queue are applied.
use collaborative_programmin.Queue.Stream.Ids.{Text, dash, print_id, parse_id, parse_id-print_id}
use collaborative_programmin.Base.{
  zero, suc, ap, ◌==◌, All, ℕ, ◌≤◌, ◌≡◌, ◌⊎◌, refl, Bool, true, false, List, [], ◌∷◌, ◌++◌, some,
  length,
}
use collaborative_programmin.Base.Dict.{lookup, insert}
use collaborative_programmin.Queue.Stream.{
  Stamp, zero_stamp, Entry, Group, Stream, new_emulator, ReadArgs, read_in, room_of, before,
  read_group, add, create_group, passes, deliver,
}
use collaborative_programmin.Queue.Stream.Claims.{delete_entries, auto_claim, ack}
use collaborative_programmin.Queue.Stream.Order.{clock}
use collaborative_programmin.Queue.Stream.Reading.{undelivered, Climbs, out_of, read_in_lem}
use collaborative_programmin.Queue.Stream.Histories.{
  Call, adds, opens, reads, acks, claims, deletes, step, run, handed_run, reached,
}
use collaborative_programmin.Queue.Stream.Once.{handed_once}
use collaborative_programmin.Queue.Stream.Orderly.{IsOrderly, run-new-IsOrderly}
use collaborative_programmin.Queue.Stream.Covered.{Covered}
use collaborative_programmin.Queue.Stream.Lossless.{keeps, acked_run, run-new-Covered}

abbrev stamp : ℕ → ℕ → Stamp
stamp ms seq = record { ms = ms; seq = seq }

abbrev by : ℕ → ℕ → ReadArgs
by consumer count = record { consumer = consumer; count = count; no_ack = false; block = false }

-- Four entries, one added when the clock has gone back; a consumer reads two, acknowledges one and
-- stalls; another claims what is left and reads on.
abbrev history : List (ℕ × Call)
history =
    (5, adds 1 70)
    ∷ (5, adds 1 71)
    ∷ (3, adds 1 72)
    ∷ (6, opens 1 2 false)
    ∷ (7, reads 1 2 (by 8 2))
    ∷ (8, acks 1 2 (stamp 5 0 ∷ []))
    ∷ (60, claims 1 2 (record { consumer = 9; min_idle = 30; start = zero_stamp; count = 0 }))
    ∷ (61, adds 1 73)
    ∷ (62, deletes 1 (stamp 5 2 ∷ []))
    ∷ (63, reads 1 2 (by 9 0))
    ∷ []

abbrev entry : Stamp → ℕ → Bool → Entry
entry id fields deleted = record { id = id; fields = fields; deleted = deleted }

abbrev last_group : Group
last_group = record {
  last_delivered = stamp 61 0;
  pending =
      record { id = stamp 5 1; consumer = 9; delivered_at = 60; count = 2 }
      ∷ record { id = stamp 61 0; consumer = 9; delivered_at = 63; count = 1 }
      ∷ [];
}

abbrev last_stream : Stream
last_stream = record {
  entries =
      entry (stamp 5 0) 70 false
      ∷ entry (stamp 5 1) 71 false
      ∷ entry (stamp 5 2) 72 true
      ∷ entry (stamp 61 0) 73 false
      ∷ [];
  index = stamp 61 0 ∷ stamp 5 1 ∷ stamp 5 0 ∷ [];
  groups = (2, last_group) ∷ [];
}

last : lookup 1 (run history new_emulator).streams ≡ some last_stream
unfolding run step lookup insert read_group delete_entries add auto_claim ack create_group
    new_emulator passes deliver
last = refl

handed_once_example :
    Climbs zero_stamp (handed_run 1 2 history new_emulator) (reached 1 2 (run history new_emulator))
handed_once_example = handed_once 1 2 history

run-new-IsOrderly_example : IsOrderly (clock (run history new_emulator)) last_stream
run-new-IsOrderly_example = run-new-IsOrderly history 1 last_stream last

run-new-Covered_example : Covered (acked_run 1 2 [] history) last_group last_stream.entries
unfolding keeps lookup
run-new-Covered_example =
    run-new-Covered 1 2 history last_stream last_group
      (refl, (refl, (refl, (refl, (refl, (refl, (refl, (refl, (refl, (refl, tt)))))))))) last refl

abbrev first_group : Group
first_group = record { last_delivered = stamp 5 0; pending = [] }

read_in_lem_example :
    let r = read_in 70 (by 9 1) last_stream first_group in
    (out_of r.0 ++ undelivered r.1.last_delivered last_stream.entries
      ≡ undelivered (stamp 5 0) last_stream.entries)
    × (length (out_of r.0) ≤ 1)
    × ((length (out_of r.0) ≡ 1) ⊎ (undelivered r.1.last_delivered last_stream.entries ≡ []))
unfolding room_of before
read_in_lem_example =
    read_in_lem 70 (by 9 1) last_stream first_group zero_stamp (stamp 61 0)
      (refl, (refl, (refl, (refl, refl))))

-- Numbers printed in the base one.
ones : ℕ → Text
ones zero = []
ones (suc n) = 49 ∷ ones n

ones_no_dash : (n : ℕ) → All (λ b. (b == dash) ≡ false) (ones n)
unfolding ones
ones_no_dash zero = tt
ones_no_dash (suc n) = (refl, ones_no_dash n)

length-ones : (n : ℕ) → length (ones n) ≡ n
unfolding ones
length-ones zero = refl
length-ones (suc n) = ap suc (length-ones n)

parse_id-print_id_example : parse_id ones length (print_id ones length (stamp 5 2)) ≡ stamp 5 2
parse_id-print_id_example = parse_id-print_id ones length (stamp 5 2) ones_no_dash length-ones

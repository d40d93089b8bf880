-- ===== src/Queue/Stream/Claims.antt =====
-- The rest of internal/queue/redisstream/emulator.go: acknowledgement, claims and deletion.
use collaborative_programmin.Base.{
  ℕ, suc, ◌+◌, ◌-◌, Bool, true, false, ◌||◌, List, [], ◌∷◌, Option, none, some, ◌==◌, ltb,
  if◌then◌else◌,
}
use collaborative_programmin.Queue.Stream.{
  Stamp, before, ◌=ⁱ◌, zero_stamp, Entry, Pending, Group, Stream, Emulator, Delivery, file, find,
  discard, on_group, on_stream,
}

unfoldable pub ack_loop : List Stamp → List Pending → ℕ × List Pending
unfolding find discard
ack_loop [] ps = (0, ps)
ack_loop (id ∷ ids) ps = elim (find id ps) [
  | none ↦ ack_loop ids ps
  | some p ↦ let (n, ps') = ack_loop ids (discard id ps) in (suc n, ps')
]

unfoldable pub ack_in : List Stamp → Stream → Group → ℕ × Group
unfolding ack_loop
ack_in ids s g = let (n, ps) = ack_loop ids g.pending in (n, record g { pending = ps })

unfoldable pub ack : ℕ → ℕ → List Stamp → Emulator → ℕ × Emulator
unfolding ack_in on_group
ack name group ids e = on_group 0 name group (ack_in ids) e

-- The ids of the pending entries, in the order of the ids.
unfoldable pub place : Stamp → List Stamp → List Stamp
place x [] = x ∷ []
place x (y ∷ ys) = if before x y then x ∷ y ∷ ys else y ∷ place x ys

unfoldable pub sorted_ids : List Pending → List Stamp
unfolding place
sorted_ids [] = []
sorted_ids (p ∷ ps) = place p.id (sorted_ids ps)

unfoldable pub member : Stamp → List Stamp → Bool
member id [] = false
member id (x ∷ xs) = x =ⁱ id || member id xs

-- The entry that the index points to.
unfoldable pub entry_of : Stamp → List Entry → Option Entry
entry_of id [] = none
entry_of id (x ∷ xs) = if x.id =ⁱ id then some x else entry_of id xs

unfoldable pub live_of : Bool → Option Entry → Option Entry
live_of false o = none
live_of true none = none
live_of true (some x) = if x.deleted then none else some x

-- `s.index[id]`, unless the entry is gone or deleted.
unfoldable pub live_entry : Stamp → Stream → Option Entry
unfolding member entry_of live_of
live_entry id s = live_of (member id s.index) (entry_of id s.entries)

pub record ClaimArgs : Type 0 where
  pub consumer : ℕ
  pub min_idle : ℕ
  pub start : Stamp
  pub count : ℕ

pub record Claimed : Type 0 where
  pub cursor : Stamp
  pub out : List Delivery

-- What the loop of `AutoClaim` does with an id.
pub data Verdict : Type 0 where
  skip drop : Verdict
  take : Pending → Entry → Verdict

unfoldable pub judge : ℕ → ℕ → Option Pending → Option Entry → Verdict
judge now min_idle none live = skip
judge now min_idle (some p) none = if ltb now (p.delivered_at + min_idle) then skip else drop
judge now min_idle (some p) (some x) =
    if ltb now (p.delivered_at + min_idle) then skip else take p x

unfoldable pub verdict : ℕ → ClaimArgs → Stream → Stamp → List Pending → Verdict
unfolding judge before find live_entry
verdict now args s id ps =
    if before id args.start then skip else judge now args.min_idle (find id ps) (live_entry id s)

-- `rest` is the loop over the ids that follow.
unfoldable pub claim_as :
    ℕ
    → ClaimArgs
    → ℕ
    → Stamp
    → (ℕ → List Pending → Claimed × List Pending)
    → List Pending
    → Verdict
    → Claimed × List Pending
unfolding file discard
claim_as now args room id rest ps skip = rest room ps
claim_as now args room id rest ps drop = rest room (discard id ps)
claim_as now args room id rest ps (take p x) =
    let p' = record p { consumer = args.consumer; delivered_at = now; count = suc p.count } in
    let (c, ps') = rest (room - 1) (file p' ps) in
    if room == 0
    then (record { cursor = id; out = [] }, ps)
    else (record c { out = record { id = id; fields = x.fields } ∷ c.out }, ps')

-- The loop of `AutoClaim` over the sorted ids, with `room` claims left.
unfoldable pub claim_loop :
    ℕ → ClaimArgs → Stream → List Stamp → ℕ → List Pending → Claimed × List Pending
unfolding verdict claim_as
claim_loop now args s [] room ps = (record { cursor = zero_stamp; out = [] }, ps)
claim_loop now args s (id ∷ ids) room ps =
    claim_as now args room id (claim_loop now args s ids) ps (verdict now args s id ps)

unfoldable pub claim_in : ℕ → ClaimArgs → Stream → Group → Claimed × Group
unfolding claim_loop sorted_ids
claim_in now args s g =
    let (c, ps) =
      claim_loop now args s (sorted_ids g.pending) (if args.count == 0 then 100 else args.count)
        g.pending in
    (c, record g { pending = ps })

unfoldable pub auto_claim : ℕ → ℕ → ℕ → ClaimArgs → Emulator → Claimed × Emulator
unfolding claim_in on_group
auto_claim now name group args e =
    on_group (record { cursor = zero_stamp; out = [] }) name group (claim_in now args) e

unfoldable pub mark : Stamp → List Entry → List Entry
mark id [] = []
mark id (x ∷ xs) = if x.id =ⁱ id then record x { deleted = true } ∷ mark id xs else x ∷ mark id xs

unfoldable pub unlist : Stamp → List Stamp → List Stamp
unlist id [] = []
unlist id (x ∷ xs) = if x =ⁱ id then unlist id xs else x ∷ unlist id xs

unfoldable pub erase : Stamp → Stream → Stream
unfolding mark unlist
erase id s = record s { entries = mark id s.entries; index = unlist id s.index }

unfoldable pub delete_loop : List Stamp → Stream → ℕ × Stream
unfolding live_entry erase
delete_loop [] s = (0, s)
delete_loop (id ∷ ids) s = elim (live_entry id s) [
  | none ↦ delete_loop ids s
  | some x ↦ let (n, s') = delete_loop ids (erase id s) in (suc n, s')
]

unfoldable pub delete_entries : ℕ → List Stamp → Emulator → ℕ × Emulator
unfolding delete_loop on_stream
delete_entries name ids e = on_stream 0 name (delete_loop ids) e

unfoldable pub close : Emulator → Emulator
close e = record e { closed = true }

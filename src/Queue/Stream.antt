-- ===== src/Queue/Stream.antt =====
-- internal/queue/redisstream/emulator.go: streams with consumer groups. Each operation runs under the
-- emulator's lock, so it is a function of the clock's reading and the state. The fields of an entry
-- are an opaque handle; an id is its pair of numbers (Ids has its text). `wait` is the turn of a
-- blocking read that found nothing before its deadline; the channels that wake it are left out.
pub mod Claims
pub mod Order
pub mod Reading
pub mod Histories
pub mod Reached
pub mod Once
pub mod Orderly
pub mod Kept
pub mod Covered
pub mod Ids
pub mod Lossless
use collaborative_programmin.Base.{
  ℕ, zero, suc, ◌+◌, ◌-◌, Bool, true, false, not, ◌&&◌, ◌||◌, List, [], ◌∷◌, ◌++◌, Option, none,
  some, ◌==◌, ltb, leb, if◌then◌else◌, length,
}
use collaborative_programmin.Base.Dict.{Dict, lookup, insert}

-- The two numbers of an id, milliseconds and sequence.
pub record Stamp : Type 0 where
  pub ms : ℕ
  pub seq : ℕ

-- `idLess`.
unfoldable pub before : Stamp → Stamp → Bool
before a b = if not (a.ms == b.ms) then ltb a.ms b.ms else ltb a.seq b.seq

infix 50 ◌=ⁱ◌
abbrev pub ◌=ⁱ◌ : Stamp → Stamp → Bool
a =ⁱ b = a.ms == b.ms && a.seq == b.seq

pub record Entry : Type 0 where
  pub id : Stamp
  pub fields : ℕ
  pub deleted : Bool

pub record Pending : Type 0 where
  pub id : Stamp
  pub consumer : ℕ
  pub delivered_at : ℕ
  pub count : ℕ

pub record Group : Type 0 where
  pub last_delivered : Stamp
  pub pending : List Pending

-- `index` has the ids that the code's map of entries has.
pub record Stream : Type 0 where
  pub entries : List Entry
  pub index : List Stamp
  pub groups : Dict Group

pub record Emulator : Type 0 where
  pub streams : Dict Stream
  pub ms : ℕ
  pub seq : ℕ
  pub closed : Bool

unfoldable pub new_emulator : Emulator
new_emulator = record { streams = []; ms = 0; seq = 0; closed = false }

abbrev pub zero_stamp : Stamp
zero_stamp = record { ms = 0; seq = 0 }

unfoldable pub stream_of : Option Stream → Stream
stream_of none = record { entries = []; index = []; groups = [] }
stream_of (some s) = s

-- `nextID`: the clock's milliseconds, or the next number in the same one.
unfoldable pub next_id : ℕ → Emulator → Stamp
next_id now e =
    if ltb e.ms now then record { ms = now; seq = 0 } else record { ms = e.ms; seq = suc e.seq }

pub data Reply {ℓ} (A : Type ℓ) : Type ℓ where
  unavailable : Reply A
  ok : A → Reply A

unfoldable pub append_entry : Stamp → ℕ → Stream → Stream
append_entry id fields s = record s {
  entries = s.entries ++ (record { id = id; fields = fields; deleted = false } ∷ []);
  index = id ∷ s.index;
}

unfoldable pub add : ℕ → ℕ → ℕ → Emulator → Reply Stamp × Emulator
unfolding next_id append_entry stream_of
add now name fields e =
    let id = next_id now e in
    if e.closed then (unavailable, e) else (
      ok id,
      record e {
        streams =
            insert name (append_entry id fields (stream_of (lookup name e.streams))) e.streams;
        ms = id.ms;
        seq = id.seq;
      },
    )

unfoldable pub last_id : Stamp → List Entry → Stamp
last_id s [] = s
last_id s (x ∷ xs) = last_id x.id xs

-- `from_end` is whether the start is "$".
unfoldable pub open_group : Bool → ℕ → Stream → Option Group → Stream
unfolding last_id
open_group from_end group s (some g) = s
open_group from_end group s none = record s {
  groups =
      insert group
        (record {
          last_delivered = if from_end then last_id zero_stamp s.entries else zero_stamp;
          pending = [];
        })
        s.groups;
}

unfoldable pub create_group : ℕ → ℕ → Bool → Emulator → Reply (Unit {0}) × Emulator
unfolding open_group stream_of
create_group name group from_end e =
    let s = stream_of (lookup name e.streams) in
    if e.closed then (unavailable, e) else (
      ok tt,
      record e {
        streams = insert name (open_group from_end group s (lookup group s.groups)) e.streams;
      },
    )

-- An operation on one stream, with `x` where it is missing.
unfoldable pub on_stream_of :
    {A : Type 0} → A → ℕ → (Stream → A × Stream) → Emulator → Option Stream → A × Emulator
on_stream_of x name f e none = (x, e)
on_stream_of x name f e (some s) =
    let (a, s') = f s in (a, record e { streams = insert name s' e.streams })

unfoldable pub on_stream : {A : Type 0} → A → ℕ → (Stream → A × Stream) → Emulator → A × Emulator
unfolding on_stream_of
on_stream x name f e = on_stream_of x name f e (lookup name e.streams)

-- An operation on one group of one stream, with `x` where one of them is missing.
unfoldable pub on_group_of :
    {A : Type 0}
    → A
    → ℕ
    → ℕ
    → (Stream → Group → A × Group)
    → Emulator
    → Stream
    → Option Group
    → A × Emulator
on_group_of x name group f e s none = (x, e)
on_group_of x name group f e s (some g) =
    let (a, g') = f s g in
    (
      a,
      record e { streams = insert name (record s { groups = insert group g' s.groups }) e.streams },
    )

unfoldable pub on_group_in :
    {A : Type 0}
    → A
    → ℕ
    → ℕ
    → (Stream → Group → A × Group)
    → Emulator
    → Option Stream
    → A × Emulator
on_group_in x name group f e none = (x, e)
on_group_in x name group f e (some s) = on_group_of x name group f e s (lookup group s.groups)

unfoldable pub on_group :
    {A : Type 0} → A → ℕ → ℕ → (Stream → Group → A × Group) → Emulator → A × Emulator
unfolding on_group_of on_group_in
on_group x name group f e = on_group_in x name group f e (lookup name e.streams)

-- A write of the pending entry under its id.
unfoldable pub file : Pending → List Pending → List Pending
file p [] = p ∷ []
file p (q ∷ qs) = if q.id =ⁱ p.id then p ∷ qs else q ∷ file p qs

unfoldable pub find : Stamp → List Pending → Option Pending
find id [] = none
find id (q ∷ qs) = if q.id =ⁱ id then some q else find id qs

unfoldable pub discard : Stamp → List Pending → List Pending
discard id [] = []
discard id (q ∷ qs) = if q.id =ⁱ id then discard id qs else q ∷ discard id qs

-- What a read hands out.
pub record Delivery : Type 0 where
  pub id : Stamp
  pub fields : ℕ

unfoldable pub deliver : ℕ → ℕ → Bool → Entry → Group → Group
unfolding file
deliver now consumer no_ack x g = record g {
  last_delivered = x.id;
  pending =
      if no_ack
      then g.pending
      else file (record { id = x.id; consumer = consumer; delivered_at = now; count = 1 })
          g.pending;
}

-- The test by which the loop of `ReadGroup` passes an entry over.
unfoldable pub passes : Stamp → Entry → Bool
unfolding before
passes last x = x.deleted || not (before last x.id)

-- The loop of `ReadGroup` over the entries, with `room` deliveries left.
unfoldable pub read_loop : ℕ → ℕ → Bool → ℕ → List Entry → Group → List Delivery × Group
read_loop now consumer no_ack room [] g = ([], g)
read_loop now consumer no_ack zero (x ∷ xs) g = ([], g)
read_loop now consumer no_ack (suc room) (x ∷ xs) g = elim (passes g.last_delivered x) [
  | true ↦ read_loop now consumer no_ack (suc room) xs g
  | false ↦
      let (out, g') = read_loop now consumer no_ack room xs (deliver now consumer no_ack x g) in
      (record { id = x.id; fields = x.fields } ∷ out, g')
]

pub data Turn : Type 0 where
  failed wait : Turn
  delivered : List Delivery → Turn

pub record ReadArgs : Type 0 where
  pub consumer : ℕ
  pub count : ℕ
  pub no_ack : Bool
  pub block : Bool

-- A blocking read waits when it has nothing to hand out.
unfoldable pub turn_of : Bool → List Delivery → Turn
turn_of block [] = if block then wait else delivered []
turn_of block (d ∷ ds) = delivered (d ∷ ds)

unfoldable pub room_of : ℕ → List Entry → ℕ
room_of count entries = if count == 0 then length entries else count

-- One turn of `ReadGroup` on a group that is there.
unfoldable pub read_in : ℕ → ReadArgs → Stream → Group → Turn × Group
unfolding read_loop turn_of room_of
read_in now args s g =
    let (out, g') =
      read_loop now args.consumer args.no_ack (room_of args.count s.entries) s.entries g in
    (turn_of args.block out, g')

unfoldable pub read_group : ℕ → ℕ → ℕ → ReadArgs → Emulator → Turn × Emulator
unfolding read_in on_group
read_group now name group args e =
    if e.closed then (failed, e) else on_group failed name group (read_in now args) e

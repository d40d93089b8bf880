-- ===== src/Queue/Stream/Histories.antt =====
-- The histories of an emulator, and the deliveries of one group over a history.
use collaborative_programmin.Base.{
  ℕ, ◌≡◌, refl, Bool, ◌&&◌, List, [], ◌∷◌, ◌++◌, Option, none, some, ◌==◌, if◌then◌else◌,
}
use collaborative_programmin.Base.Dict.{lookup, insert}
use collaborative_programmin.Queue.Stream.{
  Stamp, zero_stamp, Group, Stream, Emulator, add, create_group, on_group, on_group_of, on_group_in,
  on_stream, on_stream_of, Delivery, ReadArgs, read_group,
}
use collaborative_programmin.Queue.Stream.Claims.{ack, ClaimArgs, auto_claim, delete_entries, close}
use collaborative_programmin.Queue.Stream.Reading.{out_of}

pub data Call : Type 0 where
  adds : (name fields : ℕ) → Call
  opens : (name group : ℕ) → Bool → Call
  reads : (name group : ℕ) → ReadArgs → Call
  acks : (name group : ℕ) → List Stamp → Call
  claims : (name group : ℕ) → ClaimArgs → Call
  deletes : (name : ℕ) → List Stamp → Call
  closes : Call

unfoldable pub step : ℕ → Call → Emulator → Emulator
step now (adds name fields) e = (add now name fields e).1
step now (opens name group from_end) e = (create_group name group from_end e).1
step now (reads name group args) e = (read_group now name group args e).1
step now (acks name group ids) e = (ack name group ids e).1
step now (claims name group args) e = (auto_claim now name group args e).1
step now (deletes name ids) e = (delete_entries name ids e).1
step now closes e = close e

-- A history of calls with the clock at each, which may go back.
unfoldable pub run : List (ℕ × Call) → Emulator → Emulator
run [] e = e
run ((now, c) ∷ cs) e = run cs (step now c e)

-- The two ways in which an operation on a group ends.
module _ {A : Type 0} (P : A × Emulator → Type 0) (x : A) (name group : ℕ)
    (f : Stream → Group → A × Group) (e : Emulator) (missing : P (x, e))
    (there : (s : Stream) (g : Group)
      → lookup name e.streams ≡ some s
      → lookup group s.groups ≡ some g
      → P (
        (f s g).0,
        record e {
          streams = insert name (record s { groups = insert group (f s g).1 s.groups }) e.streams;
        },
      )) where
  on_group_of_cases :
      (s : Stream) (o : Option Group)
      → lookup name e.streams ≡ some s
      → lookup group s.groups ≡ o
      → P (on_group_of x name group f e s o)
  unfolding on_group_of
  on_group_of_cases s none h k = missing
  on_group_of_cases s (some g) h k = there s g h k

  on_group_in_cases :
      (o : Option Stream) → lookup name e.streams ≡ o → P (on_group_in x name group f e o)
  unfolding on_group_in
  on_group_in_cases none h = missing
  on_group_in_cases (some s) h = on_group_of_cases s (lookup group s.groups) h refl

  pub on_group_cases : P (on_group x name group f e)
  unfolding on_group
  on_group_cases = on_group_in_cases (lookup name e.streams) refl

module _ {A : Type 0} (P : A × Emulator → Type 0) (x : A) (name : ℕ) (f : Stream → A × Stream)
    (e : Emulator) (missing : P (x, e))
    (there : (s : Stream)
      → lookup name e.streams ≡ some s
      → P ((f s).0, record e { streams = insert name (f s).1 e.streams })) where
  on_stream_of_cases :
      (o : Option Stream) → lookup name e.streams ≡ o → P (on_stream_of x name f e o)
  unfolding on_stream_of
  on_stream_of_cases none h = missing
  on_stream_of_cases (some s) h = there s h

  pub on_stream_cases : P (on_stream x name f e)
  unfolding on_stream
  on_stream_cases = on_stream_of_cases (lookup name e.streams) refl

-- How far a group has come; the zero id while it does not exist.
unfoldable pub reached_in : ℕ → Option Stream → Stamp
reached_in group none = zero_stamp
reached_in group (some s) = elim (lookup group s.groups) [
  | none ↦ zero_stamp
  | some g ↦ g.last_delivered
]

unfoldable pub reached : ℕ → ℕ → Emulator → Stamp
unfolding reached_in
reached name group e = reached_in group (lookup name e.streams)

-- What a call hands out to one group as new entries.
unfoldable pub handed : ℕ → ℕ → ℕ → Call → Emulator → List Delivery
handed name group now (reads n k args) e =
    if n == name && k == group then out_of (read_group now n k args e).0 else []
handed name group now (adds n fields) e = []
handed name group now (opens n k from_end) e = []
handed name group now (acks n k ids) e = []
handed name group now (claims n k args) e = []
handed name group now (deletes n ids) e = []
handed name group now closes e = []

unfoldable pub handed_run : ℕ → ℕ → List (ℕ × Call) → Emulator → List Delivery
handed_run name group [] e = []
handed_run name group ((now, c) ∷ cs) e =
    handed name group now c e ++ handed_run name group cs (step now c e)

-- ===== src/Queue/Stream/Reached.antt =====
-- How far a group has come, after each operation.
use collaborative_programmin.Base.{
  ℕ, ◌≡◌, refl, true, ◌&&◌, List, [], ◌∷◌, Option, none, some, arith, ◌==◌, if◌then◌else◌, if_cases,
  Option-cases, inl, inr, ap,
}
use collaborative_programmin.Base.Dict.{lookup, insert, lookup-insert}
use collaborative_programmin.Queue.Stream.{
  Stamp, Group, Stream, Emulator, stream_of, add, append_entry, next_id, on_group, Delivery, Reply,
}
use collaborative_programmin.Queue.Stream.Claims.{
  ack_in, ClaimArgs, claim_in, delete_entries, delete_loop, erase, live_entry,
}
use collaborative_programmin.Queue.Stream.Order.{before_irrefl}
use collaborative_programmin.Queue.Stream.Reading.{Climbs}
use collaborative_programmin.Queue.Stream.Histories.{
  on_group_cases, on_stream_cases, reached_in, reached,
}

-- A write of a stream that leaves the group as far as it was.
pub reached-insert :
    (name group n : ℕ) (s' : Stream) (e : Emulator)
    → reached name group (record e { streams = insert n s' e.streams })
      ≡ (if n == name then reached_in group (some s') else reached name group e)
unfolding reached
reached-insert name group n s' e = ground (arith, lookup-insert n name s' e.streams)

pub reached_group :
    (group k : ℕ) (g' : Group) (s : Stream)
    → reached_in group (some (record s { groups = insert k g' s.groups }))
      ≡ (if k == group then g'.last_delivered else reached_in group (some s))
unfolding reached_in
reached_group group k g' s = ground (arith, lookup-insert k group g' s.groups)

-- What a call has handed out climbs from where the group was to where it is.
abbrev pub Advances : ℕ → ℕ → Emulator → List Delivery → Emulator → Type 0
Advances name group e ds e' = Climbs (reached name group e) ds (reached name group e')

pub stays :
    (name group : ℕ) (e e' : Emulator)
    → reached name group e' ≡ reached name group e
    → Advances name group e [] e'
stays name group e e' h = rw h (before_irrefl (reached name group e))

reached_in_there :
    (k : ℕ) (s : Stream) (g : Group)
    → lookup k s.groups ≡ some g
    → reached_in k (some s) ≡ g.last_delivered
unfolding reached_in
reached_in_there k s g h = ground (arith, h)

reached_stream :
    (n k : ℕ) (s : Stream) (e : Emulator)
    → lookup n e.streams ≡ some s
    → reached n k e ≡ reached_in k (some s)
unfolding reached
reached_stream n k s e h = rw h refl

-- Where a group is after an operation on one, its own or another.
pub reached_after :
    (name group n k : ℕ) (s : Stream) (g g' : Group) (e : Emulator)
    → lookup n e.streams ≡ some s
    → reached name group
        (record e { streams = insert n (record s { groups = insert k g' s.groups }) e.streams })
      ≡ (if n == name && k == group then g'.last_delivered else reached name group e)
reached_after name group n k s g g' e here = ground (
  arith,
  reached-insert name group n (record s { groups = insert k g' s.groups }) e,
  reached_group group k g' s,
  reached_stream n group s e here,
)

pub reached_at :
    (name group n k : ℕ) (s : Stream) (g : Group) (e : Emulator)
    → lookup n e.streams ≡ some s
    → lookup k s.groups ≡ some g
    → (n == name && k == group) ≡ true
    → reached name group e ≡ g.last_delivered
reached_at name group n k s g e here there same =
    ground (arith, same, reached_stream n k s e here, reached_in_there k s g there)

-- An operation on a group that does not move it.
pub group_stays :
    {A : Type 0} (name group n k : ℕ) (x : A) (f : Stream → Group → A × Group) (e : Emulator)
    → ((s : Stream) (g : Group) → (f s g).1.last_delivered ≡ g.last_delivered)
    → reached name group (on_group x n k f e).1 ≡ reached name group e
group_stays name group n k x f e same =
    on_group_cases (λ r. reached name group r.1 ≡ reached name group e) x n k f e refl
      λ s g here there. ground (
        arith,
        reached_after name group n k s g (f s g).1 e here,
        reached_at name group n k s g e here there,
        same s g,
      )

pub ack_in_stays :
    (ids : List Stamp) (s : Stream) (g : Group)
    → (ack_in ids s g).1.last_delivered ≡ g.last_delivered
unfolding ack_in
ack_in_stays ids s g = refl

pub claim_in_stays :
    (now : ℕ) (args : ClaimArgs) (s : Stream) (g : Group)
    → (claim_in now args s g).1.last_delivered ≡ g.last_delivered
unfolding claim_in
claim_in_stays now args s g = refl

pub delete_loop-groups : (ids : List Stamp) (s : Stream) → (delete_loop ids s).1.groups ≡ s.groups
unfolding delete_loop erase
delete_loop-groups [] s = refl
delete_loop-groups (id ∷ ids) s = elim (Option-cases (live_entry id s)) [
  | inl missing ↦ rw (missing, delete_loop) (delete_loop-groups ids s)
  | inr (x, here) ↦ rw (here, delete_loop) (delete_loop-groups ids (erase id s))
]

same_groups :
    (group : ℕ) (s s' : Stream)
    → s'.groups ≡ s.groups
    → reached_in group (some s') ≡ reached_in group (some s)
unfolding reached_in
same_groups group s s' h = ground (arith, ap (lookup group) h)

pub deletes_stay :
    (name group n : ℕ) (ids : List Stamp) (e : Emulator)
    → reached name group (delete_entries n ids e).1 ≡ reached name group e
unfolding delete_entries
deletes_stay name group n ids e =
    on_stream_cases (λ r. reached name group r.1 ≡ reached name group e) 0 n (delete_loop ids) e
      refl
      λ s here. ground (
        arith,
        reached-insert name group n (delete_loop ids s).1 e,
        same_groups group s (delete_loop ids s).1 (delete_loop-groups ids s),
        reached_stream n group s e here,
      )

pub fresh_stream :
    (group : ℕ) (o : Option Stream) → reached_in group (some (stream_of o)) ≡ reached_in group o
unfolding reached_in stream_of lookup
fresh_stream group none = refl
fresh_stream group (some s) = refl

pub adds_stay :
    (name group n fields now : ℕ) (e : Emulator)
    → reached name group (add now n fields e).1 ≡ reached name group e
unfolding add reached
adds_stay name group n fields now e =
    if_cases (λ (r : Reply Stamp × Emulator). reached name group r.1 ≡ reached name group e)
      e.closed _ _ (λ _. refl)
      λ _.
        let id = next_id now e in
        let s = stream_of (lookup n e.streams) in
        ground (
          arith,
          reached-insert name group n (append_entry id fields s)
              (record e { ms = id.ms; seq = id.seq }),
          same_groups group s (append_entry id fields s) (append_entry-groups id fields s),
          fresh_stream group (lookup n e.streams),
        )
  where
    append_entry-groups :
        (id : Stamp) (fields : ℕ) (s : Stream) → (append_entry id fields s).groups ≡ s.groups
    append_entry-groups id fields s = unfold append_entry in refl

-- ===== src/Queue/Stream/Kept.antt =====
-- The pending entries of a group, after each operation.
use collaborative_programmin.Base.{
  ℕ, zero, suc, ◌-◌, ◌≡◌, refl, Bool, true, false, not, ◌&&◌, ◌||◌, List, [], ◌∷◌, Option, none,
  some, arith, Bool-cases, inl, inr, ap,
}
use collaborative_programmin.Queue.Stream.{
  Stamp, ◌=ⁱ◌, Entry, Pending, Group, Stream, read_loop, deliver, find, file, discard,
}
use collaborative_programmin.Queue.Stream.Claims.{
  ClaimArgs, Claimed, live_entry, ack_loop, claim_loop, Verdict, skip, drop, take, judge, verdict,
  claim_as, member,
}
use collaborative_programmin.Queue.Stream.Order.{same_stamp}

abbrev pub is_some {ℓ} : {A : Type ℓ} → Option A → Bool
is_some none = false
is_some (some a) = true

abbrev pub is_pending : Stamp → List Pending → Bool
is_pending id ps = is_some (find id ps)

pub is_pending-file :
    (p : Pending) (i : Stamp) (ps : List Pending)
    → is_pending i (file p ps) ≡ (p.id =ⁱ i || is_pending i ps)
unfolding find file
is_pending-file p i [] = ground arith
is_pending-file p i (q ∷ qs) = ground (arith, is_pending-file p i qs)

is_pending-discard :
    (id i : Stamp) (ps : List Pending)
    → is_pending i (discard id ps) ≡ (not (id =ⁱ i) && is_pending i ps)
unfolding find discard
is_pending-discard id i [] = ground arith
is_pending-discard id i (q ∷ qs) = ground (arith, is_pending-discard id i qs)

pub is_pending-ack_loop :
    (i : Stamp) (ids : List Stamp) (ps : List Pending)
    → is_pending i ps ≡ true
    → (is_pending i (ack_loop ids ps).1 || member i ids) ≡ true
unfolding ack_loop member
is_pending-ack_loop i [] ps h = ground (arith, h)
is_pending-ack_loop i (id ∷ ids) ps h = ground (
  arith,
  h,
  is_pending-discard id i ps,
  is_pending-ack_loop i ids ps,
  is_pending-ack_loop i ids (discard id ps),
)

judge-drop :
    (now min_idle : ℕ) (o : Option Pending) (live : Option Entry)
    → judge now min_idle o live ≡ drop
    → live ≡ none
unfolding judge
judge-drop now min_idle none live h = cc
judge-drop now min_idle (some p) none h = refl
judge-drop now min_idle (some p) (some x) h = ground (arith, h)

-- A claim drops only ids whose entries are gone.
verdict-drop :
    (now : ℕ) (args : ClaimArgs) (s : Stream) (id : Stamp) (ps : List Pending)
    → verdict now args s id ps ≡ drop
    → live_entry id s ≡ none
unfolding verdict
verdict-drop now args s id ps h =
    judge-drop now args.min_idle (find id ps) (live_entry id s) (ground (arith, h))

claim_as_keeps :
    (i : Stamp) (now : ℕ) (args : ClaimArgs) (room : ℕ) (id : Stamp) (s : Stream)
    (ps : List Pending) (rest : ℕ → List Pending → Claimed × List Pending) (v : Verdict)
    → ((room : ℕ) (ps : List Pending)
        → is_pending i ps ≡ true
        → is_pending i (rest room ps).1 ≡ true)
    → is_some (live_entry i s) ≡ true
    → (v ≡ drop → live_entry id s ≡ none)
    → is_pending i ps ≡ true
    → is_pending i (claim_as now args room id rest ps v).1 ≡ true
unfolding claim_as
claim_as_keeps i now args room id s ps rest skip keeps live gone h = keeps room ps h
claim_as_keeps i now args room id s ps rest drop keeps live gone h =
    keeps room (discard id ps) (ground (arith, h, is_pending-discard id i ps, other))
  where
    other : (id =ⁱ i) ≡ false
    other = elim (Bool-cases (id =ⁱ i)) [
      | inl same ↦
          absurd (ground (arith, live, gone refl, ap (λ x. live_entry x s) (same_stamp id i same)))
      | inr no_match ↦ no_match
    ]
claim_as_keeps i now args room id s ps rest (take p x) keeps live gone h =
    let p' = record p { consumer = args.consumer; delivered_at = now; count = suc p.count } in
    ground (arith, h, keeps (room - 1) (file p' ps), is_pending-file p' i ps)

pub is_pending-claim_loop :
    (i : Stamp) (now : ℕ) (args : ClaimArgs) (s : Stream) (ids : List Stamp) (room : ℕ)
    (ps : List Pending)
    → is_some (live_entry i s) ≡ true
    → is_pending i ps ≡ true
    → is_pending i (claim_loop now args s ids room ps).1 ≡ true
unfolding claim_loop
is_pending-claim_loop i now args s [] room ps live h = h
is_pending-claim_loop i now args s (id ∷ ids) room ps live h =
    claim_as_keeps i now args room id s ps (claim_loop now args s ids) (verdict now args s id ps)
      (λ room ps. is_pending-claim_loop i now args s ids room ps live) live
      (verdict-drop now args s id ps) h

-- The loop of a read keeps what is pending, and makes pending what it hands out.
pub read_loop_keeps :
    (i : Stamp) (now consumer : ℕ) (no_ack : Bool) (room : ℕ) (xs : List Entry) (g : Group)
    → is_pending i g.pending ≡ true
    → is_pending i (read_loop now consumer no_ack room xs g).1.pending ≡ true
unfolding read_loop
read_loop_keeps i now consumer no_ack room [] g h = h
read_loop_keeps i now consumer no_ack zero (x ∷ xs) g h = h
read_loop_keeps i now consumer no_ack (suc room) (x ∷ xs) g h = ground (
  arith,
  h,
  read_loop_keeps i now consumer no_ack (suc room) xs g,
  read_loop_keeps i now consumer no_ack room xs (deliver now consumer no_ack x g),
  deliver_keeps,
)
  where
    deliver_keeps : is_pending i (deliver now consumer no_ack x g).pending ≡ true
    deliver_keeps =
        unfold deliver in
        ground (
          arith,
          h,
          is_pending-file (record { id = x.id; consumer = consumer; delivered_at = now; count = 1 })
              i g.pending,
        )

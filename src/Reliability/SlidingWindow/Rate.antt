-- ===== src/Reliability/SlidingWindow/Rate.antt =====
-- The rate that a sliding window admits.
use collaborative_programmin.Base.{
  ℕ, zero, suc, ◌+◌, ◌≤◌, ◌≡◌, ◌⊎◌, inl, inr, refl, sym, subst, Bool, true, List, [], ◌∷◌, ◌++◌,
  arith, ltb, if◌then◌else◌, if_cases, length, All, length-append, Bool-cases,
}
use collaborative_programmin.Reliability.SlidingWindow.{
  Window, new_window, drop, first_after, last_before, prune, allow,
}

-- How many of the times lie within `size` of `now`.
unfoldable pub recent : ℕ → ℕ → List ℕ → ℕ
recent size now [] = 0
recent size now (t ∷ ts) =
    if ltb now (t + size) then suc (recent size now ts) else recent size now ts

-- Times in their order, the last at most `hi`.
abbrev pub Ascends : List ℕ → ℕ → Type 0
Ascends [] hi = Unit
Ascends (t ∷ ts) hi = All (λ u. t ≤ u) ts × (t ≤ hi) × Ascends ts hi

recent-length : (size now : ℕ) (ts : List ℕ) → recent size now ts ≤ length ts
unfolding recent
recent-length size now [] = omega arith
recent-length size now (t ∷ ts) = ground (arith, recent-length size now ts)

recent-append :
    (size now : ℕ) (xs ys : List ℕ)
    → recent size now (xs ++ ys) ≡ recent size now xs + recent size now ys
unfolding recent
recent-append size now [] ys = omega arith
recent-append size now (x ∷ xs) ys = ground (arith, recent-append size now xs ys)

-- What is found after the cutoff starts where nothing recent is cut off, now and later.
module _ (size now : ℕ) where
  cut_at :
      (later : ℕ) (i : ℕ) (ts : List ℕ)
      → now ≤ later
      → (first_after size now i ts ≡ 0)
        ⊎ ((k : ℕ) × (first_after size now i ts ≡ i + k)
            × (recent size later (drop k ts) ≡ recent size later ts))
  unfolding first_after drop recent
  cut_at later i [] le = inl refl
  cut_at later i (t ∷ ts) le = elim (Bool-cases (ltb now (t + size))) [
    | inl after ↦ inr (0, ground (arith, after), refl)
    | inr before ↦ elim (cut_at later (suc i) ts le) [
      | inl none_after ↦ inl (ground (arith, before, none_after))
      | inr (k, found, same) ↦
          inr (suc k, ground (arith, before, found), ground (arith, before, same, le))
    ]
  ]

  none_recent :
      (later : ℕ) (t : ℕ) (ts : List ℕ)
      → now ≤ later
      → Ascends (t ∷ ts) now
      → last_before size now (t ∷ ts) ≡ true
      → recent size later (t ∷ ts) ≡ 0
  unfolding last_before recent
  none_recent later t [] le h e = ground (arith, e, le)
  none_recent later t (u ∷ ts) le h e = ground (arith, none_recent later u ts le h.2 e, h.0.0, le)

  -- Pruning takes away nothing that is recent, now or later.
  recent-prune :
      (later : ℕ) (ts : List ℕ)
      → now ≤ later
      → Ascends ts now
      → recent size later (prune size now ts) ≡ recent size later ts
  unfolding prune first_after last_before recent drop
  recent-prune later [] le h = refl
  recent-prune later (t ∷ ts) le h =
      let w = first_after size now 0 (t ∷ ts) in
      if_cases (λ us. recent size later us ≡ recent size later (t ∷ ts))
        (last_before size now (t ∷ ts)) _ _ (λ old. sym (none_recent later t ts le h old))
        λ _.
          if_cases (λ us. recent size later us ≡ recent size later (t ∷ ts)) (ltb 0 w) _ _
            (λ some_cut. cut w some_cut (cut_at later 0 (t ∷ ts) le)) λ _. refl
    where
      cut :
          (w : ℕ)
          → ltb 0 w ≡ true
          → (w ≡ 0)
            ⊎ ((k : ℕ) × (w ≡ 0 + k)
                × (recent size later (drop k (t ∷ ts)) ≡ recent size later (t ∷ ts)))
          → recent size later (drop w (t ∷ ts)) ≡ recent size later (t ∷ ts)
      cut w positive (inl zero_cut) = absurd (ground (arith, positive, zero_cut))
      cut w positive (inr (k, is, same)) =
          subst (λ n. recent size later (drop n (t ∷ ts)) ≡ recent size later (t ∷ ts))
            (omega (arith, is)) same

drop-Ascends : (n : ℕ) (ts : List ℕ) (hi : ℕ) → Ascends ts hi → Ascends (drop n ts) hi
unfolding drop
drop-Ascends zero ts hi h = h
drop-Ascends (suc n) [] hi h = tt
drop-Ascends (suc n) (t ∷ ts) hi h = drop-Ascends n ts hi h.2

prune-Ascends :
    (size now : ℕ) (ts : List ℕ) (hi : ℕ) → Ascends ts hi → Ascends (prune size now ts) hi
unfolding prune
prune-Ascends size now ts hi h =
    if_cases (λ us. Ascends us hi) (last_before size now ts) _ _ (λ _. tt)
      λ _.
        if_cases (λ us. Ascends us hi) (ltb 0 (first_after size now 0 ts)) _ _
          (λ _. drop-Ascends _ ts hi h) λ _. h

All-append_one :
    (t now : ℕ) (us : List ℕ) → All (λ u. t ≤ u) us → t ≤ now → All (λ u. t ≤ u) (us ++ (now ∷ []))
All-append_one t now [] h le = (le, tt)
All-append_one t now (u ∷ us) h le = (h.0, All-append_one t now us h.1 le)

append-Ascends :
    (now hi : ℕ) (ts : List ℕ) → hi ≤ now → Ascends ts hi → Ascends (ts ++ (now ∷ [])) now
append-Ascends now hi [] le h = (tt, omega arith, tt)
append-Ascends now hi (t ∷ ts) le h = (
  All-append_one t now ts h.0 (omega (arith, h.1, le)),
  omega (arith, h.1, le),
  append-Ascends now hi ts le h.2,
)

raise-Ascends : (now hi : ℕ) (ts : List ℕ) → hi ≤ now → Ascends ts hi → Ascends ts now
raise-Ascends now hi [] le h = tt
raise-Ascends now hi (t ∷ ts) le h = (h.0, omega (arith, h.1, le), raise-Ascends now hi ts le h.2)

-- The times at which a history of calls admits a request.
unfoldable pub admitted : List ℕ → Window → List ℕ
admitted [] w = []
admitted (now ∷ nows) w =
    let rest = admitted nows (allow now w).1 in if (allow now w).0 then now ∷ rest else rest

unfoldable pub run : List ℕ → Window → Window
run [] w = w
run (now ∷ nows) w = run nows (allow now w).1

-- The clock does not go back, from `lo` to `hi`.
abbrev pub Goes : ℕ → List ℕ → ℕ → Type 0
Goes lo [] hi = lo ≤ hi
Goes lo (now ∷ nows) hi = (lo ≤ now) × Goes now nows hi

Goes-le : (lo hi : ℕ) (nows : List ℕ) → Goes lo nows hi → lo ≤ hi
Goes-le lo hi [] h = h
Goes-le lo hi (now ∷ nows) h = omega (arith, h.0, Goes-le now hi nows h.1)

drop-length : (n : ℕ) (ts : List ℕ) → length (drop n ts) ≤ length ts
unfolding drop
drop-length zero ts = omega arith
drop-length (suc n) [] = omega arith
drop-length (suc n) (t ∷ ts) = omega (arith, drop-length n ts)

prune-length : (size now : ℕ) (ts : List ℕ) → length (prune size now ts) ≤ length ts
unfolding prune
prune-length size now ts =
    if_cases (λ us. length us ≤ length ts) (last_before size now ts) []
      (if ltb 0 (first_after size now 0 ts) then drop (first_after size now 0 ts) ts else ts)
      (λ _. omega arith)
      λ _.
        if_cases (λ us. length us ≤ length ts) (ltb 0 (first_after size now 0 ts))
          (drop (first_after size now 0 ts) ts) ts (λ _. drop-length _ ts) λ _. omega arith

record IsKept (size max hi : ℕ) (w : Window) : Type 0 where
  sized : w.size ≡ size
  limited : w.max_requests ≡ max
  ascends : Ascends w.timestamps hi
  fits : length w.timestamps ≤ max

module _ (size max : ℕ) where
  allow-IsKept :
      (now hi : ℕ) (w : Window)
      → hi ≤ now
      → IsKept size max hi w
      → IsKept size max now (allow now w).1
  unfolding allow
  allow-IsKept now hi w le h =
      let ts = prune w.size now w.timestamps in
      let ascends = prune-Ascends w.size now w.timestamps hi h.ascends in
      if_cases (λ (x : Bool × Window). IsKept size max now x.1) (ltb (length ts) w.max_requests) _ _
        (λ room. record {
          sized = h.sized;
          limited = h.limited;
          ascends = append-Ascends now hi ts le ascends;
          fits = ground (arith, room, h.limited, length-append ts (now ∷ []));
        })
        λ full. record {
          sized = h.sized;
          limited = h.limited;
          ascends = raise-Ascends now hi ts le ascends;
          fits = omega (arith, prune-length w.size now w.timestamps, h.fits);
        }

  -- What a call does to the recent times.
  recent-allow :
      (now hi later : ℕ) (w : Window)
      → hi ≤ now
      → now ≤ later
      → IsKept size max hi w
      → recent size later (allow now w).1.timestamps
        ≡ recent size later w.timestamps
          + (if (allow now w).0 then recent size later (now ∷ []) else 0)
  unfolding allow
  recent-allow now hi later w le le' h =
      let same : recent size later (prune w.size now w.timestamps)
          ≡ recent size later w.timestamps =
        rw h.sized (
          recent-prune size now later w.timestamps le'
            (raise-Ascends now hi w.timestamps le h.ascends)) in
      let ts = prune w.size now w.timestamps in
      if_cases
        (λ (x : Bool × Window).
          recent size later x.1.timestamps
          ≡ recent size later w.timestamps + (if x.0 then recent size later (now ∷ []) else 0))
        (ltb (length ts) w.max_requests) _ _
        (λ room. omega (arith, recent-append size later ts (now ∷ []), same))
        λ full. omega (arith, same)

  run-recent :
      (lo hi later : ℕ) (nows : List ℕ) (w : Window)
      → Goes lo nows hi
      → hi ≤ later
      → IsKept size max lo w
      → (recent size later (run nows w).timestamps
          ≡ recent size later w.timestamps + recent size later (admitted nows w))
        × (length (run nows w).timestamps ≤ max)
  unfolding run admitted recent
  run-recent lo hi later [] w goes le h = (omega arith, h.fits)
  run-recent lo hi later (now ∷ nows) w goes le h =
      let (rest, fits) =
        run-recent now hi later nows (allow now w).1 goes.1 le (allow-IsKept now lo w goes.0 h) in
      (
        ground (
          arith,
          rest,
          recent-allow now lo later w goes.0 (omega (arith, Goes-le now hi nows goes.1, le)) h,
        ),
        fits,
      )

-- Over any history of calls whose clock does not go back, the window never admits more than its
-- maximum of requests within any stretch of its size that ends at or after the last call.
pub window_bound :
    (size max hi : ℕ) (nows : List ℕ)
    → Goes 0 nows hi
    → recent size hi (admitted nows (new_window size max)) ≤ max
unfolding new_window recent
window_bound size max hi nows goes =
    let (all, fits) =
      run-recent size max 0 hi hi nows (new_window size max) goes (omega arith) fresh in
    omega (arith, all, fits, recent-length size hi (run nows (new_window size max)).timestamps)
  where
    fresh : IsKept size max 0 (new_window size max)
    fresh = record { sized = refl; limited = refl; ascends = tt; fits = omega arith }

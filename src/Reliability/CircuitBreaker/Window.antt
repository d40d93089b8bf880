-- ===== src/Reliability/CircuitBreaker/Window.antt =====
-- The sliding window of a breaker: what `pruneOldRecords` keeps after a new record.
use collaborative_programmin.Base.{
  ℕ, ◌+◌, ◌≤◌, ◌<◌, ◌≡◌, inl, inr, Bool, List, [], ◌∷◌, ◌++◌, some, All, arith, ltb, Bool-cases,
}
use collaborative_programmin.Reliability.CircuitBreaker.{Record, survivors, kept_or, prune}

-- Timestamps that do not fall, from `lo` to `hi`.
abbrev pub Rising : ℕ → List Record → ℕ → Type 0
Rising lo [] hi = lo ≤ hi
Rising lo (r ∷ rs) hi = (lo ≤ r.timestamp) × Rising r.timestamp rs hi

-- The record is inside the window that ends now.
abbrev pub Recent : ℕ → ℕ → Record → Type 0
Recent window now r = now < r.timestamp + window

pub Rising-later :
    (lo hi hi' : ℕ) (rs : List Record) → hi ≤ hi' → Rising lo rs hi → Rising lo rs hi'
Rising-later lo hi hi' [] le h = omega arith
Rising-later lo hi hi' (r ∷ rs) le h = (h.0, Rising-later r.timestamp hi hi' rs le h.1)

Rising-append :
    (lo hi now : ℕ) (success : Bool) (rs : List Record)
    → hi ≤ now
    → Rising lo rs hi
    → Rising lo (rs ++ (record { timestamp = now; success = success } ∷ [])) now
Rising-append lo hi now success [] le h = (omega arith, omega arith)
Rising-append lo hi now success (r ∷ rs) le h =
    (h.0, Rising-append r.timestamp hi now success rs le h.1)

Rising-lower : (lo lo' hi : ℕ) (rs : List Record) → lo' ≤ lo → Rising lo rs hi → Rising lo' rs hi
Rising-lower lo lo' hi [] le h = omega arith
Rising-lower lo lo' hi (r ∷ rs) le h = (omega (arith, h.0), h.1)

All-Recent :
    (window now lo hi : ℕ) (rs : List Record)
    → now < lo + window
    → Rising lo rs hi
    → All (Recent window now) rs
All-Recent window now lo hi [] lt h = tt
All-Recent window now lo hi (r ∷ rs) lt h =
    (omega (arith, h.0), All-Recent window now r.timestamp hi rs (omega (arith, h.0)) h.1)

-- What is kept is recent, and rises.
survivors_lem :
    (window now lo hi : ℕ) (rs kept : List Record)
    → Rising lo rs hi
    → survivors window now rs ≡ some kept
    → All (Recent window now) kept × Rising lo kept hi
unfolding survivors
survivors_lem window now lo hi [] kept h e = cc
survivors_lem window now lo hi (r ∷ rs) kept h e =
    elim (Bool-cases (ltb now (r.timestamp + window))) [
      | inl inside ↦
          let whole : kept ≡ r ∷ rs = ground (arith, e, inside) in
          rw whole (
            (
              ground (arith, inside),
              All-Recent window now r.timestamp hi rs (ground (arith, inside)) h.1,
            ),
            h,
          )
      | inr outside ↦
          let (recent, rises) =
            survivors_lem window now r.timestamp hi rs kept h.1 (ground (arith, e, outside)) in
          (recent, Rising-lower r.timestamp lo hi kept h.0 rises)
    ]

-- The newest record is always inside a window that is not empty.
survivors-some :
    (window now : ℕ) (success : Bool) (rs : List Record)
    → 0 < window
    → (kept : List Record) × (survivors window now
          (rs ++ (record { timestamp = now; success = success } ∷ []))
        ≡ some kept)
unfolding survivors
survivors-some window now success [] pos =
    (record { timestamp = now; success = success } ∷ [], ground arith)
survivors-some window now success (r ∷ rs) pos =
    let (kept, is) = survivors-some window now success rs pos in
    elim (Bool-cases (ltb now (r.timestamp + window))) [
      | inl inside ↦
          (r ∷ (rs ++ (record { timestamp = now; success = success } ∷ [])), ground (arith, inside))
      | inr outside ↦ (kept, ground (arith, outside, is))
    ]

-- The window after a new record.
pub prune_lem :
    (window now lo hi : ℕ) (success : Bool) (rs : List Record)
    → 0 < window
    → hi ≤ now
    → Rising lo rs hi
    → let kept = prune window now (rs ++ (record { timestamp = now; success = success } ∷ [])) in
      All (Recent window now) kept × Rising lo kept now
unfolding prune kept_or
prune_lem window now lo hi success rs pos le h =
    let (kept, is) = survivors-some window now success rs pos in
    rw is (survivors_lem window now lo now _ kept (Rising-append lo hi now success rs le h) is)

-- ===== src/Queue/Stream/Ids.antt =====
-- The text of an id in internal/queue/redisstream/emulator.go: what `nextID` prints and `parseID`
-- reads. A text is a list of bytes; the printing of a number and its parsing are the standard
-- library's, and parameters here. A text that is no number is read as what `read` makes of it.
use collaborative_programmin.Base.{
  ℕ, ◌≡◌, refl, false, List, [], ◌∷◌, ◌++◌, Option, none, some, arith, ◌==◌, if◌then◌else◌, All,
}
use collaborative_programmin.Queue.Stream.{Stamp}

abbrev pub Text : Type 0
Text = List ℕ

abbrev pub dash : ℕ
dash = 45

-- What comes before the first dash and after it; `none` without a dash.
unfoldable pub cut : Text → Option (Text × Text)
cut [] = none
cut (b ∷ bs) =
    if b == dash
    then some ([], bs)
    else elim (cut bs) [ none ↦ none | some (front, back) ↦ some (b ∷ front, back) ]

module _ (show : ℕ → Text) (read : Text → ℕ) where
  -- The result of `nextID`.
  unfoldable pub print_id : Stamp → Text
  print_id s = show s.ms ++ (dash ∷ show s.seq)

  unfoldable pub parse_cut : Text → Option (Text × Text) → Stamp
  parse_cut id none = record { ms = read id; seq = 0 }
  parse_cut id (some (front, back)) = record { ms = read front; seq = read back }

  unfoldable pub parse_id : Text → Stamp
  unfolding cut parse_cut
  parse_id id = parse_cut id (cut id)

  cut-append :
      (front back : Text)
      → All (λ b. (b == dash) ≡ false) front
      → cut (front ++ (dash ∷ back)) ≡ some (front, back)
  unfolding cut
  cut-append [] back h = ground arith
  cut-append (b ∷ bs) back h = rw (h.0, cut-append bs back h.1) refl

  -- An id that was printed is read back, if a number that the standard library prints has no dash and
  -- is parsed to itself. So the text of an id may stand for its two numbers.
  pub parse_id-print_id :
      (s : Stamp)
      → ((n : ℕ) → All (λ b. (b == dash) ≡ false) (show n))
      → ((n : ℕ) → read (show n) ≡ n)
      → parse_id (print_id s) ≡ s
  unfolding parse_id parse_cut print_id
  parse_id-print_id s no_dash back =
      rw (cut-append (show s.ms) (show s.seq) (no_dash s.ms), back s.ms, back s.seq) refl

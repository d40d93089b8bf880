-- ===== src/Coordination/Replication/Laws.antt =====
-- The laws of the conflict rule.
use collaborative_programmin.Base.{◌≡◌, ◌<◌, ◌↔◌, ◌⊎◌, true, arith, if◌then◌else◌}
use collaborative_programmin.Coordination.Replication.{Update, merge}

-- Of a higher version, or of the same and later.
abbrev pub Newer : Update → Update → Type 0
Newer u v = (v.version < u.version) ⊎ ((v.version ≡ u.version) × (v.timestamp < u.timestamp))

flag_iff : (a b : Update) → ((merge a b).1 ≡ true) ↔ Newer b a
unfolding merge
flag_iff a b = ground arith

winner : (a b : Update) → (merge a b).0 ≡ (if (merge a b).1 then b else a)
unfolding merge
winner a b = ground arith

merge_assoc : (a b c : Update) → (merge (merge a b).0 c).0 ≡ (merge a (merge b c).0).0
unfolding merge
merge_assoc a b c = ground arith

merge_comm :
    (a b : Update)
    → ((merge a b).0 ≡ (merge b a).0)
      ⊎ ((a.version ≡ b.version) × (a.timestamp ≡ b.timestamp) × ((merge a b).0 ≡ a))
unfolding merge
merge_comm a b = ground arith

-- The conflict rule takes the incoming of two updates, and says so, exactly if it has the higher
-- version, or the same version and the later time; else it keeps the current one. It is associative,
-- and the order of the two does not matter unless they have the same version and the same time: then
-- the current one stays.
pub merge_laws :
    (a b c : Update)
    → (((merge a b).1 ≡ true) ↔ Newer b a)
      × ((merge a b).0 ≡ (if (merge a b).1 then b else a))
      × ((merge (merge a b).0 c).0 ≡ (merge a (merge b c).0).0)
      × (((merge a b).0 ≡ (merge b a).0)
          ⊎ ((a.version ≡ b.version) × (a.timestamp ≡ b.timestamp) × ((merge a b).0 ≡ a)))
merge_laws a b c = (flag_iff a b, winner a b, merge_assoc a b c, merge_comm a b)

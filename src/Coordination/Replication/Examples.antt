-- ===== src/Coordination/Replication/Examples.antt =====
-- Three updates of a key.
use collaborative_programmin.Base.{ℕ, ◌≡◌, ◌↔◌, ◌⊎◌, true, false, if◌then◌else◌}
use collaborative_programmin.Coordination.Replication.{Update, merge}
use collaborative_programmin.Coordination.Replication.Laws.{Newer, merge_laws}

abbrev update : ℕ → ℕ → Update
update version timestamp = record {
  key = 1;
  payload = version;
  origin = 2;
  version = version;
  deleted = false;
  timestamp = timestamp;
}

merge_laws_example :
    (((merge (update 1 5) (update 2 4)).1 ≡ true) ↔ Newer (update 2 4) (update 1 5))
    × ((merge (update 1 5) (update 2 4)).0
        ≡ (if (merge (update 1 5) (update 2 4)).1 then update 2 4 else update 1 5))
    × ((merge (merge (update 1 5) (update 2 4)).0 (update 2 7)).0
        ≡ (merge (update 1 5) (merge (update 2 4) (update 2 7)).0).0)
    × (((merge (update 1 5) (update 2 4)).0 ≡ (merge (update 2 4) (update 1 5)).0)
        ⊎ (((update 1 5).version ≡ (update 2 4).version)
            × ((update 1 5).timestamp ≡ (update 2 4).timestamp)
            × ((merge (update 1 5) (update 2 4)).0 ≡ update 1 5)))
merge_laws_example = merge_laws (update 1 5) (update 2 4) (update 2 7)

-- ===== src/Coordination/Replication.antt =====
-- internal/coordination/replication/replication.go: an update of a key and the default
-- conflict rule between two of them. The channels, the encoding and the anti-entropy loop are left
-- out, and so is the domain; a payload is an opaque handle.
pub mod Laws
pub mod Examples
use collaborative_programmin.Base.{
  ℕ, Bool, true, false, not, List, [], ◌∷◌, ◌==◌, ltb, if◌then◌else◌,
}

pub record Update : Type 0 where
  pub key : ℕ
  pub payload : ℕ
  pub origin : ℕ
  pub version : ℕ
  pub deleted : Bool
  pub timestamp : ℕ

-- `LWWMerger.Merge`: the winner, and whether it is the incoming update.
unfoldable pub merge : Update → Update → Update × Bool
merge current incoming =
    if not (incoming.version == current.version)
    then if ltb current.version incoming.version then (incoming, true) else (current, false)
    else if ltb current.timestamp incoming.timestamp
    then (incoming, true)
    else (current, false)

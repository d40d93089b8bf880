-- ===== src/Execution/Storage.antt =====
-- internal/execution/storage/storage.go: the in-memory repository and archive, whose operations never
-- fail.
use collaborative_programmin.Base.{ℕ}
use collaborative_programmin.Base.Dict.{Dict, insert, delete}
use collaborative_programmin.Execution.Job.{Job}

-- `MemoryRepository`.
abbrev pub Repository : Type 0
Repository = Dict Job

unfoldable pub save : Job → Repository → Repository
save j r = insert j.id j r

unfoldable pub erase : ℕ → Repository → Repository
erase id r = delete id r

pub record Archived : Type 0 where
  pub job : Job
  pub archived_at : ℕ

-- `MemoryArchive`.
abbrev pub Archive : Type 0
Archive = Dict Archived

unfoldable pub store_archived : ℕ → Job → Archive → Archive
store_archived at j a = insert j.id (record { job = j; archived_at = at }) a

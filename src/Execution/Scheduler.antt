-- ===== src/Execution/Scheduler.antt =====
-- internal/execution/scheduler/scheduler.go: the in-memory scheduler.
pub mod Drain
use collaborative_programmin.Base.{
  ℕ, ℤ, eq_ℤ, ltb_ℤ, suc, ◌+◌, Bool, true, false, not, ◌&&◌, List, [], ◌∷◌, Option, none, some,
  ◌==◌, ltb, leb, if◌then◌else◌, length, map,
}
use collaborative_programmin.Base.Dict.{Dict, lookup, insert, delete}
use collaborative_programmin.Execution.Job.{Job}

pub record Entry : Type 0 where
  pub job_id : ℕ
  pub priority : ℤ
  pub seq : ℕ

-- A capacity of 0 is unbounded.
pub record Memory : Type 0 where
  pub entries : Dict Entry
  pub seq : ℕ
  pub capacity : ℕ

unfoldable pub new_scheduler : ℕ → Memory
new_scheduler capacity = record { entries = []; seq = 0; capacity = capacity }

unfoldable pub exists : Option Entry → Bool
exists none = false
exists (some e) = true

-- `Schedule`: whether the job is accepted. `Retry` is the same.
unfoldable pub schedule : Job → Memory → Bool × Memory
unfolding exists
schedule j m =
    if not (exists (lookup j.id m.entries))
      && not (m.capacity == 0)
      && leb m.capacity (length m.entries)
    then (false, m)
    else (
      true,
      record m {
        seq = suc m.seq;
        entries =
            insert j.id (record { job_id = j.id; priority = j.priority; seq = suc m.seq })
              m.entries;
      },
    )

-- `Cancel`.
unfoldable pub withdraw : ℕ → Memory → Memory
withdraw id m = record m { entries = delete id m.entries }

unfoldable pub reprioritize_of : ℕ → ℤ → Memory → Option Entry → Memory
reprioritize_of id p m none = m
reprioritize_of id p m (some e) = record m {
  entries = insert id (record e { priority = p }) m.entries;
}

unfoldable pub reprioritize : ℕ → ℤ → Memory → Memory
unfolding reprioritize_of
reprioritize id p m = reprioritize_of id p m (lookup id m.entries)

-- The order by which `Drain` sorts: the more urgent first, then the earlier scheduled.
unfoldable pub ahead : Entry → Entry → Bool
ahead a b =
    if not (eq_ℤ a.priority b.priority) then ltb_ℤ b.priority a.priority else ltb a.seq b.seq

unfoldable pub place : Entry → List Entry → List Entry
unfolding ahead
place e [] = e ∷ []
place e (x ∷ xs) = if ahead x e then x ∷ place e xs else e ∷ x ∷ xs

unfoldable pub sort : Dict Entry → List Entry
unfolding place
sort [] = []
sort ((i, e) ∷ m) = place e (sort m)

-- The entries in the order in which `Drain` returns their ids.
unfoldable pub drain : Memory → List Entry × Memory
unfolding sort
drain m = (sort m.entries, record m { entries = [] })

-- ===== src/Execution/Orchestrator/Examples.antt =====
-- The orchestrator at work: a history of calls on which the theorems about it, about the validation
-- pipeline and about the scheduler are applied.
use collaborative_programmin.Base.{
  ℤ, pos, negsuc, ℕ, ◌+◌, ◌≡◌, ◌↔◌, true, false, List, [], ◌∷◌, none, some, All, Any, length,
}
use collaborative_programmin.Base.Dict.{lookup}
use collaborative_programmin.Execution.Job.{ResourceProfile, Request}
use collaborative_programmin.Execution.Language.{Languages, stable}
use collaborative_programmin.Execution.Validation.{Limits, Check, default_validators, validate}
use collaborative_programmin.Execution.Validation.Acceptance.{
  first_of, validate_first, IsAcceptable, validate_ok,
}
use collaborative_programmin.Execution.Scheduler.{Entry, Memory, drain}
use collaborative_programmin.Execution.Scheduler.Drain.{InOrder, HasEntry, drain_lem}
use collaborative_programmin.Execution.Orchestrator.{
  Platform, new_platform, Settings, Minted, cancel_job,
}
use collaborative_programmin.Execution.Orchestrator.Marks.{archive_finished}
use collaborative_programmin.Execution.Orchestrator.Soundness.{IsSound}
use collaborative_programmin.Execution.Orchestrator.Cancellation.{Cancels, cancel_job_lem}
use collaborative_programmin.Execution.Orchestrator.Sweeping.{kept, archive_finished_lem}
use collaborative_programmin.Execution.Orchestrator.Histories.{
  Call, submits, cancels, retries, dispatches, starts, completes, fails, streams, sweeps, run,
  EndsFromOutside, run-new_platform-IsSound,
}

abbrev profile : ResourceProfile
profile = record {
  tier = 1;
  memory_bytes = pos 256;
  cpu_millicores = pos 100;
  pids_limit = pos 8;
  tmpfs_bytes = pos 64;
  wall_timeout = pos 0;
}

abbrev languages : Languages
languages =
    (
      6,
      record {
        id = 6;
        profile = profile;
        limits = record profile { memory_bytes = pos 512 };
        default_timeout = 10;
        status = stable;
      },
    )
    ∷ []

abbrev limits : Limits
limits = record {
  max_code_size = 100;
  max_stdin_size = 100;
  max_metadata_entries = 4;
  max_metadata_key_len = 9;
  max_metadata_value_len = 9;
  max_timeout = 60;
  max_memory_bytes = 400;
  min_priority = pos 0;
  max_priority = pos 3;
  require_authentication = true;
  enable_authorization = false;
}

abbrev checks : List Check
checks = default_validators (λ s. 7) limits languages none []

abbrev settings : Settings
settings = record {
  languages = languages;
  validators = checks;
  stop_on_first = true;
  default_timeout = 10;
  max_timeout = 60;
  max_retries = 1;
  archive_retention = 15;
}

abbrev request : Request
request = record {
  request_id = 0;
  correlation_id = 2;
  user_id = 3;
  session_id = 4;
  room_id = 5;
  language = 6;
  source = 7;
  stdin = 0;
  compiler_options = [];
  execution_options = record { args = []; env = []; network_access = false };
  priority = pos 1;
  timeout = pos 0;
  resources = some profile;
  metadata = (1, 2) ∷ [];
  authenticated = true;
  roles = [];
}

abbrev minted : ℕ → ℕ → Minted
minted now job = record {
  now = now;
  later = now;
  request_id = 91;
  correlation_id = 92;
  job_id = job;
  parent = job + 500;
  ended = λ i. false;
}

-- One job fails, is retried and completes; one is cancelled; one finds the scheduler full.
abbrev calls : List Call
calls =
    submits (minted 100 20) request
    ∷ submits (minted 101 21) request
    ∷ submits (minted 102 22) request
    ∷ dispatches 20 9
    ∷ starts 103 20
    ∷ fails 104 20
    ∷ cancels 105 21
    ∷ retries 521 106 106 20
    ∷ dispatches 20 9
    ∷ starts 107 20
    ∷ streams 20
    ∷ completes 108 20
    ∷ sweeps true 118
    ∷ []

abbrev platform : Platform
platform = run settings calls (new_platform 2)

platform-IsSound : IsSound platform
platform-IsSound = (run-new_platform-IsSound settings 2 calls).0

run-new_platform-IsSound_example :
    IsSound (run settings calls (new_platform 2))
    × EndsFromOutside (run settings calls (new_platform 2))
run-new_platform-IsSound_example = run-new_platform-IsSound settings 2 calls

archive_finished_lem_example :
    (r : ℕ × Platform) × (archive_finished settings true 120 platform ≡ some r)
    × ((i : ℕ) → lookup i r.1.registry.by_id ≡ kept settings 120 (lookup i platform.registry.by_id))
archive_finished_lem_example = archive_finished_lem settings true 120 platform platform-IsSound

cancel_job_lem_example :
    Cancels 119 20 platform (lookup 20 platform.registry.by_id) (cancel_job 119 20 platform)
cancel_job_lem_example = cancel_job_lem 119 20 platform

validate_first_example :
    validate
      (λ i. false)
      true
      checks
      (some (record request { authenticated = false; priority = pos 5 }))
    ≡ first_of (
        validate
          (λ i. false)
          false
          checks
          (some (record request { authenticated = false; priority = pos 5 })))
validate_first_example =
    validate_first (λ i. false) checks
      (some (record request { authenticated = false; priority = pos 5 }))

validate_ok_example : (validate (λ i. false) true checks (some request) ≡ []) ↔ (
    IsAcceptable (λ s. 7) limits languages none request
    × All {A = Check} (λ v. v request ≡ none) [])
validate_ok_example = validate_ok (λ s. 7) limits languages none true [] request

abbrev entry : ℕ → ℤ → ℕ → ℕ × Entry
entry id priority seq = (id, record { job_id = id; priority = priority; seq = seq })

abbrev waiting : Memory
waiting = record {
  entries = entry 20 (pos 1) 1 ∷ entry 21 (pos 3) 2 ∷ entry 22 (negsuc 0) 3 ∷ [];
  seq = 3;
  capacity = 0;
}

drain_lem_example :
    let (out, m') = drain waiting in
    InOrder out
    × ((z : Entry) → HasEntry z out ↔ Any (λ (kv : ℕ × Entry). kv.1 ≡ z) waiting.entries)
    × (length out ≡ length waiting.entries)
    × (m'.entries ≡ [])
drain_lem_example = drain_lem waiting

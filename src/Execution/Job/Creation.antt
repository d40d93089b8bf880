-- ===== src/Execution/Job/Creation.antt =====
-- What `New` promises of the deadlines of a job.
use collaborative_programmin.Base.{◌<◌, ◌<ℤ◌, pos, ◌≡◌, arith}
use collaborative_programmin.Execution.Job.{Request, Defaults, new_job, pending}

-- If the default timeout is positive, a new job is pending and has a positive timeout and a positive
-- wall-clock deadline, whatever the request leaves out.
pub new_job_deadlines :
    (req : Request) (d : Defaults)
    → 0 < d.timeout
    → ((new_job req d).state ≡ pending)
      × (0 < (new_job req d).timeout)
      × (pos 0 <ℤ (new_job req d).resources.wall_timeout)
unfolding new_job
new_job_deadlines req d h = ground arith

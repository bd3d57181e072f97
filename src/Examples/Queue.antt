-- ===== src/Examples/Queue.antt =====
-- Runs of the dispatch of app/v2/reports.py.
use capstone_backend.Prelude.{ℕ, ◌≡◌, ◌==◌, refl, Bool, true, false, ◌⊎◌, none, some, arith}
use capstone_backend.Errors.{ok, err, fail_retryable, dependency_unavailable}
use capstone_backend.Clock.{ticks}
use capstone_backend.Jobs.Data.{queued, waiting, pending, published, publish_failed}
use capstone_backend.Jobs.Doc.{JobDoc}
use capstone_backend.Jobs.Claims.{job_at}
use capstone_backend.Jobs.Dispatch.{dispatch_job, attempted, is_published, dispatch_job_recovers}
use capstone_backend.World.{World}
use capstone_backend.Examples.{cfg}
use capstone_backend.Examples.Requests.{only}
use capstone_backend.Examples.Reports.{job, busy_world}

-- the queue takes messages of the session 8 only
abbrev of_eight : ℕ → ℕ → ℕ → Bool
of_eight sid map_id id = sid == 8

abbrev of_nine : ℕ → ℕ → ℕ → Bool
of_nine sid map_id id = sid == 9

-- the job before its first dispatch, and three seconds after an attempt
abbrev fresh_job : JobDoc
fresh_job = record job {
  status = queued;
  stage = waiting;
  dispatch_state = pending;
  worker_token = none;
  lease_until = 0;
}

abbrev retried_job : JobDoc
retried_job = record fresh_job { dispatch_state = publish_failed; last_dispatch_attempt = ticks 47 }

abbrev fresh_world : World
fresh_world = record busy_world { jobs = only 8 6 fresh_job }

abbrev retried_world : World
retried_world = record busy_world { jobs = only 8 6 retried_job }

dispatch_job_recovers_example :
    let first = dispatch_job cfg of_nine 8 6 false fresh_world in
    let second = dispatch_job cfg of_eight 8 6 true first.1 in
    ((false ≡ true) × (first.0 ≡ err (fail_retryable 503 dependency_unavailable))
      ⊎ (false ≡ false)
        × (j : JobDoc) × (first.0 ≡ ok j)
        × (job_at first.1 8 6 ≡ some j)
        × (is_published j.dispatch_state ≡ false))
    × (second.0 ≡ ok (attempted (ticks 50) published fresh_job))
    × (job_at second.1 8 6 ≡ some (attempted (ticks 50) published fresh_job))
dispatch_job_recovers_example =
    dispatch_job_recovers cfg of_nine of_eight 8 6 fresh_world fresh_job refl refl refl
      (omega arith) false refl refl

-- ===== src/Jobs/Claims.antt =====
-- The claim of a job by a worker (app/v2/reports.py): its limit on starts, and one owner at a time.
use capstone_backend.Prelude.{ℕ, ◌+◌, ◌≤◌, ◌<◌, ◌≡◌, Bool, true, false, Option, some, arith}
use capstone_backend.Errors.{Result, ok}
use capstone_backend.Clock.{ticks}
use capstone_backend.Settings.{Settings}
use capstone_backend.Jobs.Data.{is_terminal}
use capstone_backend.Jobs.Doc.{JobDoc}
use capstone_backend.Jobs.Worker.{Claim, busy, claimed, claim, attempts_of, has_token}
use capstone_backend.World.{World, live, ◌>>=◌}

-- the stored job, as a reader sees it
abbrev pub job_at : World → ℕ → ℕ → Option JobDoc
job_at w sid id = live w.now (w.jobs sid id)

module _ (cfg : Settings) (sid id token : ℕ) (w : World) (job : JobDoc)
    (at : job_at w sid id ≡ some job) where
  -- A claim of a job that has not ended, under a live lease, is busy and leaves every live job as
  -- it was.
  pub claim_busy :
      is_terminal job.status ≡ false
      → has_token job.worker_token ≡ true
      → w.now < job.lease_until
      → ((claim cfg sid id token w).0 ≡ ok busy)
        × ((s i : ℕ) → job_at (claim cfg sid id token w).1 s i ≡ job_at w s i)
  unfolding claim ◌>>=◌
  claim_busy open_job owned leased_now = (ground arith, λ s i. ground arith)

  -- A claim that gets a job, stored under its own id, counts one more start, within the limit, and
  -- stores the job under the new token with a lease of 60 seconds.
  pub claim_starts :
      (job' : JobDoc)
      → job.job_id ≡ id
      → (claim cfg sid id token w).0 ≡ ok (claimed job' false)
      → (attempts_of job' ≡ attempts_of job + 1)
        × (attempts_of job' ≤ cfg.v2_worker_max_attempts)
        × (job'.worker_token ≡ some token)
        × (job'.lease_until ≡ w.now + ticks 60)
        × (job_at (claim cfg sid id token w).1 sid id ≡ some job')
  unfolding claim ◌>>=◌
  claim_starts job' own h = (ground arith, ground arith, ground arith, ground arith, ground arith)

  -- A claim never hands the job to the pipeline once its starts are used up.
  pub claim_exhausted :
      (job' : JobDoc) (exhausted : Bool)
      → cfg.v2_worker_max_attempts ≤ attempts_of job
      → (claim cfg sid id token w).0 ≡ ok (claimed job' exhausted)
      → (exhausted ≡ true) × (attempts_of job' ≡ attempts_of job)
  unfolding claim ◌>>=◌
  claim_exhausted job' exhausted used h = (ground arith, ground arith)

abbrev pub is_claimed : Result Claim → Bool
is_claimed (ok (claimed _ _)) = true
is_claimed _ = false

-- While a worker's lease of a job, stored under its own id, runs, no other claim of the same job
-- succeeds: the second claim, at any instant before the lease of the first is over, does not get
-- the job.
pub claim-claim :
    (cfg : Settings) (sid id token other later : ℕ) (w : World) (job job' : JobDoc)
    (exhausted : Bool)
    → job_at w sid id ≡ some job
    → job.job_id ≡ id
    → (claim cfg sid id token w).0 ≡ ok (claimed job' exhausted)
    → later < w.now + ticks 60
    → is_claimed (claim cfg sid id other (record (claim cfg sid id token w).1 { now = later })).0
      ≡ false
unfolding claim ◌>>=◌
claim-claim cfg sid id token other later w job job' exhausted at own h soon = ground arith

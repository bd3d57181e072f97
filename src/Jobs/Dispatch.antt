-- ===== src/Jobs/Dispatch.antt =====
-- How a stored job reaches the queue (`get_job` and `dispatch_job` of app/v2/reports.py, `publish`
-- of app/v2/report_worker.py). Whether the queue takes a message is an argument.
use capstone_backend.Prelude.{
  ℕ, ◌+◌, ◌≡◌, ◌<◌, Bool, true, false, not, ◌&&◌, ◌||◌, Option, none, some, [], ltb, leb, lookup,
  if◌then◌else◌, arith, refl, ◌⊎◌, inl, inr, Bool-cases,
}
use capstone_backend.Errors.{
  dependency_unavailable, fail_retryable, Error, Result, ok, err, v2, fail, resource_expired,
  resource_not_found, job_timeout, job_lease_lost,
}
use capstone_backend.Clock.{ticks}
use capstone_backend.Settings.{Settings}
use capstone_backend.Jobs.Data.{DispatchState, publish_failed, published, failed, is_terminal}
use capstone_backend.Jobs.Doc.{JobDoc, JobError}
use capstone_backend.Jobs.Steps.{save_job, finish, is_queued}
use capstone_backend.Jobs.Claims.{job_at}
use capstone_backend.World.{World, Exec, pure, raise, ◌>>=◌, ◌>>◌, clock, catch}
use capstone_backend.State.{get_job, session}

abbrev pub is_published : DispatchState → Bool
is_published published = true
is_published _ = false

abbrev pub late : JobError
late = record { code = job_timeout; retryable = true; retry_after = none }

-- `LeaseLost` is passed over, every other exception is raised again
abbrev unless_lost : Result (Unit {0}) → Exec (Unit {0})
unless_lost (ok _) = pure tt
unless_lost (err job_lease_lost) = pure tt
unless_lost (err e) = raise e

-- the dispatch state after an attempt
abbrev pub attempted : ℕ → DispatchState → JobDoc → JobDoc
attempted now state job = record job { dispatch_state = state; last_dispatch_attempt = now }

module _ (cfg : Settings) where
  -- `resource(sid, 'report-job', id)`
  unfoldable pub job_resource : ℕ → ℕ → Exec JobDoc
  unfolding session get_job
  job_resource sid id = do
    data' ← session cfg sid false
    found ← get_job sid id
    elim found [
      | some job ↦ pure job
      | none ↦ elim (lookup id data'.job_index) [
        | some _ ↦ raise (fail 410 resource_expired)
        | none ↦ raise (fail 404 resource_not_found)
      ]
    ]

  -- a job past its deadline fails
  unfoldable pub expire_job : ℕ → ℕ → Option ℕ → Exec JobDoc
  unfolding finish catch job_resource
  expire_job sid id token = do
    r ← catch (finish cfg sid id token failed none [] (some late))
    unless_lost r
    job_resource sid id

  -- the `except V2Error` of the attempt
  abbrev attempt_failed : ℕ → ℕ → Bool → JobDoc → Error → Exec JobDoc
  attempt_failed sid id strict current e = do
    found ← get_job sid id
    now ← clock
    elim found [
      | none ↦ if strict then raise e else pure current
      | some latest ↦ do
        save_job sid (attempted now publish_failed latest)
        if strict then raise e else pure (attempted now publish_failed latest)
    ]

  abbrev attempt_done : ℕ → ℕ → Exec JobDoc
  attempt_done sid id = do
    found ← get_job sid id
    now ← clock
    elim found [
      | none ↦ raise (fail 410 resource_expired)
      | some latest ↦ do
        save_job sid (attempted now published latest)
        pure (attempted now published latest)
    ]

  module _ (accepts : ℕ → ℕ → ℕ → Bool) where
    unfoldable pub publish : ℕ → ℕ → ℕ → Exec (Unit {0})
    publish sid map_id id =
        if accepts sid map_id id then pure tt else raise (fail_retryable 503 dependency_unavailable)

    unfoldable pub dispatch_job : ℕ → ℕ → Bool → Exec JobDoc
    unfolding get_job save_job clock catch expire_job publish
    dispatch_job sid id strict = do
      found ← get_job sid id
      now ← clock
      elim found [
        | none ↦ raise (fail 410 resource_expired)
        | some current ↦
            if is_published current.dispatch_state || is_terminal current.status
            then pure current
            else if leb current.deadline_at now
            then expire_job sid id current.worker_token
            else if not strict && ltb now (current.last_dispatch_attempt + ticks 5)
            then pure current
            else (do
              r ← catch (publish sid current.map_id id)
              elim r [
                | ok _ ↦ attempt_done sid id
                | err (v2 e) ↦ attempt_failed sid id strict current (v2 e)
                | err e ↦ raise e
              ])
      ]

    -- `get_job` of app/v2/reports.py
    unfoldable pub poll_job : ℕ → ℕ → Exec JobDoc
    unfolding session job_resource expire_job dispatch_job clock
    poll_job sid id = do
      _ ← session cfg sid false
      job ← job_resource sid id
      now ← clock
      if not (is_terminal job.status) && leb job.deadline_at now
          then expire_job sid id job.worker_token
          else (if is_queued job.status && not (is_published job.dispatch_state)
              then dispatch_job sid id false
              else pure job)

    -- A job that is already published, or has ended, is returned as it is stored, no live job
    -- changes, and whatever the queue would answer makes no difference.
    pub dispatch_job_settled :
        (sid id : ℕ) (strict : Bool) (w : World) (job : JobDoc)
        → job_at w sid id ≡ some job
        → (is_published job.dispatch_state || is_terminal job.status) ≡ true
        → ((dispatch_job sid id strict w).0 ≡ ok job)
          × ((s i : ℕ) → job_at (dispatch_job sid id strict w).1 s i ≡ job_at w s i)
    unfolding dispatch_job ◌>>=◌
    dispatch_job_settled sid id strict w job at settled = (ground arith, λ s i. ground arith)

    -- A poll of a job with its deadline ahead, within five seconds of the last attempt, returns the
    -- job as it is stored whatever the queue would answer, and no live job changes.
    pub dispatch_job_throttled :
        (sid id : ℕ) (w : World) (job : JobDoc)
        → job_at w sid id ≡ some job
        → w.now < job.deadline_at
        → w.now < job.last_dispatch_attempt + ticks 5
        → ((dispatch_job sid id false w).0 ≡ ok job)
          × ((s i : ℕ) → job_at (dispatch_job sid id false w).1 s i ≡ job_at w s i)
    unfolding dispatch_job ◌>>=◌
    dispatch_job_throttled sid id w job at early soon = (ground arith, λ s i. ground arith)

    -- If the queue takes its message, a job that is neither published nor ended, stored under its
    -- own id, with its deadline ahead, is returned and stored as published by a strict dispatch.
    pub dispatch_job_publishes :
        (sid id : ℕ) (w : World) (job : JobDoc)
        → accepts sid job.map_id id ≡ true
        → job_at w sid id ≡ some job
        → job.job_id ≡ id
        → (is_published job.dispatch_state || is_terminal job.status) ≡ false
        → w.now < job.deadline_at
        → let r = dispatch_job sid id true w in
          (r.0 ≡ ok (attempted w.now published job))
          × (job_at r.1 sid id ≡ some (attempted w.now published job))
    unfolding dispatch_job ◌>>=◌
    dispatch_job_publishes sid id w job taken at own not_settled early =
        (ground arith, ground arith)

  module _ (refuses accepts : ℕ → ℕ → ℕ → Bool) (sid id : ℕ) (w : World) (job : JobDoc)
      (at : job_at w sid id ≡ some job) (own : job.job_id ≡ id)
      (open_job : (is_published job.dispatch_state || is_terminal job.status) ≡ false)
      (early : w.now < job.deadline_at) where
    -- a strict dispatch that the queue refuses
    refused_strict :
        refuses sid job.map_id id ≡ false
        → let r = dispatch_job refuses sid id true w in
          (r.0 ≡ err (fail_retryable 503 dependency_unavailable))
          × (r.1.now ≡ w.now)
          × (job_at r.1 sid id ≡ some (attempted w.now publish_failed job))
    unfolding dispatch_job ◌>>=◌
    refused_strict refused = (ground arith, ground arith, ground arith)

    -- a poll that the queue refuses, or that comes too soon
    refused_poll :
        refuses sid job.map_id id ≡ false
        → let r = dispatch_job refuses sid id false w in
          (j : JobDoc) × (r.0 ≡ ok j)
          × (r.1.now ≡ w.now)
          × (job_at r.1 sid id ≡ some j)
          × (is_published j.dispatch_state ≡ false)
          × ((j ≡ job) ⊎ (j ≡ attempted w.now publish_failed job))
    unfolding dispatch_job ◌>>=◌
    refused_poll refused = elim (Bool-cases (ltb w.now (job.last_dispatch_attempt + ticks 5))) [
      | inl soon ↦ (job, ground arith, ground arith, ground arith, ground arith, inl refl)
      | inr due ↦ (
        attempted w.now publish_failed job,
        ground arith,
        ground arith,
        ground arith,
        refl,
        inr refl,
      )
    ]

    -- a strict dispatch, in a world at the same instant with the job as it was or with an attempt
    published_later :
        (u : World) (j : JobDoc)
        → accepts sid job.map_id id ≡ true
        → u.now ≡ w.now
        → job_at u sid id ≡ some j
        → (j ≡ job) ⊎ (j ≡ attempted w.now publish_failed job)
        → let r = dispatch_job accepts sid id true u in
          (r.0 ≡ ok (attempted w.now published job))
          × (job_at r.1 sid id ≡ some (attempted w.now published job))
    unfolding dispatch_job ◌>>=◌
    published_later u j taken same there (inl e) = (ground arith, ground arith)
    published_later u j taken same there (inr e) = (ground arith, ground arith)

    -- A job that is neither published nor ended, stored under its own id with its deadline ahead, is
    -- not lost when the queue does not take its message: a strict dispatch then raises a retryable
    -- error, a poll returns the job as it is stored, still unpublished, and in both cases a strict
    -- dispatch of that instant with a queue that takes the message returns and stores it as
    -- published.
    pub dispatch_job_recovers :
        (strict : Bool)
        → refuses sid job.map_id id ≡ false
        → accepts sid job.map_id id ≡ true
        → let first = dispatch_job refuses sid id strict w in
          let second = dispatch_job accepts sid id true first.1 in
          ((strict ≡ true) × (first.0 ≡ err (fail_retryable 503 dependency_unavailable))
            ⊎ (strict ≡ false)
              × (j : JobDoc) × (first.0 ≡ ok j)
              × (job_at first.1 sid id ≡ some j)
              × (is_published j.dispatch_state ≡ false))
          × (second.0 ≡ ok (attempted w.now published job))
          × (job_at second.1 sid id ≡ some (attempted w.now published job))
    dispatch_job_recovers true refused taken =
        let f = refused_strict refused in
        let later = published_later _ _ taken f.1 f.2 (inr refl) in
        (inl (refl, f.0), later.0, later.1)
    dispatch_job_recovers false refused taken =
        let (j, returned, same, there, unpublished, which) = refused_poll refused in
        let later = published_later _ j taken same there which in
        (inr (refl, j, returned, there, unpublished), later.0, later.1)

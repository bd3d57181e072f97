-- ===== src/Jobs/Progress.antt =====
-- Progress writes, cancellation requests and checkpoints of a running job (app/v2/reports.py).
use capstone_backend.Prelude.{
  ℕ, ◌+◌, ◌-◌, ◌≡◌, ◌≤◌, ◌<◌, refl, ap, ◌∙◌, inl, inr, true, false, not, ◌||◌, none, some, arith,
  ltb, leb, ◌⊎◌, ==_iff, ◌==◌, if◌then◌else◌, Option-cases, Bool-cases,
}
use capstone_backend.Errors.{
  Result, ok, err, is_ok, has_code, session_expired, job_cancelled, job_lease_lost, fail_retryable,
  job_timeout,
}
use capstone_backend.Clock.{ticks, whole_ttl}
use capstone_backend.Settings.{Settings}
use capstone_backend.Jobs.Data.{
  is_terminal, is_cancelling, CancelReason, cancelled, cancel_requested, done,
}
use capstone_backend.Jobs.Doc.{JobDoc}
use capstone_backend.Jobs.Steps.{
  update, request_cancel, checkpoint, same_token, is_queued, cancel_requested_at, is_active_job,
}
use capstone_backend.Jobs.Claims.{job_at}
use capstone_backend.Jobs.Finishing.{map_at}
use capstone_backend.World.{World, Exec, SessionDoc, pure, raise, ◌>>=◌, with_key}
use capstone_backend.State.{get_job, get_map, session}
use capstone_backend.State.Frame.{SameDocs, session-SameDocs}
use capstone_backend.World.{catch, clock}

-- A progress write that is refused, because the job is gone, held by another worker or being
-- cancelled, leaves every live job as it was.
pub update_refused :
    (sid id token : ℕ) (changes : JobDoc → JobDoc) (w : World)
    → is_ok (update sid id token changes w).0 ≡ false
    → (s i : ℕ) → job_at (update sid id token changes w).1 s i ≡ job_at w s i
unfolding update ◌>>=◌
update_refused sid id token changes w refused s i = ground arith

-- All branches of a cancellation request of a live job. One that has ended is returned as it is, and
-- no live job changes. One that has not ended is stored and returned with its reason: as cancelled,
-- with its stages done, if it is queued, else as one that is asked to cancel.
pub request_cancel_lem :
    (sid id : ℕ) (reason : CancelReason) (w : World) (job : JobDoc)
    → job_at w sid id ≡ some job
    → let r = request_cancel sid id reason w in
      (j : JobDoc) × (r.0 ≡ ok (some j))
      × ((is_terminal job.status ≡ true) × (j ≡ job) × ((s i : ℕ) → job_at r.1 s i ≡ job_at w s i)
          ⊎ (is_terminal job.status ≡ false)
            × (j.cancel_reason ≡ some reason)
            × ((is_queued job.status ≡ true) × (j.status ≡ cancelled) × (j.stage ≡ done)
                ⊎ (is_queued job.status ≡ false)
                  × (j.status ≡ cancel_requested)
                  × (j.stage ≡ job.stage))
            × (r.1.jobs sid job.job_id
                ≡ some (record {
                  expires = w.now + ticks (whole_ttl (job.expires_at - w.now));
                  value = j;
                })))
unfolding request_cancel ◌>>=◌ cancel_requested_at
request_cancel_lem sid id reason w job there = elim (Bool-cases (is_terminal job.status)) [
  | inl ended ↦ (job, ground arith, inl (ended, refl, λ s i. ground arith))
  | inr pending ↦ (
    cancel_requested_at w.now reason job,
    ground arith,
    inr (
      pending,
      ground arith,
      elim (Bool-cases (is_queued job.status)) [
        | inl waits ↦ inl (waits, ground arith, ground arith)
        | inr runs ↦ inr (runs, ground arith, ground arith)
      ],
      ground arith,
    ),
  )
]

-- the checks of `_checkpoint` after the session
abbrev after_session : ℕ → ℕ → ℕ → Result SessionDoc → Exec JobDoc
after_session sid id token (err e) =
    if has_code session_expired e then raise job_cancelled else raise e
after_session sid id token (ok live_session) = do
  found ← get_job sid id
  now ← clock
  elim found [
    | none ↦ raise job_lease_lost
    | some job ↦
        if not (same_token job.worker_token (some token)) || ltb job.lease_until now
        then raise job_lease_lost
        else if is_cancelling job.status || not (live_session.session_epoch == job.session_epoch)
        then raise job_cancelled
        else if leb job.deadline_at now
        then raise (fail_retryable 504 job_timeout)
        else (do
          d ← get_map sid job.map_id
          if is_active_job id d then pure job else raise job_cancelled)
  ]

-- what the checks say of the world that they read
abbrev MayGoOn : ℕ → ℕ → ℕ → World → JobDoc → Type 0
MayGoOn sid id token w v =
    (job_at w sid id ≡ some v)
    × (same_token v.worker_token (some token) ≡ true)
    × (w.now ≤ v.lease_until)
    × (w.now < v.deadline_at)
    × (is_cancelling v.status ≡ false)
    × (is_active_job id (map_at w sid v.map_id) ≡ true)

found-MayGoOn :
    (sid id token : ℕ) (w : World) (s : SessionDoc) (v job : JobDoc)
    → (after_session sid id token (ok s) w).0 ≡ ok v
    → job_at w sid id ≡ some job
    → MayGoOn sid id token w v
unfolding ◌>>=◌ clock get_job get_map pure raise with_key
found-MayGoOn sid id token w s v job passed there =
    (ground arith, ground arith, ground arith, ground arith, ground arith, ground arith)

passed_here :
    (sid id token : ℕ) (w : World) (r : Result SessionDoc) (v : JobDoc)
    → (after_session sid id token r w).0 ≡ ok v
    → MayGoOn sid id token w v
unfolding ◌>>=◌ clock get_job get_map pure raise
passed_here sid id token w (err e) v passed = absurd (ground arith)
passed_here sid id token w (ok s) v passed = elim (Option-cases (job_at w sid id)) [
  | inl gone ↦ absurd (ground arith)
  | inr (job, there) ↦ found-MayGoOn sid id token w s v job passed there
]

-- the session of the checkpoint is the one that the job was admitted in
epoch_here :
    (sid id token : ℕ) (w : World) (r : Result SessionDoc) (v : JobDoc)
    → (after_session sid id token r w).0 ≡ ok v
    → (s : SessionDoc) × (r ≡ ok s) × (s.session_epoch ≡ v.session_epoch)
unfolding ◌>>=◌ clock get_job get_map pure raise
epoch_here sid id token w (err e) v passed = absurd (ground arith)
epoch_here sid id token w (ok s) v passed = elim (Option-cases (job_at w sid id)) [
  | inl gone ↦ absurd (ground arith)
  | inr (job, there) ↦ (s, refl, (==_iff s.session_epoch v.session_epoch).0 (ground arith))
]

carried :
    (sid id token : ℕ) (w w' : World) (v : JobDoc)
    → SameDocs w w'
    → MayGoOn sid id token w' v
    → MayGoOn sid id token w v
carried sid id token w w' v f h =
    let jobs : job_at w sid id ≡ job_at w' sid id = rw (f.now, f.jobs) in
    let maps : map_at w sid v.map_id ≡ map_at w' sid v.map_id = rw (f.now, f.maps) in
    (jobs ∙ h.0, h.1, rw (← f.now) h.2, rw (← f.now) h.3, h.4, ap (is_active_job id) maps ∙ h.5)

-- A checkpoint that a worker passes found its job live, held by that worker with its lease not over
-- and its deadline ahead and nobody asking to cancel it, the map still waiting for this job, and the
-- session alive, in the epoch in which the job was admitted.
pub checkpoint_passed :
    (cfg : Settings) (sid id token : ℕ) (w : World) (v : JobDoc)
    → (checkpoint cfg sid id token w).0 ≡ ok v
    → (job_at w sid id ≡ some v)
      × (same_token v.worker_token (some token) ≡ true)
      × (w.now ≤ v.lease_until)
      × (w.now < v.deadline_at)
      × (is_cancelling v.status ≡ false)
      × (is_active_job id (map_at w sid v.map_id) ≡ true)
      × (s : SessionDoc) × ((session cfg sid false w).0 ≡ ok s)
      × (s.session_epoch ≡ v.session_epoch)
unfolding checkpoint ◌>>=◌ catch
checkpoint_passed cfg sid id token w v passed =
    let f = session-SameDocs cfg sid w in
    let h =
      passed_here sid id token (session cfg sid false w).1 (session cfg sid false w).0 v passed in
    let m = carried sid id token w (session cfg sid false w).1 v f h in
    let e =
      epoch_here sid id token (session cfg sid false w).1 (session cfg sid false w).0 v passed in
    (m.0, m.1, m.2, m.3, m.4, m.5, e.0, e.1, e.2)

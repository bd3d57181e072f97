-- ===== src/Jobs/Steps.antt =====
-- The transitions of a report job in app/v2/reports.py: cancellation, progress writes, the
-- checkpoint before each stage, and `_finish`, which ends a job and detaches it from its map.
use capstone_backend.Prelude.{
  ℕ, zero, suc, ◌+◌, ◌-◌, Bool, true, false, not, ◌&&◌, ◌||◌, Option, none, some, List, [], ◌∷◌,
  ltb, leb, ◌==◌, if◌then◌else◌,
}
use capstone_backend.Errors.{
  ok, err, fail_retryable, job_cancelled, job_lease_lost, session_expired, resource_expired,
  map_revision_conflict, dependency_unavailable, job_timeout, has_code,
}
use capstone_backend.Clock.{ticks}
use capstone_backend.Settings.{Settings}
use capstone_backend.Newsmap.Data.{MapDoc}
use capstone_backend.Jobs.Data.{
  JobStatus, queued, cancel_requested, completed, cancelled, done, CancelReason, user, Warning,
  Outcome, is_terminal, is_cancelling,
}
use capstone_backend.Jobs.Doc.{JobDoc, JobError}
use capstone_backend.World.{
  Exec, pure, raise, ◌>>=◌, ◌>>◌, clock, catch, SessionDoc, report, strategy,
}
use capstone_backend.State.{get_map, get_job, put_job, session, cas_map, grant_result}

abbrev pub same_token : Option ℕ → Option ℕ → Bool
same_token none none = true
same_token (some a) (some b) = a == b
same_token _ _ = false

abbrev pub is_queued : JobStatus → Bool
is_queued queued = true
is_queued _ = false

abbrev pub is_completed : JobStatus → Bool
is_completed completed = true
is_completed _ = false

-- `_save_job`
unfoldable pub save_job : ℕ → JobDoc → Exec (Unit {0})
unfolding put_job
save_job sid job w = put_job sid job.job_id job (job.expires_at - w.now) w

-- what `request_cancel` makes of a job
unfoldable pub cancel_requested_at : ℕ → CancelReason → JobDoc → JobDoc
cancel_requested_at now reason job =
    if is_terminal job.status
    then job
    else if is_queued job.status
    then record job {
      status = cancelled;
      cancel_reason = some reason;
      updated_at = now;
      stage = done;
    }
    else record job { status = cancel_requested; cancel_reason = some reason; updated_at = now }

unfoldable pub request_cancel : ℕ → ℕ → CancelReason → Exec (Option JobDoc)
unfolding get_job save_job cancel_requested_at clock
request_cancel sid job_id reason = do
  found ← get_job sid job_id
  elim found [
    | none ↦ pure none
    | some job ↦ do
      now ← clock
      if is_terminal job.status then pure (some job) else (do
        save_job sid (cancel_requested_at now reason job)
        pure (some (cancel_requested_at now reason job)))
  ]

-- `_update(sid, job_id, token, **changes)`
unfoldable pub update : ℕ → ℕ → ℕ → (JobDoc → JobDoc) → Exec JobDoc
unfolding get_job save_job clock
update sid job_id token changes = do
  found ← get_job sid job_id
  elim found [
    | none ↦ raise job_lease_lost
    | some job ↦
        if not (same_token job.worker_token (some token))
        then raise job_lease_lost
        else if is_cancelling job.status
        then raise job_cancelled
        else (do
          now ← clock
          save_job sid (record (changes job) { updated_at = now; lease_until = now + ticks 60 })
          pure (record (changes job) { updated_at = now; lease_until = now + ticks 60 }))
  ]

abbrev pub is_active_job : ℕ → Option MapDoc → Bool
is_active_job job_id none = false
is_active_job job_id (some d) = same_token d.active_report_job_id (some job_id)

-- `warnings or job["warnings"]`
abbrev pub or_warnings : List Warning → List Warning → List Warning
or_warnings [] old = old
or_warnings (x ∷ xs) old = x ∷ xs

-- the changes that every path of `_finish` makes to the job
abbrev pub finished :
    ℕ → JobStatus → Option Outcome → List Warning → Option JobError → JobDoc → JobDoc
finished now status result warnings error job = record job {
  status = status;
  stage = done;
  result = result;
  error = error;
  warnings = or_warnings warnings job.warnings;
  updated_at = now;
}

-- the map that `_finish` writes with a job's end
abbrev pub detached_map : Option SessionDoc → JobStatus → Option Outcome → MapDoc → MapDoc
detached_map s status result d =
    let closed = record d {
      revision = d.revision + 1;
      active_report_job_id = none;
      expires_at = elim s [ none ↦ d.expires_at | some doc ↦ doc.expires_at ];
    } in
    if is_completed status
    then record closed {
      last_result = elim result [
        | none ↦ none
        | some r ↦ some (record { report_id = r.report_id; strategy_id = r.strategy_id })
      ];
    }
    else closed

-- the loop: what it decided on, and whether the job was stored beside the map
unfoldable pub finish_loop :
    ℕ
    → ℕ
    → JobDoc
    → Option SessionDoc
    → Option MapDoc
    → JobStatus
    → Option Outcome
    → List Warning
    → Option JobError
    → Exec (JobStatus × Option Outcome × Bool)
unfolding get_map cas_map save_job clock catch
finish_loop zero sid job s found status result warnings error =
    raise (fail_retryable 503 dependency_unavailable)
finish_loop (suc rounds) sid job s found status result warnings error = elim found [
  | none ↦ pure (if is_completed status then (cancelled, none, false) else (status, result, false))
  | some d ↦
      if not (is_active_job job.job_id (some d))
      then pure (if is_completed status then (cancelled, none, false) else (status, result, false))
      else (do
        now ← clock
        written ← catch (do
          _ ←
              cas_map sid job.map_id d.revision (detached_map s status result d)
                ((detached_map s status result d).expires_at - now)
          save_job sid (finished now status result warnings error job))
        elim written [
          | ok _ ↦ pure (status, result, true)
          | err e ↦
              if has_code map_revision_conflict e
              then (do
                again ← get_map sid job.map_id
                finish_loop rounds sid job s again status result warnings error)
              else if has_code session_expired e || has_code resource_expired e
              then pure (cancelled, none, false)
              else raise e
        ])
]

-- `session` after the `try` of `_finish`: `none` for an expired session
abbrev pub session_or_none : Settings → ℕ → Exec (Option SessionDoc)
session_or_none cfg sid = do
  r ← catch (session cfg sid false)
  elim r [
    | ok s ↦ pure (some s)
    | err e ↦ if has_code session_expired e then pure none else raise e
  ]

-- the grants of a completed job
abbrev pub grant_both : Settings → ℕ → Outcome → Exec (Unit {0})
grant_both cfg sid r = do
  grant_result cfg sid r.report_id report
  elim r.strategy_id [ none ↦ pure tt | some id ↦ grant_result cfg sid id strategy ]

-- the job's last write and the grants
abbrev pub finish_end :
    Settings
    → ℕ
    → JobDoc
    → JobStatus × Option Outcome × Bool
    → List Warning
    → Option JobError
    → Exec (Unit {0})
finish_end cfg sid job (status, result, stored) warnings error = do
  now ← clock
  if stored then pure tt else save_job sid (finished now status result warnings error job)
  if is_completed status
      then elim result [ none ↦ pure tt | some r ↦ grant_both cfg sid r ]
      else pure tt

-- `_finish`
unfoldable pub finish :
    Settings
    → ℕ
    → ℕ
    → Option ℕ
    → JobStatus
    → Option Outcome
    → List Warning
    → Option JobError
    → Exec (Unit {0})
unfolding get_job get_map catch clock save_job
finish cfg sid job_id token status result warnings error = do
  found ← get_job sid job_id
  elim found [
    | none ↦ raise job_lease_lost
    | some job ↦ if not (same_token job.worker_token token) then raise job_lease_lost else (do
      s ← session_or_none cfg sid
      d ← get_map sid job.map_id
      let stopped = is_cancelling job.status || (elim s [ none ↦ true | some _ ↦ false ])
      let orphan = is_completed status && not (is_active_job job_id d)
      let status' = if stopped || orphan then cancelled else status
      let result' = if stopped || orphan then none else result
      decided ← finish_loop 10 sid job s d status' result' warnings error
      finish_end cfg sid job decided warnings error)
  ]

-- `cancel_job`
unfoldable pub cancel_job : Settings → ℕ → ℕ → Exec (Option JobDoc)
unfolding request_cancel get_job
cancel_job cfg sid job_id = do
  found ← request_cancel sid job_id user
  elim found [
    | none ↦ pure none
    | some job ↦ elim job.status [
      | cancelled ↦ do
        finish cfg sid job_id job.worker_token cancelled none [] none
        get_job sid job_id
      | _ ↦ pure (some job)
    ]
  ]

-- `_checkpoint`
unfoldable pub checkpoint : Settings → ℕ → ℕ → ℕ → Exec JobDoc
unfolding get_job get_map catch clock
checkpoint cfg sid job_id token = do
  s ← catch (session cfg sid false)
  elim s [
    | err e ↦ if has_code session_expired e then raise job_cancelled else raise e
    | ok live_session ↦ do
      found ← get_job sid job_id
      now ← clock
      elim found [
        | none ↦ raise job_lease_lost
        | some job ↦
            if not (same_token job.worker_token (some token)) || ltb job.lease_until now
            then raise job_lease_lost
            else if is_cancelling job.status
                || not (live_session.session_epoch == job.session_epoch)
            then raise job_cancelled
            else if leb job.deadline_at now
            then raise (fail_retryable 504 job_timeout)
            else (do
              d ← get_map sid job.map_id
              if is_active_job job_id d then pure job else raise job_cancelled)
      ]
  ]

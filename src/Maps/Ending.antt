-- ===== src/Maps/Ending.antt =====
-- The map table while a job ends or is cancelled (app/v2/reports.py).
use capstone_backend.Prelude.{
  ℕ, refl, Bool, false, not, Option, none, some, List, [], arith, if◌then◌else◌, if_split,
}
use capstone_backend.Errors.{OnOk, session_expired, has_code}
use capstone_backend.Settings.{Settings}
use capstone_backend.Jobs.Data.{
  JobStatus, cancelled, CancelReason, user, Warning, Outcome, is_terminal, queued, running,
  cancel_requested, completed, failed,
}
use capstone_backend.Jobs.Doc.{JobDoc, JobError}
use capstone_backend.Jobs.Steps.{
  finish, finish_end, finish_loop, session_or_none, grant_both, save_job, cancel_job,
  request_cancel, cancel_requested_at, same_token, is_completed, finished,
}
use capstone_backend.World.{SessionDoc, ResultKind, report, strategy, ◌>>◌, clock, catch, pure}
use capstone_backend.State.{
  get_map, get_job, get_session, put_access, save_live_session, session, grant_result,
  expired_session,
}
use capstone_backend.Maps.Keeping.{
  Any, IsSound, Keeps, bind-Keeps, pure-Keeps, raise-Keeps, same-Keeps, clock-Keeps, catch-Keeps,
  option-Keeps, result-Keeps, session-Keeps, get_map-Keeps,
}
use capstone_backend.Maps.Stored.{save_job-Keeps, finish_loop-Keeps}

pub save_live_session-Keeps :
    (cfg : Settings) (sid : ℕ) (s : SessionDoc) (touch : Bool)
    → Keeps cfg Any (save_live_session cfg sid s touch)
unfolding save_live_session
save_live_session-Keeps cfg sid s touch =
    same-Keeps cfg (save_live_session cfg sid s touch) (λ w. ground arith)

pub get_session-Keeps : (cfg : Settings) (sid : ℕ) → Keeps cfg Any (get_session sid)
unfolding get_session
get_session-Keeps cfg sid = same-Keeps cfg (get_session sid) (λ w. refl)

pub get_job-Keeps : (cfg : Settings) (sid id : ℕ) → Keeps cfg Any (get_job sid id)
unfolding get_job
get_job-Keeps cfg sid id = same-Keeps cfg (get_job sid id) (λ w. refl)

put_access-Keeps :
    (cfg : Settings) (sid id : ℕ) (kind : ResultKind) (at : ℕ)
    → Keeps cfg Any (put_access sid id kind at)
unfolding put_access
put_access-Keeps cfg sid id kind at = same-Keeps cfg (put_access sid id kind at) (λ w. refl)

module _ (cfg : Settings) where
  grant_result-Keeps :
      (sid id : ℕ) (kind : ResultKind) → Keeps cfg Any (grant_result cfg sid id kind)
  unfolding grant_result expired_session
  grant_result-Keeps sid id kind =
      bind-Keeps cfg Any _ (session cfg sid false) _ (session-Keeps cfg sid) (λ s _.
        bind-Keeps cfg Any _ (put_access sid id kind s.expires_at) _
          (put_access-Keeps cfg sid id kind s.expires_at)
          (λ _ _. bind-Keeps cfg Any _ (session cfg sid false) _ (session-Keeps cfg sid) (λ _ _.
            bind-Keeps cfg Any _ (get_session sid) _ (get_session-Keeps cfg sid) (λ found _.
              option-Keeps cfg Any Any found _ _ tt (raise-Keeps cfg _ _)
                (λ latest _. save_live_session-Keeps cfg sid _ false)))))

  grant_both-Keeps : (sid : ℕ) (r : Outcome) → Keeps cfg Any (grant_both cfg sid r)
  grant_both-Keeps sid r =
      bind-Keeps cfg Any _ (grant_result cfg sid r.report_id report) _
        (grant_result-Keeps sid r.report_id report)
        (λ _ _.
          option-Keeps cfg Any Any r.strategy_id _ _ tt (pure-Keeps cfg _ _ tt)
            (λ id _. grant_result-Keeps sid id strategy))

  finish_end-Keeps :
      (sid : ℕ) (job : JobDoc) (status : JobStatus) (result : Option Outcome) (stored : Bool)
      (warnings : List Warning) (error : Option JobError)
      → Keeps cfg Any (finish_end cfg sid job (status, result, stored) warnings error)
  finish_end-Keeps sid job status result stored warnings error =
      bind-Keeps cfg Any _ clock _ (clock-Keeps cfg) (λ now _.
        bind-Keeps cfg Any _
          (if stored then pure tt else save_job sid (finished now status result warnings error job))
          _
          (if_split (Keeps cfg Any) stored (λ _. pure-Keeps cfg _ _ tt)
            (λ _. save_job-Keeps cfg sid _))
          (λ _ _.
            if_split (Keeps cfg Any) (is_completed status)
              (λ _.
                option-Keeps cfg Any Any result _ _ tt (pure-Keeps cfg _ _ tt)
                  (λ r _. grant_both-Keeps sid r))
              (λ _. pure-Keeps cfg _ _ tt)))

  session_or_none-Keeps : (sid : ℕ) → Keeps cfg Any (session_or_none cfg sid)
  session_or_none-Keeps sid =
      bind-Keeps cfg (OnOk Any) _ (catch (session cfg sid false)) _
        (catch-Keeps cfg Any _ (session-Keeps cfg sid))
        (λ r _.
          result-Keeps cfg Any Any r _ _ tt (λ s _. pure-Keeps cfg _ _ tt)
            (λ e.
              if_split (Keeps cfg Any) (has_code session_expired e) (λ _. pure-Keeps cfg _ _ tt)
                (λ _. raise-Keeps cfg _ _)))

  pub finish-Keeps :
      (sid id : ℕ) (token : Option ℕ) (status : JobStatus) (result : Option Outcome)
      (warnings : List Warning) (error : Option JobError)
      → Keeps cfg Any (finish cfg sid id token status result warnings error)
  unfolding finish
  finish-Keeps sid id token status result warnings error =
      bind-Keeps cfg Any _ (get_job sid id) _ (get_job-Keeps cfg sid id) (λ found _.
        option-Keeps cfg Any Any found _ _ tt (raise-Keeps cfg _ _) (λ job _.
          if_split (Keeps cfg Any) (not (same_token job.worker_token token))
            (λ _. raise-Keeps cfg _ _)
            (λ _.
              bind-Keeps cfg Any _ (session_or_none cfg sid) _ (session_or_none-Keeps sid) (λ s _.
                bind-Keeps cfg (IsSound cfg) _ (get_map sid job.map_id) _
                  (get_map-Keeps cfg sid job.map_id)
                  (λ d q.
                    bind-Keeps cfg Any _ (finish_loop 10 sid job s d _ _ warnings error) _
                      (finish_loop-Keeps cfg 10 sid job s d _ _ warnings error q)
                      (λ decided _.
                        finish_end-Keeps sid job decided.0 decided.1 decided.2 warnings error))))))

  request_cancel-Keeps :
      (sid id : ℕ) (reason : CancelReason) → Keeps cfg Any (request_cancel sid id reason)
  unfolding request_cancel
  request_cancel-Keeps sid id reason =
      bind-Keeps cfg Any _ (get_job sid id) _ (get_job-Keeps cfg sid id) (λ found _.
        option-Keeps cfg Any Any found _ _ tt (pure-Keeps cfg _ _ tt) (λ job _.
          bind-Keeps cfg Any _ clock _ (clock-Keeps cfg) (λ now _.
            if_split (Keeps cfg Any) (is_terminal job.status) (λ _. pure-Keeps cfg _ _ tt)
              (λ _.
                bind-Keeps cfg Any _ (save_job sid (cancel_requested_at now reason job)) _
                  (save_job-Keeps cfg sid (cancel_requested_at now reason job))
                  (λ _ _. pure-Keeps cfg _ _ tt)))))

  cancelled-Keeps :
      (sid id : ℕ) (job : JobDoc) (status : JobStatus)
      → Keeps cfg Any (elim status [
        | cancelled ↦ do finish cfg sid id job.worker_token cancelled none [] none; get_job sid id
        | _ ↦ pure (some job)
      ])
  cancelled-Keeps sid id job cancelled =
      bind-Keeps cfg Any _ (finish cfg sid id job.worker_token cancelled none [] none) _
        (finish-Keeps sid id job.worker_token cancelled none [] none)
        (λ _ _. get_job-Keeps cfg sid id)
  cancelled-Keeps sid id job queued = pure-Keeps cfg _ _ tt
  cancelled-Keeps sid id job running = pure-Keeps cfg _ _ tt
  cancelled-Keeps sid id job cancel_requested = pure-Keeps cfg _ _ tt
  cancelled-Keeps sid id job completed = pure-Keeps cfg _ _ tt
  cancelled-Keeps sid id job failed = pure-Keeps cfg _ _ tt

  pub cancel_job-Keeps : (sid id : ℕ) → Keeps cfg Any (cancel_job cfg sid id)
  unfolding cancel_job
  cancel_job-Keeps sid id =
      bind-Keeps cfg Any _ (request_cancel sid id user) _ (request_cancel-Keeps sid id user)
        (λ found _.
          option-Keeps cfg Any Any found _ _ tt (pure-Keeps cfg _ _ tt)
            (λ job _. cancelled-Keeps sid id job job.status))

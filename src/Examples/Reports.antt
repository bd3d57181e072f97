-- ===== src/Examples/Reports.antt =====
-- Runs of the report jobs of app/v2/reports.py.
use capstone_backend.Prelude.{
  ℕ, ◌+◌, ◌-◌, ◌≡◌, ◌≤◌, ◌<◌, ◌⊎◌, refl, true, false, none, some, [], ◌∷◌, arith,
}
use capstone_backend.Errors.{Result, ok, err, is_ok, job_lease_lost}
use capstone_backend.Clock.{ticks, whole_ttl}
use capstone_backend.Newsmap.Data.{MapDoc}
use capstone_backend.Jobs.Data.{
  running, completed, analyzing, published, medium, short, user, is_terminal, is_cancelling,
  cancelled, cancel_requested, done,
}
use capstone_backend.Jobs.Doc.{JobDoc}
use capstone_backend.Jobs.Steps.{
  same_token, is_queued, is_active_job, update, request_cancel, checkpoint, finish,
}
use capstone_backend.Jobs.Worker.{claimed, claim, attempts_of, Claim}
use capstone_backend.Jobs.Claims.{job_at, is_claimed, claim_starts, claim-claim}
use capstone_backend.Jobs.Finishing.{map_at, claim-finish}
use capstone_backend.Jobs.Progress.{request_cancel_lem, checkpoint_passed}
use capstone_backend.World.{World, SessionDoc, ◌>>=◌}
use capstone_backend.State.{session}
use capstone_backend.Session.{existing}
use capstone_backend.Examples.{cfg}
use capstone_backend.Examples.Documents.{two_nodes}
use capstone_backend.Examples.Requests.{world, only}

-- a job of session 8 for its map, started once and held by the token 40 until second 80
abbrev pub job : JobDoc
job = record {
  job_id = 6;
  client_request_id = 61;
  map_id = 3;
  accepted_map_revision = 1;
  status = running;
  stage = analyzing;
  request_news_ids = 11 ∷ [];
  progress = record { requested = 1; processed = 0; succeeded = 0; failed = 0 };
  result = none;
  warnings = [];
  error = none;
  created_at = ticks 10;
  updated_at = ticks 20;
  expires_at = ticks 100;
  session_epoch = 70;
  source_map_revision = 1;
  dispatch_state = published;
  last_dispatch_attempt = ticks 10;
  deadline_at = ticks 90;
  worker_token = some 40;
  lease_until = ticks 80;
  worker_attempts = some 1;
  worker_retries = 0;
  client_host = none;
  request = record {
    map_id = 3;
    expected_revision = 1;
    client_request_id = 61;
    news_ids = 11 ∷ [];
    strategy_options = record { risk_level = medium; period = short };
  };
  cancel_reason = none;
}

-- the session's world with the job, which its map waits for
abbrev waiting : MapDoc
waiting = record two_nodes { active_report_job_id = some 6 }

abbrev pub busy_world : World
busy_world = record world { jobs = only 8 6 job; maps = only 8 3 waiting }

-- the lease has ended
abbrev idle_world : World
idle_world = record busy_world { now = ticks 85 }

abbrev job_of : Result Claim → JobDoc
job_of (ok (claimed j _)) = j
job_of _ = job

abbrev restarted : JobDoc
restarted = job_of (claim cfg 8 6 41 idle_world).0

claims : (claim cfg 8 6 41 idle_world).0 ≡ ok (claimed restarted false)
unfolding claim ◌>>=◌
claims = refl

claim_starts_example :
    (attempts_of restarted ≡ 1 + 1)
    × (attempts_of restarted ≤ 2)
    × (restarted.worker_token ≡ some 41)
    × (restarted.lease_until ≡ ticks 85 + ticks 60)
    × (job_at (claim cfg 8 6 41 idle_world).1 8 6 ≡ some restarted)
claim_starts_example = claim_starts cfg 8 6 41 idle_world job refl restarted refl claims

abbrev used_up : JobDoc
used_up = record job { worker_attempts = some 2 }

abbrev pub used_up_world : World
used_up_world = record idle_world { jobs = only 8 6 used_up }

abbrev given_up : JobDoc
given_up = job_of (claim cfg 8 6 41 used_up_world).0

gives_up : (claim cfg 8 6 41 used_up_world).0 ≡ ok (claimed given_up true)
unfolding claim ◌>>=◌
gives_up = refl

claim-claim_example :
    is_claimed (claim cfg 8 6 42 (record (claim cfg 8 6 41 idle_world).1 { now = ticks 90 })).0
    ≡ false
claim-claim_example =
    claim-claim cfg 8 6 41 42 (ticks 90) idle_world job restarted false refl refl claims
      (omega arith)

abbrev failing : JobDoc → JobDoc
failing j = record j {
  progress = record { requested = 1; processed = 1; succeeded = 1; failed = 0 };
}

update_refuses : is_ok (update 8 6 41 failing busy_world).0 ≡ false
unfolding update ◌>>=◌
update_refuses = refl

request_cancel_lem_example :
    let r = request_cancel 8 6 user busy_world in
    (j : JobDoc) × (r.0 ≡ ok (some j))
    × ((is_terminal job.status ≡ true)
          × (j ≡ job)
          × ((s i : ℕ) → job_at r.1 s i ≡ job_at busy_world s i)
        ⊎ (is_terminal job.status ≡ false)
          × (j.cancel_reason ≡ some user)
          × ((is_queued job.status ≡ true) × (j.status ≡ cancelled) × (j.stage ≡ done)
              ⊎ (is_queued job.status ≡ false)
                × (j.status ≡ cancel_requested)
                × (j.stage ≡ job.stage))
          × (r.1.jobs 8 6
              ≡ some (record {
                expires = ticks 50 + ticks (whole_ttl (ticks 100 - ticks 50));
                value = j;
              })))
request_cancel_lem_example = request_cancel_lem 8 6 user busy_world job refl

passes : (checkpoint cfg 8 6 40 busy_world).0 ≡ ok job
unfolding checkpoint ◌>>=◌ session existing
passes = refl

checkpoint_passed_example :
    (job_at busy_world 8 6 ≡ some job)
    × (same_token job.worker_token (some 40) ≡ true)
    × (ticks 50 ≤ ticks 80)
    × (ticks 50 < ticks 90)
    × (is_cancelling job.status ≡ false)
    × (is_active_job 6 (map_at busy_world 8 3) ≡ true)
    × (s : SessionDoc) × ((session cfg 8 false busy_world).0 ≡ ok s)
    × (s.session_epoch ≡ job.session_epoch)
checkpoint_passed_example = checkpoint_passed cfg 8 6 40 busy_world job passes

claim-finish_example :
    let u = record (claim cfg 8 6 41 idle_world).1 { now = ticks 90 } in
    let ended = finish cfg 8 6 (some 40) completed none [] none u in
    let written = update 8 6 40 failing u in
    (ended.0 ≡ err job_lease_lost)
    × ((s i : ℕ) → job_at ended.1 s i ≡ job_at u s i)
    × ((s i : ℕ) → map_at ended.1 s i ≡ map_at u s i)
    × (written.0 ≡ err job_lease_lost)
    × ((s i : ℕ) → job_at written.1 s i ≡ job_at u s i)
claim-finish_example =
    claim-finish cfg 8 6 40 41 (ticks 90) idle_world job restarted false completed none [] none
      failing refl refl claims refl

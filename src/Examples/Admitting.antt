-- ===== src/Examples/Admitting.antt =====
-- Requests for a report, accepted and refused (app/api/v2/report_jobs.py).
use capstone_backend.Prelude.{
  ℕ, ◌+◌, ◌≡◌, ◌≤◌, ◌⊎◌, refl, Bool, true, false, Option, none, some, [], ◌∷◌, lookup, arith,
}
use capstone_backend.Errors.{Result, ok, err, is_ok}
use capstone_backend.Newsmap.Data.{Article, MapDoc}
use capstone_backend.Jobs.Data.{ReportJobCreate, medium, short, queued, pending}
use capstone_backend.Jobs.Doc.{JobDoc}
use capstone_backend.Jobs.Finishing.{map_at}
use capstone_backend.Admission.{accept}
use capstone_backend.Admission.Commit.{replay_at}
use capstone_backend.Admission.Unchanged.{SameLive}
use capstone_backend.Admission.Replays.{IsDrawn, accept_admits, accept_refused}
use capstone_backend.Quota.{retry_after_of}
use capstone_backend.World.{◌>>=◌, SessionDoc}
use capstone_backend.State.Frame.{session_at}
use capstone_backend.Jobs.Claims.{job_at}
use capstone_backend.State.{map_resource, session}
use capstone_backend.Session.{existing}
use capstone_backend.Newsmap.Create.{with_snapshot, plant, blank}
use capstone_backend.Examples.{cfg, article}
use capstone_backend.Examples.Requests.{world, session_doc}
use capstone_backend.Examples.Reports.{job, busy_world}

abbrev digest : ReportJobCreate → ℕ
digest body = body.client_request_id + 1000

abbrev known : ℕ → Option Article
known id = some (article id)

abbrev host_key : Option ℕ → ℕ
host_key host = 0

abbrev always : ℕ → ℕ → ℕ → Bool
always sid map_id id = true

abbrev wanted : ReportJobCreate
wanted = record {
  map_id = 3;
  expected_revision = 1;
  client_request_id = 61;
  news_ids = 11 ∷ [];
  strategy_options = record { risk_level = medium; period = short };
}

abbrev job_in : Result JobDoc → JobDoc
job_in (ok j) = j
job_in (err e) = job

-- the map waits for the job 6, which the new job supersedes
abbrev started : JobDoc
started = job_in (accept cfg digest known host_key always 8 5 session_doc wanted none busy_world).0

starts :
    (accept cfg digest known host_key always 8 5 session_doc wanted none busy_world).0 ≡ ok started
unfolding accept ◌>>=◌ map_resource session existing with_snapshot plant blank retry_after_of
starts = refl

drawn : IsDrawn busy_world 8
unfolding with_snapshot plant blank
drawn = record { jobs = λ i k there. ground arith; active = λ i m p there waits. ground arith }

accept_admits_example :
    let w' = (accept cfg digest known host_key always 8 5 session_doc wanted none busy_world).1 in
    (old new : MapDoc) × (t : SessionDoc) × (map_at busy_world 8 3 ≡ some old)
    × (old.revision ≡ 1)
    × ((session_doc.paid ≡ true) ⊎ (1 ≤ 1))
    × (map_at w' 8 3 ≡ some new)
    × (new.revision ≡ 1 + 1)
    × (new.active_report_job_id ≡ some started.job_id)
    × (job_at w' 8 started.job_id ≡ some started)
    × (started.request_news_ids ≡ wanted.news_ids)
    × (started.status ≡ queued)
    × (started.dispatch_state ≡ pending)
    × (replay_at w' 8 5 ≡ some (record { request_hash = 1061; job_id = started.job_id }))
    × (session_at w' 8 ≡ some t)
    × (lookup started.job_id t.job_index ≡ some (some started.expires_at))
accept_admits_example =
    accept_admits cfg digest known host_key always 8 5 session_doc wanted none busy_world started
      drawn starts

-- a request for an article that the map does not show
abbrev unwanted : ReportJobCreate
unwanted = record wanted { news_ids = 99 ∷ [] }

refuses :
    is_ok (accept cfg digest known host_key always 8 5 session_doc unwanted none world).0 ≡ false
unfolding accept ◌>>=◌ map_resource session existing with_snapshot plant blank retry_after_of
refuses = refl

accept_refused_example :
    SameLive world (accept cfg digest known host_key always 8 5 session_doc unwanted none world).1
accept_refused_example =
    accept_refused cfg digest known host_key always 8 5 session_doc unwanted none world refuses

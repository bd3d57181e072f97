-- ===== src/Admission.antt =====
-- The acceptance of report jobs (app/api/v2/report_jobs.py) in memory mode. Its locks are free,
-- since a handler runs as one step. The digest of a request, the stored articles
-- (`store.get_news`), the canonical form of a client address and what the queue takes are
-- arguments.
pub mod Unchanged
pub mod Commit
pub mod Replays
use capstone_backend.Prelude.{
  ℕ, ◌+◌, ◌-◌, Bool, true, false, not, ◌&&◌, Option, none, some, List, [], ◌∷◌, map, ltb, leb, ◌==◌,
  if◌then◌else◌, length, all, distinct, elem, insert,
}
use capstone_backend.Errors.{
  Result, ok, err, fail, fail_detail, session_expired, resource_expired, map_revision_conflict,
  resource_not_found, invalid_request, plan_article_limit_exceeded, idempotency_conflict,
  too_many_requests,
}
use capstone_backend.Clock.{ticks}
use capstone_backend.Settings.{Settings}
use capstone_backend.Session.{Payload}
use capstone_backend.Quota
use capstone_backend.Quota.{QuotaRequest, check_quotas}
use capstone_backend.Newsmap.Data.{Article, Node, MapDoc}
use capstone_backend.Jobs.Data.{
  queued, waiting, pending, superseded, ReportJobCreate, StrategyOptions,
}
use capstone_backend.Jobs.Doc.{JobDoc}
use capstone_backend.Jobs.Steps.{request_cancel, cancel_job}
use capstone_backend.Jobs.Dispatch.{dispatch_job, poll_job}
use capstone_backend.World.{
  World, Exec, SessionDoc, Replay, pure, raise, lift, ◌>>=◌, ◌>>◌, clock, uuid4,
}
use capstone_backend.State.{
  session, existing_base, get_session, get_map, put_map, put_job, put_session, get_replay,
  put_replay,
}
use capstone_backend.Maps.{load_map}

-- `ReportJobCreate`, as its fields and its validator accept it
abbrev pub is_valid_create : ReportJobCreate → Bool
is_valid_create body =
    not (body.map_id == 0)
    && leb 1 body.expected_revision
    && leb 1 (length body.news_ids)
    && leb (length body.news_ids) 10
    && distinct body.news_ids
    && all (λ id. not (id == 0)) body.news_ids

-- the session that may admit: alive, and still of the epoch of the job
abbrev pub admitting : Option Payload → Option SessionDoc → ℕ → Option SessionDoc
admitting none found epoch = none
admitting (some p) none epoch = none
admitting (some p) (some s) epoch = if s.session_epoch == epoch then some s else none

-- `check_quota`
unfoldable pub check_quota : (Option ℕ → ℕ) → QuotaRequest → Exec (Unit {0})
unfolding check_quotas
check_quota client_key request w =
    let (refused, buckets) = check_quotas client_key w.now (request ∷ []) w.buckets in
    (
      elim refused [ none ↦ ok tt | some n ↦ err (too_many_requests n) ],
      record w { buckets = buckets },
    )

-- what a request is answered with when its articles cannot be analysed
abbrev pub check_plan : Bool → List ℕ → Result (Unit {0})
check_plan paid ids =
    if not paid && ltb 1 (length ids) then err (fail 403 plan_article_limit_exceeded) else ok tt

abbrev pub check_source : MapDoc → ReportJobCreate → Result (Unit {0})
check_source d body =
    if not (d.revision == body.expected_revision)
    then err (fail_detail 409 map_revision_conflict false d.revision)
    else if not (all (λ id. elem id (map (λ (n : Node). n.news_id) d.nodes)) body.news_ids)
    then err (fail 422 invalid_request)
    else ok tt

abbrev pub check_known : (ℕ → Option Article) → List ℕ → Result (Unit {0})
check_known get_news [] = ok tt
check_known get_news (id ∷ ids) = elim (get_news id) [
  | none ↦ err (fail 404 resource_not_found)
  | some a ↦ check_known get_news ids
]

module _ (cfg : Settings) where
  -- `_admit`
  unfoldable pub admit : ℕ → MapDoc → JobDoc → ℕ → ℕ → Exec (Unit {0})
  unfolding existing_base get_session get_map put_map put_job put_replay put_session clock
  admit sid map_doc job key_id request_hash = do
    found ← get_session sid
    base ← existing_base sid
    elim (admitting base found job.session_epoch) [
      | none ↦ raise (fail 410 session_expired)
      | some s ↦ do
        stored ← get_map sid job.map_id
        now ← clock
        elim stored [
          | none ↦ raise (fail 410 resource_expired)
          | some current ↦
              if not (current.revision == job.source_map_revision)
              then raise (fail_detail 409 map_revision_conflict false current.revision)
              else (do
                put_map sid job.map_id (record map_doc { revision = job.accepted_map_revision })
                    (map_doc.expires_at - now)
                put_job sid job.job_id job (ticks cfg.v2_job_ttl_seconds)
                put_replay sid key_id (record { request_hash = request_hash; job_id = job.job_id })
                    (ticks cfg.v2_job_ttl_seconds)
                put_session sid
                    (record s { job_index = insert job.job_id (some job.expires_at) s.job_index })
                    (s.expires_at - now))
        ]
    ]

  -- the job that a request starts
  abbrev pub new_job : ℕ → ℕ → SessionDoc → ReportJobCreate → Option ℕ → JobDoc
  new_job job_id now s body host = record {
    job_id = job_id;
    client_request_id = body.client_request_id;
    map_id = body.map_id;
    accepted_map_revision = body.expected_revision + 1;
    status = queued;
    stage = waiting;
    request_news_ids = body.news_ids;
    progress = record {
      requested = length body.news_ids;
      processed = 0;
      succeeded = 0;
      failed = 0;
    };
    result = none;
    warnings = [];
    error = none;
    created_at = now;
    updated_at = now;
    expires_at = now + ticks cfg.v2_job_ttl_seconds;
    session_epoch = s.session_epoch;
    source_map_revision = body.expected_revision;
    dispatch_state = pending;
    last_dispatch_attempt = 0;
    deadline_at = now + ticks cfg.v2_job_timeout_seconds;
    worker_token = none;
    lease_until = 0;
    worker_attempts = none;
    worker_retries = 0;
    client_host = host;
    request = body;
    cancel_reason = none;
  }

  -- the map that a job is started for
  abbrev pub reserved : ReportJobCreate → ℕ → MapDoc → MapDoc
  reserved body job_id d = record d {
    selected_news_ids = body.news_ids;
    report_panel_open = true;
    active_report_job_id = some job_id;
  }

  -- `if previous_job:`
  abbrev pub supersede : ℕ → Option ℕ → Exec (Unit {0})
  supersede sid none = pure tt
  supersede sid (some job_id) = do _ ← request_cancel sid job_id superseded; pure tt

  abbrev pub reports_quota : ℕ → Option ℕ → QuotaRequest
  reports_quota sid host = record {
    owner_sid = sid;
    action = Quota.reports;
    per_session = 5;
    global_limit = 100;
    client_host = host;
    per_client = some cfg.reports_client_hourly_limit;
  }

  module _ (digest : ReportJobCreate → ℕ) (get_news : ℕ → Option Article)
      (client_key : Option ℕ → ℕ) (accepts : ℕ → ℕ → ℕ → Bool) where
    -- the admission of a request that passed its checks
    unfoldable pub enter : ℕ → ℕ → SessionDoc → ReportJobCreate → Option ℕ → MapDoc → Exec JobDoc
    unfolding admit request_cancel clock uuid4
    enter sid key_id s body host d = do
      job_id ← uuid4
      now ← clock
      admit sid (reserved body job_id d) (new_job job_id now s body host) key_id (digest body)
      supersede sid d.active_report_job_id
      pure (new_job job_id now s body host)

    -- the branch of `create_job` for a new key, up to its dispatch
    unfoldable pub accept : ℕ → ℕ → SessionDoc → ReportJobCreate → Option ℕ → Exec JobDoc
    unfolding load_map check_quota enter
    accept sid key_id s body host = do
      lift (check_plan s.paid body.news_ids)
      d ← load_map cfg sid body.map_id
      lift (check_source d body)
      lift (check_known get_news body.news_ids)
      check_quota client_key (reports_quota sid host)
      enter sid key_id s body host d

    -- `create_job`; the key is the id in the header, `none` when it is no UUID
    unfoldable pub create_job : ℕ → ReportJobCreate → Option ℕ → Option ℕ → Exec JobDoc
    unfolding session get_replay poll_job dispatch_job accept
    create_job sid body none host = raise (fail 422 invalid_request)
    create_job sid body (some key_id) host = do
      s ← session cfg sid true
      previous ← get_replay sid key_id
      elim previous [
        | some p ↦
            if not (p.request_hash == digest body)
            then raise (fail 409 idempotency_conflict)
            else (do
              existing ← poll_job cfg accepts sid p.job_id
              dispatch_job cfg accepts sid existing.job_id true)
        | none ↦ do
          job ← accept sid key_id s body host
          dispatch_job cfg accepts sid job.job_id true
      ]

    -- `cancel_job` of the API
    unfoldable pub cancel_route : ℕ → ℕ → Exec (Option JobDoc)
    unfolding session poll_job cancel_job
    cancel_route sid job_id = do
      _ ← session cfg sid true
      _ ← poll_job cfg accepts sid job_id
      cancel_job cfg sid job_id

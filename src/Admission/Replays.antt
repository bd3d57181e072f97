-- ===== src/Admission/Replays.antt =====
-- A request for a report under a new key (`create_job` of app/api/v2/report_jobs.py, up to its
-- dispatch): what it stores when it is accepted, and what it leaves when it is refused.
use mathlib.Core.Path.{subst}
use capstone_backend.Prelude.{
  ◌<◌, ◌==◌, inr, insert, lookup, lookup-insert, ==_refl, Option-cases, ℕ, ◌⊎◌, ◌≤◌, ◌+◌, ◌≡◌, refl,
  sym, ap, ◌∙◌, inl, Bool, true, false, none, some, List, Option, arith, length,
}
use capstone_backend.Errors.{Result, ok, err, is_ok, fail, resource_expired, resource_not_found}
use capstone_backend.Settings.{Settings}
use capstone_backend.Newsmap.Data.{Article, MapDoc}
use capstone_backend.Jobs.Data.{ReportJobCreate, queued, pending}
use capstone_backend.Jobs.Doc.{JobDoc}
use capstone_backend.Jobs.Claims.{job_at}
use capstone_backend.Jobs.Finishing.{map_at}
use capstone_backend.State.{session, get_map, map_resource}
use capstone_backend.Jobs.Steps.{request_cancel}
use capstone_backend.World.{World, Exec, SessionDoc, lift, pure, raise, clock, uuid4, ◌>>=◌, ◌>>◌}
use capstone_backend.State.Frame.{bind_ok, session_at, session-SameDocs}
use capstone_backend.Maps.{load_map}
use capstone_backend.Admission.{
  admit, accept, check_plan, check_source, check_known, reserved, new_job, reports_quota, supersede,
  enter,
}
use capstone_backend.Admission.Commit.{
  replay_at, now-admit, ids-admit, admit_refused, admit_stored, admit_other_jobs,
}
use capstone_backend.Admission.Unchanged.{
  SameLive, SameLive-refl, SameLive-trans, bind_refused, bind_last, lift-SameLive,
  load_map-SameLive, check_quota-SameLive,
}

plan_ok :
    (paid : Bool) (ids : List ℕ) → check_plan paid ids ≡ ok tt → (paid ≡ true) ⊎ (length ids ≤ 1)
plan_ok true ids h = inl refl
plan_ok false ids h = ground arith

module _ (cfg : Settings) (digest : ReportJobCreate → ℕ) (get_news : ℕ → Option Article)
    (client_key : Option ℕ → ℕ) (accepts : ℕ → ℕ → ℕ → Bool) where
  admit_kept :
      (sid : ℕ) (d : MapDoc) (job : JobDoc) (key_id hash : ℕ) (w : World)
      → is_ok (admit cfg sid d job key_id hash w).0 ≡ false
      → SameLive w (admit cfg sid d job key_id hash w).1
  admit_kept sid d job key_id hash w refused = record {
    now = now-admit cfg sid d job key_id hash w;
    maps = λ s i. (admit_refused cfg sid d job key_id hash w refused s i).0;
    jobs = λ s i. (admit_refused cfg sid d job key_id hash w refused s i).1;
    replays = λ s i. (admit_refused cfg sid d job key_id hash w refused s i).2;
    ids = omega (arith, ids-admit cfg sid d job key_id hash w);
  }

  superseded_ok :
      {A : Type 0} (sid : ℕ) (o : Option ℕ) (a : A) (w : World)
      → is_ok ((supersede cfg sid o >> pure a) w).0 ≡ true
  unfolding request_cancel ◌>>=◌ pure
  superseded_ok sid none a w = refl
  superseded_ok sid (some id) a w = ground arith

  enter_refused :
      (sid key_id : ℕ) (s : SessionDoc) (body : ReportJobCreate) (host : Option ℕ) (d : MapDoc)
      (w : World)
      → is_ok (enter cfg digest get_news client_key accepts sid key_id s body host d w).0 ≡ false
      → SameLive w (enter cfg digest get_news client_key accepts sid key_id s body host d w).1
  unfolding enter uuid4 clock
  enter_refused sid key_id s body host d w =
      bind_refused uuid4 _ w
        (record {
          now = refl;
          maps = λ _ _. refl;
          jobs = λ _ _. refl;
          replays = λ _ _. refl;
          ids = omega arith;
        })
        (λ job_id _. bind_refused clock _ _ (SameLive-refl _) (λ now _.
          bind_last _ _ _
            (admit_kept sid (reserved cfg body job_id d) (new_job cfg job_id now s body host) key_id
              (digest body) _)
            (λ _ v.
              superseded_ok sid d.active_report_job_id (new_job cfg job_id now s body host) v)))

  -- A request under a new key that is refused, for whatever reason, leaves every live map, job and
  -- idempotency key as it was.
  pub accept_refused :
      (sid key_id : ℕ) (s : SessionDoc) (body : ReportJobCreate) (host : Option ℕ) (w : World)
      → is_ok (accept cfg digest get_news client_key accepts sid key_id s body host w).0 ≡ false
      → SameLive w (accept cfg digest get_news client_key accepts sid key_id s body host w).1
  unfolding accept
  accept_refused sid key_id s body host w = bind_refused _ _ w (lift-SameLive _ w) (λ _ _.
      bind_refused _ _ _ (load_map-SameLive cfg sid body.map_id _) (λ d _.
        bind_refused _ _ _ (lift-SameLive _ _) (λ _ _.
          bind_refused _ _ _ (lift-SameLive _ _) (λ _ _.
            bind_refused _ _ _ (check_quota-SameLive client_key (reports_quota cfg sid host) _)
              (λ _ _. enter_refused sid key_id s body host d _)))))

  superseded_keeps :
      {A : Type 0} (sid : ℕ) (o : Option ℕ) (a : A) (w : World) (id : ℕ) (job : JobDoc)
      → job_at w sid id ≡ some job
      → ((p : ℕ) (k : JobDoc) → o ≡ some p → job_at w sid p ≡ some k → (k.job_id == id) ≡ false)
      → let w' = ((supersede cfg sid o >> pure a) w).1 in
        (((supersede cfg sid o >> pure a) w).0 ≡ ok a)
        × ((s i : ℕ) → map_at w' s i ≡ map_at w s i)
        × ((s i : ℕ) → replay_at w' s i ≡ replay_at w s i)
        × (session_at w' sid ≡ session_at w sid)
        × (job_at w' sid id ≡ some job)
  unfolding request_cancel ◌>>=◌ pure
  superseded_keeps sid none a w id job at apart = (refl, λ s i. refl, λ s i. refl, refl, at)
  superseded_keeps sid (some p) a w id job at apart = elim (Option-cases (job_at w sid p)) [
    | inl gone ↦ (
      ground arith,
      λ s i. ground arith,
      λ s i. ground arith,
      ground arith,
      ground (arith, at, gone),
    )
    | inr (k, there) ↦
        let other = apart p k refl there in
        (
          ground arith,
          λ s i. ground arith,
          λ s i. ground arith,
          ground arith,
          ground (arith, at, there, other),
        )
  ]

  -- what an accepted request stores
  abbrev Stored : ℕ → ℕ → ReportJobCreate → MapDoc → World → JobDoc → Type 0
  Stored sid key_id body d w' job =
      (s : SessionDoc) × (map_at w' sid body.map_id
        ≡ some (record (reserved cfg body job.job_id d) { revision = body.expected_revision + 1 }))
      × (job_at w' sid job.job_id ≡ some job)
      × (replay_at w' sid key_id
          ≡ some (record { request_hash = digest body; job_id = job.job_id }))
      × (session_at w' sid
          ≡ some (record s { job_index = insert job.job_id (some job.expires_at) s.job_index }))

  enter_admits :
      (sid key_id : ℕ) (s : SessionDoc) (body : ReportJobCreate) (host : Option ℕ) (d : MapDoc)
      (w : World) (job : JobDoc)
      → ((i : ℕ) (k : JobDoc) → job_at w sid i ≡ some k → k.job_id < w.next_uuid)
      → ((p : ℕ) → d.active_report_job_id ≡ some p → p < w.next_uuid)
      → (enter cfg digest get_news client_key accepts sid key_id s body host d w).0 ≡ ok job
      → let w' = (enter cfg digest get_news client_key accepts sid key_id s body host d w).1 in
        (old : MapDoc) × (map_at w sid body.map_id ≡ some old)
        × (old.revision ≡ body.expected_revision)
        × (job ≡ new_job cfg w.next_uuid w.now s body host)
        × Stored sid key_id body d w' job
  unfolding enter uuid4 clock ◌>>=◌
  enter_admits sid key_id s body host d w job drawn active accepted =
      let w1 : World = record w { next_uuid = w.next_uuid + 1 } in
      let new = new_job cfg w.next_uuid w.now s body host in
      let entered = reserved cfg body w.next_uuid d in
      let w2 : World = (admit cfg sid entered new key_id (digest body) w1).1 in
      let step =
        bind_ok (admit cfg sid entered new key_id (digest body))
          (λ _. supersede cfg sid d.active_report_job_id >> pure new) w1 job accepted in
      let stored = admit_stored cfg sid entered new key_id (digest body) w1 step.1 in
      let apart : (p : ℕ) (k : JobDoc)
          → d.active_report_job_id ≡ some p
          → job_at w2 sid p ≡ some k
          → (k.job_id == w.next_uuid) ≡ false =
        λ p k e there.
          let before =
            admit_other_jobs cfg sid entered new key_id (digest body) w1 sid p
              (ground (arith, active p e)) in
          ground (arith, drawn p k (sym before ∙ there)) in
      let rest =
        superseded_keeps sid d.active_report_job_id new w2 w.next_uuid new stored.5 apart in
      let same : new ≡ job = cc (step.2, rest.0) in
      (
        stored.0,
        stored.2,
        stored.3,
        sym same,
        subst
            (λ (j : JobDoc).
              Stored sid key_id body d
                (enter cfg digest get_news client_key accepts sid key_id s body host d w).1 j)
            same
            (
              stored.1,
              ap (λ v. map_at v sid body.map_id) step.3 ∙ rest.1 sid body.map_id ∙ stored.4,
              ap (λ v. job_at v sid w.next_uuid) step.3 ∙ rest.4,
              ap (λ v. replay_at v sid key_id) step.3 ∙ rest.2 sid key_id ∙ stored.6,
              ap (λ v. session_at v sid) step.3 ∙ rest.3 ∙ stored.7,
            ),
      )

  found_at :
      (id : ℕ) (s : SessionDoc) (found : Option MapDoc) (d : MapDoc) (v : World)
      → ((elim found as (λ _. Exec MapDoc) [
        | some x ↦ pure x
        | none ↦ elim (lookup id s.map_index) as (λ _. Exec MapDoc) [
          | some _ ↦ raise (fail 410 resource_expired)
          | none ↦ raise (fail 404 resource_not_found)
        ]
      ])
          v).0
        ≡ ok d
      → found ≡ some d
  unfolding pure raise
  found_at id s (some x) d v e = ground (arith, e)
  found_at id s none d v e = elim (Option-cases (lookup id s.map_index)) [
    | inl gone ↦ absurd (ground arith)
    | inr (o, there) ↦ absurd (ground arith)
  ]

  resource_at :
      (sid id : ℕ) (w : World) (d : MapDoc)
      → (map_resource cfg sid id w).0 ≡ ok d
      → map_at w sid id ≡ some d
  unfolding map_resource get_map
  resource_at sid id w d loaded =
      let f = session-SameDocs cfg sid w in
      let k = bind_ok (session cfg sid false) _ w d loaded in
      let v : World = (session cfg sid false w).1 in
      let g = bind_ok (get_map sid id) _ v d k.2 in
      let same : map_at w sid id ≡ map_at v sid id = rw (f.now, f.maps) in
      let there : map_at v sid id ≡ g.0 = ground (arith, g.1) in
      same ∙ there ∙ found_at id k.0 g.0 d _ g.2

  abbrev active_of : Result MapDoc → Option ℕ
  active_of (ok d) = d.active_report_job_id
  active_of (err e) = none

  -- the map that is loaded waits for the job that the stored map waits for
  load_active :
      (sid id : ℕ) (w : World) (d : MapDoc)
      → (load_map cfg sid id w).0 ≡ ok d
      → (m : MapDoc) × (map_at w sid id ≡ some m)
        × (d.active_report_job_id ≡ m.active_report_job_id)
  unfolding load_map map_resource get_map pure
  load_active sid id w d loaded =
      let k = bind_ok (map_resource cfg sid id) _ w d loaded in
      let l = bind_ok (session cfg sid false) _ _ d k.2 in
      (k.0, resource_at sid id w k.0 k.1, sym (ap active_of l.2))

-- every id of a job that the session's live documents hold was drawn before
pub record IsDrawn (w : World) (sid : ℕ) : Type 0 where
  pub jobs : (i : ℕ) (k : JobDoc) → job_at w sid i ≡ some k → k.job_id < w.next_uuid
  pub active :
      (i : ℕ) (m : MapDoc) (p : ℕ)
      → map_at w sid i ≡ some m
      → m.active_report_job_id ≡ some p
      → p < w.next_uuid

module _ (cfg : Settings) (digest : ReportJobCreate → ℕ) (get_news : ℕ → Option Article)
    (client_key : Option ℕ → ℕ) (accepts : ℕ → ℕ → ℕ → Bool) where
  -- What a request under a new key that is accepted found, and what it stores, where the job ids of
  -- the session's live documents were drawn before. The stored map had the revision that the request
  -- names, and the plan allows its articles. Then the returned job is stored, for the articles of the
  -- request, queued and not yet dispatched; the request's map names it as its active job under the
  -- next revision; the idempotency key stands for it and the digest of the request; and the index of
  -- the session lists it until it expires.
  pub accept_admits :
      (sid key_id : ℕ) (s : SessionDoc) (body : ReportJobCreate) (host : Option ℕ) (w : World)
      (job : JobDoc)
      → IsDrawn w sid
      → (accept cfg digest get_news client_key accepts sid key_id s body host w).0 ≡ ok job
      → let w' = (accept cfg digest get_news client_key accepts sid key_id s body host w).1 in
        (old new : MapDoc) × (t : SessionDoc) × (map_at w sid body.map_id ≡ some old)
        × (old.revision ≡ body.expected_revision)
        × ((s.paid ≡ true) ⊎ (length body.news_ids ≤ 1))
        × (map_at w' sid body.map_id ≡ some new)
        × (new.revision ≡ body.expected_revision + 1)
        × (new.active_report_job_id ≡ some job.job_id)
        × (job_at w' sid job.job_id ≡ some job)
        × (job.request_news_ids ≡ body.news_ids)
        × (job.status ≡ queued)
        × (job.dispatch_state ≡ pending)
        × (replay_at w' sid key_id
            ≡ some (record { request_hash = digest body; job_id = job.job_id }))
        × (session_at w' sid ≡ some t)
        × (lookup job.job_id t.job_index ≡ some (some job.expires_at))
  unfolding accept lift
  accept_admits sid key_id s body host w job drawn accepted =
      let k1 = bind_ok (lift (check_plan s.paid body.news_ids)) _ w job accepted in
      let k2 = bind_ok (load_map cfg sid body.map_id) _ _ job k1.2 in
      let k3 = bind_ok _ _ _ job k2.2 in
      let k4 = bind_ok _ _ _ job k3.2 in
      let k5 = bind_ok _ _ _ job k4.2 in
      let read = SameLive-trans w _ _ (lift-SameLive (check_plan s.paid body.news_ids) w) (
        SameLive-trans _ _ _ (load_map-SameLive cfg sid body.map_id _) (
          SameLive-trans _ _ _ (lift-SameLive (check_source k2.0 body) _) (
            SameLive-trans _ _ _ (lift-SameLive (check_known get_news body.news_ids) _)
              (check_quota-SameLive client_key (reports_quota cfg sid host) _)))) in
      let (m, at, active) =
        load_active cfg digest get_news client_key accepts sid body.map_id _ k2.0 k2.1 in
      let e =
        enter_admits cfg digest get_news client_key accepts sid key_id s body host k2.0 _ job
          (λ i k there. omega (arith, drawn.jobs i k (sym (read.jobs sid i) ∙ there), read.ids))
          (λ p there. omega (arith, drawn.active body.map_id m p at (sym active ∙ there), read.ids))
          k5.2 in
      let end = k1.3 ∙ k2.3 ∙ k3.3 ∙ k4.3 ∙ k5.3 in
      let listed = lookup-insert job.job_id job.job_id (some job.expires_at) e.4.0.job_index in
      (
        e.0,
        record (reserved cfg body job.job_id k2.0) { revision = body.expected_revision + 1 },
        record e.4.0 { job_index = insert job.job_id (some job.expires_at) e.4.0.job_index },
        sym (read.maps sid body.map_id) ∙ e.1,
        e.2,
        plan_ok s.paid body.news_ids k1.1,
        ap (λ v. map_at v sid body.map_id) end ∙ e.4.1,
        refl,
        refl,
        ap (λ v. job_at v sid job.job_id) end ∙ e.4.2,
        ap (λ (j : JobDoc). j.request_news_ids) e.3,
        ap (λ (j : JobDoc). j.status) e.3,
        ap (λ (j : JobDoc). j.dispatch_state) e.3,
        ap (λ v. replay_at v sid key_id) end ∙ e.4.3,
        ap (λ v. session_at v sid) end ∙ e.4.4,
        ground (arith, listed, ==_refl job.job_id),
      )

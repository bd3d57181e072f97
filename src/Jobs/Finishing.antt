-- ===== src/Jobs/Finishing.antt =====
-- Which worker may end a job (`_finish`, `_update` and the claim of app/v2/reports.py).
use capstone_backend.Prelude.{
  ℕ, ◌≡◌, ◌==◌, refl, inl, inr, Bool, false, List, Option, none, some, Option-cases, arith,
}
use capstone_backend.Errors.{ok, err, job_lease_lost}
use capstone_backend.Settings.{Settings}
use capstone_backend.Newsmap.Data.{MapDoc}
use capstone_backend.Jobs.Data.{JobStatus, Outcome, Warning}
use capstone_backend.Jobs.Doc.{JobDoc, JobError}
use capstone_backend.Jobs.Steps.{finish, update, same_token}
use capstone_backend.Jobs.Worker.{claim, claimed}
use capstone_backend.Jobs.Claims.{job_at}
use capstone_backend.World.{World, live, ◌>>=◌}

abbrev pub map_at : World → ℕ → ℕ → Option MapDoc
map_at w sid id = live w.now (w.maps sid id)

-- where the stored job has another token
finish_stale :
    (cfg : Settings) (sid id : ℕ) (token : Option ℕ) (status : JobStatus) (result : Option Outcome)
    (warnings : List Warning) (error : Option JobError) (w : World) (job : JobDoc)
    → job_at w sid id ≡ some job
    → same_token job.worker_token token ≡ false
    → let r = finish cfg sid id token status result warnings error w in
      (r.0 ≡ err job_lease_lost)
      × ((s i : ℕ) → job_at r.1 s i ≡ job_at w s i)
      × ((s i : ℕ) → map_at r.1 s i ≡ map_at w s i)
unfolding finish ◌>>=◌
finish_stale cfg sid id token status result warnings error w job at other =
    (ground arith, λ s i. ground arith, λ s i. ground arith)

-- where no job is stored
finish_gone :
    (cfg : Settings) (sid id : ℕ) (token : Option ℕ) (status : JobStatus) (result : Option Outcome)
    (warnings : List Warning) (error : Option JobError) (w : World)
    → job_at w sid id ≡ none
    → let r = finish cfg sid id token status result warnings error w in
      (r.0 ≡ err job_lease_lost)
      × ((s i : ℕ) → job_at r.1 s i ≡ job_at w s i)
      × ((s i : ℕ) → map_at r.1 s i ≡ map_at w s i)
unfolding finish ◌>>=◌
finish_gone cfg sid id token status result warnings error w gone =
    (ground arith, λ s i. ground arith, λ s i. ground arith)

update_stale :
    (sid id token : ℕ) (changes : JobDoc → JobDoc) (w : World) (o : Option JobDoc)
    → job_at w sid id ≡ o
    → ((j : JobDoc) → o ≡ some j → same_token j.worker_token (some token) ≡ false)
    → ((update sid id token changes w).0 ≡ err job_lease_lost)
      × ((s i : ℕ) → job_at (update sid id token changes w).1 s i ≡ job_at w s i)
unfolding update ◌>>=◌
update_stale sid id token changes w none at other = (ground arith, λ s i. ground arith)
update_stale sid id token changes w (some j) at other =
    (ground (arith, other j refl), λ s i. ground (arith, other j refl))

module _ (cfg : Settings) (sid id token other later : ℕ) (w : World) (job job' : JobDoc)
    (exhausted : Bool) where
  -- the world some time after the claim
  abbrev pub after_claim : World
  after_claim = record (claim cfg sid id other w).1 { now = later }

  claimed_token :
      job_at w sid id ≡ some job
      → job.job_id ≡ id
      → (claim cfg sid id other w).0 ≡ ok (claimed job' exhausted)
      → (other == token) ≡ false
      → (j : JobDoc) → job_at after_claim sid id ≡ some j
      → same_token j.worker_token (some token) ≡ false
  unfolding claim ◌>>=◌
  claimed_token at own h apart j there = ground arith

  -- Once another worker has claimed a job, stored under its own id, the worker that held it before
  -- is shut out for good: at any later instant its progress writes and its attempts to end the job
  -- raise that the lease is lost and leave every live job as it was, and the attempts to end it leave
  -- every live map as it was.
  pub claim-finish :
      (status : JobStatus) (result : Option Outcome) (warnings : List Warning)
      (error : Option JobError) (changes : JobDoc → JobDoc)
      → job_at w sid id ≡ some job
      → job.job_id ≡ id
      → (claim cfg sid id other w).0 ≡ ok (claimed job' exhausted)
      → (other == token) ≡ false
      → let u = record (claim cfg sid id other w).1 { now = later } in
        let ended = finish cfg sid id (some token) status result warnings error u in
        let written = update sid id token changes u in
        (ended.0 ≡ err job_lease_lost)
        × ((s i : ℕ) → job_at ended.1 s i ≡ job_at u s i)
        × ((s i : ℕ) → map_at ended.1 s i ≡ map_at u s i)
        × (written.0 ≡ err job_lease_lost)
        × ((s i : ℕ) → job_at written.1 s i ≡ job_at u s i)
  claim-finish status result warnings error changes at own h apart =
      let stale = claimed_token at own h apart in
      let lost = update_stale sid id token changes after_claim _ refl stale in
      elim (Option-cases (job_at after_claim sid id)) [
        | inl gone ↦
            let e =
              finish_gone cfg sid id (some token) status result warnings error after_claim gone in
            (e.0, e.1, e.2, lost.0, lost.1)
        | inr (j, there) ↦
            let e =
              finish_stale cfg sid id (some token) status result warnings error after_claim j there
                (stale j there) in
            (e.0, e.1, e.2, lost.0, lost.1)
      ]

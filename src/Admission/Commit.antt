-- ===== src/Admission/Commit.antt =====
-- What an admission stores, and what a refused one leaves (`_admit` of app/api/v2/report_jobs.py).
use capstone_backend.Prelude.{
  ℕ, ◌≡◌, inl, inr, false, some, Option, arith, ==_refl, ◌==◌, insert, Option-cases,
}
use capstone_backend.Errors.{ok, is_ok}
use capstone_backend.Settings.{Settings}
use capstone_backend.Newsmap.Data.{MapDoc}
use capstone_backend.Jobs.Doc.{JobDoc}
use capstone_backend.Jobs.Claims.{job_at}
use capstone_backend.Jobs.Finishing.{map_at}
use capstone_backend.World.{World, Replay, SessionDoc, live, ◌>>=◌}
use capstone_backend.State.Frame.{session_at}
use capstone_backend.Admission.{admit}

-- what an idempotency key stands for, as a reader sees it
abbrev pub replay_at : World → ℕ → ℕ → Option Replay
replay_at w sid id = live w.now (w.replays sid id)

module _ (cfg : Settings) (sid : ℕ) (d : MapDoc) (job : JobDoc) (key_id hash : ℕ) (w : World) where
  -- An admission that is refused leaves every live map, every live job and every live idempotency
  -- key as it was.
  pub admit_refused :
      is_ok (admit cfg sid d job key_id hash w).0 ≡ false
      → (s i : ℕ)
      → (map_at (admit cfg sid d job key_id hash w).1 s i ≡ map_at w s i)
        × (job_at (admit cfg sid d job key_id hash w).1 s i ≡ job_at w s i)
        × (replay_at (admit cfg sid d job key_id hash w).1 s i ≡ replay_at w s i)
  unfolding admit ◌>>=◌
  admit_refused h s i = (ground arith, ground arith, ground arith)

  pub now-admit : (admit cfg sid d job key_id hash w).1.now ≡ w.now
  unfolding admit ◌>>=◌
  now-admit = ground arith

  -- what an admission needs, and what it stores
  pub admit_stored :
      (admit cfg sid d job key_id hash w).0 ≡ ok tt
      → let w' = (admit cfg sid d job key_id hash w).1 in
        (old : MapDoc) × (s : SessionDoc) × (map_at w sid job.map_id ≡ some old)
        × (old.revision ≡ job.source_map_revision)
        × (map_at w' sid job.map_id ≡ some (record d { revision = job.accepted_map_revision }))
        × (job_at w' sid job.job_id ≡ some job)
        × (replay_at w' sid key_id ≡ some (record { request_hash = hash; job_id = job.job_id }))
        × (session_at w' sid
            ≡ some (record s { job_index = insert job.job_id (some job.expires_at) s.job_index }))
  unfolding admit ◌>>=◌
  admit_stored done = elim (Option-cases (map_at w sid job.map_id)) [
    | inl gone ↦ absurd (ground arith)
    | inr (old, there) ↦ elim (Option-cases (session_at w sid)) [
      | inl gone ↦ absurd (ground arith)
      | inr (s, found) ↦ (
        old,
        s,
        there,
        ground arith,
        ground (arith, ==_refl sid, ==_refl job.map_id),
        ground (arith, ==_refl sid, ==_refl job.job_id),
        ground (arith, ==_refl sid, ==_refl key_id),
        ground (arith, ==_refl sid),
      )
    ]
  ]

  -- the other jobs are as they were
  pub admit_other_jobs :
      (s i : ℕ)
      → (i == job.job_id) ≡ false
      → job_at (admit cfg sid d job key_id hash w).1 s i ≡ job_at w s i
  unfolding admit ◌>>=◌
  admit_other_jobs s i apart = ground arith

  pub ids-admit : (admit cfg sid d job key_id hash w).1.next_uuid ≡ w.next_uuid
  unfolding admit ◌>>=◌
  ids-admit = ground arith

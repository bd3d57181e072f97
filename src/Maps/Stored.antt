-- ===== src/Maps/Stored.antt =====
-- The steps of app/v2/state.py and app/v2/reports.py that write maps.
use capstone_backend.Prelude.{
  ℕ, zero, suc, ◌-◌, ◌≡◌, refl, false, not, ◌||◌, Option, none, some, List, arith, ◌==◌, if_split,
  lookup,
}
use capstone_backend.Errors.{
  OnOk, fail, resource_expired, resource_not_found, map_revision_conflict, session_expired,
  has_code,
}
use capstone_backend.Settings.{Settings}
use capstone_backend.Newsmap.Data.{MapDoc}
use capstone_backend.Newsmap.WellFormed.{IsWellFormed}
use capstone_backend.Jobs.Data.{JobStatus, Warning, Outcome}
use capstone_backend.Jobs.Doc.{JobDoc, JobError}
use capstone_backend.Jobs.Steps.{
  finish_loop, detached_map, is_active_job, is_completed, save_job, finished,
}
use capstone_backend.World.{World, Exec, SessionDoc, ◌>>=◌, clock, catch, pure, raise}
use capstone_backend.State.{get_map, put_job, cas_map, put_map, session, map_resource, require_base}
use capstone_backend.Maps.Keeping.{
  Any, IsSound, Keeps, bind-Keeps, pure-Keeps, raise-Keeps, same-Keeps, clock-Keeps, catch-Keeps,
  option-Keeps, result-Keeps, session-Keeps, get_map-Keeps, put_map-Keeps,
}

require_base-maps : (sid : ℕ) (w : World) → (require_base sid w).1.maps ≡ w.maps
unfolding require_base ◌>>=◌
require_base-maps sid w = ground arith

pub require_base-Keeps : (cfg : Settings) (sid : ℕ) → Keeps cfg Any (require_base sid)
require_base-Keeps cfg sid = same-Keeps cfg (require_base sid) (require_base-maps sid)

-- the map and the job that `_finish` writes together
abbrev write_both : ℕ → ℕ → ℕ → MapDoc → ℕ → JobDoc → Exec (Unit {0})
write_both sid id expected d ttl job = do _ ← cas_map sid id expected d ttl; save_job sid job

module _ (cfg : Settings) where
  pub cas_map-Keeps :
      (sid id expected : ℕ) (d : MapDoc) (ttl : ℕ)
      → IsWellFormed cfg d
      → Keeps cfg (IsWellFormed cfg) (cas_map sid id expected d ttl)
  unfolding cas_map require_base
  cas_map-Keeps sid id expected d ttl h =
      bind-Keeps cfg Any _ (require_base sid) _ (require_base-Keeps cfg sid) (λ u q.
        bind-Keeps cfg (IsSound cfg) _ (get_map sid id) _ (get_map-Keeps cfg sid id) (λ found r.
          option-Keeps cfg Any (IsWellFormed cfg) found _ _ tt (raise-Keeps cfg _ _) (λ old _.
            if_split (Keeps cfg (IsWellFormed cfg)) (old.revision == expected)
              (λ _.
                bind-Keeps cfg Any _ (put_map sid id d ttl) _ (put_map-Keeps cfg sid id d ttl h)
                  (λ u q. pure-Keeps cfg _ d h))
              (λ _. raise-Keeps cfg _ _))))

  found_or_gone-Keeps :
      (found : Option MapDoc) (o : Option (Option ℕ))
      → IsSound cfg found
      → Keeps cfg (IsWellFormed cfg) (elim found [
        | some d ↦ pure d
        | none ↦ elim o [
          | some _ ↦ raise (fail 410 resource_expired)
          | none ↦ raise (fail 404 resource_not_found)
        ]
      ])
  found_or_gone-Keeps none none q = raise-Keeps cfg _ _
  found_or_gone-Keeps none (some _) q = raise-Keeps cfg _ _
  found_or_gone-Keeps (some d) o q = pure-Keeps cfg _ d q

  pub map_resource-Keeps : (sid id : ℕ) → Keeps cfg (IsWellFormed cfg) (map_resource cfg sid id)
  unfolding map_resource
  map_resource-Keeps sid id =
      bind-Keeps cfg Any _ (session cfg sid false) _ (session-Keeps cfg sid) (λ s q.
        bind-Keeps cfg (IsSound cfg) _ (get_map sid id) _ (get_map-Keeps cfg sid id)
          (λ found r. found_or_gone-Keeps found (lookup id s.map_index) r))

  detached_map-IsWellFormed :
      (s : Option SessionDoc) (status : JobStatus) (result : Option Outcome) (d : MapDoc)
      → IsWellFormed cfg d
      → IsWellFormed cfg (detached_map s status result d)
  detached_map-IsWellFormed s status result d h =
      if_split (IsWellFormed cfg) (is_completed status)
        (λ _. record {
          tree = h.tree;
          size = h.size;
          selected = h.selected;
          detail = h.detail;
          known = h.known;
          start = h.start;
        })
        (λ _. record {
          tree = h.tree;
          size = h.size;
          selected = h.selected;
          detail = h.detail;
          known = h.known;
          start = h.start;
        })

  pub save_job-Keeps : (sid : ℕ) (job : JobDoc) → Keeps cfg Any (save_job sid job)
  unfolding save_job put_job
  save_job-Keeps sid job = same-Keeps cfg (save_job sid job) (λ w. refl)

  write_both-Keeps :
      (sid id expected : ℕ) (d : MapDoc) (ttl : ℕ) (job : JobDoc)
      → IsWellFormed cfg d
      → Keeps cfg Any (write_both sid id expected d ttl job)
  write_both-Keeps sid id expected d ttl job h =
      bind-Keeps cfg (IsWellFormed cfg) _ (cas_map sid id expected d ttl) _
        (cas_map-Keeps sid id expected d ttl h) (λ _ _. save_job-Keeps sid job)

  pub finish_loop-Keeps :
      (rounds sid : ℕ) (job : JobDoc) (s : Option SessionDoc) (found : Option MapDoc)
      (status : JobStatus) (result : Option Outcome) (warnings : List Warning)
      (error : Option JobError)
      → IsSound cfg found
      → Keeps cfg Any (finish_loop rounds sid job s found status result warnings error)
  unfolding finish_loop
  finish_loop-Keeps zero sid job s found status result warnings error q = raise-Keeps cfg _ _
  finish_loop-Keeps (suc rounds) sid job s none status result warnings error q =
      pure-Keeps cfg _ _ tt
  finish_loop-Keeps (suc rounds) sid job s (some d) status result warnings error q =
      if_split (Keeps cfg Any) (not (is_active_job job.job_id (some d)))
        (λ _. pure-Keeps cfg _ _ tt)
        (λ _. bind-Keeps cfg Any _ clock _ (clock-Keeps cfg) (λ now _.
          let d' = detached_map s status result d in
          let job' = finished now status result warnings error job in
          let write = write_both sid job.map_id d.revision d' (d'.expires_at - now) job' in
          bind-Keeps cfg (OnOk Any) _ (catch write) _
            (catch-Keeps cfg Any write (
              write_both-Keeps sid job.map_id d.revision d' (d'.expires_at - now) job'
                (detached_map-IsWellFormed s status result d q)))
            (λ written r.
              result-Keeps cfg Any Any written _ _ tt (λ _ _. pure-Keeps cfg _ _ tt)
                (λ e.
                  if_split (Keeps cfg Any) (has_code map_revision_conflict e)
                    (λ _.
                      bind-Keeps cfg (IsSound cfg) _ (get_map sid job.map_id) _
                        (get_map-Keeps cfg sid job.map_id)
                        (λ again fresh.
                          finish_loop-Keeps rounds sid job s again status result warnings error
                            fresh))
                    (λ _.
                      if_split (Keeps cfg Any)
                        (has_code session_expired e || has_code resource_expired e)
                        (λ _. pure-Keeps cfg _ _ tt) (λ _. raise-Keeps cfg _ _))))))

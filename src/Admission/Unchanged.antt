-- ===== src/Admission/Unchanged.antt =====
-- Steps of a request that leave every live map, job and idempotency key as they were
-- (app/api/v2/report_jobs.py).
use capstone_backend.Prelude.{
  ℕ, ◌≤◌, ◌≡◌, refl, ◌∙◌, true, false, none, some, Option, lookup, arith,
}
use capstone_backend.Errors.{Result, ok, err, is_ok, fail, resource_expired, resource_not_found}
use capstone_backend.Settings.{Settings}
use capstone_backend.Quota.{QuotaRequest}
use capstone_backend.Newsmap.Data.{MapDoc}
use capstone_backend.Jobs.Claims.{job_at}
use capstone_backend.Jobs.Finishing.{map_at}
use capstone_backend.World.{World, Exec, SessionDoc, lift, pure, raise, continue, ◌>>=◌}
use capstone_backend.State.{session, get_map, map_resource}
use capstone_backend.Maps.{load_map}
use capstone_backend.Admission.{check_quota}
use capstone_backend.Admission.Commit.{replay_at}

-- two worlds in which a reader sees the same maps, jobs and idempotency keys; ids may be drawn
pub record SameLive (w w' : World) : Type 0 where
  pub now : w'.now ≡ w.now
  pub maps : (s i : ℕ) → map_at w' s i ≡ map_at w s i
  pub jobs : (s i : ℕ) → job_at w' s i ≡ job_at w s i
  pub replays : (s i : ℕ) → replay_at w' s i ≡ replay_at w s i
  pub ids : w.next_uuid ≤ w'.next_uuid

pub SameLive-refl : (w : World) → SameLive w w
SameLive-refl w = record {
  now = refl;
  maps = λ s i. refl;
  jobs = λ s i. refl;
  replays = λ s i. refl;
  ids = omega arith;
}

pub SameLive-trans : (u v w : World) → SameLive u v → SameLive v w → SameLive u w
SameLive-trans u v w a b = record {
  now = b.now ∙ a.now;
  maps = λ s i. b.maps s i ∙ a.maps s i;
  jobs = λ s i. b.jobs s i ∙ a.jobs s i;
  replays = λ s i. b.replays s i ∙ a.replays s i;
  ids = omega (arith, a.ids, b.ids);
}

module _ {A B : Type 0} where
  continue_refused :
      (w w' : World) (r : Result A) (f : A → Exec B)
      → SameLive w w'
      → ((a : A) → r ≡ ok a → is_ok (f a w').0 ≡ false → SameLive w' (f a w').1)
      → is_ok (continue r f w').0 ≡ false
      → SameLive w (continue r f w').1
  continue_refused w w' (ok a) f same h refused =
      SameLive-trans w w' (f a w').1 same (h a refl refused)
  continue_refused w w' (err e) f same h refused = same

  -- a step that only reads, before steps that change nothing when they are refused
  pub bind_refused :
      (m : Exec A) (f : A → Exec B) (w : World)
      → SameLive w (m w).1
      → ((a : A)
          → (m w).0 ≡ ok a
          → is_ok (f a (m w).1).0 ≡ false
          → SameLive (m w).1 (f a (m w).1).1)
      → is_ok ((m >>= f) w).0 ≡ false
      → SameLive w ((m >>= f) w).1
  unfolding ◌>>=◌
  bind_refused m f w same h refused = continue_refused w (m w).1 (m w).0 f same h refused

module _ {A B : Type 0} where
  continue_same :
      (w w' : World) (r : Result A) (f : A → Exec B)
      → SameLive w w'
      → ((a : A) (v : World) → SameLive v (f a v).1)
      → SameLive w (continue r f w').1
  continue_same w w' (ok a) f same h = SameLive-trans w w' (f a w').1 same (h a w')
  continue_same w w' (err e) f same h = same

  bind_same :
      (m : Exec A) (f : A → Exec B) (w : World)
      → SameLive w (m w).1
      → ((a : A) (v : World) → SameLive v (f a v).1)
      → SameLive w ((m >>= f) w).1
  unfolding ◌>>=◌
  bind_same m f w same h = continue_same w (m w).1 (m w).0 f same h

  continue_last :
      (w w' : World) (r : Result A) (f : A → Exec B)
      → (is_ok r ≡ false → SameLive w w')
      → ((a : A) (v : World) → is_ok (f a v).0 ≡ true)
      → is_ok (continue r f w').0 ≡ false
      → SameLive w (continue r f w').1
  continue_last w w' (ok a) f same done refused = absurd (cc (done a w', refused))
  continue_last w w' (err e) f same done refused = same refl

  -- a step that changes nothing when it is refused, before steps that are never refused
  pub bind_last :
      (m : Exec A) (f : A → Exec B) (w : World)
      → (is_ok (m w).0 ≡ false → SameLive w (m w).1)
      → ((a : A) (v : World) → is_ok (f a v).0 ≡ true)
      → is_ok ((m >>= f) w).0 ≡ false
      → SameLive w ((m >>= f) w).1
  unfolding ◌>>=◌
  bind_last m f w same done refused = continue_last w (m w).1 (m w).0 f same done refused

pub lift-SameLive : {A : Type 0} (r : Result A) (w : World) → SameLive w (lift r w).1
unfolding lift
lift-SameLive r w = SameLive-refl w

session-SameLive : (cfg : Settings) (sid : ℕ) (w : World) → SameLive w (session cfg sid false w).1
unfolding session ◌>>=◌
session-SameLive cfg sid w = record {
  now = ground arith;
  maps = λ s i. ground arith;
  jobs = λ s i. ground arith;
  replays = λ s i. ground arith;
  ids = ground arith;
}

get_map-SameLive : (sid id : ℕ) (w : World) → SameLive w (get_map sid id w).1
unfolding get_map
get_map-SameLive sid id w = record {
  now = refl;
  maps = λ s i. ground arith;
  jobs = λ s i. refl;
  replays = λ s i. refl;
  ids = omega arith;
}

found_or_gone-SameLive :
    (id : ℕ) (s : SessionDoc) (found : Option MapDoc) (w : World)
    → SameLive w
        ((elim found as (λ x. Exec MapDoc) [
          | some d ↦ pure d
          | none ↦ elim (lookup id s.map_index) as (λ x. Exec MapDoc) [
            | some _ ↦ raise (fail 410 resource_expired)
            | none ↦ raise (fail 404 resource_not_found)
          ]
        ])
          w).1
unfolding raise pure
found_or_gone-SameLive id s (some d) w = SameLive-refl w
found_or_gone-SameLive id s none w =
    elim (lookup id s.map_index)
      as (λ o.
        SameLive w
          ((elim o as (λ x. Exec MapDoc) [
            | some _ ↦ raise (fail 410 resource_expired)
            | none ↦ raise (fail 404 resource_not_found)
          ])
            w).1) [ none ↦ SameLive-refl w | some _ ↦ SameLive-refl w ]

pub load_map-SameLive :
    (cfg : Settings) (sid id : ℕ) (w : World) → SameLive w (load_map cfg sid id w).1
unfolding load_map map_resource pure
load_map-SameLive cfg sid id w =
    bind_same _ _ w
      (bind_same _ _ w (session-SameLive cfg sid w) (λ s v.
        bind_same _ _ v (get_map-SameLive sid id v)
          (λ found u. found_or_gone-SameLive id s found u)))
      (λ d v. bind_same _ _ v (session-SameLive cfg sid v) (λ s u. SameLive-refl u))

pub check_quota-SameLive :
    (client_key : Option ℕ → ℕ) (r : QuotaRequest) (w : World)
    → SameLive w (check_quota client_key r w).1
unfolding check_quota
check_quota-SameLive client_key r w = record {
  now = refl;
  maps = λ s i. refl;
  jobs = λ s i. refl;
  replays = λ s i. refl;
  ids = omega arith;
}

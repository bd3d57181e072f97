-- ===== src/State/Frame.antt =====
-- What the operations of app/v2/state.py leave alone.
use capstone_backend.Prelude.{ℕ, ◌≡◌, refl, false, Option, arith}
use capstone_backend.Errors.{Result, ok, err}
use capstone_backend.Settings.{Settings}
use capstone_backend.World.{World, Exec, SessionDoc, live, ◌>>=◌, continue}
use capstone_backend.State.{session}

-- the session document, as a reader sees it
abbrev pub session_at : World → ℕ → Option SessionDoc
session_at w sid = live w.now (w.sessions sid 0)

-- two worlds at one instant with the same maps, jobs and grants
pub record SameDocs (w w' : World) : Type 0 where
  pub now : w'.now ≡ w.now
  pub maps : w'.maps ≡ w.maps
  pub jobs : w'.jobs ≡ w.jobs
  pub access : w'.access ≡ w.access

-- A session that is only read leaves the instant, the maps, the jobs and the grants as they were.
pub session-SameDocs :
    (cfg : Settings) (sid : ℕ) (w : World) → SameDocs w (session cfg sid false w).1
unfolding session ◌>>=◌
session-SameDocs cfg sid w = record {
  now = ground arith;
  maps = ground arith;
  jobs = ground arith;
  access = ground arith;
}

-- what an `await` that returned came from
continue_ok :
    {A B : Type 0} (r : Result A) (w : World) (f : A → Exec B) (b : B)
    → (continue r f w).0 ≡ ok b
    → (a : A) × (r ≡ ok a) × ((f a w).0 ≡ ok b) × ((continue r f w).1 ≡ (f a w).1)
continue_ok (ok a) w f b h = (a, refl, h, refl)
continue_ok (err e) w f b h = absurd (cc)

pub bind_ok :
    {A B : Type 0} (m : Exec A) (f : A → Exec B) (w : World) (b : B)
    → ((m >>= f) w).0 ≡ ok b
    → (a : A) × ((m w).0 ≡ ok a) × ((f a (m w).1).0 ≡ ok b) × (((m >>= f) w).1 ≡ (f a (m w).1).1)
unfolding ◌>>=◌
bind_ok m f w b h = continue_ok (m w).0 (m w).1 f b h

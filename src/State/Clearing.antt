-- ===== src/State/Clearing.antt =====
-- `clear_session` of app/v2/state.py in memory mode.
use capstone_backend.Prelude.{
  ℕ, ◌≡◌, ◌≢◌, refl, ◌∙◌, Option, none, some, List, [], ◌∷◌, ◌==◌, lookup, Bool-cases, Option-cases,
  inl, inr, ==_refl, arith,
}
use capstone_backend.Errors.{ok}
use capstone_backend.World.{World, Exec, Table, SessionDoc, live, with_key, ◌>>=◌}
use capstone_backend.State.{get_session}

-- `delete` of the keys of one index
unfoldable pub delete_all {ℓ} : {V : Type ℓ} → ℕ → List (ℕ × Option ℕ) → Table V → Table V
unfolding with_key
delete_all sid [] t = t
delete_all sid ((id, none) ∷ rest) t = delete_all sid rest t
delete_all sid ((id, some e) ∷ rest) t = delete_all sid rest (with_key t sid id none)

-- the deletions, for the document that was found
abbrev cleared : ℕ → Option SessionDoc → World → World
cleared sid none w = record w { sessions = with_key w.sessions sid 0 none }
cleared sid (some d) w = record w {
  sessions = with_key w.sessions sid 0 none;
  maps = delete_all sid d.map_index w.maps;
  jobs = delete_all sid d.job_index w.jobs;
  access = delete_all sid d.result_index w.access;
}

unfoldable pub clear_session : ℕ → Exec (Unit {0})
unfolding get_session delete_all with_key
clear_session sid = do found ← get_session sid; λ w. (ok tt, cleared sid found w)

delete_all-none {ℓ} :
    {V : Type ℓ} (sid id : ℕ) (index : List (ℕ × Option ℕ)) (t : Table V)
    → t sid id ≡ none
    → delete_all sid index t sid id ≡ none
unfolding delete_all with_key
delete_all-none sid id [] t h = h
delete_all-none sid id ((k, none) ∷ rest) t h = delete_all-none sid id rest t h
delete_all-none sid id ((k, some e) ∷ rest) t h =
    delete_all-none sid id rest (with_key t sid k none) (ground arith)

delete_all_listed {ℓ} :
    {V : Type ℓ} (sid id e : ℕ) (index : List (ℕ × Option ℕ)) (t : Table V)
    → lookup id index ≡ some (some e)
    → delete_all sid index t sid id ≡ none
unfolding delete_all with_key
delete_all_listed sid id e [] t h = absurd (cc)
delete_all_listed sid id e ((k, none) ∷ rest) t h = delete_all_listed sid id e rest t (ground arith)
delete_all_listed sid id e ((k, some x) ∷ rest) t h = elim (Bool-cases (id == k)) [
  | inl same ↦ delete_all-none sid id rest (with_key t sid k none) (ground (arith, ==_refl sid))
  | inr other ↦ delete_all_listed sid id e rest (with_key t sid k none) (ground arith)
]

delete_all_other {ℓ} :
    {V : Type ℓ} (sid s i : ℕ) (index : List (ℕ × Option ℕ)) (t : Table V)
    → s ≢ sid
    → delete_all sid index t s i ≡ t s i
unfolding delete_all with_key
delete_all_other sid s i [] t h = refl
delete_all_other sid s i ((k, none) ∷ rest) t h = delete_all_other sid s i rest t h
delete_all_other sid s i ((k, some e) ∷ rest) t h =
    delete_all_other sid s i rest (with_key t sid k none) h ∙ ground arith

-- Clearing a session deletes its document, and each map that its index lists as live.
pub clear_session_maps :
    (sid id e : ℕ) (w : World) (d : SessionDoc)
    → live w.now (w.sessions sid 0) ≡ some d
    → lookup id d.map_index ≡ some (some e)
    → let w' = (clear_session sid w).1 in (w'.sessions sid 0 ≡ none) × (w'.maps sid id ≡ none)
unfolding clear_session ◌>>=◌
clear_session_maps sid id e w d at listed = (
  ground (arith, ==_refl sid),
  ground (arith, delete_all_listed sid id e d.map_index w.maps listed),
)

-- Clearing a session leaves the maps and jobs of every other session as they are stored.
pub clear_session_others :
    (sid s i : ℕ) (w : World)
    → s ≢ sid
    → let w' = (clear_session sid w).1 in (w'.maps s i ≡ w.maps s i) × (w'.jobs s i ≡ w.jobs s i)
unfolding clear_session ◌>>=◌
clear_session_others sid s i w other = elim (Option-cases (live w.now (w.sessions sid 0))) [
  | inl gone ↦ (ground arith, ground arith)
  | inr (d, there) ↦ (
    ground (arith, delete_all_other sid s i d.map_index w.maps other),
    ground (arith, delete_all_other sid s i d.job_index w.jobs other),
  )
]

-- ===== src/Maps/Revisions.antt =====
-- Optimistic revisions: `check_revision` and the compare-and-set of `commit_map` (app/v2/maps.py,
-- app/v2/state.py).
use capstone_backend.Prelude.{
  ℕ, ◌+◌, ◌-◌, ◌≡◌, refl, sym, ap, ◌∙◌, inl, inr, false, Option, some, arith, ◌==◌, Option-cases,
}
use capstone_backend.Errors.{Result, ok, err, is_ok}
use capstone_backend.Clock.{ticks, whole_ttl}
use capstone_backend.Settings.{Settings}
use capstone_backend.Newsmap.Data.{MapDoc}
use capstone_backend.World.{World, Exec, SessionDoc, ◌>>=◌, ◌>>◌, continue, clock}
use capstone_backend.State.{session, cas_map}
use capstone_backend.Newsmap.Data.{Builder}
use capstone_backend.Newsmap.Edit.{branch_finish, removed_nodes}
use capstone_backend.World.{lift, pure}
use capstone_backend.Maps.{
  branch_search, branch_commit, BranchRequest, commit_map, next_revision, commit_and_cancel,
  cancel_detached, branch_map, meanwhile,
}
use capstone_backend.State.Frame.{session-SameDocs, bind_ok}
use capstone_backend.Jobs.Finishing.{map_at}

stale_cas :
    (sid id expected : ℕ) (d : MapDoc) (ttl : ℕ) (w : World) (old : MapDoc)
    → map_at w sid id ≡ some old
    → (old.revision == expected) ≡ false
    → let r = cas_map sid id expected d ttl w in
      (is_ok r.0 ≡ false) × ((s i : ℕ) → map_at r.1 s i ≡ map_at w s i)
unfolding cas_map ◌>>=◌
stale_cas sid id expected d ttl w old at other = (ground arith, λ s i. ground arith)

cas_stored :
    (sid id expected : ℕ) (d v : MapDoc) (ttl : ℕ) (w : World)
    → (cas_map sid id expected d ttl w).0 ≡ ok v
    → (old : MapDoc) × (map_at w sid id ≡ some old)
      × (old.revision ≡ expected)
      × (v ≡ d)
      × ((cas_map sid id expected d ttl w).1.maps sid id
          ≡ some (record { expires = w.now + ticks (whole_ttl ttl); value = d }))
unfolding cas_map ◌>>=◌
cas_stored sid id expected d v ttl w done = elim (Option-cases (map_at w sid id)) [
  | inl gone ↦ absurd (ground arith)
  | inr (old, there) ↦ (old, there, ground arith, ground arith, ground arith)
]

at_maps :
    (w w' : World) → w'.maps ≡ w.maps → w'.now ≡ w.now → (s i : ℕ) → map_at w' s i ≡ map_at w s i
at_maps w w' m n s i = rw (m, n)

-- what `commit_map` does with the session
abbrev write_next : Settings → ℕ → ℕ → MapDoc → SessionDoc → Exec MapDoc
write_next cfg sid expected d s = do
  now ← clock
  cas_map sid d.map_id expected (next_revision cfg d expected s) (s.expires_at - now)

stale_continue :
    (cfg : Settings) (sid expected : ℕ) (d old : MapDoc) (w : World)
    → map_at w sid d.map_id ≡ some old
    → (old.revision == expected) ≡ false
    → (r : Result SessionDoc) (w' : World) → ((s i : ℕ) → map_at w' s i ≡ map_at w s i)
    → let end = continue r (write_next cfg sid expected d) w' in
      (is_ok end.0 ≡ false) × ((s i : ℕ) → map_at end.1 s i ≡ map_at w s i)
unfolding ◌>>=◌ clock
stale_continue cfg sid expected d old w at other (err e) w' same = (refl, same)
stale_continue cfg sid expected d old w at other (ok s) w' same =
    let (no_value, kept) =
      stale_cas sid d.map_id expected (next_revision cfg d expected s) (s.expires_at - w'.now) w'
        old (same sid d.map_id ∙ at) other in
    (no_value, λ s' i. kept s' i ∙ same s' i)

-- A commit whose expected revision is not the stored one raises, and every live map is as it was.
pub commit_map_stale :
    (cfg : Settings) (sid expected : ℕ) (d old : MapDoc) (w : World)
    → map_at w sid d.map_id ≡ some old
    → (old.revision == expected) ≡ false
    → let r = commit_map cfg sid d expected w in
      (is_ok r.0 ≡ false) × ((s i : ℕ) → map_at r.1 s i ≡ map_at w s i)
unfolding commit_map ◌>>=◌ clock
commit_map_stale cfg sid expected d old w at other =
    let f = session-SameDocs cfg sid w in
    let same = at_maps w (session cfg sid false w).1 f.maps f.now in
    stale_continue cfg sid expected d old w at other (session cfg sid false w).0
      (session cfg sid false w).1 same

pub commit_map_stored :
    (cfg : Settings) (sid expected : ℕ) (d v : MapDoc) (w : World)
    → (commit_map cfg sid d expected w).0 ≡ ok v
    → (old : MapDoc) × (map_at w sid d.map_id ≡ some old)
      × (old.revision ≡ expected)
      × (v.revision ≡ expected + 1)
      × (v.map_id ≡ d.map_id)
      × (v.nodes ≡ d.nodes)
      × (expires : ℕ) × ((commit_map cfg sid d expected w).1.maps sid d.map_id
          ≡ some (record { expires = expires; value = v }))
unfolding commit_map next_revision clock
commit_map_stored cfg sid expected d v w done =
    let f = session-SameDocs cfg sid w in
    let (s, alive, wrote, end) =
      bind_ok (session cfg sid false) (write_next cfg sid expected d) w v done in
    let w1 = (session cfg sid false w).1 in
    let (now, read, cas, end') =
      bind_ok clock
        (λ now. cas_map sid d.map_id expected (next_revision cfg d expected s) (s.expires_at - now))
        w1 v wrote in
    let (old, there, right, same, kept) =
      cas_stored sid d.map_id expected (next_revision cfg d expected s) v (s.expires_at - now) w1
        cas in
    (
      old,
      sym (at_maps w w1 f.maps f.now sid d.map_id) ∙ there,
      right,
      ap (λ (x : MapDoc). x.revision) same,
      ap (λ (x : MapDoc). x.map_id) same,
      ap (λ (x : MapDoc). x.nodes) same,
      w1.now + ticks (whole_ttl (s.expires_at - now)),
      cc,
    )

committed :
    (cfg : Settings) (sid expected : ℕ) (d v : MapDoc) (old_job : Option ℕ) (w : World)
    → (commit_and_cancel cfg sid expected (d, old_job) w).0 ≡ ok v
    → (old : MapDoc) × (map_at w sid v.map_id ≡ some old)
      × (old.revision ≡ expected)
      × (v.revision ≡ expected + 1)
unfolding pure
committed cfg sid expected d v old_job w done =
    let (stored, wrote, ended, _) =
      bind_ok (commit_map cfg sid d expected)
        (λ stored. cancel_detached cfg sid old_job >> pure stored) w v done in
    let (u, _, returned, _) =
      bind_ok (cancel_detached cfg sid old_job) (λ _. pure stored)
        (commit_map cfg sid d expected w).1 v ended in
    let (old, there, right, next, id, _, _, _) =
      commit_map_stored cfg sid expected d stored w wrote in
    let same : stored ≡ v = cc in
    (
      old,
      ap (λ (x : MapDoc). map_at w sid x.map_id) (sym same) ∙ ap (λ i. map_at w sid i) id ∙ there,
      right,
      ap (λ (x : MapDoc). x.revision) (sym same) ∙ next,
    )

-- A `branch_map` that returns a map never overwrote a newer one: in the world that the other
-- requests made of the one where its search ended, the stored map still had the revision that the
-- request named; the returned map has the next one.
pub branch_map_no_lost_update :
    (cfg : Settings) (build : Builder) (others : World → World) (sid id : ℕ) (body : BranchRequest)
    (v : MapDoc) (w : World)
    → (branch_map cfg build others sid id body w).0 ≡ ok v
    → (old : MapDoc) × (map_at (others (branch_search cfg build sid id body w).1) sid v.map_id
        ≡ some old)
      × (old.revision ≡ body.expected_revision)
      × (v.revision ≡ body.expected_revision + 1)
unfolding branch_map branch_commit meanwhile lift
branch_map_no_lost_update cfg build others sid id body v w done =
    let (f, _, h1, _) = bind_ok (branch_search cfg build sid id body) _ w v done in
    let (_, _, h2, _) = bind_ok (meanwhile others) _ _ v h1 in
    let removed = removed_nodes f.doc body.parent_node_id body.mode in
    let (changed, _, h3, _) =
      bind_ok (lift (branch_finish cfg f.doc f.parent removed f.items f.attempt f.history)) _ _ v
        h2 in
    committed cfg sid body.expected_revision changed.0 v changed.1
      (others (branch_search cfg build sid id body w).1) h3

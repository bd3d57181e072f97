-- ===== src/Examples/Requests.antt =====
-- Runs of the map requests of app/v2/maps.py.
use capstone_backend.Prelude.{
  ℕ, lookup, true, ◌⊎◌, ◌+◌, ◌≡◌, ◌&&◌, ◌==◌, if◌then◌else◌, refl, false, none, some, [], ◌∷◌,
  if_split,
}
use capstone_backend.Errors.{Result, ok, err, OnOk, is_ok, fail, resource_expired, session_expired}
use capstone_backend.Budget.{empty_ledgers}
use capstone_backend.Clock.{ticks}
use capstone_backend.Session.{Entry, existing}
use capstone_backend.Newsmap.Data.{MapDoc}
use capstone_backend.Newsmap.Edit.{MapUpdate, given, absent, research}
use capstone_backend.Newsmap.WellFormed.{IsWellFormed}
use capstone_backend.Newsmap.Edit.{history_of, shown_articles}
use capstone_backend.Newsmap.Descendants.{descendants}
use capstone_backend.State.{map_resource, session, get_map, cas_map}
use capstone_backend.World.{◌>>=◌, World, Table, SessionDoc}
use capstone_backend.Newsmap.Create.{with_snapshot, plant, blank}
use capstone_backend.Maps.{
  branch_search, BranchRequest, update_map, branch_map, reset_map, commit_map,
}
use capstone_backend.Maps.Keeping.{AllWellFormed, IsSoundEntry}
use capstone_backend.Maps.Invariant.{
  update_map-AllWellFormed, branch_map-AllWellFormed, reset_map-AllWellFormed,
}
use capstone_backend.State.{tombstone_map, save_live_session}
use capstone_backend.State.Script.{
  save_session_run, saved_result, IsExtended, IsSaved, save_live_session-save_session_script,
  Started, IsWritten, cas_result, cas_run, cas_map-cas_script,
}
use capstone_backend.Maps.Revisions.{commit_map_stale, branch_map_no_lost_update}
use capstone_backend.State.Frame.{session_at}
use capstone_backend.Maps.Deleting.{tombstone_map-map_resource}
use capstone_backend.Jobs.Finishing.{map_at}
use capstone_backend.Examples.{cfg, one_more}
use capstone_backend.Examples.Documents.{two_nodes, two_nodes-IsWellFormed}

abbrev pub entry : Entry
entry = record {
  expires = ticks 100;
  payload = record {
    sid = 8;
    created_at = 0;
    mindmap = record { center_news_id = 0; expanded_news_ids = []; query = 0 };
    viewed_news_ids = [];
  };
}

abbrev pub session_doc : SessionDoc
session_doc = record {
  session_epoch = 70;
  created_at = 0;
  expires_at = ticks 100;
  paid = false;
  map_index = (3, some (ticks 100)) ∷ [];
  job_index = (6, some (ticks 100)) ∷ [];
  result_index = [];
}

abbrev pub only {ℓ} : {V : Type ℓ} → ℕ → ℕ → V → Table V
only s i v s' i' =
    if s' == s && i' == i then some (record { expires = ticks 100; value = v }) else none

-- second 50: session 8 has the map 3
abbrev pub world : World
world = record {
  now = ticks 50;
  next_uuid = 90;
  base = λ s. if s == 8 then some entry else none;
  sessions = only 8 0 session_doc;
  maps = only 8 3 two_nodes;
  jobs = λ s i. none;
  access = λ s i. none;
  replays = λ s i. none;
  buckets = λ k. none;
  ledgers = empty_ledgers;
  saved = record { news_bodies = []; reports = []; strategies = [] };
}

world-AllWellFormed : AllWellFormed cfg world.maps
world-AllWellFormed s i =
    if_split (IsSoundEntry cfg) (s == 8 && i == 3) (λ _. two_nodes-IsWellFormed) (λ _. tt)

abbrev patch : MapUpdate
patch = record {
  expected_revision = 1;
  selected_news_ids = given (11 ∷ []);
  detail_news_id = given 21;
  report_panel_open = absent;
}

update_map-AllWellFormed_example :
    let r = update_map cfg 8 3 patch world in
    AllWellFormed cfg r.1.maps × OnOk (IsWellFormed cfg) r.0
update_map-AllWellFormed_example = update_map-AllWellFormed cfg world world-AllWellFormed 8 3 patch

abbrev branching : BranchRequest
branching = record { expected_revision = 1; parent_node_id = 1; mode = research }

-- others draw ids
abbrev drawing : World → World
drawing w = record w { next_uuid = w.next_uuid + 5 }

branch_map-AllWellFormed_example :
    let r = branch_map cfg one_more drawing 8 3 branching world in
    AllWellFormed cfg r.1.maps × OnOk (IsWellFormed cfg) r.0
branch_map-AllWellFormed_example =
    branch_map-AllWellFormed cfg world world-AllWellFormed one_more drawing 8 3 branching (λ w k. k)

reset_map-AllWellFormed_example :
    let r = reset_map cfg 8 3 1 world in AllWellFormed cfg r.1.maps × OnOk (IsWellFormed cfg) r.0
reset_map-AllWellFormed_example = reset_map-AllWellFormed cfg world world-AllWellFormed 8 3 1

deletes : (tombstone_map cfg 8 3 world).0 ≡ ok tt
unfolding tombstone_map ◌>>=◌ existing with_snapshot plant blank
deletes = refl

tombstone_map-map_resource_example :
    let w' = (tombstone_map cfg 8 3 world).1 in
    (old : MapDoc) × (t : SessionDoc) × (map_at world 8 3 ≡ some old)
    × (map_at w' 8 3 ≡ none)
    × ((o i : ℕ) → (o == 8 && i == 3) ≡ false → map_at w' o i ≡ map_at world o i)
    × (session_at w' 8 ≡ some t)
    × (lookup 3 t.map_index ≡ some none)
    × (((map_resource cfg 8 3 w').0 ≡ err (fail 410 resource_expired))
        ⊎ ((map_resource cfg 8 3 w').0 ≡ err (fail 410 session_expired)))
tombstone_map-map_resource_example = tombstone_map-map_resource cfg 8 3 world deletes

stored_there : map_at world 8 two_nodes.map_id ≡ some two_nodes
unfolding with_snapshot plant blank
stored_there = refl

other_revision : (two_nodes.revision == 2) ≡ false
unfolding with_snapshot plant blank
other_revision = refl

commit_map_stale_example :
    let r = commit_map cfg 8 two_nodes 2 world in
    (is_ok r.0 ≡ false) × ((s i : ℕ) → map_at r.1 s i ≡ map_at world s i)
commit_map_stale_example =
    commit_map_stale cfg 8 2 two_nodes two_nodes world stored_there other_revision

started : Started (map_at world 8 two_nodes.map_id)
unfolding with_snapshot plant blank
started = refl

cas_map-cas_script_example :
    let r = cas_map 8 two_nodes.map_id 2 two_nodes (ticks 90) world in
    let (reply, written) = cas_run 8 two_nodes.map_id 2 two_nodes (ticks 90) world in
    (r.0 ≡ cas_result two_nodes reply) × IsWritten world r.1 8 two_nodes.map_id written
cas_map-cas_script_example =
    cas_map-cas_script 8 two_nodes.map_id 2 two_nodes (ticks 90) world started

save_live_session-save_session_script_example :
    let r = save_live_session cfg 8 session_doc true world in
    let (reply, extended, written) = save_session_run cfg 8 session_doc true world in
    (r.0 ≡ saved_result reply) × IsExtended world r.1 8 extended × IsSaved world r.1 8 written
save_live_session-save_session_script_example =
    save_live_session-save_session_script cfg 8 session_doc world true

abbrev returned : Result MapDoc → MapDoc
returned (ok d) = d
returned (err e) = two_nodes

abbrev committed : MapDoc
committed = returned (commit_map cfg 8 two_nodes 1 world).0

abbrev branched : MapDoc
branched = returned (branch_map cfg one_more drawing 8 3 branching world).0

branches : (branch_map cfg one_more drawing 8 3 branching world).0 ≡ ok branched
unfolding branch_map ◌>>=◌ map_resource session existing get_map with_snapshot plant blank
    history_of shown_articles descendants cas_map
branches = refl

branch_map_no_lost_update_example :
    (old : MapDoc) × (map_at
        (drawing (branch_search cfg one_more 8 3 branching world).1)
        8
        branched.map_id
      ≡ some old)
    × (old.revision ≡ 1)
    × (branched.revision ≡ 1 + 1)
branch_map_no_lost_update_example =
    branch_map_no_lost_update cfg one_more drawing 8 3 branching branched world branches

-- ===== src/Maps.antt =====
-- The map requests of app/v2/maps.py. A request runs at one instant; only while `branch_map`
-- awaits its search do other requests run, and `others` is what they do to the world.
pub mod Deleting
pub mod Keeping
pub mod Stored
pub mod Ending
pub mod Handlers
pub mod Revisions
pub mod Invariant
use capstone_backend.Prelude.{
  ℕ, ◌+◌, ◌-◌, ◌||◌, true, false, Option, none, some, List, [], ◌∷◌, if◌then◌else◌, leb,
}
use capstone_backend.Errors.{
  Result, ok, err, fail, invalid_request, session_map_limit_reached, has_status,
}
use capstone_backend.Settings.{Settings}
use capstone_backend.Newsmap.Data.{
  Article, Node, Selection, History, MapDoc, Builder, check_revision,
}
use capstone_backend.Newsmap.Edit.{
  Field, absent, null, given, MapUpdate, check_selected, apply_selected, apply_detail, apply_panel,
  Mode, branch_parent, history_of, removed_nodes, branch_attempt, branch_finish,
}
use capstone_backend.Newsmap.Restore.{restore}
use capstone_backend.Newsmap.Create.{Page, blank, first_document}
use capstone_backend.Jobs.Steps.{cancel_job}
use capstone_backend.World.{
  World, Exec, SessionDoc, pure, raise, lift, ◌>>=◌, ◌>>◌, clock, uuid4, catch,
}
use capstone_backend.State.{
  session, map_resource, cas_map, tombstone_map, put_map, register_map, get_map,
}

-- `BranchRequest`
pub record BranchRequest : Type 0 where
  pub expected_revision : ℕ
  pub parent_node_id : ℕ
  pub mode : Mode

-- what `branch_map` knows when its search is done
pub record Searched : Type 0 where
  pub doc : MapDoc
  pub parent : Node
  pub items : List Article
  pub attempt : Selection
  pub history : History

-- what other requests do
unfoldable pub meanwhile : (World → World) → Exec (Unit {0})
meanwhile others w = (ok tt, others w)

-- `len([rid for rid in await state.keys(sid, 'map') if await state.get(...)])`, over the index
unfoldable pub count_live : ℕ → List (ℕ × Option ℕ) → Exec ℕ
unfolding get_map
count_live sid [] = pure 0
count_live sid ((id, none) ∷ rest) = count_live sid rest
count_live sid ((id, some e) ∷ rest) = do
  found ← get_map sid id
  n ← count_live sid rest
  pure (elim found [ none ↦ n | some _ ↦ n + 1 ])

module _ (cfg : Settings) where
  unfoldable pub load_map : ℕ → ℕ → Exec MapDoc
  load_map sid map_id = do
    d ← map_resource cfg sid map_id
    s ← session cfg sid false
    pure (record d { expires_at = s.expires_at })

  -- the document that `commit_map` writes
  unfoldable pub next_revision : MapDoc → ℕ → SessionDoc → MapDoc
  next_revision d expected s = record d { revision = expected + 1; expires_at = s.expires_at }

  unfoldable pub commit_map : ℕ → MapDoc → ℕ → Exec MapDoc
  unfolding next_revision
  commit_map sid d expected = do
    s ← session cfg sid false
    now ← clock
    cas_map sid d.map_id expected (next_revision d expected s) (s.expires_at - now)

  unfoldable pub cancel_detached : ℕ → Option ℕ → Exec (Unit {0})
  cancel_detached sid none = pure tt
  cancel_detached sid (some job_id) = do
    r ← catch (cancel_job cfg sid job_id)
    elim r [
      | ok _ ↦ pure tt
      | err e ↦ if has_status 404 e || has_status 410 e then pure tt else raise e
    ]

  -- the commit of a changed document, and the end of the job that it detaches
  abbrev pub commit_and_cancel : ℕ → ℕ → MapDoc × Option ℕ → Exec MapDoc
  commit_and_cancel sid expected (d, old_job) = do
    stored ← commit_map sid d expected
    cancel_detached sid old_job
    pure stored

  -- `if 'selected_news_ids' in fields:`
  unfoldable pub change_selected : ℕ → Field (List ℕ) → MapDoc → Exec (MapDoc × Option ℕ)
  unfolding check_selected apply_selected
  change_selected sid absent d = pure (d, none)
  change_selected sid null d = raise (fail 422 invalid_request)
  change_selected sid (given selected) d = do
    lift (check_selected d selected)
    s ← session cfg sid false
    lift (apply_selected s.paid d selected)

  unfoldable pub update_map : ℕ → ℕ → MapUpdate → Exec MapDoc
  unfolding load_map check_revision change_selected apply_detail apply_panel commit_map
      cancel_detached
  update_map sid map_id body = do
    d ← load_map sid map_id
    lift (check_revision d body.expected_revision)
    selected ← change_selected sid body.selected_news_ids d
    detailed ← lift (apply_detail body.detail_news_id selected.0)
    paneled ← lift (apply_panel body.report_panel_open detailed)
    commit_and_cancel sid body.expected_revision (paneled, selected.1)

  -- `branch_map` up to the end of its search
  unfoldable pub branch_search : Builder → ℕ → ℕ → BranchRequest → Exec Searched
  unfolding load_map check_revision branch_parent branch_attempt
  branch_search build sid map_id body = do
    d ← load_map sid map_id
    lift (check_revision d body.expected_revision)
    parent ← lift (branch_parent cfg d body.parent_node_id body.mode)
    tried ← lift (branch_attempt cfg build d parent (history_of d parent.node_id))
    pure
        (record { doc = d; parent = parent; items = tried.0; attempt = tried.1; history = tried.2 })

  -- the rest of `branch_map`
  unfoldable pub branch_commit : ℕ → BranchRequest → Searched → Exec MapDoc
  unfolding branch_finish commit_map cancel_detached
  branch_commit sid body f = do
    changed ← lift (
        branch_finish cfg f.doc f.parent (removed_nodes f.doc body.parent_node_id body.mode) f.items
          f.attempt f.history)
    commit_and_cancel sid body.expected_revision changed

  unfoldable pub branch_map : Builder → (World → World) → ℕ → ℕ → BranchRequest → Exec MapDoc
  unfolding branch_search branch_commit meanwhile
  branch_map build others sid map_id body = do
    f ← branch_search build sid map_id body
    meanwhile others
    branch_commit sid body f

  unfoldable pub reset_map : ℕ → ℕ → ℕ → Exec MapDoc
  unfolding load_map check_revision restore commit_map cancel_detached
  reset_map sid map_id expected = do
    d ← load_map sid map_id
    lift (check_revision d expected)
    changed ← lift (restore d)
    commit_and_cancel sid expected changed

  unfoldable pub delete_map : ℕ → ℕ → Exec (Unit {0})
  unfolding load_map tombstone_map cancel_detached
  delete_map sid map_id = do
    d ← load_map sid map_id
    tombstone_map cfg sid map_id
    cancel_detached sid d.active_report_job_id

  -- `page` is what the search and the inspection of its articles give
  unfoldable pub create_map : Builder → (World → World) → ℕ → ℕ → ℕ → ℕ → Result Page → Exec MapDoc
  unfolding blank first_document put_map register_map uuid4 clock meanwhile count_live
  create_map build others sid query observed selector searched = do
    s ← session cfg sid true
    indexed ← session cfg sid false
    alive ← count_live sid indexed.map_index
    if leb cfg.v2_max_maps alive then raise (fail 422 session_map_limit_reached) else (do
      page ← lift searched
      id ← uuid4
      d ←
          lift (
            first_document build (blank id query s.expires_at observed selector page) page.articles)
      meanwhile others
      latest ← session cfg sid false
      now ← clock
      let stored = record d { expires_at = latest.expires_at }
      put_map sid id stored (latest.expires_at - now)
      register_map cfg sid id latest.expires_at
      pure stored)

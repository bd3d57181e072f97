-- ===== src/Maps/Handlers.antt =====
-- The map requests of app/v2/maps.py and the invariant of the stored maps.
use capstone_backend.Prelude.{
  ℕ, ◌≡◌, refl, false, ◌||◌, Option, none, some, List, if_split, lookup, insert,
}
use capstone_backend.Errors.{Result, ok, err, OnOk, fail, resource_expired, has_status}
use capstone_backend.Settings.{Settings}
use capstone_backend.Newsmap.Data.{Node, MapDoc, Builder, check_revision}
use capstone_backend.Newsmap.Edit.{
  Field, absent, null, given, MapUpdate, check_selected, apply_detail, apply_panel, branch_parent,
  history_of, removed_nodes, branch_attempt, branch_finish,
}
use capstone_backend.Newsmap.Restore.{restore}
use capstone_backend.Newsmap.WellFormed.{IsWellFormed}
use capstone_backend.Newsmap.WellFormed.Selecting.{
  apply_selected-IsWellFormed, apply_detail-IsWellFormed, apply_panel-IsWellFormed,
}
use capstone_backend.Newsmap.WellFormed.Branching.{branch_finish-IsWellFormed}
use capstone_backend.Newsmap.WellFormed.Restoring.{restore_lem}
use capstone_backend.Jobs.Steps.{cancel_job}
use capstone_backend.World.{World, SessionDoc, ◌>>◌, clock, catch, raise, lift}
use capstone_backend.State.{
  session, map_resource, tombstone_map, require_base, get_session, get_map, delete_map_key,
  save_live_session, expired_session,
}
use capstone_backend.Maps.{
  Searched, branch_search, branch_commit, BranchRequest, meanwhile, load_map, next_revision,
  commit_map, cancel_detached, commit_and_cancel, change_selected, update_map, branch_map,
  reset_map, delete_map,
}
use capstone_backend.Maps.Keeping.{
  AllWellFormed, Any, IsSound, Keeps, bind-Keeps, pure-Keeps, raise-Keeps, clock-Keeps, lift-Keeps,
  OnOk-Any, catch-Keeps, option-Keeps, result-Keeps, session-Keeps, get_map-Keeps,
  delete_map_key-Keeps,
}
use capstone_backend.Maps.Stored.{cas_map-Keeps, map_resource-Keeps, require_base-Keeps}
use capstone_backend.Maps.Ending.{cancel_job-Keeps, get_session-Keeps, save_live_session-Keeps}

-- what other requests do keeps the stored maps well-formed
abbrev pub IsPolite : Settings → (World → World) → Type 0
IsPolite cfg others = (w : World) → AllWellFormed cfg w.maps → AllWellFormed cfg (others w).maps

module _ (cfg : Settings) where
  load_map-Keeps : (sid id : ℕ) → Keeps cfg (IsWellFormed cfg) (load_map cfg sid id)
  unfolding load_map
  load_map-Keeps sid id =
      bind-Keeps cfg (IsWellFormed cfg) _ (map_resource cfg sid id) _
        (map_resource-Keeps cfg sid id)
        (λ d h. bind-Keeps cfg Any _ (session cfg sid false) _ (session-Keeps cfg sid) (λ s _.
          pure-Keeps cfg _ _ (record {
            tree = h.tree;
            size = h.size;
            selected = h.selected;
            detail = h.detail;
            known = h.known;
            start = h.start;
          })))

  commit_map-Keeps :
      (sid : ℕ) (d : MapDoc) (expected : ℕ)
      → IsWellFormed cfg d
      → Keeps cfg (IsWellFormed cfg) (commit_map cfg sid d expected)
  unfolding commit_map next_revision
  commit_map-Keeps sid d expected h =
      bind-Keeps cfg Any _ (session cfg sid false) _ (session-Keeps cfg sid) (λ s _.
        bind-Keeps cfg Any _ clock _ (clock-Keeps cfg) (λ now _.
          cas_map-Keeps cfg sid d.map_id expected _ _ (record {
            tree = h.tree;
            size = h.size;
            selected = h.selected;
            detail = h.detail;
            known = h.known;
            start = h.start;
          })))

  cancel_detached-Keeps : (sid : ℕ) (old : Option ℕ) → Keeps cfg Any (cancel_detached cfg sid old)
  unfolding cancel_detached
  cancel_detached-Keeps sid none = pure-Keeps cfg _ _ tt
  cancel_detached-Keeps sid (some id) =
      bind-Keeps cfg (OnOk Any) _ (catch (cancel_job cfg sid id)) _
        (catch-Keeps cfg Any _ (cancel_job-Keeps cfg sid id))
        (λ r _.
          result-Keeps cfg Any Any r _ _ tt (λ _ _. pure-Keeps cfg _ _ tt)
            (λ e.
              if_split (Keeps cfg Any) (has_status 404 e || has_status 410 e)
                (λ _. pure-Keeps cfg _ _ tt) (λ _. raise-Keeps cfg _ _)))

  commit_and_cancel-Keeps :
      (sid expected : ℕ) (d : MapDoc) (old : Option ℕ)
      → IsWellFormed cfg d
      → Keeps cfg (IsWellFormed cfg) (commit_and_cancel cfg sid expected (d, old))
  commit_and_cancel-Keeps sid expected d old h =
      bind-Keeps cfg (IsWellFormed cfg) _ (commit_map cfg sid d expected) _
        (commit_map-Keeps sid d expected h)
        (λ stored q.
          bind-Keeps cfg Any _ (cancel_detached cfg sid old) _ (cancel_detached-Keeps sid old)
            (λ _ _. pure-Keeps cfg _ stored q))

  restore-OnOk : (d : MapDoc) → IsWellFormed cfg d → OnOk (λ c. IsWellFormed cfg c.0) (restore d)
  restore-OnOk d h = let (d', e, q, _, _, _, _, _, _, _) = restore_lem cfg d h in rw e q

  pub reset_map-Keeps :
      (sid id expected : ℕ) → Keeps cfg (IsWellFormed cfg) (reset_map cfg sid id expected)
  unfolding reset_map
  reset_map-Keeps sid id expected =
      bind-Keeps cfg (IsWellFormed cfg) _ (load_map cfg sid id) _ (load_map-Keeps sid id) (λ d h.
        bind-Keeps cfg Any _ (lift (check_revision d expected)) _
          (lift-Keeps cfg Any _ (OnOk-Any cfg _))
          (λ _ _.
            bind-Keeps cfg (λ (c : MapDoc × Option ℕ). IsWellFormed cfg c.0) _ (lift (restore d)) _
              (lift-Keeps cfg _ _ (restore-OnOk d h))
              (λ c q. commit_and_cancel-Keeps sid expected c.0 c.1 q)))

  -- what a result is equal to
  OnOk-self : {A : Type 0} (r : Result A) → OnOk (λ a. r ≡ ok a) r
  OnOk-self (ok a) = refl
  OnOk-self (err e) = tt

  change_selected-Keeps :
      (sid : ℕ) (f : Field (List ℕ)) (d : MapDoc)
      → IsWellFormed cfg d
      → Keeps cfg (λ c. IsWellFormed cfg c.0) (change_selected cfg sid f d)
  unfolding change_selected
  change_selected-Keeps sid absent d h = pure-Keeps cfg _ _ h
  change_selected-Keeps sid null d h = raise-Keeps cfg _ _
  change_selected-Keeps sid (given selected) d h =
      bind-Keeps cfg (λ u. check_selected d selected ≡ ok u) _ (lift (check_selected d selected)) _
        (lift-Keeps cfg _ _ (OnOk-self (check_selected d selected)))
        (λ u checked.
          bind-Keeps cfg Any _ (session cfg sid false) _ (session-Keeps cfg sid) (λ s _.
            lift-Keeps cfg _ _ (apply_selected-IsWellFormed cfg d h s.paid selected checked)))

  pub update_map-Keeps :
      (sid id : ℕ) (body : MapUpdate) → Keeps cfg (IsWellFormed cfg) (update_map cfg sid id body)
  unfolding update_map
  update_map-Keeps sid id body =
      bind-Keeps cfg (IsWellFormed cfg) _ (load_map cfg sid id) _ (load_map-Keeps sid id) (λ d h.
        bind-Keeps cfg Any _ (lift (check_revision d body.expected_revision)) _
          (lift-Keeps cfg Any _ (OnOk-Any cfg _))
          (λ _ _.
            bind-Keeps cfg (λ (c : MapDoc × Option ℕ). IsWellFormed cfg c.0) _
              (change_selected cfg sid body.selected_news_ids d) _
              (change_selected-Keeps sid body.selected_news_ids d h)
              (λ c q.
                bind-Keeps cfg (IsWellFormed cfg) _ (lift (apply_detail body.detail_news_id c.0)) _
                  (lift-Keeps cfg _ _ (apply_detail-IsWellFormed cfg c.0 q body.detail_news_id))
                  (λ d2 h2.
                    bind-Keeps cfg (IsWellFormed cfg) _
                      (lift (apply_panel body.report_panel_open d2)) _
                      (lift-Keeps cfg _ _
                        (apply_panel-IsWellFormed cfg d2 h2 body.report_panel_open))
                      (λ d3 h3. commit_and_cancel-Keeps sid body.expected_revision d3 c.1 h3)))))

  meanwhile-Keeps :
      (others : World → World) → IsPolite cfg others → Keeps cfg Any (meanwhile others)
  unfolding meanwhile
  meanwhile-Keeps others p w k = (p w k, tt)

  branch_search-Keeps :
      (build : Builder) (sid id : ℕ) (body : BranchRequest)
      → Keeps cfg
          (λ f.
            IsWellFormed cfg f.doc
            × (branch_parent cfg f.doc body.parent_node_id body.mode ≡ ok f.parent))
          (branch_search cfg build sid id body)
  unfolding branch_search
  branch_search-Keeps build sid id body =
      bind-Keeps cfg (IsWellFormed cfg) _ (load_map cfg sid id) _ (load_map-Keeps sid id) (λ d h.
        bind-Keeps cfg Any _ (lift (check_revision d body.expected_revision)) _
          (lift-Keeps cfg Any _ (OnOk-Any cfg _))
          (λ _ _.
            bind-Keeps cfg (λ (n : Node). branch_parent cfg d body.parent_node_id body.mode ≡ ok n)
              _ (lift (branch_parent cfg d body.parent_node_id body.mode)) _
              (lift-Keeps cfg _ _ (OnOk-self (branch_parent cfg d body.parent_node_id body.mode)))
              (λ parent found.
                bind-Keeps cfg Any _
                  (lift (branch_attempt cfg build d parent (history_of d parent.node_id))) _
                  (lift-Keeps cfg Any _ (OnOk-Any cfg _))
                  (λ tried _. pure-Keeps cfg _ _ (h, found)))))

  branch_commit-Keeps :
      (sid : ℕ) (body : BranchRequest) (f : Searched)
      → IsWellFormed cfg f.doc
      → branch_parent cfg f.doc body.parent_node_id body.mode ≡ ok f.parent
      → Keeps cfg (IsWellFormed cfg) (branch_commit cfg sid body f)
  unfolding branch_commit
  branch_commit-Keeps sid body f h found =
      let removed = removed_nodes f.doc body.parent_node_id body.mode in
      bind-Keeps cfg (λ (c : MapDoc × Option ℕ). IsWellFormed cfg c.0) _
        (lift (branch_finish cfg f.doc f.parent removed f.items f.attempt f.history)) _
        (lift-Keeps cfg _ _ (
          branch_finish-IsWellFormed cfg f.doc body.parent_node_id body.mode f.parent f.history
            f.items f.attempt h found))
        (λ c q. commit_and_cancel-Keeps sid body.expected_revision c.0 c.1 q)

  pub branch_map-Keeps :
      (build : Builder) (others : World → World) (sid id : ℕ) (body : BranchRequest)
      → IsPolite cfg others
      → Keeps cfg (IsWellFormed cfg) (branch_map cfg build others sid id body)
  unfolding branch_map
  branch_map-Keeps build others sid id body p =
      bind-Keeps cfg
        (λ f.
          IsWellFormed cfg f.doc
          × (branch_parent cfg f.doc body.parent_node_id body.mode ≡ ok f.parent))
        _ (branch_search cfg build sid id body) _ (branch_search-Keeps build sid id body)
        (λ f h.
          bind-Keeps cfg Any _ (meanwhile others) _ (meanwhile-Keeps others p)
            (λ _ _. branch_commit-Keeps sid body f h.0 h.1))

  remember-Keeps :
      (sid id : ℕ) (s : SessionDoc) (o : Option (Option ℕ))
      → Keeps cfg {A = Unit {0}} Any (elim o [
        | some (some _) ↦ do
          delete_map_key sid id
          save_live_session cfg sid (record s { map_index = insert id none s.map_index }) false
        | _ ↦ raise (fail 410 resource_expired)
      ])
  remember-Keeps sid id s none = raise-Keeps cfg _ _
  remember-Keeps sid id s (some none) = raise-Keeps cfg _ _
  remember-Keeps sid id s (some (some _)) =
      bind-Keeps cfg Any _ (delete_map_key sid id) _ (delete_map_key-Keeps cfg sid id)
        (λ _ _. save_live_session-Keeps cfg sid _ false)

  tombstone_map-Keeps : (sid id : ℕ) → Keeps cfg Any (tombstone_map cfg sid id)
  unfolding tombstone_map expired_session
  tombstone_map-Keeps sid id =
      bind-Keeps cfg Any _ (require_base sid) _ (require_base-Keeps cfg sid) (λ _ _.
        bind-Keeps cfg Any _ (get_session sid) _ (get_session-Keeps cfg sid) (λ found _.
          option-Keeps cfg Any Any found _ _ tt (raise-Keeps cfg _ _) (λ s _.
            bind-Keeps cfg (IsSound cfg) _ (get_map sid id) _ (get_map-Keeps cfg sid id)
              (λ stored _.
                option-Keeps cfg Any Any stored _ _ tt (raise-Keeps cfg _ _)
                  (λ _ _. remember-Keeps sid id s (lookup id s.map_index))))))

  pub delete_map-Keeps : (sid id : ℕ) → Keeps cfg Any (delete_map cfg sid id)
  unfolding delete_map
  delete_map-Keeps sid id =
      bind-Keeps cfg (IsWellFormed cfg) _ (load_map cfg sid id) _ (load_map-Keeps sid id) (λ d _.
        bind-Keeps cfg Any _ (tombstone_map cfg sid id) _ (tombstone_map-Keeps sid id)
          (λ _ _. cancel_detached-Keeps sid d.active_report_job_id))

-- ===== src/Maps/Invariant.antt =====
-- The map requests of app/v2/maps.py keep the stored maps well-formed.
use capstone_backend.Prelude.{ℕ}
use capstone_backend.Errors.{OnOk}
use capstone_backend.Settings.{Settings}
use capstone_backend.Newsmap.Data.{Builder}
use capstone_backend.Newsmap.Edit.{MapUpdate}
use capstone_backend.Newsmap.WellFormed.{IsWellFormed}
use capstone_backend.World.{World}
use capstone_backend.Maps.{BranchRequest, update_map, branch_map, reset_map, delete_map}
use capstone_backend.Maps.Keeping.{AllWellFormed}
use capstone_backend.Maps.Handlers.{
  IsPolite, update_map-Keeps, branch_map-Keeps, reset_map-Keeps, delete_map-Keeps,
}

module _ (cfg : Settings) (w : World) (k : AllWellFormed cfg w.maps) where
  -- Whatever `update_map` returns or raises, the maps that it leaves in the store are well-formed
  -- if those that it found were, and so is the map that it returns.
  pub update_map-AllWellFormed :
      (sid id : ℕ) (body : MapUpdate)
      → let r = update_map cfg sid id body w in
        AllWellFormed cfg r.1.maps × OnOk (IsWellFormed cfg) r.0
  update_map-AllWellFormed sid id body = update_map-Keeps cfg sid id body w k

  -- Whatever `branch_map` returns or raises, the maps that it leaves in the store are well-formed
  -- if those that it found were and the requests that run while it awaits its search keep them so;
  -- and so is the map that it returns.
  pub branch_map-AllWellFormed :
      (build : Builder) (others : World → World) (sid id : ℕ) (body : BranchRequest)
      → IsPolite cfg others
      → let r = branch_map cfg build others sid id body w in
        AllWellFormed cfg r.1.maps × OnOk (IsWellFormed cfg) r.0
  branch_map-AllWellFormed build others sid id body polite =
      branch_map-Keeps cfg build others sid id body polite w k

  -- Whatever `reset_map` returns or raises, the maps that it leaves in the store are well-formed if
  -- those that it found were, and so is the map that it returns.
  pub reset_map-AllWellFormed :
      (sid id expected : ℕ)
      → let r = reset_map cfg sid id expected w in
        AllWellFormed cfg r.1.maps × OnOk (IsWellFormed cfg) r.0
  reset_map-AllWellFormed sid id expected = reset_map-Keeps cfg sid id expected w k

  -- Whatever `delete_map` does, with the cancellation of the report job that it detaches, the maps
  -- that it leaves in the store are well-formed if those that it found were.
  pub delete_map-AllWellFormed : (sid id : ℕ) → AllWellFormed cfg (delete_map cfg sid id w).1.maps
  delete_map-AllWellFormed sid id = (delete_map-Keeps cfg sid id w k).0

-- ===== src/Session.antt =====
-- app/session.py: cookie sessions and the mind map that they hold, in the local memory store
-- (`_client()` is None and `session_store_required` is false). Strings are opaque numbers, and 0
-- is the empty string.
pub mod Tidy
pub mod Revocation
use capstone_backend.Prelude.{
  ℕ, zero, suc, ◌+◌, ◌≤◌, ◌<◌, Bool, true, false, not, ◌&&◌, Option, none, some, List, [], ◌∷◌,
  ◌++◌, ltb, leb, ◌==◌, if◌then◌else◌, elem, length,
}
use capstone_backend.Errors.{Error, Result, ok, err, session_gone, store_unavailable}
use capstone_backend.Clock.{ticks}

pub record Mindmap : Type 0 where
  pub center_news_id : ℕ
  pub expanded_news_ids : List ℕ
  pub query : ℕ

pub record Payload : Type 0 where
  pub sid : ℕ
  pub created_at : ℕ
  pub mindmap : Mindmap
  pub viewed_news_ids : List ℕ

pub record Entry : Type 0 where
  pub expires : ℕ
  pub payload : Payload

-- `_memory_store`
abbrev pub Store : Type 0
Store = ℕ → Option Entry

abbrev pub no_sessions : Store
no_sessions = λ _. none

abbrev pub empty_mindmap : Mindmap
empty_mindmap = record { center_news_id = 0; expanded_news_ids = []; query = 0 }

unfoldable pub empty : ℕ → ℕ → Payload
empty now sid = record {
  sid = sid;
  created_at = now;
  mindmap = empty_mindmap;
  viewed_news_ids = [];
}

abbrev drop_expired : ℕ → Option Entry → Option Entry
drop_expired now none = none
drop_expired now (some e) = if ltb e.expires now then none else some e

-- `_prune_memory`
unfoldable pub prune : ℕ → Store → Store
prune now store s = drop_expired now (store s)

abbrev payload_of : Option Entry → Option Payload
payload_of none = none
payload_of (some e) = some e.payload

unfoldable pub existing : ℕ → ℕ → Store → Option Payload × Store
unfolding prune
existing now sid store = let pruned = prune now store in (payload_of (pruned sid), pruned)

abbrev or_empty : ℕ → ℕ → Option Payload → Payload
or_empty now sid none = empty now sid
or_empty now sid (some d) = d

unfoldable pub load : ℕ → ℕ → Store → Payload × Store
unfolding existing empty
load now sid store =
    if sid == 0
    then (empty now 0, store)
    else let (found, pruned) = existing now sid store in (or_empty now sid found, pruned)

abbrev pub is_present {ℓ} : {A : Type ℓ} → Option A → Bool
is_present none = false
is_present (some _) = true

unfoldable pub put : ℕ → Entry → Store → Store
put sid e store s = if s == sid then some e else store s

unfoldable pub save : ℕ → ℕ → ℕ → Payload → Bool → Store → Result (Unit {0}) × Store
unfolding prune put
save ttl now sid d create store =
    if sid == 0
    then (ok tt, store)
    else let pruned = prune now store in
      if create && is_present (pruned sid)
      then (err store_unavailable, pruned)
      else if not create && not (is_present (pruned sid))
      then (err session_gone, pruned)
      else (ok tt, put sid (record { expires = now + ticks ttl; payload = d }) pruned)

unfoldable pub clear : ℕ → Store → Store
clear sid store s = if sid == 0 then store s else if s == sid then none else store s

-- `del xs[:-n]`
unfoldable pub keep_last : ℕ → List ℕ → List ℕ
keep_last n [] = []
keep_last n (x ∷ xs) = if ltb (length xs) n then x ∷ xs else keep_last n xs

-- append a new id and forget the oldest beyond `n`
abbrev remember : ℕ → ℕ → List ℕ → List ℕ
remember n id xs = if not (id == 0) && not (elem id xs) then keep_last n (xs ++ id ∷ []) else xs

-- `expanded.remove(news_id)`
unfoldable pub remove : ℕ → List ℕ → List ℕ
remove id [] = []
remove id (x ∷ xs) = if x == id then xs else x ∷ remove id xs

-- the changes that the mind-map operations make between `load` and `save`
unfoldable pub center_at : ℕ → ℕ → Payload → Payload
unfolding keep_last
center_at news_id query d =
    let m =
      if d.mindmap.center_news_id == news_id
      then d.mindmap
      else record d.mindmap { center_news_id = news_id; expanded_news_ids = [] } in
    record d {
      mindmap = if query == 0 then m else record m { query = query };
      viewed_news_ids = remember 50 news_id d.viewed_news_ids;
    }

unfoldable pub expand_at : ℕ → Payload → Payload
unfolding keep_last
expand_at news_id d = record d {
  mindmap = record d.mindmap {
    expanded_news_ids = remember 20 news_id d.mindmap.expanded_news_ids;
  };
}

unfoldable pub collapse_at : ℕ → Payload → Payload
unfolding remove
collapse_at news_id d = record d {
  mindmap = record d.mindmap {
    expanded_news_ids =
        if elem news_id d.mindmap.expanded_news_ids
        then remove news_id d.mindmap.expanded_news_ids
        else d.mindmap.expanded_news_ids;
  };
}

unfoldable pub reset_at : Payload → Payload
reset_at d = record d { mindmap = empty_mindmap }

-- load, change, save
unfoldable pub update : ℕ → (Payload → Payload) → ℕ → ℕ → Store → Result Payload × Store
unfolding load save
update ttl change now sid store =
    let (d, loaded) = load now sid store in
    let (saved, after) = save ttl now sid (change d) false loaded in
    (elim saved [ ok _ ↦ ok (change d) | err e ↦ err e ], after)

-- `record_center`, `expand_node`, `collapse_node` and `reset_mindmap`
pub data Operation : Type 0 where
  record_center : ℕ → ℕ → Operation
  expand_node : ℕ → Operation
  collapse_node : ℕ → Operation
  reset_mindmap : Operation

unfoldable pub change_of : Operation → Payload → Payload
unfolding center_at expand_at collapse_at reset_at
change_of (record_center news_id query) = center_at news_id query
change_of (expand_node news_id) = expand_at news_id
change_of (collapse_node news_id) = collapse_at news_id
change_of reset_mindmap = reset_at

unfoldable pub perform : ℕ → Operation → ℕ → ℕ → Store → Result Payload × Store
unfolding update change_of
perform ttl operation now sid store = update ttl (change_of operation) now sid store

-- `issue`, after its quota: `fresh` is the id that `new_session_id` draws
unfoldable pub issue : ℕ → ℕ → ℕ → Store → Result ℕ × Store
unfolding save empty
issue ttl now fresh store =
    let (saved, after) = save ttl now fresh (empty now fresh) true store in
    (elim saved [ ok _ ↦ ok fresh | err e ↦ err e ], after)

-- `resolve`: `well_formed` is the match of `_SID_PATTERN`
unfoldable pub resolve : ℕ → (ℕ → Bool) → ℕ → ℕ → ℕ → Store → Result (ℕ × Bool) × Store
unfolding existing issue
resolve ttl well_formed now candidate fresh store =
    if not (well_formed candidate)
    then (let (issued, after) = issue ttl now fresh store in
        (elim issued [ ok sid ↦ ok (sid, true) | err e ↦ err e ], after))
    else let (found, pruned) = existing now candidate store in
      if is_present found
      then (ok (candidate, false), pruned)
      else (let (issued, after) = issue ttl now fresh pruned in
          (elim issued [ ok sid ↦ ok (sid, true) | err e ↦ err e ], after))

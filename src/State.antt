-- ===== src/State.antt =====
-- app/v2/state.py in memory mode (`memory_enabled()`). Its locks order concurrent requests; a
-- handler runs as one step here, so a lock is always free and does nothing.
pub mod Script
pub mod Frame
pub mod Clearing
use capstone_backend.Prelude.{
  ℕ, zero, suc, ◌+◌, ◌-◌, ◌<◌, Bool, true, false, not, ◌&&◌, Option, none, some, List, [], ◌∷◌, ltb,
  leb, ◌==◌, if◌then◌else◌, lookup, insert,
}
use capstone_backend.Errors.{
  Error, Result, ok, err, fail, fail_detail, session_expired, resource_expired,
  map_revision_conflict, resource_not_found,
}
use capstone_backend.Clock.{ticks, whole_ttl}
use capstone_backend.Settings.{Settings}
use capstone_backend.Session.{Payload, Entry, existing}
use capstone_backend.Newsmap.Data.{MapDoc}
use capstone_backend.Jobs.Doc.{JobDoc}
use capstone_backend.World.{
  Timed, Table, live, unless_over, with_key, SessionDoc, Replay, ResultKind, World, Exec, pure,
  raise, ◌>>=◌, ◌>>◌, clock, uuid4,
}

-- `get`, which drops an entry that is over
unfoldable pub get_session : ℕ → Exec (Option SessionDoc)
unfolding with_key
get_session sid w = (
  ok (live w.now (w.sessions sid 0)),
  record w { sessions = with_key w.sessions sid 0 (unless_over w.now (w.sessions sid 0)) },
)

unfoldable pub get_map : ℕ → ℕ → Exec (Option MapDoc)
unfolding with_key
get_map sid id w = (
  ok (live w.now (w.maps sid id)),
  record w { maps = with_key w.maps sid id (unless_over w.now (w.maps sid id)) },
)

unfoldable pub get_job : ℕ → ℕ → Exec (Option JobDoc)
unfolding with_key
get_job sid id w = (
  ok (live w.now (w.jobs sid id)),
  record w { jobs = with_key w.jobs sid id (unless_over w.now (w.jobs sid id)) },
)

-- `put(key, value, ttl)`, the `ttl` a duration of the clock
unfoldable pub put_map : ℕ → ℕ → MapDoc → ℕ → Exec (Unit {0})
unfolding with_key
put_map sid id d ttl w = (
  ok tt,
  record w {
    maps =
        with_key w.maps sid id
          (some (record { expires = w.now + ticks (whole_ttl ttl); value = d }));
  },
)

unfoldable pub put_job : ℕ → ℕ → JobDoc → ℕ → Exec (Unit {0})
unfolding with_key
put_job sid id d ttl w = (
  ok tt,
  record w {
    jobs =
        with_key w.jobs sid id
          (some (record { expires = w.now + ticks (whole_ttl ttl); value = d }));
  },
)

unfoldable pub put_session : ℕ → SessionDoc → ℕ → Exec (Unit {0})
unfolding with_key
put_session sid d ttl w = (
  ok tt,
  record w {
    sessions =
        with_key w.sessions sid 0
          (some (record { expires = w.now + ticks (whole_ttl ttl); value = d }));
  },
)

unfoldable pub get_replay : ℕ → ℕ → Exec (Option Replay)
unfolding with_key
get_replay sid id w = (
  ok (live w.now (w.replays sid id)),
  record w { replays = with_key w.replays sid id (unless_over w.now (w.replays sid id)) },
)

unfoldable pub put_replay : ℕ → ℕ → Replay → ℕ → Exec (Unit {0})
unfolding with_key
put_replay sid id d ttl w = (
  ok tt,
  record w {
    replays =
        with_key w.replays sid id
          (some (record { expires = w.now + ticks (whole_ttl ttl); value = d }));
  },
)

unfoldable pub delete_map_key : ℕ → ℕ → Exec (Unit {0})
unfolding with_key
delete_map_key sid id w = (ok tt, record w { maps = with_key w.maps sid id none })

-- the entry that `grant_result` writes, until an instant
unfoldable pub put_access : ℕ → ℕ → ResultKind → ℕ → Exec (Unit {0})
unfolding with_key
put_access sid id kind expires_at w = (
  ok tt,
  record w {
    access =
        with_key w.access sid id (
          some (record { expires = w.now + ticks (whole_ttl (expires_at - w.now)); value = kind }));
  },
)

-- `base_session._existing`
unfoldable pub existing_base : ℕ → Exec (Option Payload)
existing_base sid w =
    let (found, base) = existing w.now sid w.base in (ok found, record w { base = base })

unfoldable pub expired_session : {A : Type 0} → Exec A
expired_session = raise (fail 410 session_expired)

unfoldable pub require_base : ℕ → Exec (Unit {0})
unfolding existing_base expired_session
require_base sid = do
  found ← existing_base sid
  elim found [ none ↦ expired_session | some _ ↦ pure tt ]

-- `base_session._memory_store.get(sid, (time.time(), None))[0]`
abbrev base_expiry : ℕ → Option Entry → ℕ
base_expiry now none = now
base_expiry now (some e) = e.expires

module _ (cfg : Settings) where
  -- the document that the first request of a session gets
  unfoldable pub new_session_doc : ℕ → Exec SessionDoc
  unfolding clock uuid4
  new_session_doc sid = do
    id ← uuid4
    λ w. (
      ok (record {
        session_epoch = id;
        created_at = w.now;
        expires_at = base_expiry w.now (w.base sid);
        paid = cfg.paid_tier;
        map_index = [];
        job_index = [];
        result_index = [];
      }),
      w,
    )

  abbrev renewed : ℕ → List (ℕ × Option ℕ) → List (ℕ × Option ℕ)
  renewed expires_at [] = []
  renewed expires_at ((id, none) ∷ rest) = (id, none) ∷ renewed expires_at rest
  renewed expires_at ((id, some e) ∷ rest) = (id, some expires_at) ∷ renewed expires_at rest

  -- `_expire` of one key, and of the keys of an index
  abbrev extended {ℓ} : {V : Type ℓ} → ℕ → Option (Timed V) → Option (Timed V)
  extended now none = none
  extended now (some e) =
      if ltb now e.expires
      then some (record { expires = now + ticks cfg.session_ttl_seconds; value = e.value })
      else some e

  unfoldable pub extend_all {ℓ} : {V : Type ℓ} → ℕ → ℕ → List (ℕ × Option ℕ) → Table V → Table V
  unfolding with_key
  extend_all now sid [] t = t
  extend_all now sid ((id, none) ∷ rest) t = extend_all now sid rest t
  extend_all now sid ((id, some e) ∷ rest) t =
      extend_all now sid rest (with_key t sid id (extended now (t sid id)))

  -- the `if touch:` block
  unfoldable pub touched : Bool → ℕ → SessionDoc → Exec SessionDoc
  unfolding extend_all
  touched false sid data' w = (ok data', w)
  touched true sid data' w =
      let expires_at = w.now + ticks cfg.session_ttl_seconds in
      (
        ok (record data' {
          expires_at = expires_at;
          map_index = renewed expires_at data'.map_index;
          result_index = renewed expires_at data'.result_index;
        }),
        record w {
          maps = extend_all w.now sid data'.map_index w.maps;
          access = extend_all w.now sid data'.result_index w.access;
        },
      )

  -- `_save_live_session`: `entry` is `base_session._memory_store.get(sid)`
  abbrev pub is_live_entry : ℕ → Option Entry → Bool
  is_live_entry now none = false
  is_live_entry now (some e) = ltb now e.expires

  abbrev touched_entry : Bool → ℕ → Option Entry → Option Entry
  touched_entry false now o = o
  touched_entry true now none = none
  touched_entry true now (some e) =
      some (record e { expires = now + ticks cfg.session_ttl_seconds })

  unfoldable pub save_live_session : ℕ → SessionDoc → Bool → Exec (Unit {0})
  unfolding with_key
  save_live_session sid data' touch w =
      if not (is_live_entry w.now (w.base sid)) then (err (fail 410 session_expired), w) else (
        ok tt,
        record w {
          base = λ s. if s == sid then touched_entry touch w.now (w.base sid) else w.base s;
          sessions = with_key w.sessions sid 0 (
              some (record {
                expires = w.now + ticks (whole_ttl (data'.expires_at - w.now));
                value = data';
              }));
        },
      )

  abbrev or_new : ℕ → Option SessionDoc → Exec SessionDoc
  or_new sid none = new_session_doc sid
  or_new sid (some data') = pure data'

  unfoldable pub check_alive : SessionDoc → Exec (Unit {0})
  unfolding expired_session
  check_alive data' w = if leb data'.expires_at w.now then expired_session w else (ok tt, w)

  -- `session(sid, touch)`
  unfoldable pub session : ℕ → Bool → Exec SessionDoc
  unfolding require_base get_session new_session_doc check_alive touched save_live_session
  session sid touch = do
    require_base sid
    found ← get_session sid
    data' ← or_new sid found
    check_alive data'
    renewed_data ← touched touch sid data'
    save_live_session sid renewed_data touch
    pure renewed_data

  -- `resource(sid, 'map', id)`
  unfoldable pub map_resource : ℕ → ℕ → Exec MapDoc
  map_resource sid id = do
    data' ← session sid false
    found ← get_map sid id
    elim found [
      | some d ↦ pure d
      | none ↦ elim (lookup id data'.map_index) [
        | some _ ↦ raise (fail 410 resource_expired)
        | none ↦ raise (fail 404 resource_not_found)
      ]
    ]

  -- `register_resource(sid, 'map', id, expires_at)`
  unfoldable pub register_map : ℕ → ℕ → ℕ → Exec (Unit {0})
  unfolding get_session save_live_session expired_session
  register_map sid id expires_at = do
    _ ← session sid false
    found ← get_session sid
    elim found [
      | none ↦ expired_session
      | some data' ↦
          save_live_session sid
            (record data' { map_index = insert id (some expires_at) data'.map_index }) false
    ]

  -- `grant_result(sid, result_id, kind)`
  unfoldable pub grant_result : ℕ → ℕ → ResultKind → Exec (Unit {0})
  unfolding get_session save_live_session expired_session put_access
  grant_result sid result_id kind = do
    data' ← session sid false
    put_access sid result_id kind (data'.expires_at)
    _ ← session sid false
    found ← get_session sid
    elim found [
      | none ↦ expired_session
      | some latest ↦
          save_live_session sid
            (record latest {
              result_index = insert result_id (some data'.expires_at) latest.result_index;
            })
            false
    ]

  -- `tombstone_map(sid, id)`
  unfoldable pub tombstone_map : ℕ → ℕ → Exec (Unit {0})
  unfolding require_base get_session get_map delete_map_key save_live_session expired_session
  tombstone_map sid id = do
    require_base sid
    found ← get_session sid
    elim found [
      | none ↦ expired_session
      | some data' ↦ do
        stored ← get_map sid id
        elim stored [
          | none ↦ raise (fail 410 resource_expired)
          | some _ ↦ elim (lookup id data'.map_index) [
            | some (some _) ↦ do
              delete_map_key sid id
              save_live_session sid (record data' { map_index = insert id none data'.map_index })
                  false
            | _ ↦ raise (fail 410 resource_expired)
          ]
        ]
    ]

-- `cas(key of the map, expected_revision, value, ttl)`
unfoldable pub cas_map : ℕ → ℕ → ℕ → MapDoc → ℕ → Exec MapDoc
unfolding require_base get_map put_map
cas_map sid id expected value ttl = do
  require_base sid
  found ← get_map sid id
  elim found [
    | none ↦ raise (fail 410 resource_expired)
    | some old ↦
        if old.revision == expected
        then (do put_map sid id value ttl; pure value)
        else raise (fail_detail 409 map_revision_conflict false old.revision)
  ]

-- ===== src/Maps/Deleting.antt =====
-- The deletion of a map (`tombstone_map` and `resource` of app/v2/state.py).
use capstone_backend.Prelude.{
  ℕ, ◌≡◌, ◌⊎◌, ◌&&◌, ◌==◌, inl, inr, false, none, some, lookup, insert, lookup-insert, Option,
  Option-cases, Bool-cases, ==_refl, arith, leb, not,
}
use capstone_backend.Errors.{Result, ok, err, fail, resource_expired, session_expired}
use capstone_backend.Settings.{Settings}
use capstone_backend.Session.{existing}
use capstone_backend.Newsmap.Data.{MapDoc}
use capstone_backend.Jobs.Finishing.{map_at}
use capstone_backend.State.Frame.{session_at, session-SameDocs}
use capstone_backend.World.{World, SessionDoc, ◌>>=◌, continue, Exec}
use capstone_backend.State.{session, map_resource, tombstone_map, get_map, is_live_entry}

module _ (cfg : Settings) (sid id : ℕ) (w : World) where
  tombstone_map_lem :
      (tombstone_map cfg sid id w).0 ≡ ok tt
      → let w' = (tombstone_map cfg sid id w).1 in
        (old : MapDoc) × (s : SessionDoc) × (map_at w sid id ≡ some old)
        × (session_at w sid ≡ some s)
        × (map_at w' sid id ≡ none)
        × (session_at w' sid ≡ some (record s { map_index = insert id none s.map_index }))
        × ((t i : ℕ) → (t == sid && i == id) ≡ false → map_at w' t i ≡ map_at w t i)
  unfolding tombstone_map ◌>>=◌
  tombstone_map_lem passed = elim (Option-cases (map_at w sid id)) [
    | inl gone ↦ absurd (ground arith)
    | inr (old, there) ↦ elim (Option-cases (session_at w sid)) [
      | inl gone ↦ absurd (ground arith)
      | inr (s, at) ↦ (
        old,
        s,
        there,
        at,
        ground (arith, ==_refl sid, ==_refl id),
        ground (arith, ==_refl sid),
        λ t i apart. ground arith,
      )
    ]
  ]

  -- a session that is read, with its document stored, is that document or has expired
  session_read :
      (s : SessionDoc)
      → session_at w sid ≡ some s
      → ((session cfg sid false w).0 ≡ ok s)
        ⊎ ((session cfg sid false w).0 ≡ err (fail 410 session_expired))
  unfolding session ◌>>=◌ existing
  session_read s at =
      elim (Bool-cases (is_live_entry cfg w.now (w.base sid) && not (leb s.expires_at w.now))) [
        | inl alive ↦ inl (ground (arith, at))
        | inr over ↦ inr (ground (arith, at))
      ]

  -- the end of `resource` for a map that is gone and listed
  gone_resource :
      (r : Result SessionDoc) (v : World) (s : SessionDoc) (o : Option ℕ)
      (f : SessionDoc → Exec MapDoc)
      → (r ≡ ok s) ⊎ (r ≡ err (fail 410 session_expired))
      → ((f s v).0 ≡ err (fail 410 resource_expired))
      → ((continue r f v).0 ≡ err (fail 410 resource_expired))
        ⊎ ((continue r f v).0 ≡ err (fail 410 session_expired))
  gone_resource (ok t) v s o f (inl e) gone = inl (ground (arith, e, gone))
  gone_resource (err t) v s o f (inl e) gone = absurd (cc)
  gone_resource (ok t) v s o f (inr e) gone = absurd (cc)
  gone_resource (err t) v s o f (inr e) gone = inr (ground (arith, e))

  listed_resource :
      (s : SessionDoc) (o : Option ℕ)
      → session_at w sid ≡ some s
      → lookup id s.map_index ≡ some o
      → map_at w sid id ≡ none
      → ((map_resource cfg sid id w).0 ≡ err (fail 410 resource_expired))
        ⊎ ((map_resource cfg sid id w).0 ≡ err (fail 410 session_expired))
  unfolding map_resource ◌>>=◌ get_map
  listed_resource s o at listed gone =
      let f = session-SameDocs cfg sid w in
      let there : map_at (session cfg sid false w).1 sid id ≡ none = rw (f.now, f.maps) gone in
      gone_resource (session cfg sid false w).0 (session cfg sid false w).1 s o _
        (session_read s at) (ground (arith, there, listed))

-- A deletion of a map that succeeds deleted a live map of a stored session: no live map is left
-- under its id, every other live map is as it was, and the index of the session marks the map as
-- deleted. A read of it then raises 410, because the map, or the session itself, has expired; it is
-- never a map that was not found.
pub tombstone_map-map_resource :
    (cfg : Settings) (sid id : ℕ) (w : World)
    → (tombstone_map cfg sid id w).0 ≡ ok tt
    → let w' = (tombstone_map cfg sid id w).1 in
      (old : MapDoc) × (t : SessionDoc) × (map_at w sid id ≡ some old)
      × (map_at w' sid id ≡ none)
      × ((o i : ℕ) → (o == sid && i == id) ≡ false → map_at w' o i ≡ map_at w o i)
      × (session_at w' sid ≡ some t)
      × (lookup id t.map_index ≡ some none)
      × (((map_resource cfg sid id w').0 ≡ err (fail 410 resource_expired))
          ⊎ ((map_resource cfg sid id w').0 ≡ err (fail 410 session_expired)))
tombstone_map-map_resource cfg sid id w passed =
    let (old, s, there, at, gone, indexed, others) = tombstone_map_lem cfg sid id w passed in
    let t = record s { map_index = insert id none s.map_index } in
    let listed : lookup id t.map_index ≡ some none =
      ground (arith, lookup-insert id id none s.map_index, ==_refl id) in
    (
      old,
      t,
      there,
      gone,
      others,
      indexed,
      listed,
      listed_resource cfg sid id (tombstone_map cfg sid id w).1 t none indexed listed gone,
    )

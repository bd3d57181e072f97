-- ===== src/State/Script.antt =====
-- The Lua scripts `_CAS` and `_SAVE_SESSION` of app/v2/state.py, which the server runs as one step,
-- and the branches that read their replies. What EXISTS and GET return are arguments, and what a
-- script writes is part of the outcome, so nothing is assumed of the server here.
use capstone_backend.Prelude.{
  ℕ, ◌+◌, ◌-◌, ◌≡◌, refl, ◌==◌, Bool, true, false, not, ◌&&◌, Option, none, some, if◌then◌else◌,
  arith, if_split, ◌∙◌, ltb,
}
use capstone_backend.Errors.{
  Result, ok, err, fail, fail_detail, session_expired, resource_expired, map_revision_conflict,
}
use capstone_backend.Clock.{ticks, whole_ttl}
use capstone_backend.Settings.{Settings}
use capstone_backend.Session.{Entry, Payload, existing, is_present}
use capstone_backend.Newsmap.Data.{MapDoc}
use capstone_backend.World.{World, SessionDoc, ◌>>=◌}
use capstone_backend.State.{cas_map, is_live_entry, save_live_session}
use capstone_backend.Jobs.Finishing.{map_at}

-- an integer reply: minus one, minus two, or a number that is not negative
pub data Reply : Type 0 where
  minus_one : Reply
  minus_two : Reply
  number : ℕ → Reply

-- arguments: EXISTS KEYS[2], GET KEYS[1] and ARGV[1..3]; with the reply, the SET with its EX
unfoldable pub cas_script : Bool → Option MapDoc → ℕ → MapDoc → ℕ → Reply × Option (MapDoc × ℕ)
cas_script false old expected value ttl = (minus_two, none)
cas_script true none expected value ttl = (minus_one, none)
cas_script true (some old) expected value ttl =
    if not (old.revision == expected)
    then (number old.revision, none)
    else (number 0, some (value, ttl))

-- what `cas` makes of the reply
unfoldable pub cas_result : MapDoc → Reply → Result MapDoc
cas_result value minus_two = err (fail 410 session_expired)
cas_result value minus_one = err (fail 410 resource_expired)
cas_result value (number n) =
    if not (n == 0) then err (fail_detail 409 map_revision_conflict false n) else ok value

-- what the script is given on a world: the live keys
abbrev pub cas_run : ℕ → ℕ → ℕ → MapDoc → ℕ → World → Reply × Option (MapDoc × ℕ)
cas_run sid id expected value ttl w =
    cas_script (is_present (existing w.now sid w.base).0) (map_at w sid id) expected value
      (whole_ttl ttl)

-- the SET, or nothing, is all that happens to the maps
abbrev pub IsWritten : World → World → ℕ → ℕ → Option (MapDoc × ℕ) → Type 0
IsWritten w w' sid id none = (s i : ℕ) → map_at w' s i ≡ map_at w s i
IsWritten w w' sid id (some (v, ex)) =
    (w'.maps sid id ≡ some (record { expires = w.now + ticks ex; value = v }))
    × ((s i : ℕ) → (s == sid && i == id) ≡ false → map_at w' s i ≡ map_at w s i)

-- no live map has the revision 0, which the caller of the script reads as success
abbrev pub Started : Option MapDoc → Type 0
Started none = Unit {0}
Started (some d) = (d.revision == 0) ≡ false

module _ (sid id expected : ℕ) (value : MapDoc) (ttl : ℕ) (w : World) where
  -- the compare-and-set in memory agrees with a run of the script
  abbrev Agrees : Reply × Option (MapDoc × ℕ) → Type 0
  Agrees (reply, written) =
      ((cas_map sid id expected value ttl w).0 ≡ cas_result value reply)
      × IsWritten w (cas_map sid id expected value ttl w).1 sid id written

  without_session :
      (existing w.now sid w.base).0 ≡ none
      → ((cas_map sid id expected value ttl w).0 ≡ err (fail 410 session_expired))
        × ((s i : ℕ) → map_at (cas_map sid id expected value ttl w).1 s i ≡ map_at w s i)
  unfolding cas_map ◌>>=◌ existing
  without_session e = (ground arith, λ s i. ground arith)

  without_map :
      (p : Payload)
      → (existing w.now sid w.base).0 ≡ some p
      → map_at w sid id ≡ none
      → ((cas_map sid id expected value ttl w).0 ≡ err (fail 410 resource_expired))
        × ((s i : ℕ) → map_at (cas_map sid id expected value ttl w).1 s i ≡ map_at w s i)
  unfolding cas_map ◌>>=◌ existing
  without_map p e f = (ground arith, λ s i. ground arith)

  conflicting :
      (p : Payload) (old : MapDoc)
      → (existing w.now sid w.base).0 ≡ some p
      → map_at w sid id ≡ some old
      → (old.revision == expected) ≡ false
      → ((cas_map sid id expected value ttl w).0
          ≡ err (fail_detail 409 map_revision_conflict false old.revision))
        × ((s i : ℕ) → map_at (cas_map sid id expected value ttl w).1 s i ≡ map_at w s i)
  unfolding cas_map ◌>>=◌ existing
  conflicting p old e f other = (ground arith, λ s i. ground arith)

  replaced :
      (p : Payload) (old : MapDoc)
      → (existing w.now sid w.base).0 ≡ some p
      → map_at w sid id ≡ some old
      → (old.revision == expected) ≡ true
      → ((cas_map sid id expected value ttl w).0 ≡ ok value)
        × IsWritten w (cas_map sid id expected value ttl w).1 sid id (some (value, whole_ttl ttl))
  unfolding cas_map ◌>>=◌ existing
  replaced p old e f same = (ground arith, (ground arith, λ s i other. ground arith))

  agrees :
      (session : Option Payload) (stored : Option MapDoc)
      → (existing w.now sid w.base).0 ≡ session
      → map_at w sid id ≡ stored
      → Started stored
      → Agrees (cas_script (is_present session) stored expected value (whole_ttl ttl))
  unfolding cas_script cas_result
  agrees none stored e f started = without_session e
  agrees (some p) none e f started = without_map p e f
  agrees (some p) (some old) e f started =
      if_split Agrees (not (old.revision == expected))
        (λ other.
          let told = conflicting p old e f (ground arith) in
          (told.0 ∙ ground (arith, started), told.1))
        (λ same. replaced p old e f (ground arith))

  -- On a store whose live map has a revision other than 0, the compare-and-set in memory returns or
  -- raises what the other branch makes of the script's reply, and its store changes as the script's
  -- SET says: the map gets the value and the lifetime that the script sets, and with no SET every
  -- live map is as it was.
  pub cas_map-cas_script :
      Started (map_at w sid id)
      → let r = cas_map sid id expected value ttl w in
        let (reply, written) = cas_run sid id expected value ttl w in
        (r.0 ≡ cas_result value reply) × IsWritten w r.1 sid id written
  cas_map-cas_script started =
      agrees (existing w.now sid w.base).0 (map_at w sid id) refl refl started

-- `_SAVE_SESSION`: EXISTS KEYS[1] and ARGV[1..4] give the reply, the EXPIRE of KEYS[1] and the SET of
-- KEYS[2] with its EX
unfoldable pub save_session_script :
    Bool → SessionDoc → ℕ → Bool → ℕ → ℕ × Option ℕ × Option (SessionDoc × ℕ)
save_session_script false data' ttl touch session_ttl = (0, none, none)
save_session_script true data' ttl touch session_ttl =
    (1, if touch then some session_ttl else none, some (data', ttl))

-- what `_save_live_session` makes of the reply
unfoldable pub saved_result : ℕ → Result (Unit {0})
saved_result n = if n == 0 then err (fail 410 session_expired) else ok tt

abbrev pub save_session_run :
    Settings → ℕ → SessionDoc → Bool → World → ℕ × Option ℕ × Option (SessionDoc × ℕ)
save_session_run cfg sid data' touch w =
    save_session_script (is_live_entry cfg w.now (w.base sid)) data'
      (whole_ttl (data'.expires_at - w.now)) touch cfg.session_ttl_seconds

-- the EXPIRE of a base session
abbrev pub IsExtended : World → World → ℕ → Option ℕ → Type 0
IsExtended w w' sid none = w'.base sid ≡ w.base sid
IsExtended w w' sid (some ex) =
    (e : Entry) × (w.base sid ≡ some e)
    × (w'.base sid ≡ some (record e { expires = w.now + ticks ex }))

-- the SET of a session document
abbrev pub IsSaved : World → World → ℕ → Option (SessionDoc × ℕ) → Type 0
IsSaved w w' sid none = w'.sessions ≡ w.sessions
IsSaved w w' sid (some (d, ex)) =
    w'.sessions sid 0 ≡ some (record { expires = w.now + ticks ex; value = d })

module _ (cfg : Settings) (sid : ℕ) (data' : SessionDoc) (w : World) where
  abbrev Saves : Bool → ℕ × Option ℕ × Option (SessionDoc × ℕ) → Type 0
  Saves touch (reply, extended, written) =
      let r = save_live_session cfg sid data' touch w in
      (r.0 ≡ saved_result reply) × IsExtended w r.1 sid extended × IsSaved w r.1 sid written

  saves_dead :
      (touch : Bool) → is_live_entry cfg w.now (w.base sid) ≡ false → Saves touch (0, none, none)
  unfolding save_live_session saved_result
  saves_dead touch dead = (ground arith, ground arith, ground arith)

  saves_live :
      (touch : Bool) (e : Entry)
      → w.base sid ≡ some e
      → ltb w.now e.expires ≡ true
      → Saves touch (
        1,
        if touch then some cfg.session_ttl_seconds else none,
        some (data', whole_ttl (data'.expires_at - w.now)),
      )
  unfolding save_live_session saved_result
  saves_live true e there live = (ground arith, (e, there, ground arith), ground arith)
  saves_live false e there live = (ground arith, ground arith, ground arith)

  saves :
      (touch : Bool) (o : Option Entry) (exists : Bool)
      → w.base sid ≡ o
      → is_live_entry cfg w.now o ≡ exists
      → Saves touch (
          save_session_script exists data'
            (whole_ttl (data'.expires_at - w.now))
            touch
            cfg.session_ttl_seconds)
  unfolding save_session_script
  saves touch none true there h = absurd (cc)
  saves touch none false there h = saves_dead touch (ground arith)
  saves touch (some e) true there h = saves_live touch e there h
  saves touch (some e) false there h = saves_dead touch (ground (arith, there, h))

  -- The save of a session document in memory returns or raises what the other branch makes of the
  -- reply of the script, and writes what the script writes: with a live base session, the document
  -- with the lifetime of the SET, and for a touch the base session with the lifetime of the EXPIRE;
  -- without one, nothing.
  pub save_live_session-save_session_script :
      (touch : Bool)
      → let r = save_live_session cfg sid data' touch w in
        let (reply, extended, written) = save_session_run cfg sid data' touch w in
        (r.0 ≡ saved_result reply) × IsExtended w r.1 sid extended × IsSaved w r.1 sid written
  save_live_session-save_session_script touch =
      saves touch (w.base sid) (is_live_entry cfg w.now (w.base sid)) refl refl

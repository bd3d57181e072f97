-- ===== src/Session/Revocation.antt =====
-- Sessions that end stay ended, and requests of one session leave the others alone.
use capstone_backend.Prelude.{
  ℕ, ◌+◌, ◌≤◌, ◌≡◌, ◌≢◌, refl, Bool, true, false, List, [], ◌∷◌, none, some, arith, ◌⊎◌,
}
use capstone_backend.Errors.{ok}
use capstone_backend.Clock.{ticks}
use capstone_backend.Session.{
  Payload, Entry, Store, existing, load, put, save, clear, update, Operation, change_of, perform,
  prune, issue, resolve, empty,
}

-- requests at their times, each with the session that makes it
abbrev pub Script : Type 0
Script = List (ℕ × ℕ × Operation)

unfoldable pub perform_all : ℕ → Script → Store → Store
perform_all ttl [] store = store
perform_all ttl ((now, sid, o) ∷ rest) store = perform_all ttl rest (perform ttl o now sid store).1

prune-none : (now : ℕ) (store : Store) (s : ℕ) → store s ≡ none → prune now store s ≡ none
unfolding prune
prune-none now store s h = rw h

save-none :
    (ttl now sid : ℕ) (d : Payload) (store : Store) (s : ℕ)
    → store s ≡ none
    → (save ttl now sid d false store).1 s ≡ none
unfolding save put
save-none ttl now sid d store s h = ground (arith, prune-none now store s h)

load-none : (now sid : ℕ) (store : Store) (s : ℕ) → store s ≡ none → (load now sid store).1 s ≡ none
unfolding load existing
load-none now sid store s h = ground (arith, prune-none now store s h)

perform-none :
    (ttl : ℕ) (o : Operation) (now sid : ℕ) (store : Store) (s : ℕ)
    → store s ≡ none
    → (perform ttl o now sid store).1 s ≡ none
unfolding perform update
perform-none ttl o now sid store s h =
    let (d, loaded) = load now sid store in
    save-none ttl now sid (change_of o d) loaded s (load-none now sid store s h)

perform_all-none :
    (ttl : ℕ) (script : Script) (store : Store) (s : ℕ)
    → store s ≡ none
    → perform_all ttl script store s ≡ none
unfolding perform_all
perform_all-none ttl [] store s h = h
perform_all-none ttl ((now, sid, o) ∷ rest) store s h =
    perform_all-none ttl rest (perform ttl o now sid store).1 s
      (perform-none ttl o now sid store s h)

-- Once a session is cleared, no sequence of mind-map requests, of it or of other sessions and at
-- whatever times, brings its entry back.
pub clear-perform_all :
    (ttl sid : ℕ) (script : Script) (store : Store)
    → sid ≢ 0
    → perform_all ttl script (clear sid store) sid ≡ none
unfolding clear
clear-perform_all ttl sid script store nonempty =
    perform_all-none ttl script (clear sid store) sid (ground arith)

-- On a live session a mind-map operation returns and stores the changed payload with a full
-- lifetime.
pub perform_live :
    (ttl : ℕ) (o : Operation) (now sid : ℕ) (store : Store) (e : Entry)
    → sid ≢ 0
    → store sid ≡ some e
    → now ≤ e.expires
    → ((perform ttl o now sid store).0 ≡ ok (change_of o e.payload))
      × ((perform ttl o now sid store).1 sid
          ≡ some (record { expires = now + ticks ttl; payload = change_of o e.payload }))
unfolding perform update load save existing prune put
perform_live ttl o now sid store e nonempty at live = (ground arith, ground arith)

-- A mind-map operation, whether it succeeds or raises, keeps every other live session as it was.
pub perform_others :
    (ttl : ℕ) (o : Operation) (now sid s : ℕ) (store : Store) (f : Entry)
    → s ≢ sid
    → store s ≡ some f
    → now ≤ f.expires
    → (perform ttl o now sid store).1 s ≡ some f
unfolding perform update load save existing prune put
perform_others ttl o now sid s store f other found alive = ground arith

-- `resolve` accepts a well-formed id that has a live session.
pub resolve_accepts :
    (ttl : ℕ) (well_formed : ℕ → Bool) (now candidate fresh : ℕ) (store : Store) (e : Entry)
    → well_formed candidate ≡ true
    → store candidate ≡ some e
    → now ≤ e.expires
    → (resolve ttl well_formed now candidate fresh store).0 ≡ ok (candidate, false)
unfolding resolve existing prune
resolve_accepts ttl well_formed now candidate fresh store e shaped at live = ground arith

-- `resolve` gives a caller without a well-formed id, or whose id has no session, a new session
-- under the fresh id, if no session has that id, and stores it with a full lifetime.
pub resolve_issues :
    (ttl : ℕ) (well_formed : ℕ → Bool) (now candidate fresh : ℕ) (store : Store)
    → fresh ≢ 0
    → store fresh ≡ none
    → (well_formed candidate ≡ false) ⊎ (store candidate ≡ none)
    → ((resolve ttl well_formed now candidate fresh store).0 ≡ ok (fresh, true))
      × ((e : Entry) × ((resolve ttl well_formed now candidate fresh store).1 fresh ≡ some e)
          × (e.expires ≡ now + ticks ttl))
unfolding resolve existing prune issue save put
resolve_issues ttl well_formed now candidate fresh store nonempty free rejected = (
  ground arith,
  (record { expires = now + ticks ttl; payload = empty now fresh }, ground arith, refl),
)

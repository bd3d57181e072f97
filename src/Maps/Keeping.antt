-- ===== src/Maps/Keeping.antt =====
-- The invariant of the map table, and how it passes through the steps of a handler
-- (app/v2/state.py).
use mathlib.Core.Path.{subst}
use capstone_backend.Prelude.{
  ℕ, ◌≡◌, refl, sym, false, Option, none, some, ltb, ◌==◌, ◌&&◌, if_split,
}
use capstone_backend.Errors.{Error, Result, ok, err, OnOk}
use capstone_backend.Settings.{Settings}
use capstone_backend.Newsmap.Data.{MapDoc}
use capstone_backend.Newsmap.WellFormed.{IsWellFormed}
use capstone_backend.World.{
  Timed, Table, World, Exec, pure, raise, lift, ◌>>=◌, continue, clock, uuid4, catch, with_key,
  live, unless_over,
}
use capstone_backend.State.{get_map, put_map, delete_map_key, session}
use capstone_backend.State.Frame.{session-SameDocs}

-- the map of an entry is well-formed, if there is an entry
abbrev pub IsSoundEntry : Settings → Option (Timed MapDoc) → Type 0
IsSoundEntry cfg none = Unit
IsSoundEntry cfg (some t) = IsWellFormed cfg t.value

-- every stored map is well-formed
abbrev pub AllWellFormed : Settings → Table MapDoc → Type 0
AllWellFormed cfg maps = (s i : ℕ) → IsSoundEntry cfg (maps s i)

abbrev pub Any : {A : Type 0} → A → Type 0
Any a = Unit

abbrev pub IsSound : Settings → Option MapDoc → Type 0
IsSound cfg none = Unit
IsSound cfg (some d) = IsWellFormed cfg d

-- a step keeps every stored map well-formed, and what it returns is as `Q` says
abbrev pub Keeps : Settings → {A : Type 0} → (A → Type 0) → Exec A → Type 0
Keeps cfg Q m =
    (w : World) → AllWellFormed cfg w.maps → AllWellFormed cfg (m w).1.maps × OnOk Q (m w).0

module _ (cfg : Settings) where
  continue-Keeps :
      {A B : Type 0} (Q : A → Type 0) (R : B → Type 0) (f : A → Exec B)
      → ((a : A) → Q a → Keeps cfg R (f a))
      → (r : Result A) (w : World) → AllWellFormed cfg w.maps
      → OnOk Q r
      → AllWellFormed cfg (continue r f w).1.maps × OnOk R (continue r f w).0
  continue-Keeps Q R f hf (ok a) w k q = hf a q w k
  continue-Keeps Q R f hf (err e) w k q = (k, tt)

  pub bind-Keeps :
      {A B : Type 0} (Q : A → Type 0) (R : B → Type 0) (m : Exec A) (f : A → Exec B)
      → Keeps cfg Q m
      → ((a : A) → Q a → Keeps cfg R (f a))
      → Keeps cfg R (m >>= f)
  unfolding ◌>>=◌
  bind-Keeps Q R m f hm hf w k =
      let (k', q) = hm w k in continue-Keeps Q R f hf (m w).0 (m w).1 k' q

  pub pure-Keeps : {A : Type 0} (Q : A → Type 0) (a : A) → Q a → Keeps cfg Q (pure a)
  unfolding pure
  pure-Keeps Q a q w k = (k, q)

  pub raise-Keeps : {A : Type 0} (Q : A → Type 0) (e : Error) → Keeps cfg Q (raise e)
  unfolding raise
  raise-Keeps Q e w k = (k, tt)

  pub lift-Keeps : {A : Type 0} (Q : A → Type 0) (r : Result A) → OnOk Q r → Keeps cfg Q (lift r)
  unfolding lift
  lift-Keeps Q r q w k = (k, q)

  pub OnOk-Any : {A : Type 0} (r : Result A) → OnOk Any r
  OnOk-Any (ok a) = tt
  OnOk-Any (err e) = tt

  pub same-Keeps :
      {A : Type 0} (m : Exec A) → ((w : World) → (m w).1.maps ≡ w.maps) → Keeps cfg Any m
  same-Keeps m same w k = (subst (AllWellFormed cfg) (sym (same w)) k, OnOk-Any (m w).0)

  pub clock-Keeps : Keeps cfg Any clock
  unfolding clock
  clock-Keeps = same-Keeps clock (λ w. refl)

  pub uuid4-Keeps : Keeps cfg Any uuid4
  unfolding uuid4
  uuid4-Keeps = same-Keeps uuid4 (λ w. refl)

  -- what a caught exception leaves
  abbrev pub Caught : {A : Type 0} → (A → Type 0) → Result A → Type 0
  Caught Q r = OnOk Q r

  pub catch-Keeps :
      {A : Type 0} (Q : A → Type 0) (m : Exec A) → Keeps cfg Q m → Keeps cfg (OnOk Q) (catch m)
  unfolding catch
  catch-Keeps Q m hm w k = hm w k

  with_key-AllWellFormed :
      (maps : Table MapDoc) (s j : ℕ) (o : Option (Timed MapDoc))
      → AllWellFormed cfg maps
      → IsSoundEntry cfg o
      → AllWellFormed cfg (with_key maps s j o)
  unfolding with_key
  with_key-AllWellFormed maps s j o k new s' j' =
      if_split (IsSoundEntry cfg) (s' == s && j' == j) (λ _. new) (λ _. k s' j')

  pub session-Keeps : (sid : ℕ) → Keeps cfg Any (session cfg sid false)
  session-Keeps sid = same-Keeps (session cfg sid false) (λ w. (session-SameDocs cfg sid w).maps)

  live-IsSound :
      (now : ℕ) (o : Option (Timed MapDoc)) → IsSoundEntry cfg o → IsSound cfg (live now o)
  live-IsSound now none h = tt
  live-IsSound now (some t) h = if_split (IsSound cfg) (ltb now t.expires) (λ _. h) (λ _. tt)

  unless_over-IsSoundEntry :
      (now : ℕ) (o : Option (Timed MapDoc))
      → IsSoundEntry cfg o
      → IsSoundEntry cfg (unless_over now o)
  unless_over-IsSoundEntry now none h = tt
  unless_over-IsSoundEntry now (some t) h =
      if_split (IsSoundEntry cfg) (ltb now t.expires) (λ _. h) (λ _. tt)

  pub get_map-Keeps : (sid id : ℕ) → Keeps cfg (IsSound cfg) (get_map sid id)
  unfolding get_map
  get_map-Keeps sid id w k =
      let o = w.maps sid id in
      (
        with_key-AllWellFormed w.maps sid id (unless_over w.now o) k
            (unless_over-IsSoundEntry w.now o (k sid id)),
        live-IsSound w.now o (k sid id),
      )

  pub put_map-Keeps :
      (sid id : ℕ) (d : MapDoc) (ttl : ℕ)
      → IsWellFormed cfg d
      → Keeps cfg Any (put_map sid id d ttl)
  unfolding put_map
  put_map-Keeps sid id d ttl h w k = (with_key-AllWellFormed w.maps sid id _ k h, tt)

  pub delete_map_key-Keeps : (sid id : ℕ) → Keeps cfg Any (delete_map_key sid id)
  unfolding delete_map_key
  delete_map_key-Keeps sid id w k = (with_key-AllWellFormed w.maps sid id none k tt, tt)

  pub option-Keeps :
      {A B : Type 0} (R : Option A → Type 0) (Q : B → Type 0) (o : Option A) (m : Exec B)
      (f : A → Exec B)
      → R o
      → Keeps cfg Q m
      → ((a : A) → R (some a) → Keeps cfg Q (f a))
      → Keeps cfg Q (elim o [ none ↦ m | some a ↦ f a ])
  option-Keeps R Q none m f r hm hf = hm
  option-Keeps R Q (some a) m f r hm hf = hf a r

  pub result-Keeps :
      {A B : Type 0} (R : Result A → Type 0) (Q : B → Type 0) (o : Result A) (f : A → Exec B)
      (m : Error → Exec B)
      → R o
      → ((a : A) → R (ok a) → Keeps cfg Q (f a))
      → ((e : Error) → Keeps cfg Q (m e))
      → Keeps cfg Q (elim o [ ok a ↦ f a | err e ↦ m e ])
  result-Keeps R Q (ok a) f m r hf hm = hf a r
  result-Keeps R Q (err e) f m r hf hm = hm e

-- ===== src/World.antt =====
-- What the v2 handlers share: the clock, the drawn identifiers, the base sessions
-- (app/session.py) and the keys of `_memory` in app/v2/state.py. A key `v2:{kind}:{sid}:{id}` is
-- looked up in the table of its kind, by the two ids. A handler runs at one instant.
use capstone_backend.Prelude.{
  ℕ, ◌+◌, Bool, ◌&&◌, Option, none, some, List, ltb, ◌==◌, if◌then◌else◌,
}
use capstone_backend.Errors.{Error, Result, ok, err}
use capstone_backend.Budget.{Ledgers}
use capstone_backend.Quota.{Memory}
use capstone_backend.Reports.Saved.{Saved}
use capstone_backend.Session.{Store}
use capstone_backend.Newsmap.Data.{MapDoc}
use capstone_backend.Jobs.Doc.{JobDoc}

pub record Timed {ℓ} (V : Type ℓ) : Type ℓ where
  pub expires : ℕ
  pub value : V

abbrev pub Table {ℓ} : Type ℓ → Type ℓ
Table V = ℕ → ℕ → Option (Timed V)

module _ {ℓ} {V : Type ℓ} where
  -- the value of an entry that is not over
  abbrev pub live : ℕ → Option (Timed V) → Option V
  live now none = none
  live now (some e) = if ltb now e.expires then some e.value else none

  abbrev pub unless_over : ℕ → Option (Timed V) → Option (Timed V)
  unless_over now none = none
  unless_over now (some e) = if ltb now e.expires then some e else none

  -- the table with one key set, or dropped by `none`
  unfoldable pub with_key : Table V → ℕ → ℕ → Option (Timed V) → Table V
  with_key t i j o i' j' = if i' == i && j' == j then o else t i' j'

-- `v2:session:{sid}`; the tier is whether it is PAID, and each kind of `resource_index` has its
-- own list, where an explicitly deleted map keeps its id with `none`
pub record SessionDoc : Type 0 where
  pub session_epoch : ℕ
  pub created_at : ℕ
  pub expires_at : ℕ
  pub paid : Bool
  pub map_index : List (ℕ × Option ℕ)
  pub job_index : List (ℕ × Option ℕ)
  pub result_index : List (ℕ × Option ℕ)

pub data ResultKind : Type 0 where
  report strategy : ResultKind

-- what an idempotency key stands for: `{"request_hash": ..., "job_id": ...}`
pub record Replay : Type 0 where
  pub request_hash : ℕ
  pub job_id : ℕ

pub record World : Type 0 where
  pub now : ℕ
  pub next_uuid : ℕ
  pub base : Store
  pub sessions : Table SessionDoc
  pub maps : Table MapDoc
  pub jobs : Table JobDoc
  pub access : Table ResultKind
  pub replays : Table Replay
  pub buckets : Memory
  pub ledgers : Ledgers
  pub saved : Saved

-- an `async` function: its result or exception, and the world that it leaves
abbrev pub Exec {ℓ} : Type ℓ → Type ℓ
Exec A = World → Result A × World

module _ {ℓ} {A : Type ℓ} where
  unfoldable pub pure : A → Exec A
  pure a w = (ok a, w)

  unfoldable pub raise : Error → Exec A
  raise e w = (err e, w)

  unfoldable pub lift : Result A → Exec A
  lift r w = (r, w)

module _ {ℓ κ} {A : Type ℓ} {B : Type κ} where
  abbrev pub continue : Result A → (A → Exec B) → World → Result B × World
  continue (ok a) f w = f a w
  continue (err e) f w = (err e, w)

  infixl 10 ◌>>=◌
  unfoldable pub ◌>>=◌ : Exec A → (A → Exec B) → Exec B
  unfolding pure raise lift
  ◌>>=◌ m f w = let (r, w') = m w in continue r f w'

infixl 10 ◌>>◌
abbrev pub ◌>>◌ {ℓ} : {B : Type ℓ} → Exec (Unit {0}) → Exec B → Exec B
m >> k = m >>= λ _. k

-- `time.time()`
unfoldable pub clock : Exec ℕ
clock w = (ok w.now, w)

-- `uuid.uuid4()`: an id that was never drawn
unfoldable pub uuid4 : Exec ℕ
uuid4 w = (ok w.next_uuid, record w { next_uuid = w.next_uuid + 1 })

-- `try`: the exception as a value, with the writes before it kept
unfoldable pub catch {ℓ} : {A : Type ℓ} → Exec A → Exec (Result A)
catch m w = let (r, w') = m w in (ok r, w')

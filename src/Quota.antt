-- ===== src/Quota.antt =====
-- app/usage_limits.py: the fixed-window admission limits, with the local memory buckets
-- (`session_store_required` is false). `client_key` rests on the ipaddress library: the canonical
-- form of a host is an argument. Host and session ids are opaque numbers.
pub mod Window
use capstone_backend.Prelude.{
  ℕ, zero, suc, ◌+◌, ◌-◌, ◌<◌, ◌≤◌, max, Bool, true, false, ◌&&◌, Option, none, some, List, [], ◌∷◌,
  ◌++◌, ltb, leb, ◌==◌, if◌then◌else◌,
}
use capstone_backend.Clock.{ticks, ceil_seconds}

abbrev pub window_seconds : ℕ
window_seconds = 3600

-- the actions that callers name
pub data Action : Type 0 where
  news_search news_map session_issue reports strategies jobs legacy : Action

pub data Scope : Type 0 where
  everyone : Scope
  session : ℕ → Scope
  client : ℕ → Scope

-- f"quota:{action}:global", f"quota:{action}:session:{sid}" and f"quota:{action}:client:{host}"
pub record BucketKey : Type 0 where
  pub action : Action
  pub scope : Scope

pub Action-discrete : Discrete Action
Action-discrete = hlevel

pub record QuotaRequest : Type 0 where
  pub owner_sid : ℕ
  pub action : Action
  pub per_session : ℕ
  pub global_limit : ℕ
  pub client_host : Option ℕ
  pub per_client : Option ℕ

pub record Bucket : Type 0 where
  pub count : ℕ
  pub expires : ℕ

-- `_memory`
abbrev pub Memory : Type 0
Memory = BucketKey → Option Bucket

abbrev pub action_number : Action → ℕ
action_number news_search = 0
action_number news_map = 1
action_number session_issue = 2
action_number reports = 3
action_number strategies = 4
action_number jobs = 5
action_number legacy = 6

abbrev pub same_scope : Scope → Scope → Bool
same_scope everyone everyone = true
same_scope (session a) (session b) = a == b
same_scope (client a) (client b) = a == b
same_scope _ _ = false

abbrev pub same_key : BucketKey → BucketKey → Bool
same_key j k = action_number j.action == action_number k.action && same_scope j.scope k.scope

-- `_memory.get(key, (0, now + _WINDOW_SECONDS))`
abbrev pub bucket_or_new : ℕ → Option Bucket → Bucket
bucket_or_new now none = record { count = 0; expires = now + ticks window_seconds }
bucket_or_new now (some b) = b

-- a bucket whose window is over starts again
abbrev pub current : ℕ → Bucket → Bucket
current now b =
    if leb b.expires now then record { count = 0; expires = now + ticks window_seconds } else b

-- the body of the first loop
unfoldable pub retry_for : ℕ → Memory → BucketKey → ℕ → ℕ → ℕ
retry_for now memory key limit retry_after =
    let b = current now (bucket_or_new now (memory key)) in
    if leb limit b.count then max retry_after (ceil_seconds (b.expires - now)) else retry_after

unfoldable pub retry_after_of : ℕ → Memory → List (BucketKey × ℕ) → ℕ → ℕ
unfolding retry_for
retry_after_of now memory [] retry_after = retry_after
retry_after_of now memory ((key, limit) ∷ rest) retry_after =
    retry_after_of now memory rest (retry_for now memory key limit retry_after)

-- the body of the second loop
unfoldable pub charge : ℕ → BucketKey → Memory → Memory
charge now key memory k =
    if same_key k key
    then (let b = bucket_or_new now (memory key) in
        some (record {
          count = b.count + 1;
          expires = if ltb now b.expires then b.expires else now + ticks window_seconds;
        }))
    else memory k

unfoldable pub charge_all : ℕ → List (BucketKey × ℕ) → Memory → Memory
charge_all now [] memory = memory
charge_all now ((key, limit) ∷ rest) memory = charge_all now rest (charge now key memory)

module _ (client_key : Option ℕ → ℕ) where
  abbrev client_limit : QuotaRequest → Option ℕ → List (BucketKey × ℕ)
  client_limit r none = []
  client_limit r (some limit) =
      (record { action = r.action; scope = client (client_key r.client_host) }, limit) ∷ []

  unfoldable pub limits_of : List QuotaRequest → List (BucketKey × ℕ)
  limits_of [] = []
  limits_of (r ∷ rest) =
      (record { action = r.action; scope = everyone }, r.global_limit)
      ∷ (record { action = r.action; scope = session r.owner_sid }, r.per_session)
      ∷ (client_limit r r.per_client ++ limits_of rest)

-- `none` when the requests are admitted, `some n` for a 429 with `Retry-After: n`
unfoldable pub admit : ℕ → List (BucketKey × ℕ) → Memory → Option ℕ × Memory
admit now limits memory =
    let retry_after = retry_after_of now memory limits 0 in
    if retry_after == 0 then (none, charge_all now limits memory) else (some retry_after, memory)

unfoldable pub check_quotas : (Option ℕ → ℕ) → ℕ → List QuotaRequest → Memory → Option ℕ × Memory
unfolding admit limits_of
check_quotas client_key now requests memory = admit now (limits_of client_key requests) memory

-- ===== src/Budget.antt =====
-- app/v2/provider_budget.py: the daily and per-job ledgers that paid work is charged to.
-- The ledgers are the two kinds of entries that `_memory_reserve` keeps in `state._memory`; a job's
-- key is a hash of its id, which enters as an argument.
pub mod Bounds
pub mod Daily
pub mod Script
use capstone_backend.Prelude.{
  ℕ, zero, suc, ◌+◌, ◌-◌, ◌*◌, ◌/◌, ◌<◌, ◌≤◌, max, Bool, true, false, ◌&&◌, Option, none, some, ltb,
  ◌==◌, if◌then◌else◌,
}
use capstone_backend.Errors.{
  Error, value_error, Result, ok, err, fail, fail_detail, job_budget_exceeded,
  daily_budget_exceeded,
}
use capstone_backend.Clock.{second, ticks, ceil_seconds}
use capstone_backend.Settings.{Settings}

abbrev pub kst_offset : ℕ
kst_offset = 32400

abbrev pub day_seconds : ℕ
day_seconds = 86400

pub data Operation : Type 0 where
  body rag analysis critic strategy : Operation
  unknown : Operation  -- any other string

pub record DailyEntry : Type 0 where
  pub expires : ℕ
  pub day : ℕ
  pub units : ℕ

pub record JobEntry : Type 0 where
  pub expires : ℕ
  pub units : ℕ

pub record Ledgers : Type 0 where
  pub daily : Option DailyEntry
  pub job : ℕ → Option JobEntry

abbrev pub empty_ledgers : Ledgers
empty_ledgers = record { daily = none; job = λ _. none }

-- the Korean calendar day of an instant
unfoldable pub kst_day : ℕ → ℕ
kst_day now = (now + ticks kst_offset) / ticks day_seconds

-- the second at which a Korean day ends
unfoldable pub day_reset : ℕ → ℕ
day_reset day = (day + 1) * day_seconds - kst_offset

unfoldable pub window : ℕ → ℕ × ℕ
unfolding kst_day day_reset
window now = (kst_day now, max 1 (ceil_seconds (ticks (day_reset (kst_day now)) - now)))

abbrev is_unknown : Operation → Bool
is_unknown unknown = true
is_unknown _ = false

-- the exceptions that a status stands for
unfoldable pub status_result : ℕ × ℕ → Result (Unit {0})
status_result (status, retry_after) =
    if status == 2
    then err (fail 429 job_budget_exceeded)
    else if status == 1
    then err (fail_detail 429 daily_budget_exceeded true retry_after)
    else ok tt

module _ (cfg : Settings) where
  open cfg use {
    v2_job_ttl_seconds, v2_job_timeout_seconds, v2_provider_daily_budget_units,
    v2_provider_job_budget_units,
  }

  unfoldable pub job_ttl : ℕ
  job_ttl = v2_job_ttl_seconds + v2_job_timeout_seconds + 60

  -- the units of a live entry of the same day
  unfoldable pub daily_units : ℕ → ℕ → Option DailyEntry → ℕ
  daily_units now day none = 0
  daily_units now day (some e) = if ltb now e.expires && e.day == day then e.units else 0

  unfoldable pub job_units : ℕ → Option JobEntry → ℕ
  job_units now none = 0
  job_units now (some e) = if ltb now e.expires then e.units else 0

  -- `(status, retry_after)`, with the ledgers that the call leaves
  unfoldable pub memory_reserve : ℕ → ℕ → ℕ → Ledgers → (ℕ × ℕ) × Ledgers
  unfolding window job_ttl daily_units job_units
  memory_reserve now key units l =
      let (day, retry_after) = window now in
      let spent_today = daily_units now day l.daily in
      let spent_by_job = job_units now (l.job key) in
      if ltb v2_provider_job_budget_units (spent_by_job + units)
      then ((2, 0), l)
      else if ltb v2_provider_daily_budget_units (spent_today + units)
      then ((1, retry_after), l)
      else (
        (0, 0),
        record {
          daily = some (record {
            expires = now + ticks (retry_after + day_seconds);
            day = day;
            units = spent_today + units;
          });
          job = λ k.
              if k == key
              then some (record { expires = now + ticks job_ttl; units = spent_by_job + units })
              else l.job k;
        },
      )

  -- `reserve` under a bound job id, or outside `job_budget` (`none`), in memory mode
  unfoldable pub reserve :
      (ℕ → ℕ) → ℕ → Option ℕ → Operation → ℕ → Ledgers → Result (Unit {0}) × Ledgers
  unfolding memory_reserve status_result
  reserve hash now none operation units l = (ok tt, l)
  reserve hash now (some job_id) operation units l =
      if is_unknown operation
      then (err value_error, l)
      else if ltb units 1
      then (err value_error, l)
      else let (status, l') = memory_reserve now (hash job_id) units l in (status_result status, l')

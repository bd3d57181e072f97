-- ===== src/Budget/Script.antt =====
-- The Lua script `_RESERVE` of app/v2/provider_budget.py, which the server runs as one step. What
-- its two GETs return and the server's clock are arguments, and its two SETs are part of the
-- reply, so nothing is assumed of the server here.
use capstone_backend.Prelude.{
  ℕ, ◌+◌, ◌-◌, ◌*◌, ◌/◌, ◌≤◌, ◌≡◌, refl, Bool, false, Option, none, some, ltb, ◌==◌, ==_refl,
  Bool-cases, inl, inr, if◌then◌else◌, arith,
}
use capstone_backend.Clock.{ticks}
use capstone_backend.Settings.{Settings}
use capstone_backend.Budget.{
  DailyEntry, JobEntry, Ledgers, kst_day, day_reset, window, daily_units, job_units, job_ttl,
  memory_reserve,
}

-- the value under KEYS[1]; that under KEYS[2] is a number
pub record DailyValue : Type 0 where
  pub day : ℕ
  pub units : ℕ

-- the two SETs: each value with its EX
pub record Sets : Type 0 where
  pub daily : DailyValue
  pub daily_ex : ℕ
  pub job : ℕ
  pub job_ex : ℕ

pub data Reply : Type 0 where
  error_reply : Reply
  reply : ℕ → ℕ → Option Sets → Reply

abbrev script_units : ℕ → Option DailyValue → ℕ
script_units day none = 0
script_units day (some v) = if v.day == day then v.units else 0

abbrev is_future : ℕ → Option DailyValue → Bool
is_future day none = false
is_future day (some v) = ltb day v.day

abbrev number_or_zero : Option ℕ → ℕ
number_or_zero none = 0
number_or_zero (some n) = n

-- arguments: TIME in seconds, the two GETs, and ARGV[1..4]
unfoldable pub reserve_script : ℕ → Option DailyValue → Option ℕ → ℕ → ℕ → ℕ → ℕ → Reply
reserve_script now raw job units daily_limit job_limit ttl =
    let day = (now + 32400) / 86400 in
    let reset = (day + 1) * 86400 - 32400 in
    let spent_today = script_units day raw in
    let spent_by_job = number_or_zero job in
    if is_future day raw
    then error_reply
    else if ltb job_limit (spent_by_job + units)
    then reply 2 0 none
    else if ltb daily_limit (spent_today + units)
    then reply 1 (reset - now) none
    else reply 0 0 (
        some (record {
          daily = record { day = day; units = spent_today + units };
          daily_ex = reset - now + 86400;
          job = spent_by_job + units;
          job_ex = ttl;
        }))

-- what a server that drops expired keys returns for the entries of the memory ledgers
abbrev pub live_daily : ℕ → Option DailyEntry → Option DailyValue
live_daily now none = none
live_daily now (some e) =
    if ltb now e.expires then some (record { day = e.day; units = e.units }) else none

abbrev pub live_job : ℕ → Option JobEntry → Option ℕ
live_job now none = none
live_job now (some e) = if ltb now e.expires then some e.units else none

-- the entries that the memory mode leaves where the script sets keys
abbrev pub SetsMatch : ℕ → ℕ → Ledgers → Ledgers → Option Sets → Type 0
SetsMatch now key before after none = after ≡ before
SetsMatch now key before after (some s) =
    (after.daily
      ≡ some
          (record { expires = now + ticks s.daily_ex; day = s.daily.day; units = s.daily.units }))
    × (after.job key ≡ some (record { expires = now + ticks s.job_ex; units = s.job }))

-- the script's answer `r` is the memory mode's answer, with the same effect
abbrev pub Agrees : ℕ → ℕ → Ledgers → (ℕ × ℕ) × Ledgers → Reply → Type 0
Agrees now key before m error_reply = ⊥
Agrees now key before m (reply status retry sets) =
    (m.0.0 ≡ status) × (m.0.1 ≡ retry) × SetsMatch now key before m.1 sets

kst_day-ticks : (seconds : ℕ) → kst_day (ticks seconds) ≡ (seconds + 32400) / 86400
unfolding kst_day
kst_day-ticks seconds = omega arith

retry_whole :
    (seconds : ℕ)
    → (window (ticks seconds)).1 ≡ ((seconds + 32400) / 86400 + 1) * 86400 - 32400 - seconds
unfolding window kst_day day_reset
retry_whole seconds = omega arith

daily_units-live_daily :
    (cfg : Settings) (now day : ℕ) (o : Option DailyEntry)
    → daily_units cfg now day o ≡ script_units day (live_daily now o)
unfolding daily_units
daily_units-live_daily cfg now day none = refl
daily_units-live_daily cfg now day (some e) = ground arith

job_units-live_job :
    (cfg : Settings) (now : ℕ) (o : Option JobEntry)
    → job_units cfg now o ≡ number_or_zero (live_job now o)
unfolding job_units
job_units-live_job cfg now none = refl
job_units-live_job cfg now (some e) = ground arith

not_future :
    (now day : ℕ) (o : Option DailyEntry)
    → ((e : DailyEntry) → o ≡ some e → e.day ≤ day)
    → is_future day (live_daily now o) ≡ false
not_future now day none past = refl
not_future now day (some e) past = ground (arith, past e refl)

module _ (cfg : Settings) where
  open cfg use {v2_provider_daily_budget_units, v2_provider_job_budget_units}

  -- At a whole second, and with no entry of a later day, the script decides as the memory mode
  -- does: the same status and retry delay, and on acceptance the same values with the same
  -- lifetimes.
  pub reserve_script-memory_reserve :
      (seconds key units : ℕ) (l : Ledgers)
      → ((e : DailyEntry) → l.daily ≡ some e → e.day ≤ kst_day (ticks seconds))
      → Agrees (ticks seconds) key l (memory_reserve cfg (ticks seconds) key units l) (
          reserve_script seconds
            (live_daily (ticks seconds) l.daily)
            (live_job (ticks seconds) (l.job key))
            units
            v2_provider_daily_budget_units
            v2_provider_job_budget_units
            (job_ttl cfg))
  unfolding memory_reserve reserve_script window
  reserve_script-memory_reserve seconds key units l past =
      let by_job = number_or_zero (live_job (ticks seconds) (l.job key)) in
      let today = script_units ((seconds + 32400) / 86400) (live_daily (ticks seconds) l.daily) in
      rw
        (
          retry_whole seconds,
          daily_units-live_daily cfg (ticks seconds),
          job_units-live_job cfg (ticks seconds),
          kst_day-ticks seconds,
          not_future (ticks seconds) ((seconds + 32400) / 86400) l.daily (rw kst_day-ticks at past),
        )
        (elim (Bool-cases (ltb v2_provider_job_budget_units (by_job + units))) [
          | inl over ↦ rw over (refl, refl, refl)
          | inr fits ↦ elim (Bool-cases (ltb v2_provider_daily_budget_units (today + units))) [
            | inl over ↦ rw (fits, over) (refl, refl, refl)
            | inr fits_too ↦ rw (fits, fits_too) (refl, refl, (refl, rw ==_refl))
          ]
        ])

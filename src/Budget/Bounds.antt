-- ===== src/Budget/Bounds.antt =====
-- What one reservation of app/v2/provider_budget.py does to the ledgers.
use capstone_backend.Prelude.{
  ℕ, ◌+◌, ◌≤◌, ◌<◌, ◌≡◌, ◌⊎◌, inl, inr, refl, Option, none, some, if_intro, ltb, ◌==◌, ==_iff,
  Bool-cases, arith,
}
use capstone_backend.Errors.{Error, Result, ok, err}
use capstone_backend.Clock.{ticks}
use capstone_backend.Settings.{Settings}
use capstone_backend.Budget.{
  Operation, DailyEntry, JobEntry, Ledgers, kst_day, day_reset, window, daily_units, job_units,
  memory_reserve, status_result, reserve, is_unknown, job_ttl,
}

-- A Korean day ends after each of its instants, and within 86400 seconds.
pub day_reset_after : (now : ℕ) → now < ticks (day_reset (kst_day now))
unfolding kst_day day_reset
day_reset_after now = omega arith

pub day_reset_within : (now : ℕ) → ticks (day_reset (kst_day now)) ≤ now + ticks 86400
unfolding kst_day day_reset
day_reset_within now = omega arith

pub kst_day_mono : (a b : ℕ) → a ≤ b → kst_day a ≤ kst_day b
unfolding kst_day
kst_day_mono a b h = omega arith

-- The `Retry-After` of a daily refusal is between one second and one day, and waiting that long
-- reaches the next Korean day.
pub window_bounds :
    (now : ℕ)
    → (1 ≤ (window now).1)
      × ((window now).1 ≤ 86400)
      × (ticks (day_reset (kst_day now)) ≤ now + ticks (window now).1)
unfolding window
window_bounds now = omega (arith, day_reset_after now, day_reset_within now)

pub next_day : (now later : ℕ) → now + ticks (window now).1 ≤ later → kst_day now < kst_day later
unfolding window kst_day day_reset
next_day now later h = omega arith

module _ (cfg : Settings) where
  open cfg use {v2_provider_daily_budget_units, v2_provider_job_budget_units}

  -- no entry holds more than its limit
  pub record IsBounded (l : Ledgers) : Type 0 where
    pub daily_bound : (e : DailyEntry) → l.daily ≡ some e → e.units ≤ v2_provider_daily_budget_units
    pub job_bound :
        (k : ℕ) (e : JobEntry) → l.job k ≡ some e → e.units ≤ v2_provider_job_budget_units

  memory_reserve-daily_bound :
      (now key units : ℕ) (l : Ledgers) (e : DailyEntry)
      → IsBounded l
      → (memory_reserve cfg now key units l).1.daily ≡ some e
      → e.units ≤ v2_provider_daily_budget_units
  unfolding memory_reserve
  memory_reserve-daily_bound now key units l e b h = ground (arith, b.daily_bound e)

  memory_reserve-job_bound :
      (now key units : ℕ) (l : Ledgers) (k : ℕ) (e : JobEntry)
      → IsBounded l
      → (memory_reserve cfg now key units l).1.job k ≡ some e
      → e.units ≤ v2_provider_job_budget_units
  unfolding memory_reserve
  memory_reserve-job_bound now key units l k e b h = ground (arith, b.job_bound k e)

  pub memory_reserve-IsBounded :
      (now key units : ℕ) (l : Ledgers)
      → IsBounded l
      → IsBounded (memory_reserve cfg now key units l).1
  memory_reserve-IsBounded now key units l b = record {
    daily_bound = λ e. memory_reserve-daily_bound now key units l e b;
    job_bound = λ k e. memory_reserve-job_bound now key units l k e b;
  }

  -- Whatever is asked, in or outside a job, no ledger entry ever exceeds its limit.
  pub reserve-IsBounded :
      (hash : ℕ → ℕ) (now : ℕ) (job : Option ℕ) (operation : Operation) (units : ℕ) (l : Ledgers)
      → IsBounded l
      → IsBounded (reserve cfg hash now job operation units l).1
  unfolding reserve
  reserve-IsBounded hash now none operation units l b = b
  reserve-IsBounded hash now (some j) operation units l b =
      if_intro (λ (r : Result (Unit {0}) × Ledgers). IsBounded r.1) (is_unknown operation) b
        (if_intro (λ (r : Result (Unit {0}) × Ledgers). IsBounded r.1) (ltb units 1) b
          (memory_reserve-IsBounded now (hash j) units l b))

  -- A refused reservation, whatever the reason, charges nothing.
  pub reserve_refused :
      (hash : ℕ → ℕ) (now : ℕ) (job : Option ℕ) (operation : Operation) (units : ℕ) (l : Ledgers)
      (e : Error)
      → (reserve cfg hash now job operation units l).0 ≡ err e
      → (reserve cfg hash now job operation units l).1 ≡ l
  unfolding reserve memory_reserve status_result
  reserve_refused hash now none operation units l e h = refl
  reserve_refused hash now (some j) operation units l e h = ground arith

  -- An accepted reservation of a job adds its units to the day's and to the job's live ledger,
  -- both within their limits, and leaves the other jobs' entries alone.
  pub reserve_accepted :
      (hash : ℕ → ℕ) (now j : ℕ) (operation : Operation) (units : ℕ) (l : Ledgers)
      → (reserve cfg hash now (some j) operation units l).0 ≡ ok tt
      → let l' = (reserve cfg hash now (some j) operation units l).1 in
        let day = kst_day now in
        (1 ≤ units)
        × (daily_units cfg now day l'.daily ≡ daily_units cfg now day l.daily + units)
        × (job_units cfg now (l'.job (hash j)) ≡ job_units cfg now (l.job (hash j)) + units)
        × (daily_units cfg now day l'.daily ≤ v2_provider_daily_budget_units)
        × (job_units cfg now (l'.job (hash j)) ≤ v2_provider_job_budget_units)
        × ((k : ℕ) → (k ≡ hash j) ⊎ (l'.job k ≡ l.job k))
  unfolding reserve memory_reserve status_result daily_units job_units window job_ttl
  reserve_accepted hash now j operation units l h = (
    ground arith,
    ground arith,
    ground arith,
    ground arith,
    ground arith,
    λ k. elim (Bool-cases (k == hash j)) [
      | inl same ↦ inl ((==_iff k (hash j)).0 same)
      | inr other ↦ inr (ground arith)
    ],
  )

-- ===== src/Budget/Daily.antt =====
-- The daily limit of app/v2/provider_budget.py over a whole run of requests, of any jobs, and
-- across the end of a Korean day.
use capstone_backend.Prelude.{
  ℕ, ◌+◌, ◌≤◌, ◌<◌, ◌≡◌, refl, Option, none, some, ◌==◌, arith, List, [], ◌∷◌, ◌&&◌, ◌⊎◌, inl, inr,
  if◌then◌else◌,
}
use capstone_backend.Clock.{ticks}
use capstone_backend.Settings.{Settings}
use capstone_backend.Budget.{
  DailyEntry, Ledgers, empty_ledgers, kst_day, day_reset, window, daily_units, memory_reserve,
}
use capstone_backend.Budget.Bounds.{day_reset_after, day_reset_within, kst_day_mono}

-- a call of `_memory_reserve`
pub record Request : Type 0 where
  pub at : ℕ
  pub key : ℕ
  pub units : ℕ

-- requests in the order of the clock, none before `t`
abbrev pub InOrder : ℕ → List Request → Type 0
InOrder t [] = Unit
InOrder t (r ∷ rs) = (t ≤ r.at) × InOrder r.at rs

-- what an entry says about a day, live or not
abbrev entry_units : ℕ → Option DailyEntry → ℕ
entry_units day none = 0
entry_units day (some e) = if e.day == day then e.units else 0

module _ (cfg : Settings) where
  open cfg use {v2_provider_daily_budget_units}

  -- the units that requests made on one day were granted
  unfoldable pub granted_on : ℕ → Ledgers → List Request → ℕ
  granted_on day l [] = 0
  granted_on day l (r ∷ rs) =
      let (status, l') = memory_reserve cfg r.at r.key r.units l in
      (if kst_day r.at == day && status.0 == 0 then r.units else 0) + granted_on day l' rs

  -- the daily entry is within the limit, not of a later day, and outlives its day
  record IsKept (t : ℕ) (l : Ledgers) : Type 0 where
    within : (e : DailyEntry) → l.daily ≡ some e → e.units ≤ v2_provider_daily_budget_units
    not_later : (e : DailyEntry) → l.daily ≡ some e → e.day ≤ kst_day t
    lives : (e : DailyEntry) → l.daily ≡ some e → ticks (day_reset e.day) ≤ e.expires

  module _ (t : ℕ) (r : Request) (l : Ledgers) (k : IsKept t l) (le : t ≤ r.at) where
    after : Ledgers
    after = (memory_reserve cfg r.at r.key r.units l).1

    IsKept-after : IsKept r.at after
    unfolding memory_reserve after window
    IsKept-after = record {
      within = λ e h. ground (arith, k.within e);
      not_later = λ e h. ground (arith, k.not_later e, kst_day_mono t r.at);
      lives = λ e h. ground (arith, k.lives e, day_reset_within r.at);
    }

    units_now : ℕ → ℕ
    units_now day =
        let status = (memory_reserve cfg r.at r.key r.units l).0 in
        if kst_day r.at == day && status.0 == 0 then r.units else 0

    -- a grant shows in the day's entry, unless the day is over
    charged_or_over :
        (day : ℕ)
        → (units_now day + entry_units day l.daily ≤ entry_units day after.daily)
          ⊎ ((day < kst_day r.at) × (units_now day ≡ 0))
    unfolding memory_reserve after window units_now daily_units
    charged_or_over day =
        grind (arith, k.not_later, k.lives, kst_day_mono t r.at le, day_reset_after r.at)

  nothing_after_the_day :
      (day t : ℕ) (l : Ledgers) (rs : List Request)
      → InOrder t rs
      → day < kst_day t
      → granted_on day l rs ≡ 0
  unfolding granted_on
  nothing_after_the_day day t l [] o h = refl
  nothing_after_the_day day t l (r ∷ rs) o h =
      let later : day < kst_day r.at = omega (arith, kst_day_mono t r.at o.0) in
      let l' = (memory_reserve cfg r.at r.key r.units l).1 in
      ground (arith, nothing_after_the_day day r.at l' rs o.1 later)

  entry_units_bound :
      (day t : ℕ) (l : Ledgers)
      → IsKept t l
      → entry_units day l.daily ≤ v2_provider_daily_budget_units
  entry_units_bound day t l k = grind (arith, k.within)

  granted_on_bound :
      (day t : ℕ) (l : Ledgers) (rs : List Request)
      → IsKept t l
      → InOrder t rs
      → granted_on day l rs + entry_units day l.daily ≤ v2_provider_daily_budget_units
  unfolding granted_on units_now after
  granted_on_bound day t l [] k o = omega (arith, entry_units_bound day t l k)
  granted_on_bound day t l (r ∷ rs) k o =
      let l' = after t r l k o.0 in
      let rest = granted_on_bound day r.at l' rs (IsKept-after t r l k o.0) o.1 in
      elim (charged_or_over t r l k o.0 day) [
        | inl charged ↦ omega (arith, rest, charged)
        | inr over ↦ omega (
          arith,
          over.1,
          nothing_after_the_day day r.at l' rs o.1 over.0,
          entry_units_bound day t l k,
        )
      ]

  -- On no Korean day do the requests of any run, in the order of the clock and of whatever jobs,
  -- get more units in all than the daily limit.
  pub daily_limit :
      (day t : ℕ) (rs : List Request)
      → InOrder t rs
      → granted_on day empty_ledgers rs ≤ v2_provider_daily_budget_units
  daily_limit day t rs o = omega (
    arith,
    granted_on_bound day t empty_ledgers rs
        (record { within = λ e h. cc; not_later = λ e h. cc; lives = λ e h. cc }) o,
  )

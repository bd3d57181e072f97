-- ===== src/Examples/Ledgers.antt =====
-- Runs of app/v2/provider_budget.py and app/usage_limits.py.
use capstone_backend.Prelude.{
  ℕ, ◌+◌, ◌*◌, ◌≡◌, ◌≢◌, ◌≤◌, ◌<◌, refl, none, some, List, [], ◌∷◌, All, arith, if◌then◌else◌,
}
use capstone_backend.Errors.{ok, err, fail, job_budget_exceeded}
use capstone_backend.Clock.{ticks}
use capstone_backend.Settings.{defaults}
use capstone_backend.Budget.{Ledgers, empty_ledgers, reserve, memory_reserve, body, job_ttl}
use capstone_backend.Budget.Bounds.{IsBounded, reserve-IsBounded}
use capstone_backend.Budget.Daily.{Request, InOrder, granted_on, daily_limit}
use capstone_backend.Budget.Script.{
  reserve_script, reserve_script-memory_reserve, Agrees, live_daily, live_job,
}
use capstone_backend.Quota.{
  Memory, BucketKey, Bucket, jobs, everyone, client, admit, retry_after_of, same_key,
}
use capstone_backend.Quota.Window.{
  IsFresh, admit_refused, admit_accepted, expired_window_stays_full, used, stored,
}

-- noon of a day, in Korea
abbrev noon : ℕ
noon = 3 * 3600

abbrev same : ℕ → ℕ
same k = k

abbrev spent : Ledgers
spent = (memory_reserve defaults (ticks noon) 7 30 empty_ledgers).1

empty-IsBounded : IsBounded defaults empty_ledgers
empty-IsBounded = record { daily_bound = λ e h. absurd (cc); job_bound = λ k e h. absurd (cc) }

reserve-IsBounded_example :
    IsBounded defaults (reserve defaults same (ticks noon) (some 7) body 30 empty_ledgers).1
reserve-IsBounded_example =
    reserve-IsBounded defaults same (ticks noon) (some 7) body 30 empty_ledgers empty-IsBounded

refused :
    (reserve defaults same (ticks noon) (some 7) body 3 spent).0
    ≡ err (fail 429 job_budget_exceeded)
unfolding reserve
refused = refl

accepted : (reserve defaults same (ticks noon) (some 7) body 2 spent).0 ≡ ok tt
unfolding reserve
accepted = refl

abbrev two_requests : List Request
two_requests =
    record { at = ticks noon; key = 7; units = 30 }
    ∷ record { at = ticks noon; key = 8; units = 20 }
    ∷ []

in_order : InOrder 0 two_requests
in_order = (omega arith, (omega arith, tt))

daily_limit_example : granted_on defaults 0 empty_ledgers two_requests ≤ 1000
daily_limit_example = daily_limit defaults 0 0 two_requests in_order

reserve_script-memory_reserve_example :
    Agrees (ticks noon) 7 empty_ledgers (memory_reserve defaults (ticks noon) 7 30 empty_ledgers) (
      reserve_script noon
        (live_daily (ticks noon) none)
        (live_job (ticks noon) none)
        30
        1000
        32
        (job_ttl defaults))
reserve_script-memory_reserve_example =
    reserve_script-memory_reserve defaults noon 7 30 empty_ledgers (λ e h. absurd (cc))

abbrev jobs_key : BucketKey
jobs_key = record { action = jobs; scope = everyone }

abbrev other_key : BucketKey
other_key = record { action = jobs; scope = client 4 }

-- a bucket of two admissions, in a window that ends at second 100
abbrev two_admitted : Bucket
two_admitted = record { count = 2; expires = ticks 100 }

abbrev full : Memory
full k = if same_key k jobs_key then some two_admitted else none

full-IsFresh : IsFresh (ticks 50) full
full-IsFresh k b h = ground arith

refused_quota : (admit (ticks 50) ((jobs_key, 2) ∷ []) full).0 ≡ some 50
unfolding admit retry_after_of
refused_quota = refl

admit_refused_example :
    ((admit (ticks 50) ((jobs_key, 2) ∷ []) full).1 ≡ full) × (1 ≤ 50) × (50 ≤ 3600)
admit_refused_example =
    admit_refused (ticks 50) 50 ((jobs_key, 2) ∷ []) full full-IsFresh refused_quota

admitted_quota : (admit (ticks 50) ((jobs_key, 3) ∷ (other_key, 1) ∷ []) full).0 ≡ none
unfolding admit retry_after_of
admitted_quota = refl

abbrev both : List (BucketKey × ℕ)
both = (jobs_key, 3) ∷ (other_key, 1) ∷ []

admit_accepted_example :
    let after = (admit (ticks 50) both full).1 in
    All
      (λ e.
        (used (ticks 50) full e.0 < e.1)
        × (used (ticks 50) after e.0 ≡ stored (ticks 50) full e.0 + 1))
      both
admit_accepted_example = admit_accepted (ticks 50) both full ((refl, tt), (tt, tt)) admitted_quota

expired_window_stays_full_example :
    let first = admit (ticks 100) ((jobs_key, 2) ∷ []) full in
    (first.0 ≡ none) × ((admit (ticks 200) ((jobs_key, 2) ∷ []) first.1).0 ≢ none)
expired_window_stays_full_example =
    expired_window_stays_full (ticks 100) (ticks 200) 2 jobs_key full two_admitted refl
      (omega arith) (omega arith) (omega arith) (omega arith) (omega arith)

-- ===== src/Errors.antt =====
-- Public errors (app/v2/errors.py) and the other exceptions that the modelled code raises.
-- The Korean message of an error is fixed by the place that raises it and is left out. `details`
-- is the one number that the code puts there (`revision` or `retry_after_seconds`), if any.
use mathlib.Core.Path.{subst}
use capstone_backend.Prelude.{ℕ, ◌==◌, Bool, true, false, Option, none, some, ◌≡◌}

pub data Code : Type 0 where
  dependency_unavailable lease_lost lock_timeout session_expired resource_expired : Code
  map_revision_conflict resource_not_found invalid_request plan_article_limit_exceeded : Code
  map_limit_reached session_map_limit_reached search_failed idempotency_conflict : Code
  budget_unavailable job_budget_exceeded daily_budget_exceeded job_timeout : Code
  no_usable_evidence worker_lost report_generation_failed : Code

pub Code-discrete : Discrete Code
Code-discrete = hlevel

pub record V2Error : Type 0 where
  pub status : ℕ
  pub code : Code
  pub retryable : Bool
  pub details : Option ℕ

-- `InvalidStrategyOutput.category`
pub data Category : Type 0 where
  empty_response invalid_json invalid_schema unknown_target duplicate_target : Category

-- `ValueError`, `KeyError` and `TimeoutError` are the built-in exceptions; `JobCancelled` and
-- `LeaseLost` are those of app/v2/reports.py, `SessionExpired` and `SessionStoreUnavailable` those
-- of app/session.py. `too_many_requests n` is the `HTTPException` of app/usage_limits.py with
-- `Retry-After: n`, and `invalid_output` is `InvalidStrategyOutput` of app/v2/reports.py.
pub data Error : Type 0 where
  v2 : V2Error → Error
  value_error key_error job_cancelled job_lease_lost : Error
  session_gone store_unavailable : Error
  timeout_error : Error
  too_many_requests : ℕ → Error
  invalid_output : Category → Error

-- `V2Error(status, code, message)`, with the defaults of its other arguments.
abbrev pub fail : ℕ → Code → Error
fail status code = v2 (record { status = status; code = code; retryable = false; details = none })

-- `V2Error(status, code, message, True)`
abbrev pub fail_retryable : ℕ → Code → Error
fail_retryable status code =
    v2 (record { status = status; code = code; retryable = true; details = none })

-- `V2Error(status, code, message, retryable, details={...: n})`
abbrev pub fail_detail : ℕ → Code → Bool → ℕ → Error
fail_detail status code retryable n =
    v2 (record { status = status; code = code; retryable = retryable; details = some n })

pub data Result {ℓ} (A : Type ℓ) : Type ℓ where
  ok : A → Result A
  err : Error → Result A

abbrev pub is_ok {ℓ} : {A : Type ℓ} → Result A → Bool
is_ok (ok a) = true
is_ok (err e) = false

-- What holds of the value, if there is one.
abbrev pub OnOk {ℓ κ} : {A : Type ℓ} → (A → Type κ) → Result A → Type κ
OnOk P (ok a) = P a
OnOk P (err e) = Unit

pub OnOk_at {ℓ κ} : {A : Type ℓ} (P : A → Type κ) (r : Result A) (a : A) → OnOk P r → r ≡ ok a → P a
OnOk_at P (ok b) a h e = subst P (cc) h
OnOk_at P (err x) a h e = absurd (cc)

-- `exc.code == code`, false for what is no `V2Error`
abbrev pub code_number : Code → ℕ
code_number dependency_unavailable = 0
code_number lease_lost = 1
code_number lock_timeout = 2
code_number session_expired = 3
code_number resource_expired = 4
code_number map_revision_conflict = 5
code_number resource_not_found = 6
code_number invalid_request = 7
code_number plan_article_limit_exceeded = 8
code_number map_limit_reached = 9
code_number session_map_limit_reached = 10
code_number search_failed = 11
code_number idempotency_conflict = 12
code_number budget_unavailable = 13
code_number job_budget_exceeded = 14
code_number daily_budget_exceeded = 15
code_number job_timeout = 16
code_number no_usable_evidence = 17
code_number worker_lost = 18
code_number report_generation_failed = 19

abbrev pub has_code : Code → Error → Bool
has_code c (v2 e) = code_number e.code == code_number c
has_code c _ = false

abbrev pub has_status : ℕ → Error → Bool
has_status n (v2 e) = e.status == n
has_status n _ = false

-- ===== src/Quota/Window.antt =====
-- What one call of `check_quotas` of app/usage_limits.py does to the buckets.
use capstone_backend.Prelude.{
  ℕ, ◌+◌, ◌<◌, ◌≤◌, Bool, true, false, Option, none, some, List, [], ◌∷◌, ltb, leb, ◌==◌,
  if◌then◌else◌, ◌≡◌, ◌≢◌, refl, ap, ◌∙◌, All, All_both, All_of, arith, Bool-cases, ==_refl, ==_iff,
  leb→le, leb→gt, inl, inr,
}
use capstone_backend.Clock.{ticks}
use capstone_backend.Quota.{
  BucketKey, Scope, Bucket, Memory, same_key, same_scope, bucket_or_new, current, retry_for,
  retry_after_of, charge, charge_all, admit, window_seconds, everyone, session, client,
}

-- the admissions that a bucket shows at an instant
abbrev pub used : ℕ → Memory → BucketKey → ℕ
used now memory k = (current now (bucket_or_new now (memory k))).count

-- the count that is stored, whether or not its window is over
abbrev pub stored : ℕ → Memory → BucketKey → ℕ
stored now memory k = (bucket_or_new now (memory k)).count

-- no window reaches further than an hour ahead
abbrev pub IsFresh : ℕ → Memory → Type 0
IsFresh now memory =
    (k : BucketKey) (b : Bucket) → memory k ≡ some b → b.expires ≤ now + ticks window_seconds

-- no key stands twice
abbrev pub AreDistinct : List (BucketKey × ℕ) → Type 0
AreDistinct [] = Unit
AreDistinct ((k, _) ∷ rest) = All (λ e. same_key k e.0 ≡ false) rest × AreDistinct rest

same_scope_refl : (s : Scope) → same_scope s s ≡ true
same_scope_refl everyone = refl
same_scope_refl (session a) = ==_refl a
same_scope_refl (client a) = ==_refl a

same_scope_sym : (s t : Scope) → same_scope s t ≡ same_scope t s
same_scope_sym everyone everyone = refl
same_scope_sym everyone (session b) = refl
same_scope_sym everyone (client b) = refl
same_scope_sym (session a) everyone = refl
same_scope_sym (session a) (session b) = ground arith
same_scope_sym (session a) (client b) = refl
same_scope_sym (client a) everyone = refl
same_scope_sym (client a) (session b) = refl
same_scope_sym (client a) (client b) = ground arith

same_key_refl : (k : BucketKey) → same_key k k ≡ true
same_key_refl k = rw (same_scope_refl k.scope) (ground arith)

same_key_sym : (j k : BucketKey) → same_key j k ≡ same_key k j
same_key_sym j k = rw (same_scope_sym j.scope k.scope) (ground arith)

le-retry_after_of :
    (now : ℕ) (memory : Memory) (limits : List (BucketKey × ℕ)) (r : ℕ)
    → r ≤ retry_after_of now memory limits r
unfolding retry_after_of
le-retry_after_of now memory [] r = omega arith
le-retry_after_of now memory ((key, limit) ∷ rest) r =
    ground (arith, le-retry_after_of now memory rest (retry_for now memory key limit r))

-- a full bucket asks for a positive delay
full_retry :
    (now : ℕ) (memory : Memory) (key : BucketKey) (limit r : ℕ)
    → limit ≤ used now memory key
    → 0 < retry_for now memory key limit r
unfolding retry_for
full_retry now memory key limit r full = ground arith

-- without a delay every bucket has room
retry_zero-room :
    (now : ℕ) (memory : Memory) (limits : List (BucketKey × ℕ)) (r : ℕ)
    → retry_after_of now memory limits r ≡ 0
    → All (λ e. used now memory e.0 < e.1) limits
unfolding retry_after_of
retry_zero-room now memory [] r h = tt
retry_zero-room now memory ((key, limit) ∷ rest) r h =
    let next = retry_for now memory key limit r in
    (
      elim (Bool-cases (leb limit (used now memory key))) [
        | inl full ↦ absurd (
            omega (
              arith,
              h,
              le-retry_after_of now memory rest next,
              full_retry now memory key limit r (leb→le _ _ full),
            ))
        | inr free ↦ leb→gt _ _ free
      ],
      retry_zero-room now memory rest next h,
    )

expires_bound :
    (now : ℕ) (o : Option Bucket)
    → ((b : Bucket) → o ≡ some b → b.expires ≤ now + ticks window_seconds)
    → (current now (bucket_or_new now o)).expires ≤ now + ticks window_seconds
expires_bound now none h = ground arith
expires_bound now (some b) h = ground (arith, h b refl)

retry_for_bound :
    (now : ℕ) (memory : Memory) (key : BucketKey) (limit r : ℕ)
    → IsFresh now memory
    → r ≤ 3600
    → retry_for now memory key limit r ≤ 3600
unfolding retry_for
retry_for_bound now memory key limit r fresh h =
    ground (arith, expires_bound now (memory key) (fresh key))

-- the delay is at most the window
retry_bound :
    (now : ℕ) (memory : Memory) (limits : List (BucketKey × ℕ)) (r : ℕ)
    → IsFresh now memory
    → r ≤ 3600
    → retry_after_of now memory limits r ≤ 3600
unfolding retry_after_of
retry_bound now memory [] r fresh h = h
retry_bound now memory ((key, limit) ∷ rest) r fresh h =
    retry_bound now memory rest (retry_for now memory key limit r) fresh
      (retry_for_bound now memory key limit r fresh h)

charge_at :
    (now : ℕ) (key : BucketKey) (memory : Memory)
    → charge now key memory key
      ≡ some (record {
        count = stored now memory key + 1;
        expires =
            if ltb now (bucket_or_new now (memory key)).expires
            then (bucket_or_new now (memory key)).expires
            else now + ticks window_seconds;
      })
unfolding charge
charge_at now key memory =
    ap
      (λ (b : Bool).
        if b
        then some (record {
          count = stored now memory key + 1;
          expires =
              if ltb now (bucket_or_new now (memory key)).expires
              then (bucket_or_new now (memory key)).expires
              else now + ticks window_seconds;
        })
        else memory key)
      (same_key_refl key)

charge_self :
    (now : ℕ) (key : BucketKey) (memory : Memory)
    → used now (charge now key memory) key ≡ stored now memory key + 1
charge_self now key memory = ground (arith, charge_at now key memory)

charge_other :
    (now : ℕ) (key k : BucketKey) (memory : Memory)
    → same_key k key ≡ false
    → charge now key memory k ≡ memory k
unfolding charge
charge_other now key k memory h = ground arith

charge_all_other :
    (now : ℕ) (k : BucketKey) (limits : List (BucketKey × ℕ)) (memory : Memory)
    → All (λ e. same_key k e.0 ≡ false) limits
    → charge_all now limits memory k ≡ memory k
unfolding charge_all
charge_all_other now k [] memory h = refl
charge_all_other now k ((key, limit) ∷ rest) memory h =
    charge_all_other now k rest (charge now key memory) h.1 ∙ charge_other now key k memory h.0

-- the same, under a memory that agrees on the keys
charged :
    (now : ℕ) (before : Memory) (limits : List (BucketKey × ℕ)) (memory : Memory)
    → AreDistinct limits
    → All (λ e. memory e.0 ≡ before e.0) limits
    → All (λ e. used now (charge_all now limits memory) e.0 ≡ stored now before e.0 + 1) limits
unfolding charge_all
charged now before [] memory d same = tt
charged now before ((key, limit) ∷ rest) memory d same =
    let head : used now (charge now key memory) key ≡ stored now before key + 1 =
      charge_self now key memory ∙ ap (λ o. (bucket_or_new now o).count + 1) same.0 in
    (
      ap (λ o. (current now (bucket_or_new now o)).count)
            (charge_all_other now key rest (charge now key memory) d.0)
          ∙ head,
      charged now before rest (charge now key memory) d.1 (
          All_both _ _ (λ e. charge now key memory e.0 ≡ before e.0) rest
            (λ e ne eq. charge_other now key e.0 memory (same_key_sym e.0 key ∙ ne) ∙ eq) d.0
            same.1),
    )

-- A refusal changes no bucket, and its `Retry-After` is between one second and the window.
pub admit_refused :
    (now n : ℕ) (limits : List (BucketKey × ℕ)) (memory : Memory)
    → IsFresh now memory
    → (admit now limits memory).0 ≡ some n
    → ((admit now limits memory).1 ≡ memory) × (1 ≤ n) × (n ≤ 3600)
unfolding admit
admit_refused now n limits memory fresh h =
    let bound = retry_bound now memory limits 0 fresh (omega arith) in
    (ground arith, ground arith, ground (arith, bound))

-- An admission, with limits on distinct keys, needs room in every bucket that is asked for (a
-- bucket whose window is over counts as empty), leaves each of them live with one more than its
-- stored count.
pub admit_accepted :
    (now : ℕ) (limits : List (BucketKey × ℕ)) (memory : Memory)
    → AreDistinct limits
    → (admit now limits memory).0 ≡ none
    → let after = (admit now limits memory).1 in
      All
        (λ e. (used now memory e.0 < e.1) × (used now after e.0 ≡ stored now memory e.0 + 1))
        limits
unfolding admit
admit_accepted now limits memory d h = elim (Bool-cases (retry_after_of now memory limits 0 == 0)) [
  | inr some_full ↦ absurd (ground arith)
  | inl free ↦ rw free (
      All_both _ _
        (λ e.
          (used now memory e.0 < e.1)
          × (used now (charge_all now limits memory) e.0 ≡ stored now memory e.0 + 1))
        limits (λ e room up. (room, up)) (retry_zero-room now memory limits 0 ((==_iff _ 0).0 free))
        (charged now memory limits memory d (All_of _ limits (λ e. refl))))
]

-- An admission or a refusal touches no bucket that is not asked for.
pub admit_others :
    (now : ℕ) (limits : List (BucketKey × ℕ)) (memory : Memory) (k : BucketKey)
    → All (λ e. same_key k e.0 ≡ false) limits
    → (admit now limits memory).1 k ≡ memory k
unfolding admit
admit_others now limits memory k other = ground (arith, charge_all_other now k limits memory other)

-- In memory mode an expired window is not emptied when it is charged: a bucket that was filled to
-- `limit` before its window ended admits one request in the new window and then refuses all
-- others there, though a new window has room for `limit`.
pub expired_window_stays_full :
    (now later limit : ℕ) (key : BucketKey) (memory : Memory) (b : Bucket)
    → memory key ≡ some b
    → b.expires ≤ now
    → 1 ≤ limit
    → limit ≤ b.count + 1
    → now ≤ later
    → later < now + ticks window_seconds
    → let first = admit now ((key, limit) ∷ []) memory in
      (first.0 ≡ none) × ((admit later ((key, limit) ∷ []) first.1).0 ≢ none)
unfolding admit retry_after_of retry_for charge_all
expired_window_stays_full now later limit key memory b at over some_limit full order inside =
    let admitted : (admit now ((key, limit) ∷ []) memory) ≡ (none, charge now key memory) =
      ground arith in
    (
      ap (λ (r : Option ℕ × Memory). r.0) admitted,
      rw admitted (ground (arith, charge_at now key memory)),
    )

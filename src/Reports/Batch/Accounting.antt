-- ===== src/Reports/Batch/Accounting.antt =====
-- Every requested article is accounted for, once, by the queue of `extract_bodies`
-- (app/v2/reports.py).
use mathlib.Core.Path.{subst}
use capstone_backend.Prelude.{
  ℕ, zero, suc, ◌+◌, ◌≡◌, refl, Bool, true, false, ◌&&◌, ◌||◌, Option, List, [], ◌∷◌, ◌++◌, elem,
  elem-append, distinct, insert, leb, length, ==_iff, if_intro, option_split, list_split, arith,
}
use capstone_backend.Errors.{Result, ok, err, OnOk, OnOk_at}
use capstone_backend.Clock.{ticks}
use capstone_backend.Settings.{Settings}
use capstone_backend.Newsmap.Data.{Article}
use capstone_backend.Reports.Data.{Body, Failure, article_unavailable}
use capstone_backend.Reports.Extraction.{Extracted, got, lost, failure_of}
use capstone_backend.Reports.Batch.{
  Batch, Bodies, keys_of, without, settled, missing, taken, timed_out, sort_ids, first_batch,
  is_retry_code, round, rounds, extract_bodies, article_in, present,
}
use capstone_backend.World.{World, Exec, pure, continue, ◌>>=◌, clock}
use capstone_backend.Reports.Batch.Keys.{
  elem-insert, elem-without, distinct-add, elem-sort_ids, distinct-sort_ids, elem-timed_out,
}

-- The requested ids are those that wait, that succeeded or that failed; none waits twice, and one
-- that succeeded neither waits nor failed.
pub record Accounted (requested pending succeeded failed : List ℕ) : Type 0 where
  pub each : (n : ℕ) → elem n requested ≡ (elem n pending || elem n succeeded || elem n failed)
  pub apart : (n : ℕ) → (elem n succeeded && elem n failed) ≡ false
  pub waiting : (n : ℕ) → (elem n succeeded && elem n pending) ≡ false
  pub once : distinct pending ≡ true

abbrev pub IsAccounted : List ℕ → Batch → Type 0
IsAccounted requested b = Accounted requested b.pending (keys_of b.successes) (keys_of b.failures)

module _ (requested : List ℕ) (n : ℕ) (rest : List ℕ) (b : Batch)
    (h : Accounted requested (n ∷ rest) (keys_of b.successes) (keys_of b.failures)) where
  success-Accounted :
      (v : Article × Body)
      → Accounted requested rest (keys_of (insert n v b.successes)) (keys_of (without n b.failures))
  success-Accounted v = record {
    each = λ m.
        ground
          (arith, h.each m, elem-insert m n v b.successes, elem-without m n b.failures, ==_iff m n);
    apart =
        λ m. ground (arith, h.apart m, elem-insert m n v b.successes, elem-without m n b.failures);
    waiting = λ m. ground (arith, h.waiting m, h.once, elem-insert m n v b.successes, ==_iff m n);
    once = ground (arith, h.once);
  }

  failure-Accounted :
      (f : Failure)
      → Accounted requested rest (keys_of b.successes) (keys_of (insert n f b.failures))
  failure-Accounted f = record {
    each = λ m. ground (arith, h.each m, elem-insert m n f b.failures);
    apart = λ m. ground (arith, h.apart m, h.waiting m, elem-insert m n f b.failures);
    waiting = λ m. ground (arith, h.waiting m);
    once = ground (arith, h.once);
  }

  retry-Accounted :
      (f : Failure)
      → Accounted requested
          (rest ++ (n ∷ []))
          (keys_of b.successes)
          (keys_of (insert n f b.failures))
  retry-Accounted f = record {
    each = λ m. ground (arith, h.each m, elem-insert m n f b.failures, elem-append m rest (n ∷ []));
    apart = λ m. ground (arith, h.apart m, h.waiting m, elem-insert m n f b.failures);
    waiting = λ m. ground (arith, h.waiting m, elem-append m rest (n ∷ []));
    once = ground (arith, h.once, distinct-add rest n);
  }

  settled-Accounted :
      (keys : ℕ) (a : Article) (e : Extracted) (get_news : ℕ → Option Article) (charged : List ℕ)
      → IsAccounted requested
          (settled keys n a e (record (taken get_news n rest b) { charged = charged }))
  unfolding settled
  settled-Accounted keys a (got body) get_news charged = success-Accounted (a, body)
  settled-Accounted keys a (lost f) get_news charged =
      if_intro (λ p. Accounted requested p (keys_of b.successes) (keys_of (insert n f b.failures)))
        (is_retry_code f.code && f.retryable) (retry-Accounted f) (failure-Accounted f)

-- what holds of every result that a step can have
abbrev Gives : {A : Type 0} → (A → Type 0) → Exec A → Type 0
Gives P m = (w : World) → OnOk P (m w).0

module _ {A B : Type 0} (P : B → Type 0) where
  continue-Gives :
      (r : Result A) (w : World) (f : A → Exec B)
      → ((a : A) → Gives P (f a))
      → OnOk P (continue r f w).0
  continue-Gives (ok a) w f h = h a w
  continue-Gives (err e) w f h = tt

  bind-Gives : (m : Exec A) (f : A → Exec B) → ((a : A) → Gives P (f a)) → Gives P (m >>= f)
  unfolding ◌>>=◌
  bind-Gives m f h w = continue-Gives (m w).0 (m w).1 f h

  -- where what the first step returns matters
  continue_then-Gives :
      (Q : A → Type 0) (r : Result A) (w : World) (f : A → Exec B)
      → OnOk Q r
      → ((a : A) → Q a → Gives P (f a))
      → OnOk P (continue r f w).0
  continue_then-Gives Q (ok a) w f q h = h a q w
  continue_then-Gives Q (err e) w f q h = tt

  bind_then-Gives :
      (Q : A → Type 0) (m : Exec A) (f : A → Exec B)
      → Gives Q m
      → ((a : A) → Q a → Gives P (f a))
      → Gives P (m >>= f)
  unfolding ◌>>=◌
  bind_then-Gives Q m f q h w = continue_then-Gives Q (m w).0 (m w).1 f (q w) h

pure-Gives : {A : Type 0} (P : A → Type 0) (a : A) → P a → Gives P (pure a)
unfolding pure
pure-Gives P a p w = p

module _ (cfg : Settings) (sid job_id token keys : ℕ) (get_news : ℕ → Option Article)
    (attempt : ℕ → ℕ → Bool → Article → Exec (Bool × Extracted)) (sleep : ℕ → Exec (Unit {0}))
    (requested : List ℕ) where
  abbrev StepAccounted : Bool × Batch → Type 0
  StepAccounted (more, b) = IsAccounted requested b

  round-Accounted :
      (total deadline n : ℕ) (rest : List ℕ) (b : Batch)
      → Accounted requested (n ∷ rest) (keys_of b.successes) (keys_of b.failures)
      → Gives StepAccounted
          (round cfg sid job_id token keys get_news attempt sleep total deadline n rest b)
  unfolding round clock
  round-Accounted total deadline n rest b h = bind-Gives StepAccounted _ _ (λ _.
      option_split (Gives StepAccounted) (article_in get_news n b.articles)
        (λ _. bind-Gives StepAccounted _ _ (λ _. bind-Gives StepAccounted _ _ (λ more.
          pure-Gives StepAccounted (more, missing n (taken get_news n rest b))
            (failure-Accounted requested n rest b h (failure_of n article_unavailable false)))))
        (λ a _. bind-Gives StepAccounted _ _ (λ now.
          if_intro (Gives StepAccounted) (leb deadline now) (pure-Gives StepAccounted _ h) (
            bind-Gives StepAccounted _ _ (λ tried. bind-Gives StepAccounted _ _ (λ _.
              bind-Gives StepAccounted _ _ (λ more. pure-Gives StepAccounted _ (
                settled-Accounted requested n rest b h keys a tried.1 get_news
                  (n ∷ b.charged)))))))))

  rounds-Accounted :
      (fuel total deadline : ℕ) (b : Batch)
      → IsAccounted requested b
      → Gives
          (IsAccounted requested)
          (rounds cfg sid job_id token keys get_news attempt sleep fuel total deadline b)
  unfolding rounds clock
  rounds-Accounted zero total deadline b h = pure-Gives (IsAccounted requested) b h
  rounds-Accounted (suc fuel) total deadline b h =
      list_split (Gives (IsAccounted requested)) b.pending
        (λ _. pure-Gives (IsAccounted requested) b h)
        (λ n rest e. bind-Gives (IsAccounted requested) _ _ (λ now.
          if_intro (Gives (IsAccounted requested)) (leb deadline now)
            (pure-Gives (IsAccounted requested) b h)
            (bind_then-Gives (IsAccounted requested) StepAccounted _ _
              (round-Accounted total deadline n rest b
                (subst (λ p. Accounted requested p (keys_of b.successes) (keys_of b.failures)) e h))
              (λ stepped q.
                if_intro (Gives (IsAccounted requested)) stepped.0
                  (rounds-Accounted fuel total deadline stepped.1 q)
                  (pure-Gives (IsAccounted requested) stepped.1 q)))))

-- each requested article has a body or a failure, and not both
abbrev pub IsSplit : List ℕ → Bodies → Type 0
IsSplit requested r =
    (n : ℕ)
    → (elem n requested ≡ (elem n (keys_of r.successes) || elem n (keys_of r.failures)))
      × ((elem n (keys_of r.successes) && elem n (keys_of r.failures)) ≡ false)

Accounted-IsSplit :
    (requested : List ℕ) (b : Batch) (articles : List Article)
    → IsAccounted requested b
    → IsSplit requested (record {
      successes = b.successes;
      failures = timed_out b.pending b.failures;
      articles = articles;
    })
Accounted-IsSplit requested b articles h n = (
  ground (arith, h.each n, elem-timed_out n b.pending b.failures),
  ground (arith, h.apart n, h.waiting n, elem-timed_out n b.pending b.failures),
)

first-Accounted :
    (requested : List ℕ)
    → distinct requested ≡ true
    → IsAccounted requested (first_batch (sort_ids requested))
first-Accounted requested h = record {
  each = λ n. ground (arith, elem-sort_ids n requested);
  apart = λ n. refl;
  waiting = λ n. refl;
  once = distinct-sort_ids requested h;
}

module _ (cfg : Settings) (sid job_id token keys : ℕ) (get_news : ℕ → Option Article)
    (attempt : ℕ → ℕ → Bool → Article → Exec (Bool × Extracted)) (sleep : ℕ → Exec (Unit {0})) where
  -- `extract_bodies` that returns gives, for distinct ids, a body or a failure for each requested
  -- article and for no other, and never both.
  pub extract_bodies-IsSplit :
      (fuel : ℕ) (requested : List ℕ) (w : World) (r : Bodies)
      → distinct requested ≡ true
      → (extract_bodies cfg sid job_id token keys get_news attempt sleep fuel requested w).0 ≡ ok r
      → IsSplit requested r
  unfolding extract_bodies clock
  extract_bodies-IsSplit fuel requested w r h done =
      OnOk_at (IsSplit requested) _ r
        (bind-Gives (IsSplit requested) _ _
          (λ started.
            bind_then-Gives (IsSplit requested) (IsAccounted requested) _ _
              (rounds-Accounted cfg sid job_id token keys get_news attempt sleep requested fuel
                (length requested) (started + ticks cfg.v2_body_batch_timeout_seconds)
                (first_batch (sort_ids requested)) (first-Accounted requested h))
              (λ b q. bind-Gives (IsSplit requested) _ _ (λ _.
                bind-Gives (IsSplit requested) _ _ (λ _.
                  pure-Gives (IsSplit requested) _
                    (Accounted-IsSplit requested b (present b.articles) q)))))
          w)
        done

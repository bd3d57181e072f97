-- ===== src/Reports/Batch/Ending.antt =====
-- The queue of `extract_bodies` (app/v2/reports.py) ends: each round ends it, takes an article from
-- it or uses up some of its time.
use mathlib.Core.Path.{subst}
use capstone_backend.Prelude.{
  ◌∙◌, ℕ, zero, suc, ◌+◌, ◌-◌, ◌≤◌, ◌<◌, ◌≡◌, refl, ap, ◌⊎◌, inl, inr, Bool, true, false, not, ◌&&◌,
  Option, List, [], ◌∷◌, elem, length, length-append, leb, ltb, leb→gt, if◌then◌else◌, if_intro,
  if_split, Bool-cases, option_split, List-cases, arith,
}
use capstone_backend.Errors.{Result, ok, err, OnOk}
use capstone_backend.Settings.{Settings}
use capstone_backend.Newsmap.Data.{Article}
use capstone_backend.Jobs.Doc.{JobDoc}
use capstone_backend.Jobs.Steps.{checkpoint, update}
use capstone_backend.Reports.Extraction.{Extracted, got, lost}
use capstone_backend.Reports.Batch.{
  Batch, settled, missing, taken, is_retry_code, article_in, rest_of_round, round, rounds,
  progress_of, with_progress,
}
use capstone_backend.State.{get_job, get_map}
use capstone_backend.State.Frame.{session-SameDocs}
use capstone_backend.World.{World, Exec, pure, continue, catch, ◌>>=◌, clock}

now-checkpoint :
    (cfg : Settings) (sid id token : ℕ) (w : World) → (checkpoint cfg sid id token w).1.now ≡ w.now
unfolding checkpoint ◌>>=◌ get_job get_map catch clock
now-checkpoint cfg sid id token w = ground (arith, (session-SameDocs cfg sid w).now)

now-update :
    (sid id token : ℕ) (changes : JobDoc → JobDoc) (w : World)
    → (update sid id token changes w).1.now ≡ w.now
unfolding update ◌>>=◌
now-update sid id token changes w = ground arith

-- what holds of the result of a step, if there is one, and of the world it leaves
abbrev pub Ends : {A : Type 0} → (A → World → Type 0) → Exec A → World → Type 0
Ends Q m w = OnOk (λ a. Q a (m w).1) (m w).0

pub always : {A X : Type 0} (r : Result A) → X → OnOk (λ a. X) r
always (ok a) x = x
always (err e) x = tt

abbrev pub At : ℕ → {A : Type 0} → A → World → Type 0
At t a v = v.now ≡ t

abbrev From : ℕ → {A : Type 0} → A → World → Type 0
From t a v = t ≤ v.now

clock-Ends : (w : World) → Ends (At w.now) clock w
unfolding clock
clock-Ends w = refl

clock_now : (w : World) → Ends (λ now v. (now ≡ w.now) × (v.now ≡ w.now)) clock w
unfolding clock
clock_now w = (refl, refl)

if_agree :
    {B : Type 0} (t : Bool) (p x y : Exec B) (u : World)
    → (t ≡ false → x u ≡ y u)
    → (if t then p else x) u ≡ (if t then p else y) u
if_agree true p x y u h = refl
if_agree false p x y u h = h refl

then_agree :
    {B : Type 0} (t : Bool) (p x y : Exec B) (u : World)
    → (t ≡ false) ⊎ (x u ≡ y u)
    → (if t then x else p) u ≡ (if t then y else p) u
then_agree true p x y u (inl e) = absurd (cc)
then_agree true p x y u (inr e) = e
then_agree false p x y u h = refl

pub pure-Ends :
    {A : Type 0} (P : A → World → Type 0) (a : A) (w : World) → P a w → Ends P (pure a) w
unfolding pure
pure-Ends P a w h = h

module _ {A B : Type 0} (Q : A → World → Type 0) where
  continue-Ends :
      (P : B → World → Type 0) (f : A → Exec B) (r : Result A) (v : World)
      → OnOk (λ a. Q a v) r
      → ((a : A) (u : World) → Q a u → Ends P (f a) u)
      → OnOk (λ b. P b (continue r f v).1) (continue r f v).0
  continue-Ends P f (ok a) v q h = h a v q
  continue-Ends P f (err e) v q h = tt

  pub bind-Ends :
      (P : B → World → Type 0) (m : Exec A) (f : A → Exec B) (w : World)
      → Ends Q m w
      → ((a : A) (u : World) → Q a u → Ends P (f a) u)
      → Ends P (m >>= f) w
  unfolding ◌>>=◌
  bind-Ends P m f w q h = continue-Ends P f (m w).0 (m w).1 q h

  continue_agree :
      (f g : A → Exec B) (r : Result A) (v : World)
      → OnOk (λ a. Q a v) r
      → ((a : A) (u : World) → Q a u → f a u ≡ g a u)
      → continue r f v ≡ continue r g v
  continue_agree f g (ok a) v q h = h a v q
  continue_agree f g (err e) v q h = refl

  bind_agree :
      (m : Exec A) (f g : A → Exec B) (w : World)
      → Ends Q m w
      → ((a : A) (u : World) → Q a u → f a u ≡ g a u)
      → (m >>= f) w ≡ (m >>= g) w
  unfolding ◌>>=◌
  bind_agree m f g w q h = continue_agree f g (m w).0 (m w).1 q h

-- the rounds that can follow: the articles that wait, and the time that is left
abbrev pub left : ℕ → Batch → World → ℕ
left deadline b w = length b.pending + (deadline - w.now)

-- an attempt that began at some instant: the clock did not go back, and what may be retried was a
-- call of the extraction service or took time
abbrev pub Tried : ℕ → Bool × Extracted → World → Type 0
Tried t (called, got body) v = t ≤ v.now
Tried t (called, lost f) v =
    (t ≤ v.now) × (((is_retry_code f.code && f.retryable) ≡ false) ⊎ (called ≡ true) ⊎ (t < v.now))

-- the end of a round: it ends the loop, or time has passed, if it calls for a gap
abbrev Rested : ℕ → Bool → Batch → Bool → World → Type 0
Rested t called b more v =
    (t ≤ v.now) × ((more ≡ false) ⊎ ((ltb 0 (length b.pending) && called) ≡ false) ⊎ (t < v.now))

module _ (cfg : Settings) (sid job_id token keys : ℕ) (get_news : ℕ → Option Article)
    (attempt : ℕ → ℕ → Bool → Article → Exec (Bool × Extracted)) (sleep : ℕ → Exec (Unit {0}))
    (works : (k d : ℕ) (c : Bool) (a : Article) (w : World)
      → Ends (Tried w.now) (attempt k d c a) w)
    (sleeps : (gap : ℕ) (w : World) → w.now + gap ≤ (sleep gap w).1.now)
    (gap : 1 ≤ cfg.v2_body_request_interval) where
  -- a step that ends the loop, or leaves fewer rounds
  abbrev Shrinks : ℕ → ℕ → Bool × Batch → World → Type 0
  Shrinks deadline before (more, b) v = (more ≡ false) ⊎ (left deadline b v < before)

  rest-Ends :
      (total deadline : ℕ) (called : Bool) (b : Batch) (w : World)
      → Ends
          (Rested w.now called b)
          (rest_of_round cfg sid job_id token keys get_news attempt sleep total deadline called b)
          w
  unfolding rest_of_round
  rest-Ends total deadline called b w =
      let Goal : Bool → World → Type 0 = Rested w.now called b in
      bind-Ends (At w.now) Goal _ _ w
        (always _ (now-update sid job_id token (with_progress (progress_of total b)) w))
        (λ _ u e. bind-Ends (At u.now) Goal clock _ u (clock-Ends u) (λ now v f.
          if_split (λ (m : Exec Bool). Ends Goal m v) (ltb 0 (length b.pending) && called)
            (λ _.
              if_intro (λ (m : Exec Bool). Ends Goal m v)
                (leb (deadline - now) cfg.v2_body_request_interval)
                (pure-Ends Goal false v (omega arith, inl refl))
                (bind-Ends (From (v.now + cfg.v2_body_request_interval)) Goal
                  (sleep cfg.v2_body_request_interval) _ v
                  (always _ (sleeps cfg.v2_body_request_interval v))
                  (λ _ x g. pure-Ends Goal true x (omega arith, inr (inr (omega (arith, gap)))))))
            (λ none_called. pure-Ends Goal true v (omega arith, inr (inl none_called)))))

  left-settled :
      (deadline n : ℕ) (rest : List ℕ) (b : Batch) (a : Article) (e : Bool × Extracted)
      (charged : List ℕ) (w y v : World) (more : Bool)
      → let b' = settled keys n a e.1 (record (taken get_news n rest b) { charged = charged }) in
        w.now < deadline
        → Tried w.now e y
        → Rested y.now e.0 b' more v
        → (more ≡ false) ⊎ (left deadline b' v < suc (length rest) + (deadline - w.now))
  unfolding settled
  left-settled deadline n rest b a (called, got body) charged w y v more h t r =
      inr (omega (arith, r.0, t))
  left-settled deadline n rest b a (called, lost f) charged w y v more h t r =
      elim (Bool-cases (is_retry_code f.code && f.retryable)) [
        | inr ended ↦ inr (ground (arith, ended, t.0, r.0))
        | inl again ↦ ground (arith, again, t.0, t.1, r.0, r.1, length-append rest (n ∷ []))
      ]

  round-Ends :
      (total deadline n : ℕ) (rest : List ℕ) (b : Batch) (w : World)
      → w.now < deadline
      → Ends
          (Shrinks deadline (suc (length rest) + (deadline - w.now)))
          (round cfg sid job_id token keys get_news attempt sleep total deadline n rest b)
          w
  unfolding round
  round-Ends total deadline n rest b w h =
      let Goal : Bool × Batch → World → Type 0 =
        Shrinks deadline (suc (length rest) + (deadline - w.now)) in
      bind-Ends (At w.now) Goal _ _ w (always _ (now-checkpoint cfg sid job_id token w)) (λ _ u e.
        option_split (λ (m : Exec (Bool × Batch)). Ends Goal m u) (article_in get_news n b.articles)
          (λ _.
            bind-Ends (At u.now) Goal _ _ u (always _ (now-checkpoint cfg sid job_id token u))
              (λ _ x f.
                bind-Ends (Rested x.now false (missing n (taken get_news n rest b))) Goal _ _ x
                  (rest-Ends total deadline false (missing n (taken get_news n rest b)) x)
                  (λ more y g.
                    pure-Ends Goal (more, missing n (taken get_news n rest b)) y
                      (inr (omega (arith, g.0))))))
          (λ a _. bind-Ends (At u.now) Goal clock _ u (clock-Ends u) (λ now x f.
            if_intro (λ (m : Exec (Bool × Batch)). Ends Goal m x) (leb deadline now)
              (pure-Ends Goal _ x (inl refl))
              (bind-Ends (Tried x.now) Goal _ _ x
                (works b.key_index deadline (not (elem n b.charged)) a x)
                (λ tried y g.
                  let done =
                    settled keys n a tried.1
                      (record (taken get_news n rest b) { charged = n ∷ b.charged }) in
                  bind-Ends (At y.now) Goal _ _ y (always _ (now-checkpoint cfg sid job_id token y))
                    (λ _ z l.
                      bind-Ends (Rested z.now tried.0 done) Goal _ _ z
                        (rest-Ends total deadline tried.0 done z)
                        (λ more q k. pure-Ends Goal _ q (
                          left-settled deadline n rest b a tried (n ∷ b.charged) w y q more h
                            (subst (λ t. Tried t tried y) (f ∙ e) g)
                            (subst (λ t. Rested t tried.0 done more q) l k)))))))))

  -- The loop of `extract_bodies` ends by itself, where the clock does not go back, a sleep lasts as
  -- long as it is asked to, the gap between requests is not zero, and an attempt that fails and may
  -- be tried again was a call of the extraction service or took time: as many rounds as there are
  -- waiting articles and microseconds left give the result that any number of further rounds gives.
  pub rounds_enough :
      (fuel more total deadline : ℕ) (b : Batch) (w : World)
      → left deadline b w ≤ fuel
      → fuel ≤ more
      → rounds cfg sid job_id token keys get_news attempt sleep more total deadline b w
        ≡ rounds cfg sid job_id token keys get_news attempt sleep fuel total deadline b w
  unfolding rounds
  rounds_enough zero zero total deadline b w h k = refl
  rounds_enough zero (suc more) total deadline b w h k = elim (List-cases b.pending) [
    | inl e ↦ rw e refl
    | inr (n, rest, e) ↦ absurd (omega (arith, ap length e))
  ]
  rounds_enough (suc fuel) zero total deadline b w h k = absurd (omega arith)
  rounds_enough (suc fuel) (suc more) total deadline b w h k = elim (List-cases b.pending) [
    | inl e ↦ rw e refl
    | inr (n, rest, e) ↦ rw e (
        let b' : Batch = record b { pending = n ∷ rest } in
        bind_agree (λ now v. (now ≡ w.now) × (v.now ≡ w.now)) clock _ _ w (clock_now w)
          (λ now u at. if_agree (leb deadline now) (pure b') _ _ u (λ early.
            bind_agree (Shrinks deadline (suc (length rest) + (deadline - u.now)))
              (round cfg sid job_id token keys get_news attempt sleep total deadline n rest b') _ _
              u (round-Ends total deadline n rest b' u (omega (arith, leb→gt deadline now early)))
              (λ stepped v q. then_agree stepped.0 (pure stepped.1) _ _ v (elim q [
                | inl stop ↦ inl stop
                | inr fewer ↦ inr (
                    rounds_enough fuel more total deadline stepped.1 v (omega (arith, ap length e))
                      (omega arith))
              ])))))
  ]

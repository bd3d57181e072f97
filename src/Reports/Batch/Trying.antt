-- ===== src/Reports/Batch/Trying.antt =====
-- `extract_one` (app/v2/reports.py) as an attempt of the queue of `extract_bodies`.
use capstone_backend.Prelude.{
  ℕ, ◌≡◌, ◌≤◌, ◌<◌, ◌==◌, refl, sym, ap, ◌∙◌, inl, inr, Bool, true, false, not, if◌then◌else◌,
  if_intro, option_split, arith,
}
use capstone_backend.Errors.{Result, ok, err, OnOk}
use capstone_backend.Settings.{Settings}
use capstone_backend.Budget
use capstone_backend.Newsmap.Data.{Article, or_else}
use capstone_backend.Reports.Data.{
  Text, Body, extraction_failed, extraction_timeout, article_not_allowed,
}
use capstone_backend.Reports.Saved.{save_body}
use capstone_backend.Reports.Extraction.{
  Extracted, got, lost, Labels, no_labels, labels_late, labels_broke, labelled, Page, text_of,
  refused, late, broke, extract_one, fetch_body, read_page, store_body, cached_body, reserve_budget,
  on_saved, observed_body, failure_of,
}
use capstone_backend.Reports.Batch.Ending.{Tried, Ends, At, always, pure-Ends, bind-Ends}
use capstone_backend.World.{World, Exec, pure, ◌>>=◌}

now-read_page :
    (text_hash : Text → ℕ) (id url : ℕ) (p : Page) (w : World)
    → (read_page text_hash id url p w).1.now ≡ w.now
unfolding read_page observed_body ◌>>=◌
now-read_page text_hash id url (text_of content) w = ground arith
now-read_page text_hash id url (refused c) w = ground arith
now-read_page text_hash id url late w = ground arith
now-read_page text_hash id url broke w = ground arith

now-on_saved_body :
    (text_hash : Text → ℕ) (b : Body) (w : World)
    → (on_saved (save_body text_hash b) w).1.now ≡ w.now
unfolding on_saved
now-on_saved_body text_hash b w = ground arith

called-Tried : (t : ℕ) (r : Extracted) (v : World) → t ≤ v.now → Tried t (true, r) v
called-Tried t (got b) v h = h
called-Tried t (lost f) v h = (h, inr (inl refl))

-- a step after some instant
after :
    {A : Type 0} (t : ℕ) (m : Exec A) (w : World) → t ≤ (m w).1.now → Ends (λ _ v. t ≤ v.now) m w
after t m w h = always (m w).0 h

-- the category service: whether its answer is late
abbrev Answered : ℕ → Labels → World → Type 0
Answered t l v = (t ≤ v.now) × (l ≡ labels_late → t < v.now)

Answered-OnOk :
    (t : ℕ) (r : Result Labels) (v : World)
    → t ≤ v.now
    → (r ≡ ok labels_late → t < v.now)
    → OnOk (λ l. Answered t l v) r
Answered-OnOk t (ok l) v h k = (h, λ e. k (ap ok e))
Answered-OnOk t (err e) v h k = tt

-- what is asked of the services of `extract_one`: the clock does not go back, and an answer of the
-- category service that is late took time
module _ (cfg : Settings) (text_hash : Text → ℕ) (hash : ℕ → ℕ) (labels : ℕ → Exec Labels)
    (page : Exec Page) (job_id : ℕ)
    (labels_run : (url : ℕ) (w : World)
      → (w.now ≤ (labels url w).1.now)
        × ((labels url w).0 ≡ ok labels_late → w.now < (labels url w).1.now))
    (page_runs : (w : World) → w.now ≤ (page w).1.now) where
  Answered-Tried :
      (t : ℕ) (a : Article) (url : ℕ) (l : Labels) (w : World)
      → Answered t l w
      → Ends
          (Tried t)
          (elim l as (λ _. Exec (Bool × Extracted)) [
            | no_labels ↦ pure (false, lost (failure_of a.news_id extraction_failed true))
            | labels_late ↦ pure (false, lost (failure_of a.news_id extraction_timeout true))
            | labels_broke ↦ pure (false, lost (failure_of a.news_id extraction_failed true))
            | labelled allowed ↦
                if not allowed
                then pure (false, lost (failure_of a.news_id article_not_allowed false))
                else (page >>= λ p.
                    read_page text_hash a.news_id url p >>= λ read. pure (true, read))
          ])
          w
  Answered-Tried t a url no_labels w h = pure-Ends (Tried t) _ w (h.0, inl refl)
  Answered-Tried t a url labels_late w h = pure-Ends (Tried t) _ w (h.0, inr (inr (h.1 refl)))
  Answered-Tried t a url labels_broke w h = pure-Ends (Tried t) _ w (h.0, inl refl)
  Answered-Tried t a url (labelled allowed) w h =
      if_intro (λ (m : Exec (Bool × Extracted)). Ends (Tried t) m w) (not allowed)
        (pure-Ends (Tried t) _ w (h.0, inl refl))
        (bind-Ends (λ _ v. t ≤ v.now) (Tried t) page _ w
          (after t page w (omega (arith, h.0, page_runs w)))
          (λ p v k.
            bind-Ends (λ _ u. t ≤ u.now) (Tried t) _ _ v
              (after t (read_page text_hash a.news_id url p) v
                (omega (arith, k, now-read_page text_hash a.news_id url p v)))
              (λ read u l. pure-Ends (Tried t) _ u (called-Tried t read u l))))

  fetch_body-Tried :
      (t : ℕ) (a : Article) (url : ℕ) (w : World)
      → t ≡ w.now
      → Ends (Tried t) (fetch_body text_hash labels page a url) w
  unfolding fetch_body
  fetch_body-Tried t a url w same =
      bind-Ends (Answered t) (Tried t) _ _ w
        (if_intro (λ (m : Exec Labels). Ends (Answered t) m w) (a.naver_url == 0)
          (pure-Ends (Answered t) (labelled true) w (omega arith, λ e. absurd (cc e)))
          (Answered-OnOk t (labels url w).0 (labels url w).1 (omega (arith, (labels_run url w).0))
            (λ e. omega (arith, (labels_run url w).1 e))))
        (λ l v h. Answered-Tried t a url l v h)

  store_body-Tried :
      (t : ℕ) (r : Bool × Extracted) (w : World)
      → Tried t r w
      → Ends (Tried t) (store_body text_hash r) w
  unfolding store_body
  store_body-Tried t (called, lost f) w h = pure-Ends (Tried t) (called, lost f) w h
  store_body-Tried t (called, got b) w h =
      bind-Ends (λ _ v. t ≤ v.now) (Tried t) _ _ w
        (after t (on_saved (save_body text_hash b)) w
          (omega (arith, h, now-on_saved_body text_hash b w)))
        (λ saved v k. pure-Ends (Tried t) (called, got saved) v k)

  now-charge :
      (c : Bool) (w : World)
      → ((if c then reserve_budget cfg hash job_id Budget.body else pure tt) w).1.now ≡ w.now
  unfolding reserve_budget pure
  now-charge true w = ground arith
  now-charge false w = refl

  pub extract_one-Tried :
      (c : Bool) (a : Article) (w : World)
      → Ends (Tried w.now) (extract_one cfg text_hash hash labels page job_id c a) w
  unfolding extract_one cached_body
  extract_one-Tried c a w =
      if_intro (λ (m : Exec (Bool × Extracted)). Ends (Tried w.now) m w)
        (or_else a.naver_url a.url == 0) (pure-Ends (Tried w.now) _ w (omega arith, inl refl))
        (bind-Ends (At w.now) (Tried w.now) (cached_body cfg a.news_id (or_else a.naver_url a.url))
          _ w refl
          (λ cached v e.
            option_split (λ (m : Exec (Bool × Extracted)). Ends (Tried w.now) m v) cached
              (λ _.
                bind-Ends (At w.now) (Tried w.now) _ _ v (always _ (now-charge c v ∙ e)) (λ _ u f.
                  bind-Ends (Tried w.now) (Tried w.now) _ _ u
                    (fetch_body-Tried w.now a (or_else a.naver_url a.url) u (sym f))
                    (λ fetched x k. store_body-Tried w.now fetched x k)))
              (λ b _. pure-Ends (Tried w.now) (false, got b) v (omega (arith, e)))))

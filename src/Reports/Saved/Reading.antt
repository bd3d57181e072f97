-- ===== src/Reports/Saved/Reading.antt =====
-- What a save of app/v2/persistence.py makes readable.
use mathlib.Core.Path.{subst}
use capstone_backend.Prelude.{
  ℕ, ◌≡◌, refl, Bool, true, false, none, some, List, [], ◌∷◌, any, find, ◌==◌, ==_refl, All,
  Bool-cases, inl, inr, if_split, option_split, arith,
}
use capstone_backend.Errors.{Result, ok, OnOk, OnOk_at}
use capstone_backend.Reports.Data.{Text, ReportDoc}
use capstone_backend.Reports.Saved.{
  Saved, is_report, is_reusable, is_sound, report, reusable_report, insert_report, save_report,
}
use capstone_backend.Reports.Saved.Grounded.{IsGrounded, is_sound-IsGrounded}
use capstone_backend.Reports.Saved.Keeping.{IsConsistent}
use capstone_backend.Reports.Saved.Unique.{find-added}

any-report :
    (id : ℕ) (rs : List ReportDoc)
    → any (λ (r : ReportDoc). r.report_id == id) rs ≡ false
    → any (is_report id) rs ≡ false
any-report id [] h = refl
any-report id (r ∷ rs) h = ground (arith, any-report id rs)

pub find_all {ℓ} :
    {A : Type ℓ} (P : A → Type 0) (p : A → Bool) (xs : List A) (x : A)
    → All P xs
    → find p xs ≡ some x
    → P x
find_all P p [] x h e = absurd (cc)
find_all P p (y ∷ xs) x h e = elim (Bool-cases (p y)) [
  | inl q ↦ subst P (cc (q, e)) h.0
  | inr q ↦ find_all P p xs x h.1 (cc (q, e))
]

any-find {ℓ} : {A : Type ℓ} (p : A → Bool) (xs : List A) → find p xs ≡ none → any p xs ≡ false
any-find p [] h = refl
any-find p (x ∷ xs) h = ground (arith, any-find p xs)

abbrev pub GivesGrounded : Result (ReportDoc × Bool) × Saved → Type 0
GivesGrounded q = OnOk (λ (p : ReportDoc × Bool). IsGrounded q.1.news_bodies p.0) q.0

module _ (doc : ReportDoc) (s : Saved) where
  -- A report that was stored, not replaced by an older one, is read back under its id.
  pub report-save_report :
      (r : ReportDoc)
      → doc.schema_version ≡ 2
      → (save_report doc s).0 ≡ ok (r, false)
      → (r ≡ doc) × (report doc.report_id (save_report doc s).1 ≡ some doc)
  unfolding save_report insert_report report reusable_report
  report-save_report r h e = ground (
    arith,
    any-report doc.report_id s.reports,
    find-added (is_report doc.report_id) doc s.reports,
  )

  -- what `save_report` returns is grounded in the bodies stored then
  pub save_report-GivesGrounded :
      (sha256 : Text → ℕ) → IsConsistent sha256 s → GivesGrounded (save_report doc s)
  unfolding save_report insert_report reusable_report
  save_report-GivesGrounded sha256 v =
      if_split GivesGrounded (is_sound s doc)
        (λ sound.
          let mine = is_sound-IsGrounded s doc sound in
          if_split GivesGrounded (any (λ (r : ReportDoc). r.report_id == doc.report_id) s.reports)
            (λ _. tt)
            (λ _.
              if_split GivesGrounded doc.reuse_eligible
                (λ _.
                  option_split GivesGrounded (find (is_reusable doc.generation_key) s.reports)
                    (λ _. mine)
                    (λ old found.
                      find_all (IsGrounded s.news_bodies) (is_reusable doc.generation_key) s.reports
                        old v.grounded found))
                (λ _. mine)))
        (λ _. tt)

  -- What `save_report` returns, new or reused, is grounded in the stored bodies, when the store was
  -- consistent.
  pub save_report-IsGrounded :
      (sha256 : Text → ℕ) (r : ReportDoc) (reused : Bool)
      → IsConsistent sha256 s
      → (save_report doc s).0 ≡ ok (r, reused)
      → IsGrounded (save_report doc s).1.news_bodies r
  save_report-IsGrounded sha256 r reused v e =
      OnOk_at (λ (p : ReportDoc × Bool). IsGrounded (save_report doc s).1.news_bodies p.0)
        (save_report doc s).0 (r, reused) (save_report-GivesGrounded sha256 v) e

  -- A report that may be reused is found by its generation key after its save.
  pub reusable_report-save_report :
      (r : ReportDoc) (reused : Bool)
      → doc.schema_version ≡ 2
      → doc.reuse_eligible ≡ true
      → (save_report doc s).0 ≡ ok (r, reused)
      → reusable_report doc.generation_key (save_report doc s).1 ≡ some r
  unfolding save_report insert_report reusable_report
  reusable_report-save_report r reused h k e = ground (
    arith,
    ==_refl doc.generation_key,
    any-find (is_reusable doc.generation_key) s.reports,
    find-added (is_reusable doc.generation_key) doc s.reports,
  )

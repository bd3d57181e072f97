-- ===== src/Examples/Pipeline.antt =====
-- A report job whose one article is read and analysed (app/v2/reports.py).
use capstone_backend.Prelude.{
  ℕ, ◌+◌, ◌≡◌, refl, Bool, true, false, Option, none, some, List, [], ◌∷◌, arith,
}
use capstone_backend.Errors.{Result, ok, err, OnOk, is_ok}
use capstone_backend.Clock.{ticks}
use capstone_backend.Settings.{Settings}
use capstone_backend.Session.{existing}
use capstone_backend.Newsmap.Data.{Article}
use capstone_backend.Jobs.Data.{Warning}
use capstone_backend.Reports.Data.{ReportDoc}
use capstone_backend.Reports.Saved.{save_body, save_report}
use capstone_backend.Reports.Saved.Grounded.{IsGrounded}
use capstone_backend.Reports.Saved.Keeping.{
  IsConsistent, of_body, of_report, saved_all, saved_all-IsConsistent,
}
use capstone_backend.Reports.Extraction.{
  Extracted, got, Labels, labels_late, Page, text_of, extract_one,
}
use capstone_backend.Reports.Batch.{Bodies, rounds, first_batch, extract_bodies}
use capstone_backend.Reports.Batch.Accounting.{IsSplit, extract_bodies-IsSplit}
use capstone_backend.Reports.Batch.Trying.{extract_one-Tried}
use capstone_backend.Reports.Batch.Ending.{rounds_enough}
use capstone_backend.Reports.Pipeline.{Services, make_report}
use capstone_backend.Reports.Pipeline.Keeping.{KeepsSaved}
use capstone_backend.Reports.Pipeline.Reporting.{make_report-IsGrounded}
use capstone_backend.Reports.Writing.{empty}
use capstone_backend.World.{World, Exec, ◌>>=◌}
use capstone_backend.State.{session}
use capstone_backend.Examples.{cfg, article}
use capstone_backend.Examples.Reports.{job, busy_world}
use capstone_backend.Examples.Saving.{
  digest, body_of, one_body, output, report_doc, nothing_saved, nothing_saved-IsConsistent,
}

-- one microsecond for each request; the body of the article 11 is stored, others are lost
abbrev try : ℕ → ℕ → Bool → Article → Exec (Bool × Extracted)
try k d c a w = (ok (false, got (body_of 11)), record w { now = w.now + 1 })

abbrev pause : ℕ → Exec (Unit {0})
pause gap w = (ok tt, record w { now = w.now + gap })

abbrev known : ℕ → Option Article
known id = some (article id)

abbrev pub services : Services
services = record {
  get_news = known;
  keys = 1;
  attempt = try;
  sleep = pause;
  rag_rows = λ id n w. (ok [], w);
  analysis = λ e r w. (ok (some output), w);
  critic = λ o e r w. (ok none, w);
  strategist = λ r o w. (ok empty, w);
  notes = record { disabled = 1; unreadable = 2; ungrounded = 3 };
  text_hash = digest;
  job_hash = λ id. id;
  report_digest = λ parts. 88;
  strategy_digest = λ id key o c. 89;
  generation = 5;
  strategy_config = 6;
  client_key = λ host. 0;
  fuel = 3;
}

services-KeepsSaved : KeepsSaved digest services
services-KeepsSaved = record {
  attempt = λ k d c a w v. (v, tt);
  sleep = λ gap w v. (v, tt);
  rag_rows = λ id n w v. (v, tt);
  analysis = λ e r w v. (v, tt);
  critic = λ o e r w v. (v, tt);
}

abbrev reading_world : World
reading_world = record busy_world { saved = one_body }

abbrev bodies_in : Result Bodies → Bodies
bodies_in (ok r) = r
bodies_in (err e) = record { successes = []; failures = []; articles = [] }

abbrev read : Bodies
read = bodies_in (extract_bodies cfg 8 6 40 1 known try pause 3 (11 ∷ []) reading_world).0

reads : (extract_bodies cfg 8 6 40 1 known try pause 3 (11 ∷ []) reading_world).0 ≡ ok read
unfolding extract_bodies ◌>>=◌ session existing
reads = refl

extract_bodies-IsSplit_example : IsSplit (11 ∷ []) read
extract_bodies-IsSplit_example =
    extract_bodies-IsSplit cfg 8 6 40 1 known try pause 3 (11 ∷ []) reading_world read refl reads

-- `extract_one` where the category service takes a microsecond and the extraction service none
abbrev seen : ℕ → Exec Labels
seen url w = (ok labels_late, record w { now = w.now + 1 })

abbrev blank_page : Exec Page
blank_page w = (ok (text_of []), w)

abbrev reading : ℕ → ℕ → Bool → Article → Exec (Bool × Extracted)
reading k deadline c a = extract_one cfg digest (λ id. id) seen blank_page 6 c a

rounds_enough_example :
    rounds cfg 8 6 40 1 known reading pause 9 1 (ticks 50 + 2) (first_batch (11 ∷ [])) reading_world
    ≡ rounds cfg 8 6 40 1 known reading pause 3 1
        (ticks 50 + 2)
        (first_batch (11 ∷ []))
        reading_world
rounds_enough_example =
    rounds_enough cfg 8 6 40 1 known reading pause
      (λ k d c a w.
        extract_one-Tried cfg digest (λ id. id) seen blank_page 6
          (λ url v. (omega arith, λ e. omega arith)) (λ v. omega arith) c a w)
      (λ gap w. omega arith) (omega arith) 3 9 1 (ticks 50 + 2) (first_batch (11 ∷ []))
      reading_world (omega arith) (omega arith)

-- without reference articles and without a critic
abbrev plain : Settings
plain = record cfg { use_rag = false; use_critic = false }

-- the store of a job that ran before
abbrev reusing_world : World
reusing_world = record busy_world {
  saved = saved_all digest (of_body (body_of 11) ∷ of_report report_doc ∷ []) nothing_saved;
}

reuses : is_ok (make_report plain services 8 6 40 job reusing_world).0 ≡ true
unfolding make_report ◌>>=◌ session existing save_body save_report
reuses = refl

make_report-IsGrounded_example :
    let r = make_report plain services 8 6 40 job reusing_world in
    IsConsistent digest r.1.saved
    × OnOk (λ (made : ReportDoc × Bool × List Warning). IsGrounded r.1.saved.news_bodies made.0) r.0
make_report-IsGrounded_example =
    make_report-IsGrounded digest plain services services-KeepsSaved 8 6 40 job reusing_world (
      saved_all-IsConsistent digest (of_body (body_of 11) ∷ of_report report_doc ∷ []) nothing_saved
        nothing_saved-IsConsistent)

-- ===== src/Reports/Saved/Keeping.antt =====
-- The invariant of the store of app/v2/persistence.py through every save.
use mathlib.Core.Path.{subst}
use capstone_backend.Prelude.{
  ℕ, ◌≤◌, ◌≡◌, ◌⊎◌, true, false, none, some, List, [], ◌∷◌, ◌++◌, length, any, find, keep, All,
  All_map, All-append, Bool-cases, option_split, and_both, inl, inr, ◌==◌, ==_iff, ◌&&◌, if_split,
  arith,
}
use capstone_backend.Errors.{Result}
use capstone_backend.Reports.Data.{Text, Body, Evidence, ReportDoc, StrategyDoc}
use capstone_backend.Reports.Saved.{
  Saved, is_reusable, is_reusable_strategy, report, reusable_report, reusable_strategy, insert_body,
  insert_report, insert_strategy, save_body, save_report, save_strategy,
}
use capstone_backend.Reports.Saved.Grounded.{IsQuoted, IsGrounded, is_sound-IsGrounded}
use capstone_backend.Reports.Saved.Unique.{length-keep-add, keep-none, find-add, one-each}

-- the report of a strategy is stored, under the key that the strategy names
pub record HasReport (s : Saved) (doc : StrategyDoc) : Type 0 where
  pub parent : ReportDoc
  pub stored : report doc.report_id s ≡ some parent
  pub key : parent.generation_key ≡ doc.report_generation_key

-- Ids of bodies, of reports and of strategies are unique, no two reports that may be reused and no two strategies share a generation key,
-- the hashes of bodies are right, reports are grounded, and each strategy's report is stored.
pub record IsConsistent (sha256 : Text → ℕ) (s : Saved) : Type 0 where
  pub body_ids : (id : ℕ) → length (keep (λ (b : Body). b.body_id == id) s.news_bodies) ≤ 1
  pub report_ids : (id : ℕ) → length (keep (λ (r : ReportDoc). r.report_id == id) s.reports) ≤ 1
  pub strategy_ids :
      (id : ℕ) → length (keep (λ (d : StrategyDoc). d.strategy_id == id) s.strategies) ≤ 1
  pub report_keys : (key : ℕ) → length (keep (is_reusable key) s.reports) ≤ 1
  pub strategy_keys : (key : ℕ) → length (keep (is_reusable_strategy key) s.strategies) ≤ 1
  pub hashes : All (λ (b : Body). sha256 b.content ≡ b.content_hash) s.news_bodies
  pub grounded : All (IsGrounded s.news_bodies) s.reports
  pub parents : All (HasReport s) s.strategies

reusable_parts :
    (key : ℕ) (doc : ReportDoc)
    → is_reusable key doc ≡ true
    → (doc.generation_key ≡ key) × (doc.reuse_eligible ≡ true)
reusable_parts key doc h =
    let parts = and_both (doc.generation_key == key && doc.schema_version == 2) _ h in
    ((==_iff doc.generation_key key).0 (and_both _ _ parts.0).0, parts.1)

reusable_strategy_key :
    (key : ℕ) (doc : StrategyDoc) → is_reusable_strategy key doc ≡ true → doc.generation_key ≡ key
reusable_strategy_key key doc h =
    (==_iff doc.generation_key key).0 (and_both (doc.generation_key == key) _ h).0

module _ (bodies : List Body) (b : Body) where
  IsQuoted-add : (e : Evidence) → IsQuoted bodies e → IsQuoted (bodies ++ (b ∷ [])) e
  IsQuoted-add e q = record {
    source = q.source;
    rest = q.rest;
    stored = find-add _ b q.source bodies q.stored;
    quoted = q.quoted;
    article = q.article;
  }

  IsGrounded-add : (doc : ReportDoc) → IsGrounded bodies doc → IsGrounded (bodies ++ (b ∷ [])) doc
  IsGrounded-add doc g = record {
    some_used = g.some_used;
    split = g.split;
    apart = g.apart;
    quotes = All_map _ _ doc.used_evidence IsQuoted-add g.quotes;
    whole = g.whole;
  }

abbrev KeepsConsistent : (Text → ℕ) → {A : Type 0} → Result A × Saved → Type 0
KeepsConsistent sha256 r = IsConsistent sha256 r.1

module _ (sha256 : Text → ℕ) (s : Saved) (v : IsConsistent sha256 s) where
  insert_body-IsConsistent :
      (doc : Body)
      → sha256 doc.content ≡ doc.content_hash
      → IsConsistent sha256 (insert_body doc s).1
  unfolding insert_body report
  insert_body-IsConsistent doc h =
      if_split (KeepsConsistent sha256) (any (λ (b : Body). b.body_id == doc.body_id) s.news_bodies)
        (λ _. v)
        (λ fresh. record {
          body_ids = one-each (λ (b : Body). b.body_id) doc s.news_bodies fresh v.body_ids;
          report_ids = v.report_ids;
          strategy_ids = v.strategy_ids;
          report_keys = v.report_keys;
          strategy_keys = v.strategy_keys;
          hashes = All-append _ s.news_bodies (doc ∷ []) v.hashes (h, tt);
          grounded = All_map _ _ s.reports (IsGrounded-add s.news_bodies doc) v.grounded;
          parents =
              All_map _ _ s.strategies
                (λ d p. record { parent = p.parent; stored = p.stored; key = p.key }) v.parents;
        })

  HasReport-add :
      (doc : ReportDoc) (d : StrategyDoc)
      → HasReport s d
      → HasReport (record s { reports = s.reports ++ (doc ∷ []) }) d
  unfolding report
  HasReport-add doc d p = record {
    parent = p.parent;
    stored = find-add _ doc p.parent s.reports p.stored;
    key = p.key;
  }

  added_report-IsConsistent :
      (doc : ReportDoc)
      → IsGrounded s.news_bodies doc
      → any (λ (r : ReportDoc). r.report_id == doc.report_id) s.reports ≡ false
      → (doc.reuse_eligible ≡ false) ⊎ (find (is_reusable doc.generation_key) s.reports ≡ none)
      → IsConsistent sha256 (record s { reports = s.reports ++ (doc ∷ []) })
  added_report-IsConsistent doc g fresh free = record {
    body_ids = v.body_ids;
    report_ids = one-each (λ (r : ReportDoc). r.report_id) doc s.reports fresh v.report_ids;
    strategy_ids = v.strategy_ids;
    report_keys = λ key. elim (Bool-cases (is_reusable key doc)) [
      | inr e ↦ ground (arith, length-keep-add (is_reusable key) doc s.reports, v.report_keys key)
      | inl e ↦ elim free [
        | inl partial ↦ absurd (cc ((reusable_parts key doc e).1, partial))
        | inr none_yet ↦
            subst (λ k. length (keep (is_reusable k) (s.reports ++ (doc ∷ []))) ≤ 1)
              (reusable_parts key doc e).0
              (ground (
                arith,
                length-keep-add (is_reusable doc.generation_key) doc s.reports,
                keep-none _ s.reports none_yet,
              ))
      ]
    ];
    strategy_keys = v.strategy_keys;
    hashes = v.hashes;
    grounded = All-append _ s.reports (doc ∷ []) v.grounded (g, tt);
    parents = All_map _ _ s.strategies (HasReport-add doc) v.parents;
  }

  insert_report-IsConsistent :
      (doc : ReportDoc) → IsGrounded s.news_bodies doc → IsConsistent sha256 (insert_report doc s).1
  unfolding insert_report reusable_report
  insert_report-IsConsistent doc g =
      if_split (KeepsConsistent sha256) _ (λ _. v)
        (λ fresh.
          if_split (KeepsConsistent sha256) doc.reuse_eligible
            (λ _.
              option_split (KeepsConsistent sha256) _
                (λ free. added_report-IsConsistent doc g fresh (inr free)) (λ _ _. v))
            (λ partial. added_report-IsConsistent doc g fresh (inl partial)))

  added_strategy-IsConsistent :
      (doc : StrategyDoc)
      → HasReport s doc
      → any (λ (r : StrategyDoc). r.strategy_id == doc.strategy_id) s.strategies ≡ false
      → find (is_reusable_strategy doc.generation_key) s.strategies ≡ none
      → IsConsistent sha256 (record s { strategies = s.strategies ++ (doc ∷ []) })
  unfolding report
  added_strategy-IsConsistent doc p fresh free = record {
    body_ids = v.body_ids;
    report_ids = v.report_ids;
    strategy_ids =
        one-each (λ (r : StrategyDoc). r.strategy_id) doc s.strategies fresh v.strategy_ids;
    report_keys = v.report_keys;
    strategy_keys = λ key. elim (Bool-cases (is_reusable_strategy key doc)) [
      | inr e ↦
          ground (
            arith,
            length-keep-add (is_reusable_strategy key) doc s.strategies,
            v.strategy_keys key,
          )
      | inl e ↦
          subst (λ k. length (keep (is_reusable_strategy k) (s.strategies ++ (doc ∷ []))) ≤ 1)
            (reusable_strategy_key key doc e)
            (ground (
              arith,
              length-keep-add (is_reusable_strategy doc.generation_key) doc s.strategies,
              keep-none _ s.strategies free,
            ))
    ];
    hashes = v.hashes;
    grounded = v.grounded;
    parents =
        All-append _ s.strategies (doc ∷ [])
          (All_map _ _ s.strategies
            (λ d q. record { parent = q.parent; stored = q.stored; key = q.key }) v.parents)
          (record { parent = p.parent; stored = p.stored; key = p.key }, tt);
  }

  insert_strategy-IsConsistent :
      (doc : StrategyDoc) → HasReport s doc → IsConsistent sha256 (insert_strategy doc s).1
  unfolding insert_strategy reusable_strategy
  insert_strategy-IsConsistent doc p =
      if_split (KeepsConsistent sha256)
        (any (λ (r : StrategyDoc). r.strategy_id == doc.strategy_id) s.strategies) (λ _. v)
        (λ fresh.
          option_split (KeepsConsistent sha256)
            (find (is_reusable_strategy doc.generation_key) s.strategies)
            (added_strategy-IsConsistent doc p fresh) (λ _ _. v))

  pub save_body-IsConsistent : (doc : Body) → IsConsistent sha256 (save_body sha256 doc s).1
  unfolding save_body
  save_body-IsConsistent doc =
      if_split (KeepsConsistent sha256) _ (λ _. v)
        (λ good. insert_body-IsConsistent doc ((==_iff _ _).0 (ground arith)))

  pub save_report-IsConsistent : (doc : ReportDoc) → IsConsistent sha256 (save_report doc s).1
  unfolding save_report
  save_report-IsConsistent doc =
      if_split (KeepsConsistent sha256) _
        (λ sound. insert_report-IsConsistent doc (is_sound-IsGrounded s doc sound)) (λ _. v)

  save_strategy-IsConsistent : (doc : StrategyDoc) → IsConsistent sha256 (save_strategy doc s).1
  unfolding save_strategy
  save_strategy-IsConsistent doc =
      option_split (KeepsConsistent sha256) _ (λ _. v)
        (λ parent e.
          if_split (KeepsConsistent sha256) _
            (λ same.
              insert_strategy-IsConsistent doc
                (record { parent = parent; stored = e; key = (==_iff _ _).0 same }))
            (λ _. v))

-- One save of any kind, and any sequence of them.
pub data Save : Type 0 where
  of_body : Body → Save
  of_report : ReportDoc → Save
  of_strategy : StrategyDoc → Save

abbrev pub saved : (Text → ℕ) → Save → Saved → Saved
saved sha256 (of_body doc) s = (save_body sha256 doc s).1
saved sha256 (of_report doc) s = (save_report doc s).1
saved sha256 (of_strategy doc) s = (save_strategy doc s).1

abbrev pub saved_all : (Text → ℕ) → List Save → Saved → Saved
saved_all sha256 [] s = s
saved_all sha256 (x ∷ xs) s = saved_all sha256 xs (saved sha256 x s)

saved-IsConsistent :
    (sha256 : Text → ℕ) (x : Save) (s : Saved)
    → IsConsistent sha256 s
    → IsConsistent sha256 (saved sha256 x s)
saved-IsConsistent sha256 (of_body doc) s v = save_body-IsConsistent sha256 s v doc
saved-IsConsistent sha256 (of_report doc) s v = save_report-IsConsistent sha256 s v doc
saved-IsConsistent sha256 (of_strategy doc) s v = save_strategy-IsConsistent sha256 s v doc

-- Saves of any documents, accepted or refused, keep a consistent store consistent: ids of bodies,
-- of reports and of strategies stay unique, at most one reusable report and one strategy has a
-- generation key, the hashes of bodies are right, every report is grounded in stored bodies, and
-- the report of every strategy is stored.
pub saved_all-IsConsistent :
    (sha256 : Text → ℕ) (xs : List Save) (s : Saved)
    → IsConsistent sha256 s
    → IsConsistent sha256 (saved_all sha256 xs s)
saved_all-IsConsistent sha256 [] s v = v
saved_all-IsConsistent sha256 (x ∷ xs) s v =
    saved_all-IsConsistent sha256 xs _ (saved-IsConsistent sha256 x s v)

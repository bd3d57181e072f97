-- ===== src/Reports/Saved/Grounded.antt =====
-- What the checks of `save_report` (app/v2/persistence.py) establish about a report.
use mathlib.Core.Path.{subst}
use capstone_backend.Prelude.{
  ℕ, ◌<◌, ◌≡◌, ◌⊎◌, inl, inr, refl, Bool, true, false, ◌&&◌, ◌||◌, Option, some, none, List, [],
  ◌∷◌, ◌++◌, length, all, find, elem, elem-append, distinct, All, All_map, and_both, not, sym, ltb,
  ==_iff, ◌==◌, Bool-cases, arith,
}
use capstone_backend.Reports.Data.{Text, Body, Evidence, Failure, ReportDoc}
use capstone_backend.Reports.Saved.{
  Saved, is_body, used_ids, failed_ids, subset, is_sound, starts_with, has_body, matches,
}

-- the text of a stored body begins with what the report quotes
pub record IsQuoted (bodies : List Body) (e : Evidence) : Type 0 where
  pub source : Body
  pub rest : Text
  pub stored : find (is_body e.body_id) bodies ≡ some source
  pub quoted : source.content ≡ e.input_excerpt ++ rest
  pub article : source.news_id ≡ e.news_id

-- A grounded report: each requested article is either used or failed and nothing else is, some
-- article is used, each excerpt begins a stored body of its article, and a report that may be
-- reused lacks no article.
pub record IsGrounded (bodies : List Body) (doc : ReportDoc) : Type 0 where
  pub some_used : 0 < length doc.used_evidence
  pub split :
      (n : ℕ) → elem n doc.requested_news_ids ≡ (elem n (used_ids doc) || elem n (failed_ids doc))
  pub apart : All (λ n. elem n (failed_ids doc) ≡ false) (used_ids doc)
  pub quotes : All (IsQuoted bodies) doc.used_evidence
  pub whole : (doc.reuse_eligible ≡ false) ⊎ (doc.failed_evidence ≡ [])

all-true {ℓ} :
    {A : Type ℓ} (p : A → Bool) (x : A) (xs : List A)
    → all p (x ∷ xs) ≡ true
    → (p x ≡ true) × (all p xs ≡ true)
all-true p x xs h = and_both (p x) (all p xs) h

elem-subset : (n : ℕ) (xs ys : List ℕ) → subset xs ys ≡ true → elem n xs ≡ true → elem n ys ≡ true
elem-subset n [] ys h k = absurd (cc)
elem-subset n (x ∷ xs) ys h k =
    let parts = all-true (λ z. elem z ys) x xs h in
    elim (Bool-cases (n == x)) [
      | inl e ↦ subst (λ z. elem z ys ≡ true) (sym ((==_iff n x).0 e)) parts.0
      | inr e ↦ elem-subset n xs ys parts.1 (ground arith)
    ]

-- two lists that contain each other have the same members
elem-same :
    (n : ℕ) (xs ys : List ℕ) → subset xs ys ≡ true → subset ys xs ≡ true → elem n xs ≡ elem n ys
elem-same n xs ys h k = elim (Bool-cases (elem n xs)) [
  | inl e ↦ cc (e, elem-subset n xs ys h e)
  | inr e ↦ elim (Bool-cases (elem n ys)) [
    | inl f ↦ absurd (cc (e, elem-subset n ys xs k f))
    | inr f ↦ cc (e, f)
  ]
]

distinct-append : (xs ys : List ℕ) → distinct (xs ++ ys) ≡ true → All (λ n. elem n ys ≡ false) xs
distinct-append [] ys h = tt
distinct-append (x ∷ xs) ys h =
    (ground (arith, elem-append x xs ys), distinct-append xs ys (ground arith))

starts_with_lem : (cs ds : Text) → starts_with cs ds ≡ true → (rest : Text) × (ds ≡ cs ++ rest)
starts_with_lem [] ds h = (ds, refl)
starts_with_lem (c ∷ cs) [] h = absurd (cc)
starts_with_lem (c ∷ cs) (d ∷ ds) h =
    let parts = and_both (c == d) (starts_with cs ds) h in
    let found = starts_with_lem cs ds parts.1 in (found.0, cc ((==_iff c d).0 parts.0, found.1))

matches_parts :
    (e : Evidence) (b : Body)
    → matches e b ≡ true
    → ((b.news_id == e.news_id) ≡ true) × (starts_with e.input_excerpt b.content ≡ true)
matches_parts e b h =
    let last = and_both _ _ h in
    let quoted = and_both _ _ last.0 in
    let page = and_both _ _ quoted.0 in let hash = and_both _ _ page.0 in (hash.0, quoted.1)

sound_parts :
    (s : Saved) (doc : ReportDoc)
    → is_sound s doc ≡ true
    → (not (length doc.used_evidence == 0) ≡ true)
      × (distinct (used_ids doc ++ failed_ids doc) ≡ true)
      × (subset doc.requested_news_ids (used_ids doc ++ failed_ids doc) ≡ true)
      × (subset (used_ids doc ++ failed_ids doc) doc.requested_news_ids ≡ true)
      × (not (doc.reuse_eligible && ltb 0 (length doc.failed_evidence)) ≡ true)
      × (all (has_body s.news_bodies) doc.used_evidence ≡ true)
sound_parts s doc h =
    let bodies = and_both _ _ h in
    let reuse = and_both _ _ bodies.0 in
    let stocks = and_both _ _ reuse.0 in
    let counts = and_both _ _ stocks.0 in
    let partition = and_both _ _ (and_both _ _ counts.0).0 in
    let apart = and_both _ _ partition.0 in
    let same = and_both _ _ partition.1 in
    ((and_both _ _ apart.0).0, apart.1, same.0, same.1, reuse.1, bodies.1)

whole_of :
    (fs : List Failure) (b : Bool) → not (b && ltb 0 (length fs)) ≡ true → (b ≡ false) ⊎ (fs ≡ [])
whole_of [] b h = inr refl
whole_of (f ∷ fs) true h = absurd (ground arith)
whole_of (f ∷ fs) false h = inl refl

body_of :
    (e : Evidence) (o : Option Body)
    → (elim o [ none ↦ false | some b ↦ matches e b ]) ≡ true
    → (b : Body) × (o ≡ some b) × (matches e b ≡ true)
body_of e none h = absurd (cc)
body_of e (some b) h = (b, refl, h)

has_body-IsQuoted :
    (bodies : List Body) (e : Evidence) → has_body bodies e ≡ true → IsQuoted bodies e
has_body-IsQuoted bodies e h =
    let found = body_of e (find (is_body e.body_id) bodies) h in
    let parts = matches_parts e found.0 found.2 in
    let tail = starts_with_lem e.input_excerpt found.0.content parts.1 in
    record {
      source = found.0;
      rest = tail.0;
      stored = found.1;
      quoted = tail.1;
      article = (==_iff found.0.news_id e.news_id).0 parts.0;
    }

All_all {ℓ} : {A : Type ℓ} (p : A → Bool) (xs : List A) → all p xs ≡ true → All (λ x. p x ≡ true) xs
All_all p [] h = tt
All_all p (x ∷ xs) h = let parts = all-true p x xs h in (parts.0, All_all p xs parts.1)

-- A report that passes the checks of `save_report` is grounded in the stored bodies.
pub is_sound-IsGrounded :
    (s : Saved) (doc : ReportDoc) → is_sound s doc ≡ true → IsGrounded s.news_bodies doc
is_sound-IsGrounded s doc h =
    let parts = sound_parts s doc h in
    record {
      some_used = ground (arith, parts.0);
      split = λ n. cc (
        elem-same n doc.requested_news_ids (used_ids doc ++ failed_ids doc) parts.2 parts.3,
        elem-append n (used_ids doc) (failed_ids doc),
      );
      apart = distinct-append (used_ids doc) (failed_ids doc) parts.1;
      quotes =
          All_map _ _ doc.used_evidence (has_body-IsQuoted s.news_bodies)
            (All_all (has_body s.news_bodies) doc.used_evidence parts.5);
      whole = whole_of doc.failed_evidence doc.reuse_eligible parts.4;
    }

-- ===== src/Reports/Excerpt/Bounds.antt =====
-- How much a job quotes (`excerpt`, `prepare_evidence` and `rag_evidence` of app/v2/reports.py).
use native.Mathlib.Nat.{mul-div-le, mul-le-mul_left}
use mathlib.Core.Path.{subst}
use capstone_backend.Prelude.{
  ℕ, zero, suc, ◌+◌, ◌*◌, ◌/◌, ◌≤◌, ◌≡◌, refl, sym, ap, Bool, true, false, ◌∷◌, [], ◌++◌, List,
  none, map, length, length-append, elem, leb, leb→le, if_split, if_intro, arith,
}
use capstone_backend.Newsmap.Data.{Article}
use capstone_backend.Reports.Data.{Text, Body, Evidence, RagEvidence}
use capstone_backend.Reports.Excerpt.{
  take, rstrip, is_space, cut_of, strip_cons, last_boundary, excerpt, insert_pair, sort_pairs,
  share, evidence_of, prepare_evidence, RagRow, rag_rows, rag_evidence,
}

-- the beginning of a text
abbrev pub IsPrefix : Text → Text → Type 0
IsPrefix xs ys = (rest : Text) × (ys ≡ xs ++ rest)

append_assoc : (xs ys zs : Text) → (xs ++ ys) ++ zs ≡ xs ++ (ys ++ zs)
append_assoc [] ys zs = refl
append_assoc (x ∷ xs) ys zs = ap (λ t. x ∷ t) (append_assoc xs ys zs)

append_nil : (xs : Text) → xs ++ [] ≡ xs
append_nil [] = refl
append_nil (x ∷ xs) = ap (λ t. x ∷ t) (append_nil xs)

IsPrefix-trans : (xs ys zs : Text) → IsPrefix xs ys → IsPrefix ys zs → IsPrefix xs zs
IsPrefix-trans xs ys zs (a, p) (b, q) = (a ++ b, cc (p, q, append_assoc xs a b))

take-IsPrefix : (n : ℕ) (xs : Text) → IsPrefix (take n xs) xs
take-IsPrefix zero xs = (xs, refl)
take-IsPrefix (suc n) [] = ([], refl)
take-IsPrefix (suc n) (x ∷ xs) = let (rest, e) = take-IsPrefix n xs in (rest, ap (λ t. x ∷ t) e)

length-take : (n : ℕ) (xs : Text) → length (take n xs) ≤ n
length-take zero xs = omega arith
length-take (suc n) [] = omega arith
length-take (suc n) (x ∷ xs) = omega (arith, length-take n xs)

strip_cons-IsPrefix : (c : ℕ) (ds cs : Text) → IsPrefix ds cs → IsPrefix (strip_cons c ds) (c ∷ cs)
strip_cons-IsPrefix c [] cs h =
    if_intro (λ t. IsPrefix t (c ∷ cs)) (is_space c) (c ∷ cs, refl) (cs, refl)
strip_cons-IsPrefix c (d ∷ ds) cs (rest, e) = (rest, ap (λ t. c ∷ t) e)

rstrip-IsPrefix : (xs : Text) → IsPrefix (rstrip xs) xs
rstrip-IsPrefix [] = ([], refl)
rstrip-IsPrefix (c ∷ cs) = strip_cons-IsPrefix c (rstrip cs) cs (rstrip-IsPrefix cs)

length-IsPrefix : (xs ys : Text) → IsPrefix xs ys → length xs ≤ length ys
length-IsPrefix xs ys (rest, e) = omega (arith, ap length e, length-append xs rest)

-- An excerpt is the beginning of its text.
pub excerpt-IsPrefix : (content : Text) (budget : ℕ) → IsPrefix (excerpt content budget) content
unfolding excerpt
excerpt-IsPrefix content budget =
    let taken = take budget content in
    let cut = cut_of budget (last_boundary 0 none taken) in
    if_intro (λ t. IsPrefix t content) (leb (length content) budget) ([], sym (append_nil content))
      (IsPrefix-trans (rstrip (take cut taken)) taken content
        (IsPrefix-trans (rstrip (take cut taken)) (take cut taken) taken (rstrip-IsPrefix _)
          (take-IsPrefix cut taken))
        (take-IsPrefix budget content))

-- An excerpt has at most as many characters as its budget.
pub length-excerpt : (content : Text) (budget : ℕ) → length (excerpt content budget) ≤ budget
unfolding excerpt
length-excerpt content budget =
    let taken = take budget content in
    let cut = cut_of budget (last_boundary 0 none taken) in
    let cut_short : IsPrefix (rstrip (take cut taken)) taken =
      IsPrefix-trans (rstrip (take cut taken)) (take cut taken) taken (rstrip-IsPrefix _)
        (take-IsPrefix cut taken) in
    let fits : length (rstrip (take cut taken)) ≤ budget =
      omega (arith, length-take budget content, length-IsPrefix _ _ cut_short) in
    if_split (λ (t : Text). length t ≤ budget) (leb (length content) budget) (leb→le _ _)
      (λ _. fits)

length-insert_pair :
    (p : Article × Body) (qs : List (Article × Body)) → length (insert_pair p qs) ≡ suc (length qs)
length-insert_pair p [] = refl
length-insert_pair p (q ∷ qs) = ground (arith, length-insert_pair p qs)

length-sort_pairs : (ps : List (Article × Body)) → length (sort_pairs ps) ≡ length ps
length-sort_pairs [] = refl
length-sort_pairs (p ∷ ps) =
    omega (arith, length-insert_pair p (sort_pairs ps), length-sort_pairs ps)

-- the characters that a report quotes in all
abbrev pub quoted : List Evidence → ℕ
quoted [] = 0
quoted (e ∷ es) = length e.input_excerpt + quoted es

quoted-map :
    (budget : ℕ) (ps : List (Article × Body))
    → quoted (map (evidence_of budget) ps) ≤ length ps * budget
unfolding evidence_of
quoted-map budget [] = omega arith
quoted-map budget (p ∷ ps) = omega (arith, length-excerpt p.1.content budget, quoted-map budget ps)

-- The excerpts of a report are at most 60000 characters in all.
pub quoted-prepare_evidence :
    (successes : List (Article × Body)) → quoted (prepare_evidence successes) ≤ 60000
unfolding prepare_evidence
quoted-prepare_evidence successes =
    let n = length successes in
    let total =
      subst (λ k. quoted (prepare_evidence successes) ≤ k * share n) (length-sort_pairs successes)
        (quoted-map (share n) (sort_pairs successes)) in
    let shared : n * share n ≤ n * (60000 / n) = mul-le-mul_left n (omega arith) in
    omega (arith, total, shared, mul-div-le 60000 n)

length-rag_rows :
    (text_hash : Text → ℕ) (n : ℕ) (seen : List ℕ) (rows : List RagRow)
    → length (rag_rows text_hash n seen rows) ≤ n
unfolding rag_rows
length-rag_rows text_hash zero seen rows = omega arith
length-rag_rows text_hash (suc n) seen [] = omega arith
length-rag_rows text_hash (suc n) seen (row ∷ rows) = ground (
  arith,
  length-rag_rows text_hash (suc n) seen rows,
  length-rag_rows text_hash n (row.news_id ∷ seen) rows,
)

-- an article that may be cited: none of those seen before it
abbrev pub AllNew : List ℕ → List RagEvidence → Type 0
AllNew seen [] = Unit
AllNew seen (e ∷ es) = (elem e.news_id seen ≡ false) × AllNew (e.news_id ∷ seen) es

rag_rows-AllNew :
    (text_hash : Text → ℕ) (n : ℕ) (seen : List ℕ) (rows : List RagRow)
    → AllNew seen (rag_rows text_hash n seen rows)
unfolding rag_rows
rag_rows-AllNew text_hash zero seen rows = tt
rag_rows-AllNew text_hash (suc n) seen [] = tt
rag_rows-AllNew text_hash (suc n) seen (row ∷ rows) = ground (
  arith,
  rag_rows-AllNew text_hash (suc n) seen rows,
  rag_rows-AllNew text_hash n (row.news_id ∷ seen) rows,
)

-- At most three reference articles are cited, each once and none of them requested.
pub rag_evidence_lem :
    (text_hash : Text → ℕ) (use_rag : Bool) (requested : List ℕ) (rows : List RagRow)
    → (length (rag_evidence text_hash use_rag requested rows) ≤ 3)
      × AllNew requested (rag_evidence text_hash use_rag requested rows)
unfolding rag_evidence
rag_evidence_lem text_hash true requested rows =
    (length-rag_rows text_hash 3 requested rows, rag_rows-AllNew text_hash 3 requested rows)
rag_evidence_lem text_hash false requested rows = (omega arith, tt)

-- ===== src/Reports/Batch/Keys.antt =====
-- The keys of the dictionaries of `extract_bodies` (app/v2/reports.py) and its queue of ids.
use capstone_backend.Prelude.{
  ℕ, ◌≡◌, refl, true, false, not, ◌&&◌, ◌||◌, some, List, [], ◌∷◌, ◌++◌, elem, elem-append,
  distinct, insert, lookup, ◌==◌, ==_iff, option_split, arith,
}
use capstone_backend.Reports.Data.{Failure, extraction_timeout}
use capstone_backend.Reports.Extraction.{failure_of}
use capstone_backend.Reports.Batch.{keys_of, without, timed_out, set_default, insert_id, sort_ids}

module _ {V : Type 0} where
  pub elem-insert :
      (n k : ℕ) (v : V) (m : List (ℕ × V))
      → elem n (keys_of (insert k v m)) ≡ (n == k || elem n (keys_of m))
  elem-insert n k v [] = refl
  elem-insert n k v ((j, w) ∷ m) = ground (arith, elem-insert n k v m)

  pub elem-without :
      (n k : ℕ) (m : List (ℕ × V))
      → elem n (keys_of (without k m)) ≡ (not (k == n) && elem n (keys_of m))
  elem-without n k [] = ground arith
  elem-without n k ((j, w) ∷ m) = ground (arith, elem-without n k m)

pub distinct-add :
    (xs : List ℕ) (n : ℕ)
    → elem n xs ≡ false
    → distinct xs ≡ true
    → distinct (xs ++ (n ∷ [])) ≡ true
distinct-add [] n h k = refl
distinct-add (x ∷ xs) n h k = ground (arith, distinct-add xs n, elem-append x xs (n ∷ []))

elem-insert_id : (n m : ℕ) (xs : List ℕ) → elem n (insert_id m xs) ≡ (n == m || elem n xs)
elem-insert_id n m [] = refl
elem-insert_id n m (x ∷ xs) = ground (arith, elem-insert_id n m xs)

pub elem-sort_ids : (n : ℕ) (xs : List ℕ) → elem n (sort_ids xs) ≡ elem n xs
elem-sort_ids n [] = refl
elem-sort_ids n (x ∷ xs) = ground (arith, elem-insert_id n x (sort_ids xs), elem-sort_ids n xs)

distinct-insert_id :
    (m : ℕ) (xs : List ℕ)
    → elem m xs ≡ false
    → distinct xs ≡ true
    → distinct (insert_id m xs) ≡ true
distinct-insert_id m [] h k = refl
distinct-insert_id m (x ∷ xs) h k =
    ground (arith, distinct-insert_id m xs, elem-insert_id x m xs, ==_iff x m)

pub distinct-sort_ids : (xs : List ℕ) → distinct xs ≡ true → distinct (sort_ids xs) ≡ true
distinct-sort_ids [] h = refl
distinct-sort_ids (x ∷ xs) h =
    ground (arith, distinct-sort_ids xs, distinct-insert_id x (sort_ids xs), elem-sort_ids x xs)

elem-lookup :
    {V : Type 0} (n : ℕ) (m : List (ℕ × V)) (v : V)
    → lookup n m ≡ some v
    → elem n (keys_of m) ≡ true
elem-lookup n [] v h = absurd (cc)
elem-lookup n ((k, w) ∷ m) v h = ground (arith, elem-lookup n m v)

elem-set_default :
    (n k : ℕ) (f : Failure) (m : List (ℕ × Failure))
    → elem n (keys_of (set_default k f m)) ≡ (n == k || elem n (keys_of m))
elem-set_default n k f m =
    option_split (λ (m' : List (ℕ × Failure)). elem n (keys_of m') ≡ (n == k || elem n (keys_of m)))
      (lookup k m) (λ _. elem-insert n k f m)
      (λ g there. ground (arith, elem-lookup k m g there, ==_iff n k))

pub elem-timed_out :
    (n : ℕ) (pending : List ℕ) (failures : List (ℕ × Failure))
    → elem n (keys_of (timed_out pending failures)) ≡ (elem n pending || elem n (keys_of failures))
elem-timed_out n [] failures = refl
elem-timed_out n (p ∷ ps) failures =
    let f = failure_of p extraction_timeout true in
    ground (arith, elem-timed_out n ps (set_default p f failures), elem-set_default n p f failures)

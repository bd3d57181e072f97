-- ===== src/Reports/Saved/Unique.antt =====
-- Adding a document to a collection of app/v2/persistence.py: what is found, and how often.
use mathlib.Core.Path.{subst}
use capstone_backend.Prelude.{
  ℕ, ◌+◌, ◌≤◌, ◌≡◌, refl, Bool, true, false, none, some, List, [], ◌∷◌, ◌++◌, length, any, find,
  keep, Bool-cases, inl, inr, ◌==◌, ==_iff, if◌then◌else◌, arith,
}

module _ {ℓ} {A : Type ℓ} where
  pub length-keep-add :
      (p : A → Bool) (x : A) (xs : List A)
      → length (keep p (xs ++ (x ∷ []))) ≡ length (keep p xs) + (if p x then 1 else 0)
  length-keep-add p x [] = ground arith
  length-keep-add p x (y ∷ xs) = ground (arith, length-keep-add p x xs)

  pub keep-none : (p : A → Bool) (xs : List A) → find p xs ≡ none → length (keep p xs) ≡ 0
  keep-none p [] h = refl
  keep-none p (x ∷ xs) h = ground (arith, keep-none p xs)

  keep-any : (p : A → Bool) (xs : List A) → any p xs ≡ false → length (keep p xs) ≡ 0
  keep-any p [] h = refl
  keep-any p (x ∷ xs) h = ground (arith, keep-any p xs)

  pub find-add :
      (p : A → Bool) (x y : A) (xs : List A) → find p xs ≡ some y → find p (xs ++ (x ∷ [])) ≡ some y
  find-add p x y [] h = absurd (cc)
  find-add p x y (z ∷ xs) h = ground (arith, find-add p x y xs)

  pub find-added :
      (p : A → Bool) (x : A) (xs : List A)
      → any p xs ≡ false
      → p x ≡ true
      → find p (xs ++ (x ∷ [])) ≡ some x
  find-added p x [] h k = ground arith
  find-added p x (z ∷ xs) h k = ground (arith, find-added p x xs)

  -- an item whose key is new leaves every key at most once
  pub one-each :
      (key : A → ℕ) (x : A) (xs : List A)
      → any (λ y. key y == key x) xs ≡ false
      → ((id : ℕ) → length (keep (λ y. key y == id) xs) ≤ 1)
      → (id : ℕ) → length (keep (λ y. key y == id) (xs ++ (x ∷ []))) ≤ 1
  one-each key x xs h old id = elim (Bool-cases (key x == id)) [
    | inl e ↦
        subst (λ i. length (keep (λ y. key y == i) (xs ++ (x ∷ []))) ≤ 1) ((==_iff (key x) id).0 e)
          (ground (arith, length-keep-add (λ y. key y == key x) x xs, keep-any _ xs h))
    | inr e ↦ ground (arith, length-keep-add (λ y. key y == id) x xs, old id)
  ]

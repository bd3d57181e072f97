-- ===== src/Prelude/Lists.antt =====
-- Lists measured by native numbers, lists of numbers as sets, and dictionaries keyed by numbers.
use Prim.Native.Nat.{ℕ, suc, ◌+◌, ◌≤◌}
use mathlib.Core.Path.{◌≡◌, refl, ap}
use mathlib.Core.Logic.{◌⊎◌, inl, inr}
use mathlib.Core.Bool.{Bool, true, false, ◌||◌, ◌&&◌}
use mathlib.Core.List.{List, [], ◌∷◌, ◌++◌, map}
use mathlib.Core.Option.{Option, none, some}
use native.Mathlib.Omega.{arith}
use capstone_backend.Prelude.Tests.{◌==◌, if◌then◌else◌}

module _ {ℓ} {A : Type ℓ} where
  abbrev pub length : List A → ℕ
  length [] = 0
  length (x ∷ xs) = suc (length xs)

  pub length-append : (xs ys : List A) → length (xs ++ ys) ≡ length xs + length ys
  length-append [] ys = omega arith
  length-append (x ∷ xs) ys = omega (arith, length-append xs ys)

  -- The items that pass a test, in order.
  abbrev pub keep : (A → Bool) → List A → List A
  keep p [] = []
  keep p (x ∷ xs) = if p x then x ∷ keep p xs else keep p xs

  -- The first item that passes a test: `next((x for x in xs if p(x)), None)`.
  abbrev pub find : (A → Bool) → List A → Option A
  find p [] = none
  find p (x ∷ xs) = if p x then some x else find p xs

  -- `all(p(x) for x in xs)` and `any(p(x) for x in xs)`.
  abbrev pub all : (A → Bool) → List A → Bool
  all p [] = true
  all p (x ∷ xs) = p x && all p xs

  abbrev pub any : (A → Bool) → List A → Bool
  any p [] = false
  any p (x ∷ xs) = p x || any p xs

  abbrev pub All {κ} : (A → Type κ) → List A → Type κ
  All P [] = Unit
  All P (x ∷ xs) = P x × All P xs

  pub All-append {κ} : (P : A → Type κ) (xs ys : List A) → All P xs → All P ys → All P (xs ++ ys)
  All-append P [] ys h k = k
  All-append P (x ∷ xs) ys h k = (h.0, All-append P xs ys h.1 k)

  -- What follows from two facts about each item.
  pub All_both {κ μ ν} :
      (P : A → Type κ) (Q : A → Type μ) (R : A → Type ν) (xs : List A)
      → ((x : A) → P x → Q x → R x)
      → All P xs
      → All Q xs
      → All R xs
  All_both P Q R [] f h k = tt
  All_both P Q R (x ∷ xs) f h k = (f x h.0 k.0, All_both P Q R xs f h.1 k.1)

  pub All_map {κ ν} :
      (P : A → Type κ) (R : A → Type ν) (xs : List A) → ((x : A) → P x → R x) → All P xs → All R xs
  All_map P R [] f h = tt
  All_map P R (x ∷ xs) f h = (f x h.0, All_map P R xs f h.1)

  pub All_of {κ} : (P : A → Type κ) (xs : List A) → ((x : A) → P x) → All P xs
  All_of P [] f = tt
  All_of P (x ∷ xs) f = (f x, All_of P xs f)

  pub length-keep : (p : A → Bool) (xs : List A) → length (keep p xs) ≤ length xs
  length-keep p [] = omega arith
  length-keep p (x ∷ xs) = ground (arith, length-keep p xs)

pub length-map {ℓ κ} :
    {A : Type ℓ} {B : Type κ} (f : A → B) (xs : List A) → length (map f xs) ≡ length xs
length-map f [] = refl
length-map f (x ∷ xs) = ap suc (length-map f xs)

-- Membership of a number in a list: `x in xs`.
abbrev pub elem : ℕ → List ℕ → Bool
elem n [] = false
elem n (x ∷ xs) = n == x || elem n xs

pub elem-append : (n : ℕ) (xs ys : List ℕ) → elem n (xs ++ ys) ≡ (elem n xs || elem n ys)
elem-append n [] ys = refl
elem-append n (x ∷ xs) ys = ground (arith, elem-append n xs ys)

-- `len(xs) != len(set(xs))` is false.
abbrev pub distinct : List ℕ → Bool
distinct [] = true
distinct (x ∷ xs) = if elem x xs then false else distinct xs

module _ {ℓ} {V : Type ℓ} where
  -- `d.get(k)`
  abbrev pub lookup : ℕ → List (ℕ × V) → Option V
  lookup k [] = none
  lookup k ((j, v) ∷ m) = if j == k then some v else lookup k m

  -- `d[k] = v`: a present key keeps its place.
  abbrev pub insert : ℕ → V → List (ℕ × V) → List (ℕ × V)
  insert k v [] = (k, v) ∷ []
  insert k v ((j, w) ∷ m) = if j == k then (k, v) ∷ m else (j, w) ∷ insert k v m

  -- `d.pop(k, None)`
  abbrev pub discard : ℕ → List (ℕ × V) → List (ℕ × V)
  discard k [] = []
  discard k ((j, w) ∷ m) = if j == k then m else (j, w) ∷ discard k m

  pub lookup-insert :
      (k j : ℕ) (v : V) (m : List (ℕ × V))
      → lookup j (insert k v m) ≡ (if k == j then some v else lookup j m)
  lookup-insert k j v [] = refl
  lookup-insert k j v ((i, w) ∷ m) = ground (arith, lookup-insert k j v m)

-- What holds of both branches of a computed list holds of the branch taken.
pub list_split {ℓ κ ν} :
    {A : Type ℓ} {B : Type ν} (P : B → Type κ) (xs : List A) {b : B} {f : A → List A → B}
    → (xs ≡ [] → P b)
    → ((y : A) (ys : List A) → xs ≡ (y ∷ ys) → P (f y ys))
    → P (elim xs [ [] ↦ b | y ∷ ys ↦ f y ys ])
list_split P [] h k = h refl
list_split P (y ∷ ys) h k = k y ys refl

-- To split on a computed list and keep the equation.
pub List-cases {ℓ} :
    {A : Type ℓ} (xs : List A) → (xs ≡ []) ⊎ ((y : A) × (ys : List A) × (xs ≡ (y ∷ ys)))
List-cases [] = inl refl
List-cases (y ∷ ys) = inr (y, ys, refl)

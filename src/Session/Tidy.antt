-- ===== src/Session/Tidy.antt =====
-- The bounds that app/session.py keeps on a session's lists.
use capstone_backend.Prelude.{
  ℕ, ◌≤◌, ◌≡◌, refl, true, false, not, ◌&&◌, List, [], ◌∷◌, ◌++◌, ◌==◌, if◌then◌else◌, if_split,
  elem, elem-append, distinct, length, arith,
}
use capstone_backend.Session.{
  Payload, Mindmap, keep_last, remove, center_at, Operation, record_center, expand_node,
  collapse_node, reset_mindmap, change_of,
}

-- at most `n` ids, none twice
abbrev IsShort : ℕ → List ℕ → Type 0
IsShort n xs = (length xs ≤ n) × (distinct xs ≡ true)

-- at most 20 expanded and 50 viewed articles, none twice
pub record IsTidy (d : Payload) : Type 0 where
  pub expanded : IsShort 20 d.mindmap.expanded_news_ids
  pub viewed : IsShort 50 d.viewed_news_ids

length-keep_last : (n : ℕ) (xs : List ℕ) → length (keep_last n xs) ≤ n
unfolding keep_last
length-keep_last n [] = omega arith
length-keep_last n (x ∷ xs) = ground (arith, length-keep_last n xs)

distinct-keep_last : (n : ℕ) (xs : List ℕ) → distinct xs ≡ true → distinct (keep_last n xs) ≡ true
unfolding keep_last
distinct-keep_last n [] h = refl
distinct-keep_last n (x ∷ xs) h = ground (arith, distinct-keep_last n xs)

distinct-snoc :
    (id : ℕ) (xs : List ℕ)
    → elem id xs ≡ false
    → distinct xs ≡ true
    → distinct (xs ++ id ∷ []) ≡ true
distinct-snoc id [] h d = refl
distinct-snoc id (x ∷ xs) h d = ground (arith, distinct-snoc id xs, elem-append x xs (id ∷ []))

remember-IsShort :
    (n id : ℕ) (xs : List ℕ)
    → IsShort n xs
    → IsShort n (if not (id == 0) && not (elem id xs) then keep_last n (xs ++ id ∷ []) else xs)
remember-IsShort n id xs h =
    if_split (IsShort n) (not (id == 0) && not (elem id xs))
      (λ new. (
        length-keep_last n (xs ++ id ∷ []),
        distinct-keep_last n (xs ++ id ∷ []) (distinct-snoc id xs (ground arith) h.1),
      ))
      (λ _. h)

elem-remove : (y id : ℕ) (xs : List ℕ) → elem y xs ≡ false → elem y (remove id xs) ≡ false
unfolding remove
elem-remove y id [] h = refl
elem-remove y id (x ∷ xs) h = ground (arith, elem-remove y id xs)

length-remove : (id : ℕ) (xs : List ℕ) → length (remove id xs) ≤ length xs
unfolding remove
length-remove id [] = omega arith
length-remove id (x ∷ xs) = ground (arith, length-remove id xs)

distinct-remove : (id : ℕ) (xs : List ℕ) → distinct xs ≡ true → distinct (remove id xs) ≡ true
unfolding remove
distinct-remove id [] h = refl
distinct-remove id (x ∷ xs) h = ground (arith, distinct-remove id xs, elem-remove x id xs)

remove-IsShort : (n id : ℕ) (xs : List ℕ) → IsShort n xs → IsShort n (remove id xs)
remove-IsShort n id xs h = (omega (arith, h.0, length-remove id xs), distinct-remove id xs h.1)

center_at-IsTidy : (news_id query : ℕ) (d : Payload) → IsTidy d → IsTidy (center_at news_id query d)
unfolding center_at
center_at-IsTidy news_id query d h = record {
  expanded =
      if_split (λ (m : Mindmap). IsShort 20 m.expanded_news_ids) (query == 0) (λ _. center_expanded)
        (λ _. center_expanded);
  viewed = remember-IsShort 50 news_id d.viewed_news_ids h.viewed;
}
  where
    center_expanded :
        IsShort 20
          (if d.mindmap.center_news_id == news_id then d.mindmap else record d.mindmap {
            center_news_id = news_id;
            expanded_news_ids = [];
          }).expanded_news_ids
    center_expanded =
        if_split (λ (m : Mindmap). IsShort 20 m.expanded_news_ids)
          (d.mindmap.center_news_id == news_id) (λ _. h.expanded) (λ _. (omega arith, refl))

-- Every mind-map operation keeps the lists within their bounds and free of repetitions.
pub change_of-IsTidy : (o : Operation) (d : Payload) → IsTidy d → IsTidy (change_of o d)
unfolding change_of
change_of-IsTidy (record_center news_id query) d h = center_at-IsTidy news_id query d h
change_of-IsTidy (expand_node news_id) d h = record {
  expanded = remember-IsShort 20 news_id d.mindmap.expanded_news_ids h.expanded;
  viewed = h.viewed;
}
change_of-IsTidy (collapse_node news_id) d h = record {
  expanded =
      if_split (IsShort 20) (elem news_id d.mindmap.expanded_news_ids)
        (λ _. remove-IsShort 20 news_id d.mindmap.expanded_news_ids h.expanded) (λ _. h.expanded);
  viewed = h.viewed;
}
change_of-IsTidy reset_mindmap d h = record { expanded = (omega arith, refl); viewed = h.viewed }

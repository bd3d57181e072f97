-- ===== src/Newsmap/WellFormed/Selecting.antt =====
-- `update_map` of app/v2/maps.py keeps the map well-formed, and selects only what is shown.
use capstone_backend.Prelude.{
  ℕ, ◌≡◌, Bool, true, not, Option, List, [], ◌∷◌, length, all, elem, All, ltb, Bool-cases, if_split,
  inl, inr, arith,
}
use capstone_backend.Settings.{Settings}
use capstone_backend.Errors.{ok, OnOk}
use capstone_backend.Newsmap.Data.{MapDoc, max_report_articles}
use capstone_backend.Newsmap.Edit.{
  Field, absent, null, given, check_selected, apply_selected, apply_detail, apply_panel, visible,
  same_set,
}
use capstone_backend.Newsmap.WellFormed.{IsWellFormed}

All_of_all : (p : ℕ → Bool) (xs : List ℕ) → all p xs ≡ true → All (λ x. p x ≡ true) xs
All_of_all p [] h = tt
All_of_all p (x ∷ xs) h = (ground arith, All_of_all p xs (ground arith))

check_selected-All :
    (d : MapDoc) (selected : List ℕ)
    → check_selected d selected ≡ ok tt
    → All (λ nid. elem nid (visible d.nodes) ≡ true) selected
unfolding check_selected
check_selected-All d selected h =
    All_of_all (λ nid. elem nid (visible d.nodes)) selected (ground arith)

module _ (cfg : Settings) (d : MapDoc) (w : IsWellFormed cfg d) where
  pub apply_selected-IsWellFormed :
      (paid : Bool) (selected : List ℕ)
      → check_selected d selected ≡ ok tt
      → OnOk (λ r. IsWellFormed cfg r.0) (apply_selected paid d selected)
  unfolding apply_selected
  apply_selected-IsWellFormed paid selected checked =
      if_split (OnOk (λ (r : MapDoc × Option ℕ). IsWellFormed cfg r.0))
        (ltb (max_report_articles paid) (length selected)) (λ _. tt)
        (λ _. elim (Bool-cases (not (same_set selected d.selected_news_ids))) [
          | inl changed ↦ rw changed (record {
            tree = w.tree;
            size = w.size;
            selected = check_selected-All d selected checked;
            detail = w.detail;
            known = w.known;
            start = w.start;
          })
          | inr same ↦ rw same (record {
            tree = w.tree;
            size = w.size;
            selected = check_selected-All d selected checked;
            detail = w.detail;
            known = w.known;
            start = w.start;
          })
        ])

  pub apply_detail-IsWellFormed : (f : Field ℕ) → OnOk (IsWellFormed cfg) (apply_detail f d)
  unfolding apply_detail
  apply_detail-IsWellFormed absent = w
  apply_detail-IsWellFormed null = record {
    tree = w.tree;
    size = w.size;
    selected = w.selected;
    detail = tt;
    known = w.known;
    start = w.start;
  }
  apply_detail-IsWellFormed (given nid) =
      if_split (OnOk (IsWellFormed cfg)) (elem nid (visible d.nodes))
        (λ shown. record {
          tree = w.tree;
          size = w.size;
          selected = w.selected;
          detail = shown;
          known = w.known;
          start = w.start;
        })
        (λ _. tt)

  pub apply_panel-IsWellFormed : (f : Field Bool) → OnOk (IsWellFormed cfg) (apply_panel f d)
  unfolding apply_panel
  apply_panel-IsWellFormed absent = w
  apply_panel-IsWellFormed null = tt
  apply_panel-IsWellFormed (given b) = record {
    tree = w.tree;
    size = w.size;
    selected = w.selected;
    detail = w.detail;
    known = w.known;
    start = w.start;
  }

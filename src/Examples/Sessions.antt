-- ===== src/Examples/Sessions.antt =====
-- Runs of app/session.py.
use capstone_backend.Prelude.{
  ℕ, ◌≡◌, refl, Bool, not, none, some, [], ◌∷◌, ◌==◌, if◌then◌else◌, arith,
}
use capstone_backend.Clock.{ticks}
use capstone_backend.Session.{
  Payload, Entry, Store, clear, change_of, expand_node, record_center, reset_mindmap,
}
use capstone_backend.Session.Tidy.{IsTidy, change_of-IsTidy}
use capstone_backend.Session.Revocation.{Script, perform_all, clear-perform_all}

abbrev viewing : Payload
viewing = record {
  sid = 8;
  created_at = 0;
  mindmap = record { center_news_id = 11; expanded_news_ids = 11 ∷ 12 ∷ []; query = 5 };
  viewed_news_ids = 11 ∷ [];
}

abbrev entry : Entry
entry = record { expires = ticks 100; payload = viewing }

abbrev other_entry : Entry
other_entry = record { expires = ticks 70; payload = viewing }

abbrev two_sessions : Store
two_sessions s = if s == 8 then some entry else if s == 9 then some other_entry else none

viewing-IsTidy : IsTidy viewing
viewing-IsTidy = record { expanded = (omega arith, refl); viewed = (omega arith, refl) }

change_of-IsTidy_example : IsTidy (change_of (record_center 12 6) viewing)
change_of-IsTidy_example = change_of-IsTidy (record_center 12 6) viewing viewing-IsTidy

abbrev script : Script
script = (ticks 10, 8, expand_node 13) ∷ (ticks 20, 9, reset_mindmap) ∷ []

clear-perform_all_example : perform_all 60 script (clear 8 two_sessions) 8 ≡ none
clear-perform_all_example = clear-perform_all 60 8 script two_sessions (omega arith)

-- what is not empty has the form of an id
abbrev shaped : ℕ → Bool
shaped s = not (s == 0)

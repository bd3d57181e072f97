-- ===== src/Examples.antt =====
-- A small deployment to evaluate the other modules on: three articles, a session and its worlds.
pub mod Ledgers
pub mod Sessions
pub mod Documents
pub mod Requests
pub mod Reports
pub mod Queue
pub mod Saving
pub mod Writing
pub mod Worker
pub mod Admitting
pub mod Pipeline
use capstone_backend.Prelude.{
  ℕ, ◌+◌, ◌*◌, Bool, true, false, Option, none, some, List, [], ◌∷◌, ◌==◌, if◌then◌else◌, ltb,
}
use capstone_backend.Settings.{Settings, defaults}
use capstone_backend.Session.{Entry, empty}
use capstone_backend.Newsmap.Data.{
  Article, plain, SearchContext, NewsMapResult, complete, insufficient, Outcome, found, Builder,
  MapDoc, selection,
}
use capstone_backend.Newsmap.Create.{Page, blank, plant, with_snapshot}
use capstone_backend.Jobs.Data.{running, analyzing, published}
use capstone_backend.Jobs.Doc.{JobDoc}
use capstone_backend.World.{World, Timed, Table, SessionDoc}

abbrev pub article : ℕ → Article
article k = record {
  news_id = k;
  derived_id = k;
  title = 100 + k;
  description = 0;
  source = plain 7;
  published_at = 0;
  url = 200 + k;
  naver_url = 0;
  thumbnail_url = 0;
  keywords = [];
  categories = [];
  search_rank = k;
  search_end = 3;
  search_keyword = 5;
  searched_at = 1;
  content = 900 + k;
}

abbrev pub three : List Article
three = article 11 ∷ article 12 ∷ article 13 ∷ []

abbrev pub page : Page
page = record { start = 1; end_position = 3; articles = three }

-- a builder that finds one article, when one is asked for
abbrev pub one_more : Builder
one_more center target pool excluded context =
    found
      (record {
        items = if ltb 0 target then article (center.news_id + 10) ∷ [] else [];
        status = insufficient;
        reason = none;
        target = target;
      })
      context

-- the settings with a session of 100 seconds
abbrev pub cfg : Settings
cfg = defaults

abbrev pub second_ticks : ℕ
second_ticks = 1000000

abbrev pub start : MapDoc
start = blank 3 5 (100 * second_ticks) 1 0 page

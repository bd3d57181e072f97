-- ===== src/Lib.antt =====
-- Verification of the news-map and report backend.
--
-- The program keeps cookie sessions (app/session.py); each session owns news maps, trees of
-- articles that requests grow, prune and reset (app/v2/maps.py), and report jobs that a worker
-- runs for a map's selection (app/v2/reports.py). Both live as documents in a keyed store with
-- revisions and lifetimes (app/v2/state.py). Paid work is charged to a daily and a per-job ledger
-- (app/v2/provider_budget.py), and requests are admitted through hourly buckets
-- (app/usage_limits.py).
--
-- Which file models what:
--   Errors, Clock, Settings: app/v2/errors.py, the instants of app/v2/state.py, app/config.py.
--   Budget: provider_budget.py (`_window`, `_memory_reserve`, `reserve`); Budget/Script is its Lua
--     script `_RESERVE`, Budget/Bounds and Budget/Daily are about one and many reservations.
--   Quota: `check_quotas` of usage_limits.py in memory mode; Quota/Window is about it.
--   Session: session.py, each mind-map operation as load, change, save; Session/Tidy and
--     Session/Revocation are about it.
--   Newsmap: the pure part of maps.py. Data has the documents and `card`, `snapshot`, `_node`,
--     `selection`, `_shortage`, `_select`; Descendants has `_descendants`; Edit what `update_map`
--     and `branch_map` change; Restore what `reset_map` changes; Create the first document.
--     Tree and WellFormed hold the invariant of a document.
--   World: the state of a handler: the clock, the drawn ids, the base sessions, the tables of
--     documents, the buckets, the ledgers and the stored results; a handler is a function
--     from a world to a result or exception and a world.
--   State: the operations of state.py; State/Frame says what reading a session leaves
--     alone, State/Clearing has `clear_session`, and State/Script has the Lua scripts `_CAS`
--     and `_SAVE_SESSION`.
--   Jobs: the job document and `request_cancel`, `_update`, `_checkpoint`, `_finish`, `cancel_job`
--     (Steps), `process_job` (Worker), `get_job` and `dispatch_job` (Dispatch, where the first is
--     `poll_job`); Claims, Finishing and Progress are about the others.
--   Maps: the handlers of maps.py over State; Keeping, Stored, Ending and Handlers carry the
--     invariant through every step, Invariant states it, Revisions is about lost updates, and
--     Deleting about `tombstone_map`.
--   Reports: persistence.py and the stages of reports.py. Reports/Data has the stored documents;
--     Saved the collections in memory (`save_body`, `save_report`, `save_strategy`, the reads);
--     Excerpt `excerpt`, `prepare_evidence` and `rag_evidence`; Writing the validation of what a
--     model returns and `generate_strategy`; Extraction `extract_one`; Batch `extract_bodies`;
--     Pipeline the report of `_pipeline`, and Pipeline/Running its strategy and its end. The
--     other child modules are about what they keep, bound and return, and Batch/Trying about
--     `extract_one` as an attempt of `extract_bodies`.
--   Admission: `create_job`, `_admit` and the idempotency keys of api/v2/report_jobs.py; Commit is
--     about its writes, Replays about accepted and refused requests.
--   ReportWorker: report_worker.py. Consumer is about its queue, Messages about the loop that
--     settles a message.
--   Examples: a small deployment on which the theorems are applied.
--
-- Conventions: ids and texts are opaque numbers, with 0 for the empty string, but the text of a
-- body, of an excerpt and of an extracted page is a list of characters; a node id f"n{k}" is
-- k. A clock value is in microseconds, settings are in seconds. The store is the memory mode
-- (`memory_enabled()`), where a key is a table and two ids. A handler runs at one instant and as
-- one step, so locks are free and left out; while `branch_map` and `create_map` await a search,
-- other requests act through an arbitrary function on worlds. Messages of errors are left out, and
-- `details` is the one number in it.
--
-- Parameters: the selector `build_news_map` (`Builder`), the page that a search gives, the
-- canonical form of a client address, the hash of a text or of a job id, the pattern of a session
-- id, and the server of the queue. For the stages of a report they are one record (`Services`):
-- the stored articles, the extraction, the categories and the language model. They may take time
-- and act on the world as any function on worlds does; a theorem names what it asks of them.
--
-- Bounds and fuel: `_descendants` runs as many rounds as there are nodes and one more, and every
-- round but the last adds a node. The loop of `_finish` has the source's ten rounds. The queue of
-- extractions and the loop of a message run on fuel; theorems say how much is enough, for a message
-- in terms of the rounds in which its job is busy.
--
-- Not modelled: the Redis and MongoDB branches but three scripts, the lease renewal and the
-- heartbeat of a worker, the cache of failed extractions, the public projections of documents, the
-- race of two inserts in a database, the connection to the queue, the selector and its judges, the
-- clients of external services, the first API, and the keyword map.
pub mod Prelude
pub mod Errors
pub mod Clock
pub mod Settings
pub mod Budget
pub mod Quota
pub mod Session
pub mod Newsmap
pub mod Jobs
pub mod World
pub mod State
pub mod Maps
pub mod Reports
pub mod Admission
pub mod ReportWorker
pub mod Examples

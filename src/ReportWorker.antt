-- ===== src/ReportWorker.antt =====
-- The queue worker of report jobs (app/v2/report_worker.py). The server of the queue is an
-- argument: what it says of a stream or a consumer, and what it does with a new configuration. An
-- exception of the server that is passed on is a `value_error`, and telling it of a message never
-- fails.
pub mod Consumer
pub mod Messages
use capstone_backend.Prelude.{
  ℕ, zero, suc, Bool, true, false, not, ◌&&◌, ◌||◌, Option, none, some, List, [], ◌∷◌, min, ltb,
  leb, ◌==◌, if◌then◌else◌,
}
use capstone_backend.Errors.{Error, Result, ok, err, value_error}
use capstone_backend.Settings.{Settings}
use capstone_backend.Jobs.Worker.{Status, done_status, busy_status}
use capstone_backend.World.{World, Exec, pure, ◌>>=◌, catch}

pub data Retention : Type 0 where
  work_queue other_retention : Retention

pub data AckPolicy : Type 0 where
  explicit other_policy : AckPolicy

-- the fields of `StreamConfig` that are read; times are in seconds
pub record StreamConfig : Type 0 where
  pub subjects : List ℕ
  pub retention : Retention
  pub max_age : ℕ
  pub duplicate_window : ℕ

-- those of `ConsumerConfig`; `max_deliver` is `none` for -1, a consumer that pushes has a subject
-- to deliver to, and `label` stands for its other fields
pub record ConsumerConfig : Type 0 where
  pub filter_subject : ℕ
  pub filter_subjects : List ℕ
  pub deliver_subject : Option ℕ
  pub ack_policy : AckPolicy
  pub ack_wait : ℕ
  pub max_deliver : Option ℕ
  pub max_ack_pending : ℕ
  pub label : ℕ

-- `SUBJECT`, and the name of the durable consumer
abbrev pub subject : ℕ
subject = 1

abbrev pub durable : ℕ
durable = 1

-- `JetStreamContext`: `none` for `NotFoundError`, and for an exception of `add_stream`
pub record Server (Q : Type 0) : Type 0 where
  pub stream_info : Q → Option StreamConfig
  pub add_stream : StreamConfig → Q → Option StreamConfig × Q
  pub consumer_info : Q → Option ConsumerConfig
  pub add_consumer : ConsumerConfig → Q → Bool × Q  -- whether it raised nothing

abbrev pub is_work_queue : Retention → Bool
is_work_queue work_queue = true
is_work_queue other_retention = false

abbrev pub is_explicit : AckPolicy → Bool
is_explicit explicit = true
is_explicit other_policy = false

abbrev pub is_only : ℕ → List ℕ → Bool
is_only n [] = false
is_only n (m ∷ []) = m == n
is_only n (m ∷ k ∷ ms) = false

abbrev pub is_some {ℓ} : {A : Type ℓ} → Option A → Bool
is_some none = false
is_some (some a) = true

abbrev pub is_unlimited : Option ℕ → Bool
is_unlimited none = true
is_unlimited (some n) = false

abbrev pub has_items : List ℕ → Bool
has_items [] = false
has_items (n ∷ ns) = true

module _ (cfg : Settings) where
  -- `validate_stream`
  unfoldable pub validate_stream : StreamConfig → Result (Unit {0})
  validate_stream c =
      if not (is_only subject c.subjects)
      then err value_error
      else if not (is_work_queue c.retention)
          || not (ltb 0 c.max_age && leb c.max_age cfg.v2_job_ttl_seconds)
      then err value_error
      else ok tt

  abbrev pub new_stream : StreamConfig
  new_stream = record {
    subjects = subject ∷ [];
    retention = work_queue;
    max_age = cfg.v2_job_ttl_seconds;
    duplicate_window = min 120 cfg.v2_job_ttl_seconds;
  }

  abbrev pub validate_found : Option StreamConfig → Result (Unit {0})
  validate_found none = err value_error  -- `NotFoundError` of the second `stream_info`
  validate_found (some c) = validate_stream c

  -- `ensure_stream`
  unfoldable pub ensure_stream : {Q : Type 0} → Server Q → Q → Result (Unit {0}) × Q
  unfolding validate_stream
  ensure_stream js q = elim (js.stream_info q) [
    | some c ↦ (validate_stream c, q)
    | none ↦
        let (added, q') = js.add_stream new_stream q in
        elim added [
          | some c ↦ (validate_stream c, q')
          | none ↦ (validate_found (js.stream_info q'), q')
        ]
  ]

  -- `desired`
  abbrev pub desired : ConsumerConfig
  desired = record {
    filter_subject = subject;
    filter_subjects = [];
    deliver_subject = none;
    ack_policy = explicit;
    ack_wait = 60;
    max_deliver = none;
    max_ack_pending = cfg.v2_worker_max_concurrency;
    label = durable;
  }

  abbrev pub conflicts : ConsumerConfig → Bool
  conflicts c =
      is_some c.deliver_subject
      || not (is_explicit c.ack_policy)
      || not (c.filter_subject == subject)
      || has_items c.filter_subjects

  abbrev pub has_limits : ConsumerConfig → Bool
  has_limits c =
      c.max_ack_pending == cfg.v2_worker_max_concurrency
      && is_unlimited c.max_deliver
      && c.ack_wait == 60

  abbrev pub relimited : ConsumerConfig → ConsumerConfig
  relimited c = record c {
    max_ack_pending = cfg.v2_worker_max_concurrency;
    max_deliver = none;
    ack_wait = 60;
  }

  -- the last check, of what the server then says
  abbrev pub applied : Option ConsumerConfig → Result (Unit {0})
  applied none = err value_error
  applied (some c) = if conflicts c || not (has_limits c) then err value_error else ok tt

  -- `ensure_consumer`
  unfoldable pub ensure_consumer : {Q : Type 0} → Server Q → Q → Result (Unit {0}) × Q
  ensure_consumer js q = elim (js.consumer_info q) [
    | none ↦ let (_, q') = js.add_consumer desired q in (applied (js.consumer_info q'), q')
    | some c ↦
        if conflicts c
        then (err value_error, q)
        else if has_limits c
        then (applied (js.consumer_info q), q)
        else (let (done, q') = js.add_consumer (relimited c) q in
            (if done then applied (js.consumer_info q') else err value_error, q'))
  ]

-- what a message says: nothing that can be read, something else, or a report job
pub data Payload : Type 0 where
  unreadable foreign : Payload
  report_job : ℕ → ℕ → Payload

-- what the worker tells the server of a message
pub data Signal : Type 0 where
  term ack in_progress nak : Signal

module _ (process : ℕ → ℕ → Exec Status) (wait : World → World) where
  -- five seconds of `asyncio.sleep`
  unfoldable pub sleep : Exec (Unit {0})
  sleep w = (ok tt, wait w)

  -- what an answer of `process_job` leads to; an exception of it ends the loop with a `nak`
  abbrev pub answered : Exec (List Signal) → Result Status → Exec (List Signal)
  answered again (err e) = pure (nak ∷ [])
  answered again (ok done_status) = pure (ack ∷ [])
  answered again (ok busy_status) = do _ ← sleep; later ← again; pure (in_progress ∷ later)

  -- the `while` loop, with fuel for its rounds
  unfoldable pub consume : ℕ → ℕ → ℕ → Exec (List Signal)
  unfolding catch sleep
  consume zero sid job_id = pure []
  consume (suc fuel) sid job_id = do
    r ← catch (process sid job_id)
    answered (consume fuel sid job_id) r

  -- `consume_message`
  unfoldable pub consume_message : ℕ → Payload → Exec (List Signal)
  unfolding consume
  consume_message fuel unreadable = pure (term ∷ [])
  consume_message fuel foreign = pure (term ∷ [])
  consume_message fuel (report_job sid job_id) = consume fuel sid job_id

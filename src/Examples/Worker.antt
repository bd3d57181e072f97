-- ===== src/Examples/Worker.antt =====
-- The queue worker against a small server (app/v2/report_worker.py).
use capstone_backend.Prelude.{
  ℕ, zero, suc, ◌<◌, ◌+◌, ◌≡◌, refl, true, false, Option, none, some, arith,
}
use capstone_backend.Errors.{ok}
use capstone_backend.Clock.{ticks}
use capstone_backend.Jobs.Worker.{Status, process_job, claim}
use capstone_backend.Jobs.Steps.{finish, finish_loop}
use capstone_backend.Newsmap.Create.{with_snapshot, plant, blank}
use capstone_backend.Session.{existing}
use capstone_backend.State.{session}
use capstone_backend.Reports.Pipeline.Running.{pipeline}
use capstone_backend.Examples.Pipeline.{services}
use capstone_backend.Examples.Reports.{used_up_world}
use capstone_backend.ReportWorker.{
  Server, ConsumerConfig, desired, conflicts, has_limits, ensure_consumer, report_job,
  consume_message,
}
use capstone_backend.ReportWorker.Consumer.{ensure_consumer_applied, ensure_consumer_repairs}
use capstone_backend.ReportWorker.Messages.{
  is_busy, settlement, kept, before_round, consume_message-settles,
}
use capstone_backend.World.{World, Exec, ◌>>=◌}
use capstone_backend.Examples.{cfg}

-- a server that keeps one consumer
abbrev keeping : Server (Option ConsumerConfig)
keeping = record {
  stream_info = λ q. none;
  add_stream = λ c q. (some c, q);
  consumer_info = λ q. q;
  add_consumer = λ c q. (true, some c);
}

-- a consumer with the limits of an older worker
abbrev older : ConsumerConfig
older = record (desired cfg) { max_ack_pending = 7; ack_wait = 30 }

repaired : (ensure_consumer cfg keeping (some older)).0 ≡ ok tt
unfolding ensure_consumer
repaired = refl

ensure_consumer_applied_example :
    (c : ConsumerConfig) × (keeping.consumer_info (ensure_consumer cfg keeping (some older)).1
      ≡ some c)
    × (conflicts cfg c ≡ false)
    × (has_limits cfg c ≡ true)
ensure_consumer_applied_example = ensure_consumer_applied cfg keeping (some older) repaired

ensure_consumer_repairs_example : (ensure_consumer cfg keeping (some older)).0 ≡ ok tt
ensure_consumer_repairs_example =
    ensure_consumer_repairs cfg keeping (some older) (λ c p. (refl, refl)) (some older) refl refl

abbrev five_seconds : World → World
five_seconds w = record w { now = w.now + ticks 5 }

-- the worker's own `process_job`, with the pipeline of the program
abbrev processing : ℕ → ℕ → Exec Status
processing sid id = process_job cfg (pipeline cfg services) sid id

-- ten seconds before the lease of another worker ends, on a job whose starts are used up
abbrev ending_world : World
ending_world = record used_up_world { now = ticks 70 }

stays_busy :
    (i : ℕ)
    → i < 2
    → is_busy (processing 8 6 (before_round processing five_seconds 8 6 i ending_world)).0 ≡ true
unfolding process_job claim ◌>>=◌
stays_busy zero h = refl
stays_busy (suc zero) h = refl
stays_busy (suc (suc i)) h = absurd (omega arith)

ends_job :
    is_busy (processing 8 6 (before_round processing five_seconds 8 6 2 ending_world)).0 ≡ false
unfolding process_job claim ◌>>=◌ finish session existing finish_loop with_snapshot plant blank
ends_job = refl

consume_message-settles_example :
    (consume_message processing five_seconds 9 (report_job 8 6) ending_world).0
    ≡ ok (
        kept 2
          (settlement (processing 8 6 (before_round processing five_seconds 8 6 2 ending_world)).0))
consume_message-settles_example =
    consume_message-settles processing five_seconds 8 6 2 9 ending_world (omega arith) stays_busy
      ends_job

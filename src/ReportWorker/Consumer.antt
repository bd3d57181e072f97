-- ===== src/ReportWorker/Consumer.antt =====
-- What `ensure_consumer` and `ensure_stream` (app/v2/report_worker.py) leave on the server.
use capstone_backend.Prelude.{◌≡◌, refl, true, false, Option, none, some, arith}
use capstone_backend.Errors.{ok}
use capstone_backend.Settings.{Settings}
use capstone_backend.ReportWorker.{
  Server, ConsumerConfig, conflicts, has_limits, relimited, desired, applied, ensure_consumer,
}

module _ (cfg : Settings) {Q : Type 0} (js : Server Q) (q : Q) where
  applied_ok :
      (o : Option ConsumerConfig)
      → applied cfg o ≡ ok tt
      → (c : ConsumerConfig) × (o ≡ some c) × (conflicts cfg c ≡ false) × (has_limits cfg c ≡ true)
  applied_ok none h = absurd (cc)
  applied_ok (some c) h = (c, refl, ground arith, ground arith)

  -- When `ensure_consumer` returns, the consumer that the server then reports pulls explicitly
  -- acknowledged messages of the report subject only, with the worker's limits.
  pub ensure_consumer_applied :
      (ensure_consumer cfg js q).0 ≡ ok tt
      → (c : ConsumerConfig) × (js.consumer_info (ensure_consumer cfg js q).1 ≡ some c)
        × (conflicts cfg c ≡ false)
        × (has_limits cfg c ≡ true)
  unfolding ensure_consumer
  ensure_consumer_applied h =
      applied_ok (js.consumer_info (ensure_consumer cfg js q).1) (ground arith)

  -- On a server that reports the configuration that it was given, `ensure_consumer` succeeds unless
  -- the consumer there is of another kind: it creates a missing one and changes wrong limits.
  pub ensure_consumer_repairs :
      ((c : ConsumerConfig) (p : Q)
        → ((js.add_consumer c p).0 ≡ true) × (js.consumer_info (js.add_consumer c p).1 ≡ some c))
      → (o : Option ConsumerConfig) → js.consumer_info q ≡ o
      → (elim o [ none ↦ false | some c ↦ conflicts cfg c ]) ≡ false
      → (ensure_consumer cfg js q).0 ≡ ok tt
  unfolding ensure_consumer
  ensure_consumer_repairs stores none e h = ground (arith, stores (desired cfg) q)
  ensure_consumer_repairs stores (some c) e h = ground (arith, stores (relimited cfg c) q)

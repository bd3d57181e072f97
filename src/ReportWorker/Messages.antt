-- ===== src/ReportWorker/Messages.antt =====
-- How `consume_message` (app/v2/report_worker.py) settles a message.
use capstone_backend.Prelude.{ℕ, zero, suc, ◌≡◌, ◌<◌, refl, Bool, true, false, List, [], ◌∷◌, arith}
use capstone_backend.Errors.{Result, ok, err}
use capstone_backend.Jobs.Worker.{Status, done_status, busy_status}
use capstone_backend.ReportWorker.{
  Signal, ack, in_progress, nak, report_job, answered, sleep, consume, consume_message,
}
use capstone_backend.World.{World, Exec, pure, continue, catch, ◌>>=◌}

abbrev pub is_busy : Result Status → Bool
is_busy (ok busy_status) = true
is_busy _ = false

-- how a message is settled after an answer that is not busy
abbrev pub settlement : Result Status → Signal
settlement (ok _) = ack
settlement (err e) = nak

-- a message that is kept alive some times, and then settled
abbrev pub kept : ℕ → Signal → List Signal
kept zero s = s ∷ []
kept (suc k) s = in_progress ∷ kept k s

module _ (process : ℕ → ℕ → Exec Status) (wait : World → World) (sid job_id : ℕ) where
  -- the world before a round, where each round before it waited
  abbrev pub before_round : ℕ → World → World
  before_round zero w = w
  before_round (suc k) w = before_round k (wait (process sid job_id w).1)

  answered_last :
      (again : Exec (List Signal)) (r : Result Status) (v : World)
      → is_busy r ≡ false
      → (answered process wait again r v).0 ≡ ok (settlement r ∷ [])
  unfolding pure
  answered_last again (err e) v h = refl
  answered_last again (ok done_status) v h = refl
  answered_last again (ok busy_status) v h = absurd (cc)

  later :
      (r : Result (List Signal)) (v : World) (s : List Signal)
      → r ≡ ok s
      → (continue r (λ rest. pure (in_progress ∷ rest)) v).0 ≡ ok (in_progress ∷ s)
  unfolding pure
  later (ok t) v s e = ground (arith, e)
  later (err t) v s e = absurd (cc)

  answered_again :
      (again : Exec (List Signal)) (r : Result Status) (v : World) (s : List Signal)
      → is_busy r ≡ true
      → (again (wait v)).0 ≡ ok s
      → (answered process wait again r v).0 ≡ ok (in_progress ∷ s)
  unfolding sleep ◌>>=◌
  answered_again again (ok busy_status) v s h e = later (again (wait v)).0 (again (wait v)).1 s e
  answered_again again (ok done_status) v s h e = absurd (cc)
  answered_again again (err x) v s h e = absurd (cc)

  -- When the job is busy in some rounds and not in the next, the message of a job is kept alive once
  -- in each of those rounds and then settled, exactly once, whatever further rounds the loop may
  -- make: it is acknowledged if the job is done, and handed back if processing it raised.
  pub consume_message-settles :
      (k fuel : ℕ) (w : World)
      → k < fuel
      → ((i : ℕ) → i < k → is_busy (process sid job_id (before_round i w)).0 ≡ true)
      → is_busy (process sid job_id (before_round k w)).0 ≡ false
      → (consume_message process wait fuel (report_job sid job_id) w).0
        ≡ ok (kept k (settlement (process sid job_id (before_round k w)).0))
  unfolding consume_message consume catch ◌>>=◌
  consume_message-settles k zero w h busy last = absurd (omega arith)
  consume_message-settles zero (suc fuel) w h busy last =
      answered_last (consume process wait fuel sid job_id) (process sid job_id w).0
        (process sid job_id w).1 last
  consume_message-settles (suc k) (suc fuel) w h busy last =
      answered_again (consume process wait fuel sid job_id) (process sid job_id w).0
        (process sid job_id w).1 _ (busy 0 (omega arith))
        (consume_message-settles k fuel (wait (process sid job_id w).1) (omega arith)
          (λ i j. busy (suc i) (omega arith)) last)

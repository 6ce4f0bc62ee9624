-- ===== src/Tests/Queues.antt =====
-- Events of the outbox.
use api_padrao.Prelude.{
  ℕ, ◌≤◌, ◌^◌, ◌*◌, String, Bool, true, false, Option, none, some, [], ◌∷◌, ◌≡◌, refl, arith,
  count_where, update_where,
}
use api_padrao.Outbox.{OutboxEvent, System, Broker, has_id, mark_failed, process, poll_safely}
use api_padrao.Outbox.Delivery.{IsSound, at_start, after, writes, polls, processes, Reaches-IsSound}
use api_padrao.Outbox.Retry.{process-retries}

abbrev event : OutboxEvent
event = record {
  id = "e1";
  type = "audit";
  payload = "login";
  created_at = 0;
  published_at = none;
  attempts = 2;
  last_error = none;
  scheduled_for = 0;
}

abbrev system : System
system = record {
  events = [];
  queues = record { audit = []; email = []; refresh_flush = [] };
  outbox = [];
  polling = false;
}

abbrev with_event : System
with_event = record system { events = event ∷ [] }

abbrev redis_up : Broker
redis_up queue = none

abbrev redis_down : Broker
redis_down queue = some "ECONNREFUSED"

abbrev polled : System
polled = poll_safely 10 (λ k. false) with_event

abbrev failed : System
failed = (process 20 redis_down "e1" polled).1

empty-IsSound : IsSound system
unfolding count_where
empty-IsSound = record { covered = λ t p r. ground arith; ids = λ i. omega arith }

-- the queue is down for the first job, and the second one is delivered
Reaches-IsSound_example : IsSound (process 9000 redis_up "e1" failed).1
unfolding api_padrao.Prelude.any
Reaches-IsSound_example =
    Reaches-IsSound
      (after
        (after
          (after (after at_start (writes event system refl refl))
            (polls 10 (λ k. false) with_event))
          (processes 20 redis_down "e1" polled))
        (processes 9000 redis_up "e1" failed))
      empty-IsSound

process-retries_example :
    (wait : ℕ) × (2000 ≤ wait)
    × (wait ≤ 256000)
    × (wait ≡ 2 ^ 3 * 1000)
    × (event.published_at ≡ none)
    × ((process 20 redis_down "e1" with_event).1.events
        ≡ update_where (has_id "e1") (mark_failed 20 "ECONNREFUSED" wait) with_event.events)
unfolding api_padrao.Prelude.find process
process-retries_example = process-retries 20 redis_down "e1" with_event event refl refl

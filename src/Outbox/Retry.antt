-- ===== src/Outbox/Retry.antt =====
-- What is left of a job whose queue raises:
-- src/shared/infrastructure/queues/processors/outbox.processor.ts.
use api_padrao.Prelude.{
  ℕ, zero, suc, ◌+◌, ◌^◌, min, ◌≤◌, String, Option, none, some, ◌≡◌, refl, ap, arith, find,
  update_where, string_eq, inl, inr, Bool-cases, Option-cases, ◌*◌, ◌==◌,
}
use api_padrao.Usuarios.Repository.{is_none}
use api_padrao.Outbox.{
  OutboxEvent, Queues, System, Broker, route_to_queue, has_id, backoff_ms, mark_failed, settle,
  process_found, process,
}

pow_bounds : (m : ℕ) → 1 ≤ m → m ≤ 8 → (2 ≤ 2 ^ m) × (2 ^ m ≤ 256)
pow_bounds zero l h = absurd (omega arith)
pow_bounds (suc zero) l h = (omega arith, omega arith)
pow_bounds (suc (suc zero)) l h = (omega arith, omega arith)
pow_bounds (suc (suc (suc zero))) l h = (omega arith, omega arith)
pow_bounds (suc (suc (suc (suc zero)))) l h = (omega arith, omega arith)
pow_bounds (suc (suc (suc (suc (suc zero))))) l h = (omega arith, omega arith)
pow_bounds (suc (suc (suc (suc (suc (suc zero)))))) l h = (omega arith, omega arith)
pow_bounds (suc (suc (suc (suc (suc (suc (suc zero))))))) l h = (omega arith, omega arith)
pow_bounds (suc (suc (suc (suc (suc (suc (suc (suc zero)))))))) l h = (omega arith, omega arith)
pow_bounds (suc (suc (suc (suc (suc (suc (suc (suc (suc m))))))))) l h = absurd (omega arith)

backoff-bounds : (attempts : ℕ) → (2000 ≤ backoff_ms attempts) × (backoff_ms attempts ≤ 256000)
unfolding backoff_ms
backoff-bounds attempts =
    let (low, high) = pow_bounds (min (attempts + 1) 8) (ground arith) (ground arith) in
    (omega arith, omega arith)

settle-retries :
    (now : ℕ) (event : OutboxEvent) (s : System) (routed : Option String × Queues) {error : String}
    → (settle now event s routed).0 ≡ some error
    → (settle now event s routed).1.events
      ≡ update_where (has_id event.id) (mark_failed now error (backoff_ms event.attempts)) s.events
settle-retries now event s (none, q) raised = cc
settle-retries now event s (some e, q) {error} raised =
    let same : e ≡ error = cc raised in
    ap
      (λ (m : String).
        update_where (has_id event.id) (mark_failed now m (backoff_ms event.attempts)) s.events)
      same

found-retries :
    (now : ℕ) (broker : Broker) (s : System) (event : OutboxEvent) {error : String}
    → (process_found now broker (some event) s).0 ≡ some error
    → (process_found now broker (some event) s).1.events
      ≡ update_where (has_id event.id) (mark_failed now error (backoff_ms event.attempts)) s.events
found-retries now broker s event {error} raised = elim (Bool-cases (is_none event.published_at)) [
  | inr published ↦ cc (rw published at raised)
  | inl pending ↦
      rw (process_found, pending)
        (settle-retries now event s (route_to_queue broker event.type event.payload s.queues)
          (rw pending at raised))
]

found-pending :
    (now : ℕ) (broker : Broker) (s : System) (event : OutboxEvent) {error : String}
    → (process_found now broker (some event) s).0 ≡ some error
    → event.published_at ≡ none
found-pending now broker s event raised = elim (Option-cases event.published_at) [
  | inl pending ↦ pending
  | inr (t, published) ↦ cc (rw published at raised)
]

-- A job whose queue raises is thrown again and leaves the events as they were but for its own, which
-- was not published and stays so, has one more attempt and the error, and is due again after a wait
-- of 2 to 256 seconds, namely 2 ^ min(attempts + 1, 8) seconds.
pub process-retries :
    (now : ℕ) (broker : Broker) (id : String) (s : System) (event : OutboxEvent) {error : String}
    → find (has_id id) s.events ≡ some event
    → (process now broker id s).0 ≡ some error
    → (wait : ℕ) × (2000 ≤ wait)
      × (wait ≤ 256000)
      × (wait ≡ 2 ^ min (event.attempts + 1) 8 * 1000)
      × (event.published_at ≡ none)
      × ((process now broker id s).1.events
          ≡ update_where
              (λ (e : OutboxEvent). e.id == event.id)
              (λ (e : OutboxEvent). record e {
                attempts = e.attempts + 1;
                last_error = some error;
                scheduled_for = now + wait;
              })
              s.events)
unfolding process backoff_ms
process-retries now broker id s event {error} found raised =
    let wait = backoff_ms event.attempts in
    let (low, high) = backoff-bounds event.attempts in
    (
      wait,
      low,
      high,
      refl,
      found-pending now broker s event (rw found at raised),
      rw found (found-retries now broker s event (rw found at raised)),
    )

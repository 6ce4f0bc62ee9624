-- ===== src/Outbox/Delivery.antt =====
-- What a published event guarantees, under
-- src/shared/infrastructure/queues/processors/outbox.processor.ts.
use api_padrao.Prelude.{
  ℕ, ◌≤◌, String, Bool, true, false, not, ◌&&◌, ◌||◌, Option, none, some, List, [], ◌∷◌, ◌≡◌, refl,
  ap, ◌∙◌, arith, any, find, count_where, update_where, count_where-any,
  count_where-update_where_same, count_where-update_found, subst, ◌+◌, ◌==◌, string_eq, inl, inr,
  Bool-cases, if◌then◌else◌, find-holds, eq_iff,
}
use api_padrao.Usuarios.Repository.{is_none}
use api_padrao.Outbox.{
  OutboxEvent, Queues, System, Broker, route_to_queue, has_id, backoff_ms, mark_published,
  mark_failed, settle, process_found, process, poll_safely, poll,
}

-- the types that name a queue, and the jobs of that queue
unfoldable pub is_routed : String → Bool
is_routed type = type == "audit" || type == "email" || type == "refresh_flush"

unfoldable pub jobs_of : String → Queues → List String
jobs_of type q =
    if type == "audit"
    then q.audit
    else if type == "email"
    then q.email
    else if type == "refresh_flush"
    then q.refresh_flush
    else []

abbrev pub is_published_as : String → String → OutboxEvent → Bool
is_published_as type payload e =
    e.type == type && e.payload == payload && not (is_none e.published_at)

abbrev pub jobs_with : String → String → Queues → ℕ
unfolding jobs_of
jobs_with type payload q = count_where (λ job. job == payload) (jobs_of type q)

-- for each type that names a queue and each payload, the queue was given as many jobs as there are
-- published events, or more
abbrev pub IsCovered : List OutboxEvent → Queues → Type 0
IsCovered events q =
    (type payload : String)
    → is_routed type ≡ true
    → count_where (is_published_as type payload) events ≤ jobs_with type payload q

pub record IsSound (s : System) : Type 0 where
  pub covered : IsCovered s.events s.queues
  pub ids : (i : String) → count_where (has_id i) s.events ≤ 1

-- a job that is added takes none away
route-keeps :
    (broker : Broker) (type payload t p : String) (q : Queues)
    → jobs_with t p q ≤ jobs_with t p (route_to_queue broker type payload q).1
unfolding jobs_of route_to_queue count_where jobs_with
route-keeps broker type payload t p q = ground arith

-- a route that succeeds adds the job of the event itself
route-adds :
    (broker : Broker) (type payload : String) (q : Queues)
    → is_routed type ≡ true
    → (route_to_queue broker type payload q).0 ≡ none
    → jobs_with type payload (route_to_queue broker type payload q).1 ≡ jobs_with type payload q + 1
unfolding jobs_of is_routed route_to_queue count_where jobs_with
route-adds broker type payload q known h = ground (arith, eq_iff payload payload)

same-ids :
    (id i : String) (f : OutboxEvent → OutboxEvent) (events : List OutboxEvent)
    → ((e : OutboxEvent) → (f e).id ≡ e.id)
    → count_where (has_id i) events ≤ 1
    → count_where (has_id i) (update_where (has_id id) f events) ≤ 1
same-ids id i f events same h =
    rw
      (count_where-update_where_same (has_id i) (has_id id) f events
        (λ e. ap (λ (k : String). k == i) (same e)))
      h

-- the queues after a step took no job away
abbrev Grows : Queues → Queues → Type 0
Grows q q' = (t p : String) → jobs_with t p q ≤ jobs_with t p q'

published-IsCovered :
    (now : ℕ) (event : OutboxEvent) (events : List OutboxEvent) (q q' : Queues)
    → IsCovered events q
    → find (has_id event.id) events ≡ some event
    → count_where (has_id event.id) events ≤ 1
    → Grows q q'
    → (is_routed event.type ≡ true
        → jobs_with event.type event.payload q' ≡ jobs_with event.type event.payload q + 1)
    → IsCovered (update_where (has_id event.id) (mark_published now) events) q'
published-IsCovered now event events q q' h found unique grows added t p routed =
    let bound =
      count_where-update_found (is_published_as t p) (has_id event.id) (mark_published now) events
        found unique in
    let before = h t p routed in
    let more = grows t p in
    elim (Bool-cases (event.type == t && event.payload == p)) [
      | inr other ↦ ground arith
      | inl mine ↦
          let same_type : event.type ≡ t = (eq_iff event.type t).0 (ground arith) in
          let same_payload : event.payload ≡ p = (eq_iff event.payload p).0 (ground arith) in
          let one =
            subst (λ u. is_routed u ≡ true → jobs_with u p q' ≡ jobs_with u p q + 1) same_type
              (subst
                (λ v.
                  is_routed event.type ≡ true
                  → jobs_with event.type v q' ≡ jobs_with event.type v q + 1)
                same_payload added) in
          let exact = one routed in ground arith
    ]

settle-IsSound :
    (now : ℕ) (event : OutboxEvent) (s : System) (routed : Option String × Queues)
    → IsSound s
    → find (has_id event.id) s.events ≡ some event
    → Grows s.queues routed.1
    → (is_routed event.type ≡ true
        → routed.0 ≡ none
        → jobs_with event.type event.payload routed.1
          ≡ jobs_with event.type event.payload s.queues + 1)
    → IsSound (settle now event s routed).1
settle-IsSound now event s (none, q) h found grows added = record {
  covered =
      published-IsCovered now event s.events s.queues q h.covered found (h.ids event.id) grows
        (λ r. added r refl);
  ids = λ i. same-ids event.id i (mark_published now) s.events (λ e. refl) (h.ids i);
}
settle-IsSound now event s (some error, q) h found grows added =
    let change = mark_failed now error (backoff_ms event.attempts) in
    record {
      covered = λ t p r.
          let same =
            count_where-update_where_same (is_published_as t p) (has_id event.id) change s.events
              (λ e. refl) in
          let before = h.covered t p r in let more = grows t p in omega (arith, same, before, more);
      ids = λ i. same-ids event.id i change s.events (λ e. refl) (h.ids i);
    }

found_id :
    (id : String) (s : System) (event : OutboxEvent)
    → find (has_id id) s.events ≡ some event
    → find (has_id event.id) s.events ≡ some event
found_id id s event e =
    let same : event.id ≡ id = (eq_iff event.id id).0 (find-holds (has_id id) s.events e) in
    ap (λ (k : String). find (has_id k) s.events) same ∙ e

found-IsSound :
    (now : ℕ) (broker : Broker) (id : String) (s : System) (found : Option OutboxEvent)
    → IsSound s
    → find (has_id id) s.events ≡ found
    → IsSound (process_found now broker found s).1
found-IsSound now broker id s none h e = h
found-IsSound now broker id s (some event) h e = elim (Bool-cases (is_none event.published_at)) [
  | inr published ↦ rw (process_found, published) h
  | inl pending ↦
      rw (process_found, pending)
        (settle-IsSound now event s (route_to_queue broker event.type event.payload s.queues) h
          (found_id id s event e) (λ t p. route-keeps broker event.type event.payload t p s.queues)
          (λ r. route-adds broker event.type event.payload s.queues r))
]

process-IsSound :
    (now : ℕ) (broker : Broker) (id : String) (s : System)
    → IsSound s
    → IsSound (process now broker id s).1
unfolding process
process-IsSound now broker id s h = found-IsSound now broker id s (find (has_id id) s.events) h refl

poll-IsSound :
    (now : ℕ) (raises : ℕ → Bool) (s : System) → IsSound s → IsSound (poll_safely now raises s)
unfolding poll_safely poll
poll-IsSound now raises s h = elim (Bool-cases s.polling) [
  | inl busy ↦ simp (busy) (record { covered = h.covered; ids = h.ids })
  | inr free ↦ simp (free) (record { covered = h.covered; ids = h.ids })
]

write-IsSound :
    (event : OutboxEvent) (s : System)
    → event.published_at ≡ none
    → any (has_id event.id) s.events ≡ false
    → IsSound s
    → IsSound (record s { events = event ∷ s.events })
unfolding count_where
write-IsSound event s pending new h = record {
  covered = λ t p r. ground (arith, pending, h.covered t p r);
  ids = λ i. ground (
    arith,
    count_where-any (has_id event.id) s.events new,
    h.ids i,
    eq_iff event.id i,
    λ (e : event.id ≡ i). ap (λ (k : String). count_where (has_id k) s.events) e,
  );
}

-- a producer writes an event, the poller runs, or a worker takes a job, whatever the queues raise
pub data Step : System → System → Type 0 where
  writes :
      (event : OutboxEvent) (s : System)
      → event.published_at ≡ none
      → any (has_id event.id) s.events ≡ false
      → Step s (record s { events = event ∷ s.events })
  polls : (now : ℕ) (raises : ℕ → Bool) (s : System) → Step s (poll_safely now raises s)
  processes :
      (now : ℕ) (broker : Broker) (id : String) (s : System) → Step s (process now broker id s).1

pub data Reaches (s : System) : System → Type 0 where
  at_start : Reaches s s
  after : {t u : System} → Reaches s t → Step t u → Reaches s u

Step-IsSound : {s t : System} → Step s t → IsSound s → IsSound t
Step-IsSound (writes event s pending new) h = write-IsSound event s pending new h
Step-IsSound (polls now raises s) h = poll-IsSound now raises s h
Step-IsSound (processes now broker id s) h = process-IsSound now broker id s h

-- From a table whose events have ids of their own, and where for each of the types `audit`, `email`
-- and `refresh_flush` and each payload the queue of the type was given at least as many jobs with the
-- payload as there are published events with both, every sequence of new events, polls and jobs,
-- repeated jobs and jobs whose queue raises included, leads to such a table again: an event of these
-- types is not marked as published without a job of its own.
pub Reaches-IsSound : {s t : System} → Reaches s t → IsSound s → IsSound t
Reaches-IsSound at_start h = h
Reaches-IsSound (after r st) h = Step-IsSound st (Reaches-IsSound r h)

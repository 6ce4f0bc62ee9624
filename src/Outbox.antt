-- ===== src/Outbox.antt =====
-- The transactional outbox: outbox.processor.ts and outbox-poller.service.ts of
-- src/shared/infrastructure/queues/processors. A queue is the list of the jobs that were added to it;
-- what BullMQ does with them is outside. A payload is a text.
pub mod Delivery
pub mod Retry
use api_padrao.Prelude.{
  ℕ, suc, ◌+◌, ◌*◌, ◌^◌, min, String, Bool, true, false, ◌&&◌, Option, none, some, List, [], ◌∷◌,
  ◌++◌, find, select_where, update_where, leb, ◌==◌, string_eq, if◌then◌else◌,
}
use api_padrao.Usuarios.Repository.{is_none}
use api_padrao.Usuarios.Listing.{take}

pub record OutboxEvent : Type 0 where
  pub id : String
  pub type : String
  pub payload : String
  pub created_at : ℕ
  pub published_at : Option ℕ
  pub attempts : ℕ
  pub last_error : Option String
  pub scheduled_for : ℕ

-- the jobs of the queues that the events go to
pub record Queues : Type 0 where
  pub audit : List String
  pub email : List String
  pub refresh_flush : List String

-- `outbox` holds the ids of the jobs `outbox-publish`; `polling` is the poller's flag
pub record System : Type 0 where
  pub events : List OutboxEvent
  pub queues : Queues
  pub outbox : List String
  pub polling : Bool

-- what the `add` of a queue raises, if it does
abbrev pub Broker : Type 0
Broker = String → Option String

abbrev pub add_audit : String → Queues → Queues
add_audit payload q = record q { audit = payload ∷ q.audit }

abbrev pub add_email : String → Queues → Queues
add_email payload q = record q { email = payload ∷ q.email }

abbrev pub add_refresh_flush : String → Queues → Queues
add_refresh_flush payload q = record q { refresh_flush = payload ∷ q.refresh_flush }

-- the error, if the queue raised, and the queues
abbrev pub add_to : Option String → (Queues → Queues) → Queues → Option String × Queues
add_to none add q = (none, add q)
add_to (some error) add q = (some error, q)

-- an unknown type is skipped, and counts as done
unfoldable pub route_to_queue : Broker → String → String → Queues → Option String × Queues
route_to_queue broker type payload q =
    if type == "audit"
    then add_to (broker "audit") (add_audit payload) q
    else if type == "email"
    then add_to (broker "email") (add_email payload) q
    else if type == "refresh_flush"
    then add_to (broker "refresh-flush") (add_refresh_flush payload) q
    else (none, q)

abbrev pub max_backoff_shift : ℕ
max_backoff_shift = 8

abbrev pub has_id : String → OutboxEvent → Bool
has_id id e = e.id == id

unfoldable pub backoff_ms : ℕ → ℕ
backoff_ms attempts = 2 ^ min (attempts + 1) max_backoff_shift * 1000

abbrev pub mark_published : ℕ → OutboxEvent → OutboxEvent
mark_published now e = record e { published_at = some now }

-- the event as it was read gives the backoff; the increment is the database's
abbrev pub mark_failed : ℕ → String → ℕ → OutboxEvent → OutboxEvent
mark_failed now error backoff e = record e {
  attempts = e.attempts + 1;
  last_error = some error;
  scheduled_for = now + backoff;
}

abbrev pub settle : ℕ → OutboxEvent → System → Option String × Queues → Option String × System
settle now event s (none, q) = (
  none,
  record s { queues = q; events = update_where (has_id event.id) (mark_published now) s.events },
)
settle now event s (some error, q) = (
  some error,
  record s {
    queues = q;
    events =
        update_where (has_id event.id) (mark_failed now error (backoff_ms event.attempts)) s.events;
  },
)

-- an event that is gone or published is no work
abbrev pub process_found : ℕ → Broker → Option OutboxEvent → System → Option String × System
process_found now broker none s = (none, s)
process_found now broker (some event) s =
    if is_none event.published_at
    then settle now event s (route_to_queue broker event.type event.payload s.queues)
    else (none, s)

-- `process`: the error that it throws again, if any, and what is left
unfoldable pub process : ℕ → Broker → String → System → Option String × System
unfolding find update_where route_to_queue backoff_ms
process now broker id s = process_found now broker (find (has_id id) s.events) s

abbrev pub batch_size : ℕ
batch_size = 50

abbrev pub is_due : ℕ → OutboxEvent → Bool
is_due now e = is_none e.published_at && leb e.scheduled_for now

-- `orderBy: { createdAt: 'asc' }`
unfoldable pub insert_oldest : OutboxEvent → List OutboxEvent → List OutboxEvent
insert_oldest e [] = e ∷ []
insert_oldest e (f ∷ fs) =
    let rest = insert_oldest e fs in if leb e.created_at f.created_at then e ∷ f ∷ fs else f ∷ rest

unfoldable pub oldest_first : List OutboxEvent → List OutboxEvent
unfolding insert_oldest
oldest_first [] = []
oldest_first (e ∷ es) = insert_oldest e (oldest_first es)

-- the jobs that are added before the queue raises, if it does
unfoldable pub enqueue_all : (ℕ → Bool) → ℕ → List OutboxEvent → List String → List String
enqueue_all raises k [] jobs = jobs
enqueue_all raises k (e ∷ es) jobs =
    let rest = enqueue_all raises (suc k) es (e.id ∷ jobs) in if raises k then jobs else rest

-- `raises k` says whether the add of the k-th event raises, which ends the loop
unfoldable pub poll : ℕ → (ℕ → Bool) → System → System
unfolding take select_where oldest_first enqueue_all
poll now raises s = record s {
  outbox =
      enqueue_all raises 0 (take batch_size (oldest_first (select_where (is_due now) s.events)))
        s.outbox;
}

-- a poll that is under way keeps the next one out; an exception is only logged
unfoldable pub poll_safely : ℕ → (ℕ → Bool) → System → System
unfolding poll
poll_safely now raises s = if s.polling then s else record (poll now raises s) { polling = false }

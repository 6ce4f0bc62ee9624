-- ===== src/Idempotency/Replay.antt =====
-- What the interceptor guarantees of requests with the same key, and what it does not.
use api_padrao.Prelude.{
  ℕ, ◌+◌, ◌*◌, ◌≤◌, ◌<◌, String, Text, ◌≡◌, true, false, none, some, arith, text_beq_refl, text_eq,
}
use api_padrao.Cache
use api_padrao.Http.{HttpException, bad_request, idempotencia_em_andamento, ok}
use api_padrao.Idempotency.{
  Store, up, Call, IdempotencyConfig, Outcome, replied, raised, Reply, active_key, is_held,
  endpoint_ttl_ms, acquire, finish, resume, intercept,
}

module _ (config : IdempotencyConfig) {H : Type 0} (handle : H → Outcome × H) where
  -- the handler's own reply
  abbrev own : Outcome → Reply
  own o = record { outcome = o; replayed = false }

  -- the request finds nothing under its key, and nobody holds the lock
  pub record IsFirst (call : Call) (key : Text) (s : Store) : Type 0 where
    pub active : active_key call ≡ some key
    pub answers : call.redis ≡ up
    pub reads : call.get_fails ≡ false
    pub unsaved : Cache.get call.now key s.responses ≡ none
    pub free : is_held call.now key s ≡ false

  abbrev locked : Call → Text → Store → Store
  locked call key s = record s {
    locks = Cache.set key tt (call.now + config.lock_ttl_seconds * 1000) s.locks;
  }

  intercept-first :
      (call : Call) (key : Text) (s : Store) (h : H)
      → IsFirst call key s
      → intercept config handle call s h
        ≡ (own (handle h).0, finish config call key (handle h).0 (locked call key s), (handle h).1)
  unfolding intercept
  intercept-first call key s h f = ground (arith, f.active, f.answers, f.reads, f.unsaved, f.free)

  -- A response 2xx is served again: after a request that found nothing under its key and no lock,
  -- and whose handler replied with a status 2xx that was cached, a request with the key before the
  -- entry ends gets the same status and body, whoever sends it, and runs no handler.
  pub replay_same :
      (first again : Call) (key : Text) (s : Store) (h : H) (status : ℕ) (body : String)
      → IsFirst first key s
      → (handle h).0 ≡ replied status body
      → 200 ≤ status
      → status < 300
      → first.set_fails ≡ false
      → active_key again ≡ some key
      → again.get_fails ≡ false
      → again.now < first.ended + endpoint_ttl_ms config first
      → intercept config handle again
          (intercept config handle first s h).1
          (intercept config handle first s h).2
        ≡ (
          record { outcome = replied status body; replayed = true },
          (intercept config handle first s h).1,
          (intercept config handle first s h).2,
        )
  unfolding intercept
  replay_same first again key s h status body f e least most kept active reads soon =
      rw (intercept-first first key s h f) (ground (arith, e, f.answers, text_beq_refl key))

  -- After a request that found nothing under its key and no lock, and whose handler raised, a later
  -- request with the key runs its handler.
  pub retry_runs :
      (first again : Call) (key : Text) (s : Store) (h : H) (x : HttpException)
      → IsFirst first key s
      → (handle h).0 ≡ raised x
      → first.now ≤ again.now
      → active_key again ≡ some key
      → again.get_fails ≡ false
      → (intercept config handle again
          (intercept config handle first s h).1
          (intercept config handle first s h).2).2
        ≡ (handle (handle h).1).1
  unfolding intercept
  retry_runs first again key s h x f e time active reads =
      rw (intercept-first first key s h f)
        (ground (arith, e, f.answers, f.unsaved, text_beq_refl key))

  -- While a request holds the lock, and Redis answers, another request with the key that finds no
  -- response is refused with 400 before the lock expires, and runs no handler.
  pub overlapping_refused :
      (first other : Call) (key : Text) (s held : Store) (h : H)
      → acquire config first key s ≡ (ok tt, held)
      → first.redis ≡ up
      → other.redis ≡ up
      → active_key other ≡ some key
      → other.get_fails ≡ false
      → Cache.get other.now key s.responses ≡ none
      → other.now < first.now + config.lock_ttl_seconds * 1000
      → intercept config handle other held h
        ≡ (own (raised (bad_request idempotencia_em_andamento)), held, h)
  unfolding intercept
  overlapping_refused first other key s held h e up₁ up₂ active reads unsaved soon =
      ground (arith, text_beq_refl key)

  -- The cache is read before the lock is taken, and not again after it: a request that has found no
  -- response, and takes the lock after another one with the key has run from its start to its end,
  -- runs its handler a second time.
  pub late_lock_runs_twice :
      (other late : Call) (key : Text) (s : Store) (h : H)
      → IsFirst other key s
      → late.redis ≡ up
      → (resume config handle late key none
          (intercept config handle other s h).1
          (intercept config handle other s h).2).2
        ≡ (handle (handle h).1).1
  unfolding intercept
  late_lock_runs_twice other late key s h f answers =
      rw (intercept-first other key s h f) (ground (arith, answers, f.answers, text_beq_refl key))

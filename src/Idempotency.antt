-- ===== src/Idempotency.antt =====
-- src/shared/infrastructure/interceptors/idempotency.interceptor.ts: the response of a request is
-- kept under its `Idempotency-Key`, and a lock in Redis is held while the handler runs.
pub mod Replay
use api_padrao.Prelude.{
  ℕ, ◌+◌, ◌*◌, String, Text, Bool, true, false, not, ◌&&◌, ◌||◌, Option, none, some, length, ltb,
  leb, ◌==◌, nat_eq, text_eq, if◌then◌else◌,
}
use api_padrao.Cache
use api_padrao.Cache.{CacheMap}
use api_padrao.Http.{
  Result, HttpException, bad_request, unexpected, idempotencia_em_andamento, ok, err,
}

-- what is cached
pub record Saved : Type 0 where
  pub status : ℕ
  pub body : String
  pub timestamp : ℕ
  pub user_id : Option ℕ

-- the entries `idempotency:<key>` of the cache, and the locks `idem:lock:<key>` of Redis
pub record Store : Type 0 where
  pub responses : CacheMap Text Saved
  pub locks : CacheMap Text (Unit {0})

-- the client of Redis: there is none, it raises, or it answers
pub data Redis : Type 0 where
  absent failing up : Redis

-- One request: the metadata of the decorator (with its `ttlSeconds`), the header, `request.user.sub`,
-- the instants at which it arrives and at which its handler ends, and what fails meanwhile.
pub record Call : Type 0 where
  pub meta : Option (Option ℕ)
  pub header : Option Text
  pub user_id : Option ℕ
  pub now : ℕ
  pub ended : ℕ
  pub redis : Redis
  pub get_fails : Bool
  pub set_fails : Bool

pub record IdempotencyConfig : Type 0 where
  pub ttl_seconds : ℕ
  pub lock_ttl_seconds : ℕ

-- what the handler does: it replies, or it raises
pub data Outcome : Type 0 where
  replied : ℕ → String → Outcome
  raised : HttpException → Outcome

pub record Reply : Type 0 where
  pub outcome : Outcome
  pub replayed : Bool

-- a text of at most 255 and at least 8 characters
abbrev pub valid_key : Option Text → Option Text
valid_key none = none
valid_key (some key) = if ltb (length key) 8 || ltb 255 (length key) then none else some key

abbrev pub key_for : Option (Option ℕ) → Option Text → Option Text
key_for none header = none
key_for (some options) header = valid_key header

-- the key under which the interceptor works, if it does
abbrev pub active_key : Call → Option Text
active_key call = key_for call.meta call.header

abbrev pub given_seconds : Option (Option ℕ) → ℕ
given_seconds none = 0
given_seconds (some none) = 0
given_seconds (some (some seconds)) = seconds

-- `acquired !== 'OK'`
abbrev pub is_held : ℕ → Text → Store → Bool
is_held now key s = elim (Cache.get now key s.locks) [ none ↦ false | some held ↦ true ]

module _ (config : IdempotencyConfig) where
  abbrev pub endpoint_ttl_ms : Call → ℕ
  endpoint_ttl_ms call =
      (if given_seconds call.meta == 0 then config.ttl_seconds else given_seconds call.meta) * 1000

  -- `SET key value NX EX ttl`; Redis that raises counts as no lock
  abbrev pub acquire_in : Redis → Call → Text → Store → Result (Unit {0}) × Store
  acquire_in absent call key s = (ok tt, s)
  acquire_in failing call key s = (ok tt, s)
  acquire_in up call key s =
      if is_held call.now key s then (err (bad_request idempotencia_em_andamento), s) else (
        ok tt,
        record s { locks = Cache.set key tt (call.now + config.lock_ttl_seconds * 1000) s.locks },
      )

  unfoldable pub acquire : Call → Text → Store → Result (Unit {0}) × Store
  acquire call key s = acquire_in call.redis call key s

  abbrev pub release_in : Redis → Text → Store → Store
  release_in absent key s = s
  release_in failing key s = s
  release_in up key s = record s { locks = Cache.del key s.locks }

  -- only a status 2xx is kept
  abbrev pub save : Call → Text → ℕ → String → Store → Store
  save call key status body s =
      if leb 200 status && ltb status 300 && not call.set_fails
      then record s {
        responses =
            Cache.set key
              (record {
                status = status;
                body = body;
                timestamp = call.ended;
                user_id = call.user_id;
              })
              (call.ended + endpoint_ttl_ms call) s.responses;
      }
      else s

  abbrev pub finish : Call → Text → Outcome → Store → Store
  finish call key (replied status body) s = release_in call.redis key (save call key status body s)
  finish call key (raised e) s = release_in call.redis key s

  module _ {H : Type 0} (handle : H → Outcome × H) where
    abbrev pub run_handler : Call → Text → Store → H → Reply × Store × H
    run_handler call key s h =
        let (outcome, h') = handle h in
        (record { outcome = outcome; replayed = false }, finish call key outcome s, h')

    abbrev pub after_acquire : Call → Text → Result (Unit {0}) × Store → H → Reply × Store × H
    after_acquire call key (err e, s) h = (record { outcome = raised e; replayed = false }, s, h)
    after_acquire call key (ok a, s) h = run_handler call key s h

    -- what follows the read of the cache
    unfoldable pub resume : Call → Text → Option Saved → Store → H → Reply × Store × H
    unfolding acquire
    resume call key (some saved) s h =
        (record { outcome = replied saved.status saved.body; replayed = true }, s, h)
    resume call key none s h = after_acquire call key (acquire call key s) h

    abbrev pub with_key : Call → Text → Store → H → Reply × Store × H
    with_key call key s h =
        if call.get_fails
        then (record { outcome = raised (unexpected 0); replayed = false }, s, h)
        else resume call key (Cache.get call.now key s.responses) s h

    abbrev pub dispatch : Call → Option Text → Store → H → Reply × Store × H
    dispatch call none s h =
        let (outcome, h') = handle h in (record { outcome = outcome; replayed = false }, s, h')
    dispatch call (some key) s h = with_key call key s h

    unfoldable pub intercept : Call → Store → H → Reply × Store × H
    unfolding resume
    intercept call s h = dispatch call (active_key call) s h

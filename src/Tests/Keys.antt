-- ===== src/Tests/Keys.antt =====
-- Requests with an idempotency key.
use api_padrao.Prelude.{ℕ, ◌+◌, Text, ◌≡◌, refl, arith, true, false, Option, none, some, [], ◌∷◌}
use api_padrao.Cache
use api_padrao.Idempotency.{
  Store, up, Call, IdempotencyConfig, Outcome, replied, Reply, resume, intercept,
}
use api_padrao.Idempotency.Replay.{IsFirst, replay_same, late_lock_runs_twice}

abbrev config : IdempotencyConfig
config = record { ttl_seconds = 86400; lock_ttl_seconds = 60 }

abbrev key : Text
key = 49 ∷ 50 ∷ 51 ∷ 52 ∷ 53 ∷ 54 ∷ 55 ∷ 56 ∷ []

abbrev call : ℕ → Option ℕ → Call
call now user_id = record {
  meta = some none;
  header = some key;
  user_id = user_id;
  now = now;
  ended = now + 5;
  redis = up;
  get_fails = false;
  set_fails = false;
}

abbrev empty_store : Store
empty_store = record { responses = Cache.empty; locks = Cache.empty }

-- handlers that count their runs
abbrev create_one : ℕ → Outcome × ℕ
create_one n = (replied 201 "criado", n + 1)

abbrev after_create : Reply × Store × ℕ
after_create = intercept config create_one (call 10 (some 1)) empty_store 0

abbrev first_create : IsFirst config create_one (call 10 (some 1)) key empty_store
first_create = record { active = refl; answers = refl; reads = refl; unsaved = refl; free = refl }

replay_same_example :
    intercept config create_one (call 20 (some 2)) after_create.1 after_create.2
    ≡ (record { outcome = replied 201 "criado"; replayed = true }, after_create.1, after_create.2)
replay_same_example =
    replay_same config create_one (call 10 (some 1)) (call 20 (some 2)) key empty_store 0 201
      "criado" first_create refl (omega arith) (omega arith) refl refl refl (omega arith)

late_lock_runs_twice_example :
    (resume config create_one (call 9 (some 1)) key none after_create.1 after_create.2).2 ≡ 2
late_lock_runs_twice_example =
    late_lock_runs_twice config create_one (call 10 (some 1)) (call 9 (some 1)) key empty_store 0
      first_create refl

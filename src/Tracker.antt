-- ===== src/Tracker.antt =====
-- src/auth/infrastructure/services/cache-login-attempt-tracker.service.ts: the count of failed
-- logins in Redis, with the table `login_attempts` as the fallback while Redis raises.
pub mod Lockout
pub mod Fallback
pub mod Race
pub mod Frame
use mathlib.Core.Option
use api_padrao.Prelude.{
  ℕ, ◌+◌, ◌-◌, ◌*◌, Text, Bool, true, false, not, ◌&&◌, Option, none, some, List, ◌∷◌, leb, ◌==◌,
  text_eq, if◌then◌else◌, count_where, to_lower_case,
}
use api_padrao.Database.{LoginAttempt}
use api_padrao.Cache
use api_padrao.World.{World, Request}
use api_padrao.Exec.{Exec, pure, gets, modify}
use api_padrao.Http.{ok}

abbrev pub max_attempts : ℕ
max_attempts = 5

abbrev pub lock_ttl_ms : ℕ
lock_ttl_ms = 15 * 60 * 1000

abbrev pub window_ms : ℕ
window_ms = 15 * 60 * 1000

-- the prefix of the key is the map `attempts` of the world
unfoldable pub key : Text → Text
key email = to_lower_case email

-- `await this.cache.get<number>(k)`; `none` where the call raises
abbrev pub cache_get : Request → Text → World → Option (Option ℕ)
cache_get req k w = if req.outage.cache_get then none else some (Cache.get req.now k w.attempts)

-- the rows that the fallback counts
abbrev pub failed_since : Text → ℕ → LoginAttempt → Bool
failed_since normalized window_start a =
    a.email == normalized && not a.success && leb window_start a.attempted_at

unfoldable pub is_locked_in_prisma : Request → Text → World → Bool
is_locked_in_prisma req normalized w =
    let window_start = req.now - window_ms in
    if req.outage.prisma
    then true
    else leb max_attempts (count_where (failed_since normalized window_start) w.db.login_attempts)

abbrev pub locked_by : Request → Text → World → Option (Option ℕ) → Bool
locked_by req normalized w none = is_locked_in_prisma req normalized w
locked_by req normalized w (some none) = false
locked_by req normalized w (some (some value)) = leb max_attempts value

unfoldable pub is_locked_now : Request → Text → World → Bool
unfolding key is_locked_in_prisma
is_locked_now req email w =
    let normalized = to_lower_case email in
    locked_by req normalized w (cache_get req (key normalized) w)

abbrev pub is_locked : Request → Text → Exec Bool
is_locked req email = gets (is_locked_now req email)

-- `prisma.loginAttempt.create`, whose failure is only logged
unfoldable pub record_attempt : Request → Text → Bool → World → World
record_attempt req normalized success w = if req.outage.prisma then w else record w {
  db = record w.db {
    login_attempts =
        record { email = normalized; success = success; attempted_at = req.now }
        ∷ w.db.login_attempts;
  };
}

-- the `cache.set` of recordFailure, after `current` was read
unfoldable pub write_failure : Request → Text → ℕ → World → World
unfolding key record_attempt
write_failure req normalized current w =
    if req.outage.cache_set then record_attempt req normalized false w else record w {
      attempts = Cache.set (key normalized) (current + 1) (req.now + lock_ttl_ms) w.attempts;
    }

abbrev pub record_read : Request → Text → Option (Option ℕ) → World → World
record_read req normalized none w = record_attempt req normalized false w
record_read req normalized (some current) w =
    write_failure req normalized (Option.get_or current 0) w

unfoldable pub after_failure : Request → Text → World → World
unfolding key write_failure
after_failure req email w =
    let normalized = to_lower_case email in
    record_read req normalized (cache_get req (key normalized) w) w

abbrev pub record_failure : Request → Text → Exec (Unit {0})
record_failure req email = modify (after_failure req email)

abbrev pub cache_del : Request → Text → World → World
cache_del req k w =
    if req.outage.cache_del then w else record w { attempts = Cache.del k w.attempts }

-- whether Redis answered decides only what is logged
unfoldable pub after_success : Request → Text → World → World
unfolding key record_attempt
after_success req email w =
    let normalized = to_lower_case email in
    record_attempt req normalized true (cache_del req (key normalized) w)

abbrev pub clear_failures : Request → Text → Exec (Unit {0})
clear_failures req email = modify (after_success req email)

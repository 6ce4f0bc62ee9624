-- ===== src/Tracker/Fallback.antt =====
-- The lockout while Redis raises: the table `login_attempts` is a log of events.
use api_padrao.Prelude.{
  ℕ, suc, ◌+◌, ◌-◌, ◌≤◌, Text, ◌≡◌, Bool, true, false, List, [], ◌∷◌, arith, leb, count_where, All,
  Bool-cases, to_lower_case, to_lower_case_idem, text_beq_refl, if◌then◌else◌,
}
use api_padrao.World.{World, Request}
use api_padrao.Http.{ok}
use api_padrao.Tracker.{
  after_failure, after_success, is_locked_now, window_ms, max_attempts, is_locked, record_failure,
  clear_failures, failed_since,
}
use api_padrao.Tracker.Lockout.{Attempt}

-- a login that ended well (`clearFailures`) or not (`recordFailure`)
pub record Event : Type 0 where
  pub attempt : Attempt
  pub success : Bool

unfoldable pub replay : List Event → World → World
replay [] w = w
replay (e ∷ more) w = replay more (
    if e.success
    then (clear_failures e.attempt.0 e.attempt.1 w).1
    else (record_failure e.attempt.0 e.attempt.1 w).1)

abbrev pub failures : List Event → ℕ
failures [] = 0
failures (e ∷ more) = if e.success then failures more else suc (failures more)

-- Redis raises on every read, and the database answers
abbrev pub IsRedisDown : Request → Type 0
IsRedisDown req = (req.outage.cache_get ≡ true) × (req.outage.prisma ≡ false)

abbrev pub Counts : Text → ℕ → Event → Type 0
Counts email window_start e =
    IsRedisDown e.attempt.0
    × (to_lower_case e.attempt.1 ≡ to_lower_case email)
    × (window_start ≤ e.attempt.0.now)

abbrev rows : Text → ℕ → World → ℕ
rows email window_start w =
    count_where (failed_since (to_lower_case email) window_start) w.db.login_attempts

rows-step :
    (email : Text) (window_start : ℕ) (e : Event) (w : World)
    → Counts email window_start e
    → rows email window_start (
        if e.success
        then (clear_failures e.attempt.0 e.attempt.1 w).1
        else (record_failure e.attempt.0 e.attempt.1 w).1)
      ≡ (if e.success then rows email window_start w else suc (rows email window_start w))
unfolding after_failure after_success count_where
rows-step email window_start e w h = ground (arith, text_beq_refl (to_lower_case email))

rows-replay :
    (email : Text) (window_start : ℕ) (events : List Event) (w : World)
    → All (Counts email window_start) events
    → rows email window_start (replay events w) ≡ rows email window_start w + failures events
unfolding replay
rows-replay email window_start [] w h = omega arith
rows-replay email window_start (e ∷ more) w (here, there) =
    let step = rows-step email window_start e w here in
    let later =
      rows-replay email window_start more
        (if e.success
          then (clear_failures e.attempt.0 e.attempt.1 w).1
          else (record_failure e.attempt.0 e.attempt.1 w).1)
        there in
    ground arith

-- While Redis raises and the database answers, an account is locked exactly when the failed
-- attempts of the last 15 minutes, those in the table before and those made since, are at least 5.
-- A successful login in between does not lower the count.
pub fallback_exact :
    (email : Text) (events : List Event) (probe : Attempt) (w : World)
    → IsRedisDown probe.0
    → to_lower_case probe.1 ≡ to_lower_case email
    → All (Counts email (probe.0.now - window_ms)) events
    → (is_locked probe.0 probe.1 (replay events w)).0
      ≡ ok (
          leb max_attempts (
            count_where
              (failed_since (to_lower_case email) (probe.0.now - window_ms))
              w.db.login_attempts
            + failures events))
unfolding is_locked_now
fallback_exact email events (req, typed) w down same h =
    ground (arith, rows-replay email (req.now - window_ms) events w h)

-- Once Redis has dropped the key, the account is not locked, whatever the count was before.
pub clear_failures_unlocks :
    (email typed : Text) (req probe : Request) (w : World)
    → to_lower_case typed ≡ to_lower_case email
    → req.outage.cache_del ≡ false
    → probe.outage.cache_get ≡ false
    → (is_locked probe typed (clear_failures req email w).1).0 ≡ ok false
unfolding is_locked_now after_success
clear_failures_unlocks email typed req probe w same up up' = ground (
  arith,
  to_lower_case_idem email,
  text_beq_refl (to_lower_case email),
  Bool-cases req.outage.prisma,
)

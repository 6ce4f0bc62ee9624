-- ===== src/Tracker/Race.antt =====
-- `recordFailure` reads the counter and writes it back in two calls of the cache. Concurrent
-- requests as an interleaving of their reads and writes.
use api_padrao.Prelude.{
  ℕ, ◌+◌, ◌<◌, Text, ◌≡◌, refl, Option, some, List, [], ◌∷◌, arith, All, to_lower_case,
  to_lower_case_idem, text_beq_refl, false,
}
use mathlib.Core.Option
use api_padrao.Cache.{Stored, live}
use api_padrao.World.{World}
use api_padrao.Http.{ok}
use api_padrao.Tracker.{
  after_failure, is_locked_now, lock_ttl_ms, max_attempts, key, cache_get, is_locked, record_read,
  record_failure, write_failure,
}
use api_padrao.Tracker.Lockout.{Attempt, IsOn}

-- what a request has read of the counter, before it writes
abbrev pub reading : World → Attempt → Option (Option ℕ)
reading w (req, typed) = cache_get req (key (to_lower_case typed)) w

-- every request reads in the world `seen`; then they write, one after the other
unfoldable pub write_all : World → List Attempt → World → World
unfolding key write_failure
write_all seen [] w = w
write_all seen ((req, typed) ∷ more) w =
    write_all seen more
      (record_read req (to_lower_case typed) (cache_get req (key (to_lower_case typed)) seen) w)

-- One request alone: the two phases are `recordFailure`.
pub write_all-one :
    (a : Attempt) (w : World) → write_all w (a ∷ []) w ≡ (record_failure a.0 a.1 w).1
unfolding write_all after_failure
write_all-one (req, typed) w = refl

abbrev entry : ℕ → ℕ → Option (Stored ℕ)
entry n at = some (record { value = n; expires = at + lock_ttl_ms })

-- the time of the last write
abbrev pub last_write : ℕ → List Attempt → ℕ
last_write at [] = at
last_write at ((req, _) ∷ more) = last_write req.now more

abbrev Reads : World → Text → ℕ → Attempt → Type 0
Reads seen email n (req, typed) =
    IsOn email (req, typed)
    × (Option.get_or (live req.now (seen.attempts (to_lower_case email))) 0 ≡ n)

write_all-entry :
    (email : Text) (seen w : World) (n at : ℕ) (tried : List Attempt)
    → w.attempts (to_lower_case email) ≡ entry (n + 1) at
    → All (Reads seen email n) tried
    → (write_all seen tried w).attempts (to_lower_case email) ≡ entry (n + 1) (last_write at tried)
unfolding write_all
write_all-entry email seen w n at [] e h = e
write_all-entry email seen w n at ((req, typed) ∷ more) e (here, there) =
    write_all-entry email seen
      (record_read req (to_lower_case typed) (cache_get req (key (to_lower_case typed)) seen) w) n
      req.now more (ground (arith, to_lower_case_idem email, text_beq_refl (to_lower_case email)))
      there

-- Lost updates: requests that all read the counter before any of them writes it raise it by one
-- together, however many they are: the count that is stored afterwards is one more than the count
-- that they read. So an account with a count below 4 is not locked after any number of failed
-- attempts that overlap in this way.
pub concurrent_failures_not_locked :
    (email : Text) (seen : World) (n : ℕ) (a : Attempt) (tried : List Attempt) (probe : Attempt)
    → n + 1 < max_attempts
    → All (Reads seen email n) (a ∷ tried)
    → IsOn email probe
    → (Option.map
          (λ (s : Stored ℕ). s.value)
          ((write_all seen (a ∷ tried) seen).attempts (to_lower_case email))
        ≡ some (n + 1))
      × ((is_locked probe.0 probe.1 (write_all seen (a ∷ tried) seen)).0 ≡ ok false)
unfolding write_all is_locked_now
concurrent_failures_not_locked email seen n (req, typed) tried (preq, ptyped) small (here, there)
      p =
    let after =
      write_all-entry email seen
        (record_read req (to_lower_case typed) (cache_get req (key (to_lower_case typed)) seen)
          seen)
        n req.now tried
        (ground (arith, to_lower_case_idem email, text_beq_refl (to_lower_case email))) there in
    (rw after refl, ground (arith, to_lower_case_idem email))

-- ===== src/Tracker/Lockout.antt =====
-- The lockout while Redis answers.
use api_padrao.Prelude.{
  ℕ, suc, ◌+◌, ◌<◌, Text, ◌≡◌, false, Option, none, some, List, [], ◌∷◌, arith, leb, length, All,
  to_lower_case, to_lower_case_idem, text_beq_refl,
}
use api_padrao.Cache.{Stored, live}
use api_padrao.World.{World, Request}
use api_padrao.Http.{ok}
use api_padrao.Tracker.{
  after_failure, is_locked_now, lock_ttl_ms, max_attempts, is_locked, record_failure,
}

-- A failed attempt: the request, and the e-mail as it was typed.
abbrev pub Attempt : Type 0
Attempt = Request × Text

abbrev pub IsHealthy : Request → Type 0
IsHealthy req = (req.outage.cache_get ≡ false) × (req.outage.cache_set ≡ false)

-- an attempt on the account of `email`, however it is spelled
abbrev pub IsOn : Text → Attempt → Type 0
IsOn email (req, typed) = IsHealthy req × (to_lower_case typed ≡ to_lower_case email)

-- the entry for `email` has no live value
abbrev pub IsFresh : Text → ℕ → World → Type 0
IsFresh email now w = live now (w.attempts (to_lower_case email)) ≡ none

unfoldable pub fail_all : List Attempt → World → World
fail_all [] w = w
fail_all ((req, typed) ∷ more) w = fail_all more (record_failure req typed w).1

-- each attempt, and then the probe, comes before the lock of the attempt before it runs out
abbrev pub InTime : ℕ → List Attempt → ℕ → Type 0
InTime last [] probe = probe < last + lock_ttl_ms
InTime last ((req, _) ∷ more) probe = (req.now < last + lock_ttl_ms) × InTime req.now more probe

abbrev pub entry : ℕ → ℕ → Option (Stored ℕ)
entry n at = some (record { value = n; expires = at + lock_ttl_ms })

-- one failure that Redis counts
pub record_failure-live :
    (email typed : Text) (req : Request) (w : World) (n : ℕ)
    → IsOn email (req, typed)
    → live req.now (w.attempts (to_lower_case email)) ≡ some n
    → (record_failure req typed w).1.attempts (to_lower_case email) ≡ entry (n + 1) req.now
unfolding after_failure
record_failure-live email typed req w n h live_n =
    ground (arith, to_lower_case_idem email, text_beq_refl (to_lower_case email))

-- the first failure after a quiet time
pub record_failure-fresh :
    (email typed : Text) (req : Request) (w : World)
    → IsOn email (req, typed)
    → IsFresh email req.now w
    → (record_failure req typed w).1.attempts (to_lower_case email) ≡ entry 1 req.now
unfolding after_failure
record_failure-fresh email typed req w h fresh =
    ground (arith, to_lower_case_idem email, text_beq_refl (to_lower_case email))

pub fail_all-entry :
    (email : Text) (tried : List Attempt) (w : World) (n last probe : ℕ)
    → w.attempts (to_lower_case email) ≡ entry n last
    → All (IsOn email) tried
    → InTime last tried probe
    → live probe ((fail_all tried w).attempts (to_lower_case email)) ≡ some (n + length tried)
unfolding fail_all
fail_all-entry email [] w n last probe e on t = ground arith
fail_all-entry email ((req, typed) ∷ more) w n last probe e (here, on) (t, ts) =
    let later =
      fail_all-entry email more (record_failure req typed w).1 (n + 1) req.now probe
        (record_failure-live email typed req w n here (ground arith)) on ts in
    ground arith

pub is_locked-live :
    (email : Text) (probe : Attempt) (w : World) (n : ℕ)
    → IsOn email probe
    → live probe.0.now (w.attempts (to_lower_case email)) ≡ some n
    → (is_locked probe.0 probe.1 w).0 ≡ ok (leb max_attempts n)
unfolding is_locked_now
is_locked-live email (req, typed) w n h e = ground (arith, to_lower_case_idem email)

-- While Redis answers, and each attempt comes within 15 minutes of the one before it, an account
-- that had no live count is locked exactly when at least 5 failed attempts were recorded, however
-- the e-mail was spelled in each of them.
pub lockout_exact :
    (email : Text) (req : Request) (typed : Text) (more : List Attempt) (probe : Attempt)
    (w : World)
    → IsFresh email req.now w
    → IsOn email (req, typed)
    → All (IsOn email) more
    → IsOn email probe
    → InTime req.now more probe.0.now
    → (is_locked probe.0 probe.1 (fail_all ((req, typed) ∷ more) w)).0
      ≡ ok (leb max_attempts (suc (length more)))
unfolding fail_all
lockout_exact email req typed more probe w fresh first on last t =
    let counted =
      fail_all-entry email more (record_failure req typed w).1 1 req.now probe.0.now
        (record_failure-fresh email typed req w first fresh) on t in
    is_locked-live email probe _ (suc (length more)) last (ground arith)

-- ===== src/Tests/Tracking.antt =====
-- The counter of failed logins.
use api_padrao.Prelude.{some, to_lower_case, ℕ, ◌≡◌, refl, arith, true, false, List, [], ◌∷◌}
use mathlib.Core.Option
use api_padrao.Cache.{Stored}
use api_padrao.Http.{ok}
use api_padrao.Tracker.{is_locked}
use api_padrao.Tracker.Lockout.{Attempt, fail_all, lockout_exact}
use api_padrao.Tracker.Race.{write_all, concurrent_failures_not_locked}
use api_padrao.Tests.Data.{request, ana, ana_in_capitals, world}

abbrev at : ℕ → Attempt
at now = (request now "", ana)

abbrev four_more : List Attempt
four_more = at 20 ∷ (request 30 "", ana_in_capitals) ∷ at 40 ∷ at 50 ∷ []

lockout_exact_example :
    (is_locked (request 60 "") ana (fail_all (at 10 ∷ four_more) world)).0 ≡ ok true
unfolding api_padrao.Prelude.to_lower_case
lockout_exact_example =
    lockout_exact ana (request 10 "") ana four_more (at 60) world refl ((refl, refl), refl)
      (
        ((refl, refl), refl),
        (((refl, refl), refl), (((refl, refl), refl), (((refl, refl), refl), tt))),
      )
      ((refl, refl), refl) (omega arith, (omega arith, (omega arith, (omega arith, omega arith))))

concurrent_failures_not_locked_example :
    (Option.map
        (λ (s : Stored ℕ). s.value)
        ((write_all world (at 10 ∷ four_more) world).attempts (to_lower_case ana))
      ≡ some 1)
    × ((is_locked (request 60 "") ana (write_all world (at 10 ∷ four_more) world)).0 ≡ ok false)
unfolding api_padrao.Prelude.to_lower_case
concurrent_failures_not_locked_example =
    concurrent_failures_not_locked ana world 0 (at 10) four_more (at 60) (omega arith)
      (
        (((refl, refl), refl), refl),
        (
          (((refl, refl), refl), refl),
          (
            (((refl, refl), refl), refl),
            ((((refl, refl), refl), refl), ((((refl, refl), refl), refl), tt)),
          ),
        ),
      )
      ((refl, refl), refl)

-- ===== src/Sessions/Keeps.antt =====
-- Handlers that let the table of refresh tokens evolve, and how they compose.
use api_padrao.Prelude.{
  ◌≡◌, refl, ap, Bool, true, false, Option, none, some, List, arith, any, Bool-cases, inl, inr, ◌⊎◌,
  if◌then◌else◌,
}
use api_padrao.Http.{HttpException, Result, ok, err}
use api_padrao.Database.{RefreshToken, Database}
use api_padrao.World.{World}
use api_padrao.Exec.{
  Exec, pure, raise, gets, or_raise, raise_if, execute, execute-err, execute-step, >>=-step, ◌>>=◌,
}
use api_padrao.Auth.{clashes, create_refresh_token}
use api_padrao.Sessions.Table.{Evolves, unchanged, issued, revoked}

-- whether the handler returns or raises
pub record Keeps {A : Type 0} (m : Exec A) : Type 0 where
  pub keeps : (w : World) → Evolves w.db.refresh_tokens (m w).1.db.refresh_tokens

Result-cases :
    {A : Type 0} (s : Result A × World)
    → ((a : A) × (s ≡ (ok a, s.1))) ⊎ ((e : HttpException) × (s ≡ (err e, s.1)))
Result-cases (ok a, w) = inl (a, refl)
Result-cases (err e, w) = inr (e, refl)

evolves_trans : {a b c : List RefreshToken} → Evolves a b → Evolves b c → Evolves a c
evolves_trans h (unchanged e) = rw e h
evolves_trans h (issued row k fresh e) = issued row (evolves_trans h k) fresh e
evolves_trans h (revoked p now k e) = revoked p now (evolves_trans h k) e

abbrev tokens_after : {A : Type 0} → Result A × World → List RefreshToken
tokens_after s = s.1.db.refresh_tokens

>>=-fail :
    {A B : Type 0} (m : Exec A) (f : A → Exec B) (w : World) {e : HttpException} {w₁ : World}
    → m w ≡ (err e, w₁)
    → (m >>= f) w ≡ (err e, w₁)
>>=-fail m f w h = ground (arith, h)

module _ {A : Type 0} where
  -- a handler that does not touch the table
  pub untouched :
      (m : Exec A) → ((w : World) → (m w).1.db.refresh_tokens ≡ w.db.refresh_tokens) → Keeps m
  untouched m h = record { keeps = λ w. unchanged (h w) }

  pub pure-Keeps : (a : A) → Keeps (pure a)
  pure-Keeps a = untouched (pure a) (λ w. refl)

  pub raise-Keeps : (e : HttpException) → Keeps (raise {A = A} e)
  raise-Keeps e = untouched (raise e) (λ w. refl)

  pub gets-Keeps : (f : World → A) → Keeps (gets f)
  gets-Keeps f = untouched (gets f) (λ w. refl)

pub raise_if-Keeps : (c : Bool) (e : HttpException) → Keeps (raise_if c e)
raise_if-Keeps c e = record { keeps = λ w. unchanged refl }

pub or_raise-Keeps : {A : Type 0} (o : Option A) (e : HttpException) → Keeps (or_raise o e)
or_raise-Keeps none e = record { keeps = λ w. unchanged refl }
or_raise-Keeps (some a) e = record { keeps = λ w. unchanged refl }

pub if-Keeps :
    {A : Type 0} (c : Bool) {m k : Exec A} → Keeps m → Keeps k → Keeps (if c then m else k)
if-Keeps true h k = h
if-Keeps false h k = k

pub bind-Keeps :
    {A B : Type 0} {m : Exec A} {f : A → Exec B}
    → Keeps m
    → ((a : A) → Keeps (f a))
    → Keeps (m >>= f)
bind-Keeps {m = m} {f} h k = record {
  keeps = λ w. elim (Result-cases (m w)) [
    | inl (a, e) ↦ rw (>>=-step m f w e) (evolves_trans (h.keeps w) ((k a).keeps (m w).1))
    | inr (x, e) ↦ rw (>>=-fail m f w e) (h.keeps w)
  ];
}

-- what an exception undoes is not there, and what returns stays
pub execute-Keeps : {A : Type 0} {m : Exec A} → Keeps m → Keeps (execute m)
execute-Keeps {m = m} h = record {
  keeps = λ w. elim (Result-cases (m w)) [
    | inl (a, e) ↦ rw (execute-step m w e) (h.keeps w)
    | inr (x, e) ↦ unchanged (
        ap (λ (d : Database). d.refresh_tokens)
          (execute-err m w (ap (λ (s : Result _ × World). s.0) e)).1)
  ];
}

pub create-Keeps : (row : RefreshToken) → Keeps (create_refresh_token row)
unfolding create_refresh_token
create-Keeps row = record {
  keeps = λ w. elim (Bool-cases (any (clashes row) w.db.refresh_tokens)) [
    | inl clash ↦ unchanged (rw clash refl)
    | inr fresh ↦ issued row (unchanged refl) fresh (rw fresh refl)
  ];
}

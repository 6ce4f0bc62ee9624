-- ===== src/Exec/Preserves.antt =====
-- Handlers that keep a property of the state, whether they return or raise, and how they compose.
use api_padrao.Prelude.{Bool, Option, none, some}
use api_padrao.Http.{HttpException, Result, ok, err}
use api_padrao.Exec.{ExecOn, pure, gets, modify, or_raise, raise_if, ◌>>=◌, ◌>>◌}

module _ {S : Type 0} (P : S → Type 0) where
  pub record Preserves {A : Type 0} (m : ExecOn S A) : Type 0 where
    pub preserves : (s : S) → P s → P (m s).1

  continue-Preserves :
      {A B : Type 0} (f : A → ExecOn S B) (r : Result A × S) (s : S)
      → ((a : A) → Preserves (f a))
      → P r.1
      → P (((λ _. r) >>= f) s).1
  continue-Preserves f (ok a, s') s h p = (h a).preserves s' p
  continue-Preserves f (err e, s') s h p = p

  module _ {A : Type 0} where
    pub pure-Preserves : (a : A) → Preserves (pure a)
    pure-Preserves a = record { preserves = λ s p. p }

    pub gets-Preserves : (f : S → A) → Preserves (gets f)
    gets-Preserves f = record { preserves = λ s p. p }

    pub or_raise-Preserves : (o : Option A) (e : HttpException) → Preserves (or_raise o e)
    or_raise-Preserves none e = record { preserves = λ s p. p }
    or_raise-Preserves (some a) e = record { preserves = λ s p. p }

    pub bind-Preserves :
        {B : Type 0} {m : ExecOn S A} {f : A → ExecOn S B}
        → Preserves m
        → ((a : A) → Preserves (f a))
        → Preserves (m >>= f)
    bind-Preserves {m} {f} h k = record {
      preserves = λ s p. continue-Preserves f (m s) s k (h.preserves s p);
    }

  pub modify-Preserves : (f : S → S) → ((s : S) → P s → P (f s)) → Preserves (modify f)
  modify-Preserves f h = record { preserves = h }

  pub raise_if-Preserves : (c : Bool) (e : HttpException) → Preserves (raise_if c e)
  raise_if-Preserves c e = record { preserves = λ s p. p }

  -- the shape of `const row = await …; if (!row) throw …`
  pub then_or_raise-Preserves :
      {A : Type 0} {m : ExecOn S (Option A)} (e : HttpException)
      → Preserves m
      → Preserves (m >>= λ o. or_raise o e)
  then_or_raise-Preserves e h = bind-Preserves h (λ o. or_raise-Preserves o e)

  -- a check that comes before
  pub guarded-Preserves :
      {A : Type 0} {m : ExecOn S A} (c : Bool) (e : HttpException)
      → Preserves m
      → Preserves (raise_if c e >> m)
  guarded-Preserves c e h = bind-Preserves (raise_if-Preserves c e) (λ _. h)

  -- a read of a row that must be there
  pub found-Preserves :
      {A B : Type 0} (f : S → Option A) (e : HttpException) {k : A → ExecOn S B}
      → ((a : A) → Preserves (k a))
      → Preserves (gets f >>= λ o. or_raise o e >>= k)
  found-Preserves f e h =
      bind-Preserves (gets-Preserves f) (λ o. bind-Preserves (or_raise-Preserves o e) h)

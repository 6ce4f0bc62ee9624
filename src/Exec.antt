-- ===== src/Exec.antt =====
-- A handler: it changes the world and returns a value or raises. What was written before an
-- exception stays written, except inside a transaction
-- (src/auth/infrastructure/services/prisma-unit-of-work.service.ts).
pub mod Preserves
use api_padrao.Prelude.{◌≡◌, refl, ap, arith, Bool, Option, none, some, if◌then◌else◌}
use api_padrao.Http.{HttpException, Result, ok, err}
use api_padrao.World.{World}

abbrev pub ExecOn : Type 0 → Type 0 → Type 0
ExecOn S A = S → Result A × S

abbrev pub Exec : Type 0 → Type 0
Exec A = ExecOn World A

module _ {S A : Type 0} where
  abbrev pub pure : A → ExecOn S A
  pure a w = (ok a, w)

  abbrev pub raise : HttpException → ExecOn S A
  raise e w = (err e, w)

  abbrev pub gets : (S → A) → ExecOn S A
  gets f w = (ok (f w), w)

  abbrev pub or_raise : Option A → HttpException → ExecOn S A
  or_raise none e = raise e
  or_raise (some a) e = pure a

infixl 5 ◌>>=◌ ◌>>◌
abbrev pub ◌>>=◌ : {S A B : Type 0} → ExecOn S A → (A → ExecOn S B) → ExecOn S B
◌>>=◌ m f w = let (r, w') = m w in elim r [ ok a ↦ f a w' | err e ↦ (err e, w') ]

abbrev pub ◌>>◌ : {S A B : Type 0} → ExecOn S A → ExecOn S B → ExecOn S B
m >> k = m >>= λ _. k

abbrev pub modify : {S : Type 0} → (S → S) → ExecOn S (Unit {0})
modify f w = (ok tt, f w)

abbrev pub raise_if : {S : Type 0} → Bool → HttpException → ExecOn S (Unit {0})
raise_if c e w = (if c then err e else ok tt, w)

-- the database as it was when the transaction began, if the work raised
abbrev pub settle : {A : Type 0} → World → Result A × World → Result A × World
settle w (ok a, w') = (ok a, w')
settle w (err e, w') = (err e, record w' { db = w.db })

unfoldable pub execute : {A : Type 0} → Exec A → Exec A
execute work w = settle w (work w)

abbrev continue : {S A B : Type 0} → (A → ExecOn S B) → Result A × S → Result B × S
continue f (ok a, w) = f a w
continue f (err e, w) = (err e, w)

continue-ok :
    {S A B : Type 0} (f : A → ExecOn S B) (s : Result A × S) {b : B} {w' : S}
    → continue f s ≡ (ok b, w')
    → (a : A) × (w₁ : S) × (s ≡ (ok a, w₁)) × (f a w₁ ≡ (ok b, w'))
continue-ok f (ok a, w) e = (a, w, refl, e)
continue-ok f (err x, w) e = cc

-- Inversion of a bind that returned.
pub >>=-ok :
    {S A B : Type 0} (m : ExecOn S A) (f : A → ExecOn S B) (w : S) {b : B} {w' : S}
    → (m >>= f) w ≡ (ok b, w')
    → (a : A) × (w₁ : S) × (m w ≡ (ok a, w₁)) × (f a w₁ ≡ (ok b, w'))
>>=-ok m f w e = continue-ok f (m w) (ground (arith, e))

pub execute-ok :
    {A : Type 0} (work : Exec A) (w : World) {a : A} {w' : World}
    → execute work w ≡ (ok a, w')
    → work w ≡ (ok a, w')
unfolding execute
execute-ok work w {a} {w'} e = ground arith

-- `execute` gives the database back when the work raises.
pub execute-err :
    {A : Type 0} (work : Exec A) (w : World) {e : HttpException}
    → (work w).0 ≡ err e
    → ((execute work w).0 ≡ err e) × ((execute work w).1.db ≡ w.db)
unfolding execute
execute-err work w {e} h = ground arith

-- A bind whose first part returned.
pub >>=-step :
    {S A B : Type 0} (m : ExecOn S A) (f : A → ExecOn S B) (w : S) {a : A} {w₁ : S}
    → m w ≡ (ok a, w₁)
    → (m >>= f) w ≡ f a w₁
>>=-step m f w e = ground (arith, e)

pub execute-step :
    {A : Type 0} (work : Exec A) (w : World) {a : A} {w' : World}
    → work w ≡ (ok a, w')
    → execute work w ≡ (ok a, w')
unfolding execute
execute-step work w e = rw e

pub returned : {S A : Type 0} (s : Result A × S) {a : A} → s.0 ≡ ok a → s ≡ (ok a, s.1)
returned (r, w) e = ap (λ (x : Result _). (x, w)) e

-- ===== src/Prelude/Decimal.antt =====
-- The text of a number in a template literal, and the number that it stands for.
use Prim.Native.Nat.{ℕ, zero, suc, ◌+◌, ◌-◌, ◌*◌, ◌≤◌, ◌/◌, ◌%◌}
use mathlib.Core.Path.{◌≡◌, ap, ◌∙◌}
use mathlib.Core.Logic.{inl, inr}
use mathlib.Core.Bool.{true, false}
use mathlib.Core.List.{[], ◌∷◌}
use native.Mathlib.Omega.{arith}
use api_padrao.Prelude.Tests.{Text, ltb, Bool-cases}

-- the digits of `n` before those of `acc`; `n` itself is fuel enough, as `value-decimal` shows
unfoldable digits : ℕ → ℕ → Text → Text
digits zero n acc = (b'0' + n) ∷ acc
digits (suc fuel) n acc = elim (ltb n 10) [
  | true ↦ (b'0' + n) ∷ acc
  | false ↦ digits fuel (n / 10) ((b'0' + n % 10) ∷ acc)
]

unfoldable pub decimal : ℕ → Text
unfolding digits
decimal n = digits n n []

unfoldable pub value_from : ℕ → Text → ℕ
value_from a [] = a
value_from a (c ∷ s) = value_from (a * 10 + (c - b'0')) s

value-digits :
    (fuel n : ℕ) (acc : Text) → n ≤ fuel → value_from 0 (digits fuel n acc) ≡ value_from n acc
unfolding digits value_from
value-digits zero n acc h = ap (λ a. value_from a acc) (omega arith)
value-digits (suc fuel) n acc h = elim (Bool-cases (ltb n 10)) [
  | inl small ↦ rw (small, digits, value_from) (ap (λ a. value_from a acc) (omega arith))
  | inr large ↦
      rw (large, digits, value_from)
        (value-digits fuel (n / 10) ((b'0' + n % 10) ∷ acc) (ground arith)
          ∙ ap (λ a. value_from a acc) (omega arith))
]

-- The text of a number reads back as the number.
pub value-decimal : (n : ℕ) → value_from 0 (decimal n) ≡ n
unfolding decimal value_from
value-decimal n = value-digits n n [] (omega arith)

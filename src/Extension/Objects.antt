-- ===== src/Extension/Objects.antt =====
-- Object literals as src/prisma/prisma-extension.ts builds them: `{ ...fields, key: value }`.
use api_padrao.Prelude.{
  ℕ, String, Bool, true, false, Option, none, some, List, [], ◌∷◌, ◌≡◌, arith, eq_iff,
  if◌then◌else◌, ◌==◌, string_eq, nat_eq,
}

pub data Scalar : Type 0 where
  null : Scalar
  number : ℕ → Scalar
  string : String → Scalar
  boolean : Bool → Scalar
  moment : ℕ → Scalar

-- a field of a filter or of the data, an object for a composite key
pub data Value : Type 0 where
  scalar : Scalar → Value
  object : List (String × Scalar) → Value

abbrev pub Fields : Type 0
Fields = List (String × Value)

unfoldable pub as_fields : List (String × Scalar) → Fields
as_fields [] = []
as_fields ((k, s) ∷ rest) = (k, scalar s) ∷ as_fields rest

module _ {V : Type 0} where
  -- `fields[key]`, where `undefined` is none
  unfoldable pub lookup : String → List (String × V) → Option V
  lookup key [] = none
  lookup key ((k, v) ∷ rest) = if k == key then some v else lookup key rest

  -- `{ ...fields, [key]: value }`
  unfoldable pub assign : String → V → List (String × V) → List (String × V)
  assign key v [] = (key, v) ∷ []
  assign key v ((k, old) ∷ rest) =
      let others = assign key v rest in if k == key then (k, v) ∷ rest else (k, old) ∷ others

  pub lookup-assign :
      (key : String) (v : V) (fields : List (String × V))
      → lookup key (assign key v fields) ≡ some v
  unfolding lookup assign
  lookup-assign key v [] = ground (arith, eq_iff key key)
  lookup-assign key v ((k, old) ∷ rest) = ground (arith, lookup-assign key v rest)

  pub lookup-assign_ne :
      (key other : String) (v : V) (fields : List (String × V))
      → (key == other) ≡ false
      → lookup other (assign key v fields) ≡ lookup other fields
  unfolding lookup assign
  lookup-assign_ne key other v [] h = ground (arith)
  lookup-assign_ne key other v ((k, old) ∷ rest) h =
      ground (arith, lookup-assign_ne key other v rest h, eq_iff k key)

abbrev pub is_undefined : {V : Type 0} → Option V → Bool
is_undefined none = true
is_undefined (some v) = false

-- `!value`
abbrev pub is_falsy : Option Value → Bool
is_falsy none = true
is_falsy (some (object fields)) = false
is_falsy (some (scalar null)) = true
is_falsy (some (scalar (number n))) = n == 0
is_falsy (some (scalar (string s))) = s == ""
is_falsy (some (scalar (boolean b))) = if b then false else true
is_falsy (some (scalar (moment n))) = false

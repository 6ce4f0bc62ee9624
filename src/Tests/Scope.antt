-- ===== src/Tests/Scope.antt =====
-- Calls on the extended client, with an engine that compares the fields of a filter with the row.
use api_padrao.Prelude.{
  String, Bool, true, false, ◌&&◌, Option, none, some, List, [], ◌∷◌, ◌≡◌, refl, sym, ap, arith,
  eq_iff, ◌==◌, nat_eq, string_eq, inl, inr, Bool-cases,
}
use api_padrao.Extension.{
  Args, perfil, usuario_empresa, find_unique, find_many, delete, update, extended,
}
use api_padrao.Extension.Objects.{
  Scalar, Value, Fields, null, number, string, boolean, moment, scalar, object, lookup,
}
use api_padrao.Extension.Isolation.{filter_of, extended-isolates}
use api_padrao.Extension.SoftDelete.{data_of, extended-soft_deletes}

unfoldable scalar_beq : Scalar → Scalar → Bool
scalar_beq null null = true
scalar_beq (number m) (number n) = m == n
scalar_beq (string s) (string t) = s == t
scalar_beq (boolean true) (boolean true) = true
scalar_beq (boolean false) (boolean false) = true
scalar_beq (moment m) (moment n) = m == n
scalar_beq _ _ = false

scalar_beq-eq : (a b : Scalar) → scalar_beq a b ≡ true → a ≡ b
unfolding scalar_beq
scalar_beq-eq (string s) (string t) h = ap string ((eq_iff s t).0 h)
scalar_beq-eq a b h = ground arith

unfoldable has_value : Option Scalar → Value → Bool
unfolding scalar_beq
has_value none v = false
has_value (some a) (scalar b) = scalar_beq a b
has_value (some a) (object fields) = false

unfoldable selects : Fields → List (String × Scalar) → Bool
unfolding has_value lookup
selects [] row = true
selects ((k, v) ∷ rest) row = has_value (lookup k row) v && selects rest row

some_inj : (v w : Value) → some v ≡ some w → v ≡ w
some_inj v w h = ground arith

has_value-eq : (o : Option Scalar) (v : Scalar) → has_value o (scalar v) ≡ true → o ≡ some v
unfolding has_value
has_value-eq none v h = cc
has_value-eq (some a) v h = ap some (scalar_beq-eq a v h)

selects-field :
    (key : String) (v : Scalar) (filter : Fields) (row : List (String × Scalar))
    → lookup key filter ≡ some (scalar v)
    → selects filter row ≡ true
    → lookup key row ≡ some v
unfolding selects lookup
selects-field key v [] row f s = cc
selects-field key v ((k, w) ∷ rest) row f s = elim (Bool-cases (k == key)) [
  | inr other ↦ selects-field key v rest row (rw other at f) (ground arith)
  | inl here ↦
      let held : has_value (lookup k row) w ≡ true = ground arith in
      rw (sym ((eq_iff k key).0 here))
        (has_value-eq (lookup k row) v (rw (some_inj w (scalar v) (rw here at f)) at held))
]

abbrev other_company : Args
other_company = record {
  where_fields = some (
      ("usuarioId_empresaId", object (("usuarioId", number 7) ∷ ("empresaId", string "beta") ∷ []))
      ∷ []);
  data_fields = none;
}

abbrev row_of_acme : List (String × Scalar)
row_of_acme = ("usuarioId", number 7) ∷ ("empresaId", string "acme") ∷ []

-- the pair of another company is asked for
extended-isolates_example : lookup "empresaId" row_of_acme ≡ some (string "acme")
unfolding api_padrao.Extension.multi_tenant_models api_padrao.Extension.Isolation.is_covered selects
    extended api_padrao.Extension.Objects.as_fields
extended-isolates_example =
    extended-isolates selects selects-field "acme" 0 usuario_empresa find_unique other_company
      row_of_acme refl refl refl refl

abbrev by_id : Args
by_id = record {
  where_fields = some (("id", scalar (number 3)) ∷ []);
  data_fields = some (("ativo", scalar (boolean true)) ∷ []);
}

extended-soft_deletes_example :
    ((extended (some "acme") 500 perfil delete by_id).0 ≡ update)
    × (lookup "deletedAt" (data_of (extended (some "acme") 500 perfil delete by_id))
        ≡ some (scalar (moment 500)))
    × (lookup "ativo" (data_of (extended (some "acme") 500 perfil delete by_id))
        ≡ some (scalar (boolean false)))
    × (lookup "nome" (data_of (extended (some "acme") 500 perfil delete by_id)) ≡ none)
    × (lookup "id" (filter_of (extended (some "acme") 500 perfil delete by_id))
        ≡ some (scalar (number 3)))
unfolding api_padrao.Extension.soft_delete_models lookup
extended-soft_deletes_example =
    extended-soft_deletes (some "acme") 500 perfil false by_id "nome" "id" refl refl refl refl

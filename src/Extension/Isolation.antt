-- ===== src/Extension/Isolation.antt =====
-- Which rows the filters of src/prisma/prisma-extension.ts can reach. `selects` stands for the
-- engine: of it only this is used, that a row which a filter selects has each value that the filter
-- asks for.
use api_padrao.Prelude.{
  ℕ, String, Bool, true, false, Option, some, List, [], ◌≡◌, ◌≢◌, arith, ◌==◌, string_eq,
}
use mathlib.Core.Option
use api_padrao.Extension.{
  Model, Operation, Args, find_unique, find_unique_or_throw, find_first, find_first_or_throw,
  find_many, count, update, update_many, delete, delete_many, create, multi_tenant_models,
  soft_delete_models, scopes, present, hide_deleted, scope_to, handle_soft_delete_and_multi_tenant,
  model_method, extended,
}
use api_padrao.Extension.Objects.{Scalar, Fields, string, scalar, lookup, lookup-assign}

-- the filter that a call has when it reaches the engine
abbrev pub filter_of : Operation × Args → Fields
filter_of (op, args) = Option.get_or args.where_fields []

-- the operations of which the extension takes care
unfoldable pub is_covered : Operation → Bool
is_covered find_unique = true
is_covered find_unique_or_throw = true
is_covered find_first = true
is_covered find_first_or_throw = true
is_covered find_many = true
is_covered count = true
is_covered update = true
is_covered update_many = true
is_covered delete = true
is_covered delete_many = true
is_covered _ = false

pub scope_to-lookup :
    (e : String) (model : Model) (op : Operation) (args : Args)
    → multi_tenant_models model ≡ true
    → scopes op ≡ true
    → lookup "empresaId" (filter_of (op, scope_to (some e) model op args))
      ≡ some (scalar (string e))
unfolding scope_to
scope_to-lookup e model op args m s =
    ground
      (arith, lookup-assign "empresaId" (scalar (string e)) (Option.get_or args.where_fields []))

handle-lookup :
    (e : String) (model : Model) (op : Operation) (args : Args)
    → (e == "") ≡ false
    → multi_tenant_models model ≡ true
    → scopes op ≡ true
    → lookup "empresaId"
        (filter_of (op, handle_soft_delete_and_multi_tenant (some e) model op args))
      ≡ some (scalar (string e))
unfolding handle_soft_delete_and_multi_tenant present
handle-lookup e model op args ne m s =
    ground (arith, scope_to-lookup e model op (hide_deleted model op args) m s)

-- the operation that stands in for one that reaches rows is one that the extension scopes
model_method-scopes :
    (context : Option String) (now : ℕ) (model : Model) (op : Operation) (args : Args)
    → multi_tenant_models model ≡ true
    → is_covered op ≡ true
    → scopes (model_method context now model op args).0 ≡ true
unfolding model_method is_covered scopes soft_delete_models multi_tenant_models
model_method-scopes context now model op args m r = ground arith

extended-lookup :
    (e : String) (now : ℕ) (model : Model) (op : Operation) (args : Args)
    → (e == "") ≡ false
    → multi_tenant_models model ≡ true
    → is_covered op ≡ true
    → lookup "empresaId" (filter_of (extended (some e) now model op args))
      ≡ some (scalar (string e))
unfolding extended
extended-lookup e now model op args ne m r =
    let (op', args') = model_method (some e) now model op args in
    handle-lookup e model op' args' ne m (model_method-scopes (some e) now model op args m r)

-- The other operations, save `create`, reach the engine as they were called, in every context:
-- `aggregate`, `groupBy`, `updateManyAndReturn` and `upsert` among them, with no company added.
pub extended-passes :
    (context : Option String) (now : ℕ) (model : Model) (op : Operation) (args : Args)
    → is_covered op ≡ false
    → op ≢ create
    → extended context now model op args ≡ (op, args)
unfolding extended model_method handle_soft_delete_and_multi_tenant hide_deleted scope_to is_covered
extended-passes context now model op args other written = ground arith

module _ (selects : Fields → List (String × Scalar) → Bool)
    (selects-field : (key : String) (v : Scalar) (filter : Fields) (row : List (String × Scalar))
      → lookup key filter ≡ some (scalar v)
      → selects filter row ≡ true
      → lookup key row ≡ some v) where
  -- In a request of a company, whichever of `findUnique`, `findUniqueOrThrow`, `findFirst`,
  -- `findFirstOrThrow`, `findMany`, `count`, `update`, `updateMany`, `delete` and `deleteMany` is
  -- called on the profiles or on the memberships, and whatever filter it is given, every row that
  -- the engine selects for it belongs to that company.
  pub extended-isolates :
      (e : String) (now : ℕ) (model : Model) (op : Operation) (args : Args)
      (row : List (String × Scalar))
      → (e == "") ≡ false
      → multi_tenant_models model ≡ true
      → is_covered op ≡ true
      → selects (filter_of (extended (some e) now model op args)) row ≡ true
      → lookup "empresaId" row ≡ some (string e)
  extended-isolates e now model op args row ne m r s =
      selects-field "empresaId" (string e) _ row (extended-lookup e now model op args ne m r) s

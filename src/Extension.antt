-- ===== src/Extension.antt =====
-- src/prisma/prisma-extension.ts: what the extended Prisma client makes of a call before the engine
-- runs it. An object literal is a list of its fields in order; the engine is not modelled here.
pub mod Objects
pub mod Isolation
pub mod SoftDelete
use api_padrao.Prelude.{
  ℕ, String, Bool, true, false, not, ◌&&◌, ◌||◌, Option, none, some, [], if◌then◌else◌, any,
  nat_beq, codes, find, StrictEq, ◌==◌, string_eq,
}
use mathlib.Core.Option
use api_padrao.Extension.Objects.{
  Scalar, Value, Fields, null, string, boolean, moment, scalar, object, as_fields, lookup, assign,
  is_undefined, is_falsy,
}

pub data Model : Type 0 where
  usuario perfil permissao empresa usuario_empresa outro : Model

pub data Operation : Type 0 where
  find_unique find_unique_or_throw find_first find_first_or_throw find_many count : Operation
  aggregate group_by : Operation
  create create_many create_many_and_return update update_many update_many_and_return : Operation
  upsert delete delete_many : Operation

pub record Args : Type 0 where
  pub where_fields : Option Fields
  pub data_fields : Option Fields

-- `softDeleteModels.includes(model)`
unfoldable pub soft_delete_models : Model → Bool
soft_delete_models usuario = true
soft_delete_models perfil = true
soft_delete_models permissao = true
soft_delete_models empresa = true
soft_delete_models _ = false

unfoldable pub multi_tenant_models : Model → Bool
multi_tenant_models perfil = true
multi_tenant_models usuario_empresa = true
multi_tenant_models _ = false

-- the operations that get `deletedAt: null`
unfoldable pub reads : Operation → Bool
reads find_unique = true
reads find_first = true
reads find_many = true
reads count = true
reads find_first_or_throw = true
reads find_unique_or_throw = true
reads _ = false

-- the operations whose `where` gets the company of the context
unfoldable pub scopes : Operation → Bool
scopes find_first = true
scopes find_many = true
scopes count = true
scopes find_first_or_throw = true
scopes update = true
scopes update_many = true
scopes delete = true
scopes delete_many = true
scopes _ = false

unfoldable pub creates : Operation → Bool
creates create = true
creates _ = false

-- `context?.empresaId`, where the empty string is as good as none
unfoldable pub present : Option String → Option String
present none = none
present (some e) = if e == "" then none else some e

unfoldable pub hide_deleted : Model → Operation → Args → Args
unfolding soft_delete_models reads lookup assign
hide_deleted model op args =
    let given = Option.get_or args.where_fields [] in
    if soft_delete_models model && reads op && is_undefined (lookup "deletedAt" given)
    then record args { where_fields = some (assign "deletedAt" (scalar null) given) }
    else args

abbrev pub set_empresa : String → Option Fields → Option Fields
set_empresa e given = some (assign "empresaId" (scalar (string e)) (Option.get_or given []))

unfoldable pub scope_to : Option String → Model → Operation → Args → Args
unfolding multi_tenant_models scopes creates lookup assign
scope_to none model op args = args
scope_to (some e) model op args =
    if multi_tenant_models model && scopes op
    then record args { where_fields = set_empresa e args.where_fields }
    else if multi_tenant_models model
        && creates op
        && is_falsy (lookup "empresaId" (Option.get_or args.data_fields []))
    then record args { data_fields = set_empresa e args.data_fields }
    else args

-- `handleSoftDeleteAndMultiTenant`: the arguments that `query` is called with
unfoldable pub handle_soft_delete_and_multi_tenant : Option String → Model → Operation → Args → Args
unfolding hide_deleted scope_to present
handle_soft_delete_and_multi_tenant context model op args =
    scope_to (present context) model op (hide_deleted model op args)

-- `{ ...args, data: { ...(args?.data || {}), deletedAt: new Date(), ativo: false } }`
unfoldable pub mark_deleted : ℕ → Args → Args
unfolding assign
mark_deleted now args = record args {
  data_fields = some (
      assign "ativo" (scalar (boolean false))
        (assign "deletedAt" (scalar (moment now)) (Option.get_or args.data_fields [])));
}

-- `k.includes('_')`
unfoldable pub is_composite : String × Value → Bool
unfolding any
is_composite field = any (nat_beq b'_') (codes field.0)

abbrev pub with_empresa : Option String → Fields → Fields
with_empresa none given = given
with_empresa (some e) given = assign "empresaId" (scalar (string e)) given

-- the fields of the first composite key, if `typeof` its value is "object", or the filter as it is;
-- null and a date are objects of no fields
abbrev pub flattened : Fields → Option (String × Value) → Fields
flattened given none = given
flattened given (some (k, scalar null)) = []
flattened given (some (k, scalar (moment t))) = []
flattened given (some (k, scalar s)) = given
flattened given (some (k, object inner)) = as_fields inner

unfoldable pub transform_where : Option String → Option Fields → Fields
unfolding is_composite find assign present
transform_where context given =
    let fields = Option.get_or given [] in
    with_empresa (present context) (flattened fields (find is_composite fields))

unfoldable pub as_first : Option String → Args → Args
unfolding transform_where
as_first context args = record args {
  where_fields = some (transform_where context args.where_fields);
}

-- The methods that `makeMultiTenantHandlers` and `makeSoftDeleteHandlers` put on the models: the
-- operation that is called in place of the one asked for.
unfoldable pub model_method : Option String → ℕ → Model → Operation → Args → Operation × Args
unfolding as_first mark_deleted multi_tenant_models soft_delete_models
model_method context now model find_unique args =
    if multi_tenant_models model then (find_first, as_first context args) else (find_unique, args)
model_method context now model find_unique_or_throw args =
    if multi_tenant_models model
    then (find_first_or_throw, as_first context args)
    else (find_unique_or_throw, args)
model_method context now model delete args =
    if soft_delete_models model then (update, mark_deleted now args) else (delete, args)
model_method context now model delete_many args =
    if soft_delete_models model then (update_many, mark_deleted now args) else (delete_many, args)
model_method context now model op args = (op, args)

-- a call on the extended client: the model's method, then the query extension
unfoldable pub extended : Option String → ℕ → Model → Operation → Args → Operation × Args
unfolding model_method handle_soft_delete_and_multi_tenant
extended context now model op args =
    let (op', args') = model_method context now model op args in
    (op', handle_soft_delete_and_multi_tenant context model op' args')

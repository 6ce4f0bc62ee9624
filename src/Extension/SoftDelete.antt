-- ===== src/Extension/SoftDelete.antt =====
-- Deletion through src/prisma/prisma-extension.ts: what a delete is turned into, and what the reads
-- see of a deleted row. `selects` is the engine's, as in Isolation.
use api_padrao.Prelude.{
  ℕ, String, Bool, true, false, Option, none, some, List, [], ◌≡◌, refl, ap, arith, ◌∙◌, ◌==◌,
  string_eq, if◌then◌else◌,
}
use mathlib.Core.Option
use api_padrao.Extension.{
  Model, Operation, Args, delete, delete_many, update, update_many, creates, soft_delete_models,
  reads, present, hide_deleted, scope_to, mark_deleted, handle_soft_delete_and_multi_tenant,
  model_method, extended,
}
use api_padrao.Extension.Objects.{
  Scalar, Fields, null, string, boolean, moment, scalar, lookup, assign, is_undefined,
  lookup-assign, lookup-assign_ne,
}
use api_padrao.Extension.Isolation.{filter_of}

abbrev pub data_of : Operation × Args → Fields
data_of (op, args) = Option.get_or args.data_fields []

-- `deleteMany` or `delete`, and what stands in for it
abbrev pub deletion : Bool → Operation
deletion many = if many then delete_many else delete

abbrev pub soft_deletion : Bool → Operation
soft_deletion many = if many then update_many else update

method-deletes :
    (context : Option String) (now : ℕ) (model : Model) (many : Bool) (args : Args)
    → soft_delete_models model ≡ true
    → model_method context now model (deletion many) args
      ≡ (soft_deletion many, mark_deleted now args)
unfolding model_method
method-deletes context now model true args m = rw m refl
method-deletes context now model false args m = rw m refl

scope_to-where :
    (context : Option String) (model : Model) (op : Operation) (args : Args) (key : String)
    → ("empresaId" == key) ≡ false
    → lookup key (filter_of (op, scope_to context model op args))
      ≡ lookup key (filter_of (op, args))
unfolding scope_to
scope_to-where none model op args key other = refl
scope_to-where (some e) model op args key other = ground (
  arith,
  lookup-assign_ne "empresaId" key (scalar (string e)) (Option.get_or args.where_fields []) other,
)

-- the query extension leaves the data of an update alone, and of its filter all but the company
handle-update :
    (context : Option String) (model : Model) (many : Bool) (args : Args)
    → handle_soft_delete_and_multi_tenant context model (soft_deletion many) args
      ≡ scope_to (present context) model (soft_deletion many) args
unfolding handle_soft_delete_and_multi_tenant hide_deleted reads
handle-update context model true args = ground arith
handle-update context model false args = ground arith

scope_to-data :
    (context : Option String) (model : Model) (many : Bool) (args : Args)
    → (scope_to context model (soft_deletion many) args).data_fields ≡ args.data_fields
unfolding scope_to creates
scope_to-data none model many args = refl
scope_to-data (some e) model true args = ground arith
scope_to-data (some e) model false args = ground arith

marks-lookup :
    (now : ℕ) (op : Operation) (args : Args)
    → (lookup "deletedAt" (data_of (op, mark_deleted now args)) ≡ some (scalar (moment now)))
      × (lookup "ativo" (data_of (op, mark_deleted now args)) ≡ some (scalar (boolean false)))
unfolding mark_deleted
marks-lookup now op args =
    let given = Option.get_or args.data_fields [] in
    let dated = assign "deletedAt" (scalar (moment now)) given in
    ground (
      arith,
      lookup-assign "ativo" (scalar (boolean false)) dated,
      lookup-assign "deletedAt" (scalar (moment now)) given,
      lookup-assign_ne "ativo" "deletedAt" (scalar (boolean false)) dated refl,
    )

marks-other :
    (now : ℕ) (op : Operation) (args : Args) (key : String)
    → ("deletedAt" == key) ≡ false
    → ("ativo" == key) ≡ false
    → lookup key (data_of (op, mark_deleted now args)) ≡ lookup key (data_of (op, args))
unfolding mark_deleted
marks-other now op args key d a =
    let given = Option.get_or args.data_fields [] in
    let dated = assign "deletedAt" (scalar (moment now)) given in
    lookup-assign_ne "ativo" key (scalar (boolean false)) dated a
    ∙ lookup-assign_ne "deletedAt" key (scalar (moment now)) given d

-- what a deletion is when it reaches the engine
extended-deletion :
    (context : Option String) (now : ℕ) (model : Model) (many : Bool) (args : Args)
    → soft_delete_models model ≡ true
    → extended context now model (deletion many) args ≡ (
      soft_deletion many,
      scope_to (present context) model (soft_deletion many) (mark_deleted now args),
    )
unfolding extended
extended-deletion context now model many args m =
    ap (λ (c : Operation × Args). (c.0, handle_soft_delete_and_multi_tenant context model c.0 c.1))
      (method-deletes context now model many args m)
    ∙ ap (λ (a : Args). (soft_deletion many, a))
        (handle-update context model many (mark_deleted now args))

-- `delete` on users, profiles, permissions and companies reaches the engine as `update`, and
-- `deleteMany` as `updateMany`, in any context: the data dates `deletedAt` to this moment and sets
-- `ativo` to false, whatever the caller gave; every other field of the data, and every field of the
-- filter but the company, is as the caller gave it.
pub extended-soft_deletes :
    (context : Option String) (now : ℕ) (model : Model) (many : Bool) (args : Args)
    (field key : String)
    → soft_delete_models model ≡ true
    → ("deletedAt" == field) ≡ false
    → ("ativo" == field) ≡ false
    → ("empresaId" == key) ≡ false
    → ((extended context now model (if many then delete_many else delete) args).0
        ≡ (if many then update_many else update))
      × (lookup "deletedAt"
            (data_of (extended context now model (if many then delete_many else delete) args))
          ≡ some (scalar (moment now)))
      × (lookup "ativo"
            (data_of (extended context now model (if many then delete_many else delete) args))
          ≡ some (scalar (boolean false)))
      × (lookup field
            (data_of (extended context now model (if many then delete_many else delete) args))
          ≡ lookup field (Option.get_or args.data_fields []))
      × (lookup key
            (filter_of (extended context now model (if many then delete_many else delete) args))
          ≡ lookup key (Option.get_or args.where_fields []))
unfolding mark_deleted
extended-soft_deletes context now model many args field key m d a other =
    let op = soft_deletion many in
    let marked = mark_deleted now args in
    let e = extended-deletion context now model many args m in
    let written =
      ap data_of e
      ∙ ap (λ (f : Option Fields). Option.get_or f [])
          (scope_to-data (present context) model many marked) in
    let marks = marks-lookup now op args in
    (
      ap (λ (c : Operation × Args). c.0) e,
      ap (lookup "deletedAt") written ∙ marks.0,
      ap (lookup "ativo") written ∙ marks.1,
      ap (lookup field) written ∙ marks-other now op args field d a,
      ap (λ (c : Operation × Args). lookup key (filter_of c)) e
          ∙ scope_to-where (present context) model op marked key other,
    )

method-reads :
    (context : Option String) (now : ℕ) (model : Model) (op : Operation) (args : Args)
    → reads op ≡ true
    → reads (model_method context now model op args).0 ≡ true
unfolding model_method reads
method-reads context now model op args r = ground arith

hide_deleted-lookup :
    (model : Model) (op : Operation) (args : Args)
    → soft_delete_models model ≡ true
    → reads op ≡ true
    → is_undefined (lookup "deletedAt" (filter_of (op, args))) ≡ true
    → lookup "deletedAt" (filter_of (op, hide_deleted model op args)) ≡ some (scalar null)
unfolding hide_deleted
hide_deleted-lookup model op args m r u =
    ground (arith, lookup-assign "deletedAt" (scalar null) (Option.get_or args.where_fields []))

handle-deleted_at :
    (context : Option String) (model : Model) (op : Operation) (args : Args)
    → soft_delete_models model ≡ true
    → reads op ≡ true
    → is_undefined (lookup "deletedAt" (filter_of (op, args))) ≡ true
    → lookup "deletedAt" (filter_of (op, handle_soft_delete_and_multi_tenant context model op args))
      ≡ some (scalar null)
unfolding handle_soft_delete_and_multi_tenant
handle-deleted_at context model op args m r u =
    scope_to-where (present context) model op (hide_deleted model op args) "deletedAt" refl
    ∙ hide_deleted-lookup model op args m r u

extended-deleted_at :
    (context : Option String) (now : ℕ) (model : Model) (op : Operation) (args : Args)
    → soft_delete_models model ≡ true
    → reads op ≡ true
    → is_undefined (lookup "deletedAt" (filter_of (model_method context now model op args))) ≡ true
    → lookup "deletedAt" (filter_of (extended context now model op args)) ≡ some (scalar null)
unfolding extended
extended-deleted_at context now model op args m r u =
    let (op', args') = model_method context now model op args in
    handle-deleted_at context model op' args' m (method-reads context now model op args r) u

module _ (selects : Fields → List (String × Scalar) → Bool)
    (selects-field : (key : String) (v : Scalar) (filter : Fields) (row : List (String × Scalar))
      → lookup key filter ≡ some (scalar v)
      → selects filter row ≡ true
      → lookup key row ≡ some v) where
  -- A read of users, profiles, permissions or companies that does not itself ask about `deletedAt`
  -- never selects a deleted row, in any context.
  pub extended-hides_deleted :
      (context : Option String) (now : ℕ) (model : Model) (op : Operation) (args : Args)
      (row : List (String × Scalar))
      → soft_delete_models model ≡ true
      → reads op ≡ true
      → is_undefined (lookup "deletedAt" (filter_of (model_method context now model op args)))
        ≡ true
      → selects (filter_of (extended context now model op args)) row ≡ true
      → lookup "deletedAt" row ≡ some null
  extended-hides_deleted context now model op args row m r u s =
      selects-field "deletedAt" null _ row (extended-deleted_at context now model op args m r u) s

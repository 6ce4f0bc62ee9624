-- ===== src/Entities/Base.antt =====
-- `BaseEntity` of src/shared/domain/entities/base.entity.ts, and the two transitions that the entities
-- that extend it repeat. `createdAt` and `updatedAt` are set by the database only.
use api_padrao.Prelude.{
  ℕ, Bool, true, false, ◌||◌, Option, none, some, ◌≡◌, refl, inl, inr, Bool-cases, if◌then◌else◌,
}
use mathlib.Core.Option
use api_padrao.Usuarios.Repository.{is_none}

-- the errors that the entities throw
pub data Erro : Type 0 where
  nome_obrigatorio codigo_obrigatorio empresa_id_obrigatorio codigo_invalido : Erro
  nome_vazio nao_desativado permissao_duplicada : Erro
  email_obrigatorio email_invalido senha_obrigatoria : Erro
  responsavel_invalido plano_invalido mesmo_responsavel : Erro

-- what a method leaves: the entity, or an error, which each of them throws before it changes anything
pub data Outcome {ℓ} (A : Type ℓ) : Type ℓ where
  done : A → Outcome A
  thrown : Erro → Outcome A

abbrev pub map_done {ℓ} : {A B : Type ℓ} → (A → B) → Outcome A → Outcome B
map_done f (done a) = done (f a)
map_done f (thrown e) = thrown e

-- the entity after a call whose error is caught
abbrev pub kept {ℓ} : {A : Type ℓ} → A → Outcome A → A
kept a (done b) = b
kept a (thrown e) = a

pub record BaseEntity : Type 0 where
  pub id : Option ℕ
  pub deleted_at : Option ℕ
  pub ativo : Bool

-- the state after the constructor and the two assignments of a factory
abbrev pub fresh : Option ℕ → BaseEntity
fresh id = record { id = id; deleted_at = none; ativo = true }

unfoldable pub desativar : ℕ → BaseEntity → BaseEntity
desativar now b =
    if b.ativo
    then record b { ativo = false; deleted_at = some (Option.get_or b.deleted_at now) }
    else b

unfoldable pub restaurar : BaseEntity → Outcome BaseEntity
restaurar b =
    if b.ativo || is_none b.deleted_at
    then thrown nao_desativado
    else done (record b { ativo = true; deleted_at = none })

-- `ativo` says the same as `deletedAt`
abbrev pub IsConsistent : BaseEntity → Type 0
IsConsistent b = b.ativo ≡ is_none b.deleted_at

pub desativar-IsConsistent :
    (now : ℕ) (b : BaseEntity) → IsConsistent b → IsConsistent (desativar now b)
unfolding desativar
desativar-IsConsistent now b h = elim (Bool-cases b.ativo) [
  | inl active ↦ rw active refl
  | inr inactive ↦ rw inactive (rw inactive at h)
]

pub restaurar-IsConsistent : (b : BaseEntity) → IsConsistent b → IsConsistent (kept b (restaurar b))
unfolding restaurar
restaurar-IsConsistent b h = elim (Bool-cases (b.ativo || is_none b.deleted_at)) [
  | inl refused ↦ rw refused h
  | inr able ↦ rw able refl
]

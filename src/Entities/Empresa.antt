-- ===== src/Entities/Empresa.antt =====
-- src/empresas/domain/entities/empresa.entity.ts.
pub mod Valid
use api_padrao.Prelude.{
  ℕ, String, Text, Bool, true, false, not, ◌&&◌, ◌||◌, Option, none, some, List, [], ◌∷◌, ◌≡◌, refl,
  subst, inl, inr, Bool-cases, codes, includes, leb, ◌==◌, nat_eq, text_eq, if◌then◌else◌,
}
use mathlib.Core.Option
use api_padrao.Usuarios.Repository.{is_none}
use api_padrao.Entities.Trim.{trim, is_blank, trim_idem}
use api_padrao.Entities.Base.{
  Erro, nome_obrigatorio, nome_vazio, nao_desativado, responsavel_invalido, plano_invalido,
  mesmo_responsavel, Outcome, done, thrown, kept,
}

pub record Empresa : Type 0 where
  pub id : String
  pub nome : Text
  pub descricao : Option Text
  pub plano : Text
  pub ativo : Bool
  pub responsavel_id : ℕ
  pub created_at : ℕ
  pub updated_at : ℕ
  pub deleted_at : Option ℕ

-- a number, of which `none` is each that is negative or no integer
abbrev pub Numero : Type 0
Numero = Option ℕ

pub record Props : Type 0 where
  pub nome : Text
  pub responsavel_id : Numero
  pub plano : Option Text
  pub descricao : Option Text
  pub id : Option String

-- the positive integer that the number is
abbrev pub positive : Numero → Option ℕ
positive none = none
positive (some n) = if leb 1 n then some n else none

abbrev pub planos : List Text
planos = codes "FREE" ∷ codes "PRO" ∷ codes "ENTERPRISE" ∷ []

abbrev pub trimmed : Option Text → Option Text
unfolding trim
trimmed none = none
trimmed (some s) = some (trim s)

-- `new Empresa({…})`; `drawn` is what `randomUUID` draws
unfoldable pub nova : ℕ → String → Text → ℕ → Props → Empresa
unfolding trim trimmed
nova now drawn plano responsavel_id props = record {
  id = Option.get_or props.id drawn;
  nome = trim props.nome;
  descricao = trimmed props.descricao;
  plano = plano;
  ativo = true;
  responsavel_id = responsavel_id;
  created_at = now;
  updated_at = now;
  deleted_at = none;
}

abbrev pub normalizado : (Text → Text) → Props → Text
unfolding trim
normalizado to_upper_case props = to_upper_case (trim (Option.get_or props.plano (codes "FREE")))

abbrev pub with_responsavel : ℕ → String → Text → Props → Option ℕ → Outcome Empresa
unfolding includes nova
with_responsavel now drawn plano props none = thrown responsavel_invalido
with_responsavel now drawn plano props (some responsavel_id) =
    if not (includes plano planos)
    then thrown plano_invalido
    else done (nova now drawn plano responsavel_id props)

unfoldable pub criar : (Text → Text) → ℕ → String → Props → Outcome Empresa
unfolding is_blank normalizado with_responsavel
criar to_upper_case now drawn props =
    if is_blank props.nome
    then thrown nome_obrigatorio
    else with_responsavel now drawn (normalizado to_upper_case props) props
        (positive props.responsavel_id)

unfoldable pub desativar : ℕ → Empresa → Empresa
desativar now e =
    if e.ativo
    then record e {
      ativo = false;
      deleted_at = some (Option.get_or e.deleted_at now);
      updated_at = now;
    }
    else e

unfoldable pub restaurar : ℕ → Empresa → Outcome Empresa
restaurar now e =
    if e.ativo || is_none e.deleted_at
    then thrown nao_desativado
    else done (record e { ativo = true; deleted_at = none; updated_at = now })

-- `props.descricao`: undefined, or null or a text
abbrev pub with_descricao : Option (Option Text) → Empresa → Empresa
unfolding trimmed
with_descricao none e = e
with_descricao (some descricao) e = record e { descricao = trimmed descricao }

abbrev pub touched : ℕ → Empresa → Empresa
touched now e = record e { updated_at = now }

unfoldable pub atualizar_metadados :
    ℕ → Option Text → Option (Option Text) → Empresa → Outcome Empresa
unfolding is_blank trim with_descricao
atualizar_metadados now none descricao e = done (touched now (with_descricao descricao e))
atualizar_metadados now (some nome) descricao e =
    if is_blank nome
    then thrown nome_vazio
    else done (touched now (with_descricao descricao (record e { nome = trim nome })))

-- the members that an object literal inherits, which `in` finds too
abbrev pub inherited : List Text
inherited =
    codes "constructor"
    ∷ codes "__defineGetter__"
    ∷ codes "__defineSetter__"
    ∷ codes "hasOwnProperty"
    ∷ codes "__lookupGetter__"
    ∷ codes "__lookupSetter__"
    ∷ codes "isPrototypeOf"
    ∷ codes "propertyIsEnumerable"
    ∷ codes "toString"
    ∷ codes "valueOf"
    ∷ codes "__proto__"
    ∷ codes "toLocaleString"
    ∷ []

unfoldable pub trocar_plano : ℕ → Text → Empresa → Outcome Empresa
unfolding includes
trocar_plano now plano e =
    if not (includes plano planos || includes plano inherited)
    then thrown plano_invalido
    else done (record e { plano = plano; updated_at = now })

abbrev pub transferir_a : ℕ → Option ℕ → Empresa → Outcome Empresa
transferir_a now none e = thrown responsavel_invalido
transferir_a now (some novo) e =
    if novo == e.responsavel_id
    then thrown mesmo_responsavel
    else done (record e { responsavel_id = novo; updated_at = now })

unfoldable pub transferir_responsabilidade : ℕ → Numero → Empresa → Outcome Empresa
transferir_responsabilidade now novo e = transferir_a now (positive novo) e

-- what the class promises of a company
pub record IsValid (id : String) (e : Empresa) : Type 0 where
  pub keeps : e.id ≡ id
  pub named : is_blank e.nome ≡ false
  pub owned : leb 1 e.responsavel_id ≡ true
  pub priced : includes e.plano planos ≡ true
  pub consistent : e.ativo ≡ is_none e.deleted_at

-- the type of `novoPlano`
pub data Plano : Type 0 where
  free pro enterprise : Plano

abbrev pub name_of : Plano → Text
name_of free = codes "FREE"
name_of pro = codes "PRO"
name_of enterprise = codes "ENTERPRISE"

pub data Call : Type 0 where
  desativa restaura : ℕ → Call
  atualiza : ℕ → Option Text → Option (Option Text) → Call
  troca : ℕ → Plano → Call
  transfere : ℕ → Numero → Call

unfoldable pub call : Call → Empresa → Outcome Empresa
unfolding desativar restaurar atualizar_metadados trocar_plano transferir_responsabilidade
call (desativa now) e = done (desativar now e)
call (restaura now) e = restaurar now e
call (atualiza now nome descricao) e = atualizar_metadados now nome descricao e
call (troca now plano) e = trocar_plano now (name_of plano) e
call (transfere now novo) e = transferir_responsabilidade now novo e

-- the calls in their order, each error caught by the caller
unfoldable pub call_all : List Call → Empresa → Empresa
unfolding call
call_all [] e = e
call_all (c ∷ cs) e = call_all cs (kept e (call c e))

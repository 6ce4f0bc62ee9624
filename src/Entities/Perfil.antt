-- ===== src/Entities/Perfil.antt =====
-- src/perfis/domain/entities/perfil.entity.ts.
use api_padrao.Prelude.{
  ℕ, Text, Bool, true, false, not, Option, none, some, List, [], ◌∷◌, ◌++◌, ◌≡◌, refl, ap, sym, inl,
  inr, Bool-cases, any, ◌==◌, text_eq, if◌then◌else◌,
}
use mathlib.Core.Option
use api_padrao.Entities.Trim.{trim, is_blank, is_codigo, trim_or_empty}
use api_padrao.Entities.Base.{
  nome_obrigatorio, codigo_obrigatorio, empresa_id_obrigatorio, codigo_invalido, nome_vazio,
  permissao_duplicada, Outcome, done, thrown, map_done, BaseEntity, fresh,
  desativar as desativar_base, restaurar as restaurar_base,
}
use api_padrao.Entities.Permissao.{Permissao}

pub record Perfil : Type 0 where
  pub base : BaseEntity
  pub nome : Text
  pub codigo : Text
  pub descricao : Text
  pub empresa_id : Text
  pub permissoes : Option (List Permissao)

pub record Props : Type 0 where
  pub nome : Text
  pub codigo : Text
  pub descricao : Option Text
  pub empresa_id : Text
  pub permissoes : Option (List Permissao)

-- `new Perfil()` and its assignments
unfoldable pub novo : Text → Props → Perfil
unfolding trim trim_or_empty
novo codigo props = record {
  base = fresh none;
  nome = trim props.nome;
  codigo = codigo;
  descricao = trim_or_empty props.descricao;
  empresa_id = trim props.empresa_id;
  permissoes = some (Option.get_or props.permissoes []);
}

unfoldable pub criar : (Text → Text) → Props → Outcome Perfil
unfolding trim is_blank is_codigo novo
criar to_upper_case props =
    let codigo = to_upper_case (trim props.codigo) in
    if is_blank props.nome
    then thrown nome_obrigatorio
    else if is_blank props.codigo
    then thrown codigo_obrigatorio
    else if is_blank props.empresa_id
    then thrown empresa_id_obrigatorio
    else if not (is_codigo codigo)
    then thrown codigo_invalido
    else done (novo codigo props)

unfoldable pub desativar : ℕ → Perfil → Perfil
unfolding desativar_base
desativar now p = record p { base = desativar_base now p.base }

unfoldable pub restaurar : Perfil → Outcome Perfil
unfolding restaurar_base
restaurar p = map_done (λ b. record p { base = b }) (restaurar_base p.base)

abbrev pub definir_permissoes : List Permissao → Perfil → Perfil
definir_permissoes permissoes p = record p { permissoes = some permissoes }

abbrev pub has_codigo : Text → Permissao → Bool
has_codigo codigo q = q.codigo == codigo

unfoldable pub possui_permissao : Text → Perfil → Bool
unfolding any
possui_permissao codigo p = any (has_codigo codigo) (Option.get_or p.permissoes [])

unfoldable pub adicionar_permissao : Permissao → Perfil → Outcome Perfil
unfolding any
adicionar_permissao q p =
    let permissoes = Option.get_or p.permissoes [] in
    if any (has_codigo q.codigo) permissoes
    then thrown permissao_duplicada
    else done (record p { permissoes = some (permissoes ++ (q ∷ [])) })

-- `findIndex` and `splice`: the list without the first permission that has the code, if there is one
unfoldable pub splice_first : Text → List Permissao → Option (List Permissao)
splice_first codigo [] = none
splice_first codigo (q ∷ qs) =
    let rest = splice_first codigo qs in
    if has_codigo codigo q then some qs else Option.map (λ rs. q ∷ rs) rest

abbrev pub with_spliced : Perfil → Option (List Permissao) → Bool × Perfil
with_spliced p none = (false, p)
with_spliced p (some qs) = (true, record p { permissoes = some qs })

abbrev pub remover_de : Text → Perfil → Option (List Permissao) → Bool × Perfil
unfolding splice_first
remover_de codigo p none = (false, p)
remover_de codigo p (some qs) = with_spliced p (splice_first codigo qs)

unfoldable pub remover_permissao : Text → Perfil → Bool × Perfil
unfolding remover_de
remover_permissao codigo p = remover_de codigo p p.permissoes

abbrev pub with_descricao : Option Text → Perfil → Perfil
unfolding trim
with_descricao none p = p
with_descricao (some descricao) p = record p { descricao = trim descricao }

unfoldable pub atualizar_metadados : Option Text → Option Text → Perfil → Outcome Perfil
unfolding is_blank trim with_descricao
atualizar_metadados none descricao p = done (with_descricao descricao p)
atualizar_metadados (some nome) descricao p =
    if is_blank nome
    then thrown nome_vazio
    else done (with_descricao descricao (record p { nome = trim nome }))

any-last :
    (codigo : Text) (q : Permissao) (qs : List Permissao)
    → has_codigo codigo q ≡ true
    → any (has_codigo codigo) (qs ++ (q ∷ [])) ≡ true
unfolding any
any-last codigo q [] h = rw h refl
any-last codigo q (r ∷ qs) h = elim (Bool-cases (has_codigo codigo r)) [
  | inl here ↦ rw here refl
  | inr other ↦ rw other (any-last codigo q qs h)
]

splice_first-last :
    (codigo : Text) (q : Permissao) (qs : List Permissao)
    → has_codigo codigo q ≡ true
    → any (has_codigo codigo) qs ≡ false
    → splice_first codigo (qs ++ (q ∷ [])) ≡ some qs
unfolding any splice_first
splice_first-last codigo q [] h absent = rw h refl
splice_first-last codigo q (r ∷ qs) h absent = elim (Bool-cases (has_codigo codigo r)) [
  | inl here ↦ cc (rw here at absent)
  | inr other ↦ rw (other, splice_first-last codigo q qs h (rw other at absent)) refl
]

own_codigo : (q : Permissao) → has_codigo q.codigo q ≡ true
own_codigo q = ((text_eq.decides q.codigo q.codigo).1) refl

-- A permission that `adicionarPermissao` takes was not there by its code, is there after it, and
-- `removerPermissao` of its code then returns true and leaves the permissions that there were.
pub remover-adicionar :
    (q : Permissao) (p r : Perfil)
    → adicionar_permissao q p ≡ done r
    → (possui_permissao q.codigo p ≡ false)
      × (possui_permissao q.codigo r ≡ true)
      × (remover_permissao q.codigo r
          ≡ (true, record r { permissoes = some (Option.get_or p.permissoes []) }))
unfolding adicionar_permissao possui_permissao remover_permissao remover_de
remover-adicionar q p r added =
    let qs = Option.get_or p.permissoes [] in
    elim (Bool-cases (any (has_codigo q.codigo) qs)) [
      | inl there ↦ cc (rw there at added)
      | inr absent ↦
          let same : record p { permissoes = some (qs ++ (q ∷ [])) } ≡ r =
            cc (rw absent at added) in
          let listed : r.permissoes ≡ some (qs ++ (q ∷ [])) = ap (λ s. s.permissoes) (sym same) in
          let mine = own_codigo q in
          (
            absent,
            rw listed (any-last q.codigo q qs mine),
            rw (listed, remover_de, splice_first-last q.codigo q qs mine absent) refl,
          )
    ]

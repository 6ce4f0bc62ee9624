-- ===== src/Entities/Permissao.antt =====
-- src/permissoes/domain/entities/permissao.entity.ts.
use api_padrao.Prelude.{
  ℕ, Text, true, false, not, Option, none, some, List, [], ◌∷◌, ◌≡◌, refl, subst, inl, inr,
  Bool-cases, if◌then◌else◌,
}
use api_padrao.Entities.Trim.{trim, is_blank, is_codigo, trim_or_empty, named-trim}
use api_padrao.Entities.Base.{
  nome_obrigatorio, codigo_obrigatorio, codigo_invalido, nome_vazio, Outcome, done, thrown,
  map_done, kept, BaseEntity, fresh, desativar as desativar_base, restaurar as restaurar_base,
  IsConsistent, desativar-IsConsistent, restaurar-IsConsistent,
}

pub record Permissao : Type 0 where
  pub base : BaseEntity
  pub nome : Text
  pub codigo : Text
  pub descricao : Text

pub record Props : Type 0 where
  pub nome : Text
  pub codigo : Text
  pub descricao : Option Text

-- `new Permissao()` and its assignments
unfoldable pub nova : Text → Props → Permissao
unfolding trim trim_or_empty
nova codigo props = record {
  base = fresh none;
  nome = trim props.nome;
  codigo = codigo;
  descricao = trim_or_empty props.descricao;
}

unfoldable pub criar : (Text → Text) → Props → Outcome Permissao
unfolding trim is_blank is_codigo nova
criar to_upper_case props =
    let codigo = to_upper_case (trim props.codigo) in
    if is_blank props.nome
    then thrown nome_obrigatorio
    else if is_blank props.codigo
    then thrown codigo_obrigatorio
    else if not (is_codigo codigo)
    then thrown codigo_invalido
    else done (nova codigo props)

abbrev pub with_descricao : Option Text → Permissao → Permissao
unfolding trim
with_descricao none p = p
with_descricao (some descricao) p = record p { descricao = trim descricao }

unfoldable pub atualizar_metadados : Option Text → Option Text → Permissao → Outcome Permissao
unfolding is_blank trim with_descricao
atualizar_metadados none descricao p = done (with_descricao descricao p)
atualizar_metadados (some nome) descricao p =
    if is_blank nome
    then thrown nome_vazio
    else done (with_descricao descricao (record p { nome = trim nome }))

pub data Call : Type 0 where
  desativar : ℕ → Call
  restaurar : Call
  atualizar : Option Text → Option Text → Call

unfoldable pub call : Call → Permissao → Outcome Permissao
unfolding desativar_base restaurar_base atualizar_metadados
call (desativar now) p = done (record p { base = desativar_base now p.base })
call restaurar p = map_done (λ b. record p { base = b }) (restaurar_base p.base)
call (atualizar nome descricao) p = atualizar_metadados nome descricao p

-- the calls in their order, each error caught by the caller
unfoldable pub call_all : List Call → Permissao → Permissao
unfolding call
call_all [] p = p
call_all (c ∷ cs) p = call_all cs (kept p (call c p))

-- the invariants that the class protects, for a code
pub record IsValid (codigo : Text) (p : Permissao) : Type 0 where
  pub keeps : p.codigo ≡ codigo
  pub matches : is_codigo p.codigo ≡ true
  pub named : is_blank p.nome ≡ false
  pub consistent : IsConsistent p.base

module _ (codigo : Text) where
  with_descricao-IsValid :
      (descricao : Option Text) (p : Permissao)
      → IsValid codigo p
      → IsValid codigo (with_descricao descricao p)
  unfolding with_descricao
  with_descricao-IsValid none p v = v
  with_descricao-IsValid (some descricao) p v = record {
    keeps = v.keeps;
    matches = v.matches;
    named = v.named;
    consistent = v.consistent;
  }

  atualizar-IsValid :
      (nome descricao : Option Text) (p : Permissao)
      → IsValid codigo p
      → IsValid codigo (kept p (atualizar_metadados nome descricao p))
  unfolding atualizar_metadados
  atualizar-IsValid none descricao p v = with_descricao-IsValid descricao p v
  atualizar-IsValid (some nome) descricao p v = elim (Bool-cases (is_blank nome)) [
    | inl blank ↦ rw blank v
    | inr given ↦ rw given (
        with_descricao-IsValid descricao (record p { nome = trim nome })
          (record {
            keeps = v.keeps;
            matches = v.matches;
            named = named-trim nome given;
            consistent = v.consistent;
          }))
  ]

  with_base-IsValid :
      (b : Outcome BaseEntity) (p : Permissao)
      → IsValid codigo p
      → IsConsistent (kept p.base b)
      → IsValid codigo (kept p (map_done (λ b. record p { base = b }) b))
  with_base-IsValid (done b) p v c = record {
    keeps = v.keeps;
    matches = v.matches;
    named = v.named;
    consistent = c;
  }
  with_base-IsValid (thrown e) p v c = v

  call-IsValid : (c : Call) (p : Permissao) → IsValid codigo p → IsValid codigo (kept p (call c p))
  unfolding call
  call-IsValid (desativar now) p v =
      with_base-IsValid (done (desativar_base now p.base)) p v
        (desativar-IsConsistent now p.base v.consistent)
  call-IsValid restaurar p v =
      with_base-IsValid (restaurar_base p.base) p v (restaurar-IsConsistent p.base v.consistent)
  call-IsValid (atualizar nome descricao) p v = atualizar-IsValid nome descricao p v

  call_all-IsValid :
      (cs : List Call) (p : Permissao) → IsValid codigo p → IsValid codigo (call_all cs p)
  unfolding call_all
  call_all-IsValid [] p v = v
  call_all-IsValid (c ∷ cs) p v = call_all-IsValid cs (kept p (call c p)) (call-IsValid c p v)

nova-IsValid :
    (codigo : Text) (props : Props)
    → is_codigo codigo ≡ true
    → is_blank props.nome ≡ false
    → IsValid codigo (nova codigo props)
unfolding nova
nova-IsValid codigo props good named = record {
  keeps = refl;
  matches = good;
  named = named-trim props.nome named;
  consistent = refl;
}

criar-IsValid :
    (to_upper_case : Text → Text) (props : Props) (p : Permissao)
    → criar to_upper_case props ≡ done p
    → IsValid (to_upper_case (trim props.codigo)) p
unfolding criar
criar-IsValid to_upper_case props p made = elim (Bool-cases (is_blank props.nome)) [
  | inl blank ↦ cc (rw blank at made)
  | inr named ↦ elim (Bool-cases (is_blank props.codigo)) [
    | inl blank ↦ cc (rw (named, blank) at made)
    | inr given ↦ elim (Bool-cases (is_codigo (to_upper_case (trim props.codigo)))) [
      | inr bad ↦ cc (rw (named, given, bad) at made)
      | inl good ↦
          let codigo = to_upper_case (trim props.codigo) in
          let same : nova codigo props ≡ p = cc (rw (named, given, good) at made) in
          subst (IsValid codigo) same (nova-IsValid codigo props good named)
    ]
  ]
]

-- A permission that the factory has made keeps, through any calls of its methods, the code that it was
-- made with, which has the pattern of a code; its name is not blank; and it is `ativo` exactly when it
-- has no `deletedAt`.
pub call_all-criar :
    (to_upper_case : Text → Text) (props : Props) (cs : List Call) (p : Permissao)
    → criar to_upper_case props ≡ done p
    → IsValid (to_upper_case (trim props.codigo)) (call_all cs p)
call_all-criar to_upper_case props cs p made =
    call_all-IsValid (to_upper_case (trim props.codigo)) cs p
      (criar-IsValid to_upper_case props p made)

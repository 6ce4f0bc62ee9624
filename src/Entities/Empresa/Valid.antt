-- ===== src/Entities/Empresa/Valid.antt =====
-- What the factory and the methods of src/empresas/domain/entities/empresa.entity.ts keep.
use api_padrao.Prelude.{
  ℕ, String, Text, true, false, ◌||◌, Option, none, some, List, [], ◌∷◌, ◌≡◌, refl, subst, inl, inr,
  Bool-cases, includes, leb, ◌==◌, nat_eq, text_eq, Option-cases,
}
use api_padrao.Usuarios.Repository.{is_none}
use api_padrao.Entities.Trim.{trim, is_blank, named-trim}
use api_padrao.Entities.Base.{done, kept}
use api_padrao.Entities.Empresa.{
  Empresa, Numero, Props, positive, planos, nova, normalizado, with_responsavel, criar, desativar,
  restaurar, with_descricao, touched, atualizar_metadados, trocar_plano, transferir_a,
  transferir_responsabilidade, IsValid, Plano, free, pro, enterprise, name_of, Call, desativa,
  restaura, atualiza, troca, transfere, call, call_all,
}

positive-leb : (n : Numero) (k : ℕ) → positive n ≡ some k → leb 1 k ≡ true
positive-leb none k h = cc
positive-leb (some m) k h = elim (Bool-cases (leb 1 m)) [
  | inl large ↦ subst (λ j. leb 1 j ≡ true) (cc (rw large at h)) large
  | inr nought ↦ cc (rw nought at h)
]

module _ (id : String) where
  desativar-IsValid : (now : ℕ) (e : Empresa) → IsValid id e → IsValid id (desativar now e)
  unfolding desativar
  desativar-IsValid now e v = elim (Bool-cases e.ativo) [
    | inr inactive ↦ simp (inactive) v
    | inl active ↦ rw active (record {
      keeps = v.keeps;
      named = v.named;
      owned = v.owned;
      priced = v.priced;
      consistent = refl;
    })
  ]

  restaurar-IsValid : (now : ℕ) (e : Empresa) → IsValid id e → IsValid id (kept e (restaurar now e))
  unfolding restaurar
  restaurar-IsValid now e v = elim (Bool-cases (e.ativo || is_none e.deleted_at)) [
    | inl refused ↦ rw refused v
    | inr able ↦ rw able (record {
      keeps = v.keeps;
      named = v.named;
      owned = v.owned;
      priced = v.priced;
      consistent = refl;
    })
  ]

  described-IsValid :
      (now : ℕ) (descricao : Option (Option Text)) (e : Empresa)
      → IsValid id e
      → IsValid id (touched now (with_descricao descricao e))
  unfolding with_descricao
  described-IsValid now none e v = record {
    keeps = v.keeps;
    named = v.named;
    owned = v.owned;
    priced = v.priced;
    consistent = v.consistent;
  }
  described-IsValid now (some descricao) e v = record {
    keeps = v.keeps;
    named = v.named;
    owned = v.owned;
    priced = v.priced;
    consistent = v.consistent;
  }

  atualizar-IsValid :
      (now : ℕ) (nome : Option Text) (descricao : Option (Option Text)) (e : Empresa)
      → IsValid id e
      → IsValid id (kept e (atualizar_metadados now nome descricao e))
  unfolding atualizar_metadados
  atualizar-IsValid now none descricao e v = described-IsValid now descricao e v
  atualizar-IsValid now (some nome) descricao e v = elim (Bool-cases (is_blank nome)) [
    | inl blank ↦ rw blank v
    | inr given ↦ rw given (
        described-IsValid now descricao (record e { nome = trim nome })
          (record {
            keeps = v.keeps;
            named = named-trim nome given;
            owned = v.owned;
            priced = v.priced;
            consistent = v.consistent;
          }))
  ]

  with_plano-IsValid :
      (now : ℕ) (plano : Text) (e : Empresa)
      → includes plano planos ≡ true
      → IsValid id e
      → IsValid id (kept e (trocar_plano now plano e))
  unfolding trocar_plano
  with_plano-IsValid now plano e offered v = rw offered (record {
    keeps = v.keeps;
    named = v.named;
    owned = v.owned;
    priced = offered;
    consistent = v.consistent;
  })

  offered-name_of : (plano : Plano) → includes (name_of plano) planos ≡ true
  unfolding includes api_padrao.Prelude.text_beq
  offered-name_of free = refl
  offered-name_of pro = refl
  offered-name_of enterprise = refl

  transferir-IsValid :
      (now : ℕ) (novo : Option ℕ) (e : Empresa)
      → ((k : ℕ) → novo ≡ some k → leb 1 k ≡ true)
      → IsValid id e
      → IsValid id (kept e (transferir_a now novo e))
  transferir-IsValid now none e large v = v
  transferir-IsValid now (some novo) e large v = elim (Bool-cases (novo == e.responsavel_id)) [
    | inl same ↦ rw same v
    | inr other ↦ rw other (record {
      keeps = v.keeps;
      named = v.named;
      owned = large novo refl;
      priced = v.priced;
      consistent = v.consistent;
    })
  ]

  call-IsValid : (c : Call) (e : Empresa) → IsValid id e → IsValid id (kept e (call c e))
  unfolding call transferir_responsabilidade
  call-IsValid (desativa now) e v = desativar-IsValid now e v
  call-IsValid (restaura now) e v = restaurar-IsValid now e v
  call-IsValid (atualiza now nome descricao) e v = atualizar-IsValid now nome descricao e v
  call-IsValid (troca now plano) e v =
      with_plano-IsValid now (name_of plano) e (offered-name_of plano) v
  call-IsValid (transfere now novo) e v =
      transferir-IsValid now (positive novo) e (positive-leb novo) v

  call_all-IsValid : (cs : List Call) (e : Empresa) → IsValid id e → IsValid id (call_all cs e)
  unfolding call_all
  call_all-IsValid [] e v = v
  call_all-IsValid (c ∷ cs) e v = call_all-IsValid cs (kept e (call c e)) (call-IsValid c e v)

responsavel-IsValid :
    (now : ℕ) (drawn : String) (plano : Text) (props : Props) (given : Option ℕ) (e : Empresa)
    → is_blank props.nome ≡ false
    → ((k : ℕ) → given ≡ some k → leb 1 k ≡ true)
    → with_responsavel now drawn plano props given ≡ done e
    → IsValid e.id e
unfolding with_responsavel nova
responsavel-IsValid now drawn plano props none e named large made = cc
responsavel-IsValid now drawn plano props (some k) e named large made =
    elim (Bool-cases (includes plano planos)) [
      | inr unknown ↦ cc (rw unknown at made)
      | inl offered ↦
          let same : nova now drawn plano k props ≡ e = cc (rw offered at made) in
          subst (λ e. IsValid e.id e) same
            (record {
              keeps = refl;
              named = named-trim props.nome named;
              owned = large k refl;
              priced = offered;
              consistent = refl;
            })
    ]

criar-IsValid :
    (to_upper_case : Text → Text) (now : ℕ) (drawn : String) (props : Props) (e : Empresa)
    → criar to_upper_case now drawn props ≡ done e
    → IsValid e.id e
unfolding criar
criar-IsValid to_upper_case now drawn props e made = elim (Bool-cases (is_blank props.nome)) [
  | inl blank ↦ cc (rw blank at made)
  | inr named ↦
      responsavel-IsValid now drawn (normalizado to_upper_case props) props
        (positive props.responsavel_id) e named (positive-leb props.responsavel_id)
        (rw named at made)
]

-- A company that the factory has made keeps its id through any calls of its methods, each with an
-- argument of the type that the method declares, whether they return or throw; its name is not blank,
-- its owner is a positive number, its plan is one of the three, and it is `ativo` exactly when it has
-- no `deletedAt`.
pub call_all-criar :
    (to_upper_case : Text → Text) (now : ℕ) (drawn : String) (props : Props) (cs : List Call)
    (e : Empresa)
    → criar to_upper_case now drawn props ≡ done e
    → IsValid e.id (call_all cs e)
call_all-criar to_upper_case now drawn props cs e made =
    call_all-IsValid e.id cs e (criar-IsValid to_upper_case now drawn props e made)

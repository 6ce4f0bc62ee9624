-- ===== src/Entities/Usuario.antt =====
-- src/usuarios/domain/entities/usuario.entity.ts.
use api_padrao.Prelude.{
  ℕ, String, Text, true, false, not, Option, none, some, List, [], ◌∷◌, ◌≡◌, refl, subst, inl, inr,
  Bool-cases, ◌==◌, string_eq, if◌then◌else◌,
}
use api_padrao.Payload.{EmpresaAuth}
use api_padrao.Email.Address.{is_email}
use api_padrao.Entities.Trim.{trim, is_blank}
use api_padrao.Entities.Base.{
  email_obrigatorio, email_invalido, senha_obrigatoria, Outcome, done, thrown, map_done, kept,
  BaseEntity, fresh, desativar as desativar_base, restaurar as restaurar_base, IsConsistent,
  desativar-IsConsistent, restaurar-IsConsistent,
}

pub record Usuario : Type 0 where
  pub base : BaseEntity
  pub email : Text
  pub senha : String
  pub empresas : List EmpresaAuth

pub record Props : Type 0 where
  pub id : Option ℕ
  pub email : Text
  pub senha_hash : String
  pub empresas : Option (List EmpresaAuth)

abbrev pub empresas_or_none : Option (List EmpresaAuth) → List EmpresaAuth
empresas_or_none none = []
empresas_or_none (some empresas) = empresas

-- `new Usuario()` and its assignments
abbrev pub novo : Text → Props → Usuario
novo email props = record {
  base = fresh props.id;
  email = email;
  senha = props.senha_hash;
  empresas = empresas_or_none props.empresas;
}

module _ (to_lower_case : Text → Text) where
  abbrev pub normalizado : Text → Text
  unfolding trim
  normalizado email = to_lower_case (trim email)

  unfoldable pub criar : Props → Outcome Usuario
  unfolding normalizado is_blank is_email
  criar props =
      if is_blank props.email
      then thrown email_obrigatorio
      else if not (is_email (normalizado props.email))
      then thrown email_invalido
      else if props.senha_hash == ""
      then thrown senha_obrigatoria
      else done (novo (normalizado props.email) props)

  unfoldable pub trocar_senha : String → Usuario → Outcome Usuario
  trocar_senha hash u =
      if hash == "" then thrown senha_obrigatoria else done (record u { senha = hash })

  unfoldable pub atualizar_email : Text → Usuario → Outcome Usuario
  unfolding normalizado is_blank is_email
  atualizar_email email u =
      if is_blank email
      then thrown email_obrigatorio
      else if not (is_email (normalizado email))
      then thrown email_invalido
      else done (record u { email = normalizado email })

pub data Call : Type 0 where
  desativar : ℕ → Call
  restaurar : Call
  troca : String → Call
  atualiza : Text → Call

-- what the class promises of a user
pub record IsValid (u : Usuario) : Type 0 where
  pub addressed : is_email u.email ≡ true
  pub secret : (u.senha == "") ≡ false
  pub consistent : IsConsistent u.base

with_base-IsValid :
    (b : Outcome BaseEntity) (u : Usuario)
    → IsValid u
    → IsConsistent (kept u.base b)
    → IsValid (kept u (map_done (λ b. record u { base = b }) b))
with_base-IsValid (done b) u v c = record {
  addressed = v.addressed;
  secret = v.secret;
  consistent = c;
}
with_base-IsValid (thrown e) u v c = v

module _ (to_lower_case : Text → Text) where
  unfoldable pub call : Call → Usuario → Outcome Usuario
  unfolding desativar_base restaurar_base trocar_senha atualizar_email
  call (desativar now) u = done (record u { base = desativar_base now u.base })
  call restaurar u = map_done (λ b. record u { base = b }) (restaurar_base u.base)
  call (troca hash) u = trocar_senha to_lower_case hash u
  call (atualiza email) u = atualizar_email to_lower_case email u

  -- the calls in their order, each error caught by the caller
  unfoldable pub call_all : List Call → Usuario → Usuario
  unfolding call
  call_all [] u = u
  call_all (c ∷ cs) u = call_all cs (kept u (call c u))

  trocar-IsValid :
      (hash : String) (u : Usuario)
      → IsValid u
      → IsValid (kept u (trocar_senha to_lower_case hash u))
  unfolding trocar_senha
  trocar-IsValid hash u v = elim (Bool-cases (hash == "")) [
    | inl empty ↦ rw empty v
    | inr given ↦
        rw given (record { addressed = v.addressed; secret = given; consistent = v.consistent })
  ]

  atualizar-IsValid :
      (email : Text) (u : Usuario)
      → IsValid u
      → IsValid (kept u (atualizar_email to_lower_case email u))
  unfolding atualizar_email
  atualizar-IsValid email u v = elim (Bool-cases (is_blank email)) [
    | inl blank ↦ rw blank v
    | inr given ↦ elim (Bool-cases (is_email (normalizado to_lower_case email))) [
      | inr bad ↦ rw (given, bad) v
      | inl good ↦
          rw (given, good)
            (record { addressed = good; secret = v.secret; consistent = v.consistent })
    ]
  ]

  call-IsValid : (c : Call) (u : Usuario) → IsValid u → IsValid (kept u (call c u))
  unfolding call
  call-IsValid (desativar now) u v =
      with_base-IsValid (done (desativar_base now u.base)) u v
        (desativar-IsConsistent now u.base v.consistent)
  call-IsValid restaurar u v =
      with_base-IsValid (restaurar_base u.base) u v (restaurar-IsConsistent u.base v.consistent)
  call-IsValid (troca hash) u v = trocar-IsValid hash u v
  call-IsValid (atualiza email) u v = atualizar-IsValid email u v

  call_all-IsValid : (cs : List Call) (u : Usuario) → IsValid u → IsValid (call_all cs u)
  unfolding call_all
  call_all-IsValid [] u v = v
  call_all-IsValid (c ∷ cs) u v = call_all-IsValid cs (kept u (call c u)) (call-IsValid c u v)

  criar-IsValid : (props : Props) (u : Usuario) → criar to_lower_case props ≡ done u → IsValid u
  unfolding criar
  criar-IsValid props u made = elim (Bool-cases (is_blank props.email)) [
    | inl blank ↦ cc (rw blank at made)
    | inr given ↦ elim (Bool-cases (is_email (normalizado to_lower_case props.email))) [
      | inr bad ↦ cc (rw (given, bad) at made)
      | inl good ↦ elim (Bool-cases (props.senha_hash == "")) [
        | inl empty ↦ cc (rw (given, good, empty) at made)
        | inr secret ↦
            let email = normalizado to_lower_case props.email in
            let same : novo email props ≡ u = cc (rw (given, good, secret) at made) in
            subst IsValid same (record { addressed = good; secret = secret; consistent = refl })
      ]
    ]
  ]

  -- A user that the factory has made has, after any calls of its methods, an e-mail that passes the
  -- pattern and a hash that is not empty, and is `ativo` exactly when it has no `deletedAt`.
  pub call_all-criar :
      (props : Props) (cs : List Call) (u : Usuario)
      → criar to_lower_case props ≡ done u
      → IsValid (call_all cs u)
  call_all-criar props cs u made = call_all-IsValid cs u (criar-IsValid props u made)

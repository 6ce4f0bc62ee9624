-- ===== src/Tests/Catalog.antt =====
-- Permissions, profiles and companies: runs on a small catalogue of two companies.
use api_padrao.Prelude.{
  ℕ, ◌≤◌, String, Bool, true, false, Option, none, some, List, [], ◌∷◌, ◌≡◌, refl, arith, codes,
  count_where,
}
use api_padrao.Payload.{JwtPayload}
use api_padrao.Usuarios.Repository.{map_to_entity}
use api_padrao.Cadastro.{PermissaoRow, PerfilRow, EmpresaRow, UsuarioEmpresaRow, Cadastro}
use api_padrao.Permissoes.Repository.{CreatePermissaoDto, has_id}
use api_padrao.Permissoes.Service
use api_padrao.Permissoes.Consistent.{IsConsistent}
use api_padrao.Permissoes.Invariant.{at_start, after, creates, removes, Reaches-IsConsistent}
use api_padrao.Permissoes.Lookup.{returns, all_exist, find_many-exact}
use api_padrao.Perfis.Repository.{UpdatePerfilDto}
use api_padrao.Perfis.Service.{Contexto, update}
use api_padrao.Perfis.Isolation.{of_others, update-isolates}
use api_padrao.Perfis.Invalidation.{update-invalidates}
use api_padrao.Tests.Data.{ana_row}

abbrev permissao_row : ℕ → String → Option ℕ → Bool → PermissaoRow
permissao_row id codigo deleted_at ativo = record {
  id = id;
  nome = codes codigo;
  codigo = codigo;
  descricao = "";
  deleted_at = deleted_at;
  ativo = ativo;
}

abbrev pub perfil_row : ℕ → String → String → List ℕ → PerfilRow
perfil_row id codigo empresa_id permissoes = record {
  id = id;
  nome = codes codigo;
  codigo = codigo;
  descricao = "";
  empresa_id = empresa_id;
  permissoes = permissoes;
  deleted_at = none;
  ativo = true;
}

abbrev empresa_row : String → EmpresaRow
empresa_row id = record {
  id = id;
  nome = codes id;
  descricao = none;
  responsavel_id = 1;
  plano = "FREE";
  ativo = true;
  created_at = 0;
  updated_at = 0;
  deleted_at = none;
}

abbrev membership : ℕ → String → List ℕ → UsuarioEmpresaRow
membership u e perfis = record { usuario_id = u; empresa_id = e; perfis = perfis }

-- ana is a manager of acme, and her profile is cached
abbrev pub cadastro : Cadastro
cadastro = record {
  permissoes =
      permissao_row 1 "READ_USUARIOS" none true ∷ permissao_row 2 "WRITE" (some 9) false ∷ [];
  perfis = perfil_row 1 "GESTOR" "acme" (1 ∷ []) ∷ perfil_row 2 "GESTOR" "beta" [] ∷ [];
  empresas = empresa_row "acme" ∷ empresa_row "beta" ∷ [];
  usuario_empresas = membership 1 "acme" (1 ∷ []) ∷ [];
  usuarios = ana_row ∷ [];
  permissao_seq = 3;
  perfil_seq = 3;
  permissoes_cache = none;
  profiles = λ id. some (record { value = map_to_entity ana_row; expires = 60000 });
  mails = [];
}

two-ids : (i : ℕ) → count_where (has_id i) cadastro.permissoes ≤ 1
unfolding count_where
two-ids i = ground arith

cadastro-IsConsistent : IsConsistent cadastro
cadastro-IsConsistent = record {
  rows = ((refl, omega arith), ((refl, omega arith), tt));
  ids = two-ids;
}

abbrev administrator : JwtPayload
administrator = record {
  email = [];
  user_id = some 1;
  sub = some 1;
  empresas = some (
      record { id = "acme"; perfis = some (record { codigo = "ADMIN"; permissoes = none } ∷ []) }
      ∷ []);
}

abbrev delete_usuarios : CreatePermissaoDto
delete_usuarios = record { nome = codes "delete"; codigo = "DELETE_USUARIOS"; descricao = "" }

abbrev with_third : Cadastro
with_third = (Service.create delete_usuarios cadastro).1

-- a permission is created, and the first one removed
Reaches-IsConsistent_example : IsConsistent (Service.remove 20 1 administrator with_third).1
Reaches-IsConsistent_example =
    Reaches-IsConsistent
      (after (after at_start (creates delete_usuarios cadastro))
        (removes 20 1 administrator with_third))
      cadastro-IsConsistent

find_many-exact_example :
    returns (Service.find_many_by_ids 10 (1 ∷ 2 ∷ []) cadastro)
    ≡ all_exist (1 ∷ 2 ∷ []) cadastro.permissoes
unfolding api_padrao.Permissoes.Lookup.are_distinct
find_many-exact_example = find_many-exact 10 (1 ∷ 2 ∷ []) cadastro cadastro-IsConsistent refl

abbrev in_acme : Contexto
in_acme = record { empresa_id = some "acme"; now = 100; cache_down = false }

abbrev clears_permissoes : UpdatePerfilDto
clears_permissoes = record {
  nome = none;
  codigo = none;
  descricao = none;
  empresa_id = none;
  permissoes_ids = some [];
  ativo = none;
}

-- a profile of beta is asked for in the context of acme
update-isolates_example :
    of_others "acme"
      (update in_acme 2 clears_permissoes administrator (some "beta") cadastro).1.perfis
    ≡ of_others "acme" cadastro.perfis
unfolding api_padrao.Extension.present
update-isolates_example =
    update-isolates "acme" in_acme 2 clears_permissoes administrator (some "beta") cadastro refl
      refl

abbrev cleared : Cadastro
cleared = (update in_acme 1 clears_permissoes administrator none cadastro).1

update-invalidates_example : cleared.profiles 1 ≡ none
unfolding update
update-invalidates_example =
    update-invalidates in_acme 1 1 clears_permissoes [] administrator none cadastro {c' = cleared}
      refl refl refl refl

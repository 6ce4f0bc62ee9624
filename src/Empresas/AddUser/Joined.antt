-- ===== src/Empresas/AddUser/Joined.antt =====
-- `addUser` of src/empresas/application/services/empresas.service.ts where nothing is missing: the
-- membership that it leaves, and what it returns.
use api_padrao.Prelude.{
  ℕ, String, Option, none, some, ◌∷◌, ◌≡◌, refl, ap, ◌∙◌, nat_eq, string_eq, inl, inr, Option-cases,
  find, ◌&&◌, ◌==◌, if◌then◌else◌,
}
use mathlib.Core.Option
use api_padrao.Http.{Result, ok}
use api_padrao.Database.{UsuarioRow}
use api_padrao.Usuarios.Entity.{Usuario}
use api_padrao.Usuarios.Repository.{is_none, map_to_entity}
use api_padrao.World.{Ports, Mail}
use api_padrao.Cadastro.{Cadastro}
use api_padrao.Perfis.Repository.{find_many_by_ids}
use api_padrao.Empresas.Table.{perfis_of, is_pair, perfis_of-upsert}
use api_padrao.Empresas.Service.{
  AddUsuarioEmpresaDto, is_live_user, find_usuario, added_mail, notify, add_user,
}
use api_padrao.Empresas.Lookup.{first_missing}
use api_padrao.Empresas.AddUser.{runs_complete}

notify-memberships :
    (ports : Ports) (mail : Mail) (c : Cadastro)
    → (notify ports mail c).1.usuario_empresas ≡ c.usuario_empresas
notify-memberships ports mail c = elim (Option-cases (ports.send_failure mail)) [
  | inl taken ↦ rw (taken, notify) refl
  | inr (e, failed) ↦ rw (failed, notify) refl
]

email-find_usuario :
    (id : ℕ) (c : Cadastro) (u : Usuario)
    → find_usuario id c ≡ some u
    → Option.map (λ (u : UsuarioRow). u.email) (find (is_live_user id) c.usuarios) ≡ some u.email
unfolding find_usuario
email-find_usuario id c u known = elim (Option-cases (find (is_live_user id) c.usuarios)) [
  | inl missing ↦ cc (rw missing at known)
  | inr (row, found) ↦
      let same : map_to_entity row ≡ u = cc (rw found at known) in
      rw found (ap (λ (v : Usuario). some v.email) same)
]

module _ (ports : Ports) (context : Option String) (empresa_id : String)
    (dto : AddUsuarioEmpresaDto) (c : Cadastro) where
  -- Where the company, the user and each profile are there, `addUser` leaves the pair of user and
  -- company with exactly the profiles that were asked for, and every other membership as it was:
  -- the table, read as a map from pairs to profiles, has the new entry, whether or not the sender
  -- takes the e-mail.
  pub add_user-inserts :
      (u : ℕ) (f : String)
      → first_missing context empresa_id dto c ≡ none
      → perfis_of u f (add_user ports context empresa_id dto c).1.usuario_empresas ≡ (
          if is_pair u f dto.usuario_id empresa_id
          then some dto.perfil_ids
          else perfis_of u f c.usuario_empresas)
  add_user-inserts u f h =
      let (e, user, known, run) = runs_complete ports context empresa_id dto c h in
      let mail = added_mail ports user e (find_many_by_ids context dto.perfil_ids c) in
      ap (λ (r : Result (Unit {0}) × Cadastro). perfis_of u f r.1.usuario_empresas) run
      ∙ ap (perfis_of u f) (notify-memberships ports mail _)
      ∙ perfis_of-upsert dto.usuario_id u empresa_id f dto.perfil_ids c.usuario_empresas

  -- Where the company, the user and each profile are there and the sender raises on no e-mail,
  -- `addUser` returns, and has handed over one e-mail: the template `empresas.user_added`, to the
  -- address that the row of the user holds.
  pub add_user-returns :
      first_missing context empresa_id dto c ≡ none
      → ((mail : Mail) → ports.send_failure mail ≡ none)
      → (mail : Mail) × (((add_user ports context empresa_id dto c).0 ≡ ok tt)
          × ((add_user ports context empresa_id dto c).1.mails ≡ mail ∷ c.mails)
          × (mail.template ≡ "empresas.user_added")
          × (Option.map
                (λ (u : UsuarioRow). u.email)
                (find
                  (λ (u : UsuarioRow). u.id == dto.usuario_id && is_none u.deleted_at)
                  c.usuarios)
              ≡ some mail.to))
  add_user-returns h sends =
      let (e, user, known, run) = runs_complete ports context empresa_id dto c h in
      let mail = added_mail ports user e (find_many_by_ids context dto.perfil_ids c) in
      (
        mail,
        (
          rw (run, notify, sends mail) refl,
          rw (run, notify, sends mail) refl,
          refl,
          email-find_usuario dto.usuario_id c user known,
        ),
      )

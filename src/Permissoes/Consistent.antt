-- ===== src/Permissoes/Consistent.antt =====
-- A well-formed table of permissions, and what the writes of
-- src/permissoes/infrastructure/repositories/prisma-permissao.repository.ts keep of it.
use api_padrao.Prelude.{
  ℕ, suc, ◌≤◌, ◌<◌, ◌≡◌, refl, ap, false, none, List, [], ◌∷◌, ◌++◌, arith, any, count_where, All,
  All-update_where, All-append_one, count_where-append_one, count_where-update_where_same,
  count_where-none, nat_eq, ◌==◌, inl, inr, Bool-cases,
}
use api_padrao.Http.{not_found, permissao_nao_encontrada}
use api_padrao.Exec.Preserves.{Preserves, then_or_raise-Preserves}
use api_padrao.Usuarios.Repository.{is_none}
use api_padrao.Cadastro.{PermissaoRow, Cadastro}
use api_padrao.Permissoes.Repository.{
  CreatePermissaoDto, UpdatePermissaoDto, has_id, new_row, takes_name, mark_deleted, mark_restored,
  changed_by, write,
}
use api_padrao.Permissoes.Repository

-- `ativo` says whether the row is deleted, and the id is one that the sequence has given
abbrev pub IsRowOf : ℕ → PermissaoRow → Type 0
IsRowOf seq row = (row.ativo ≡ is_none row.deleted_at) × (row.id < seq)

pub record IsConsistent (c : Cadastro) : Type 0 where
  pub rows : All (IsRowOf c.permissao_seq) c.permissoes
  pub ids : (i : ℕ) → count_where (has_id i) c.permissoes ≤ 1

rows-weaken :
    (seq : ℕ) (rows : List PermissaoRow) → All (IsRowOf seq) rows → All (IsRowOf (suc seq)) rows
rows-weaken seq [] h = tt
rows-weaken seq (r ∷ rs) h = ((h.0.0, ground (arith, h)), rows-weaken seq rs h.1)

rows-below :
    (seq : ℕ) (rows : List PermissaoRow)
    → All (IsRowOf seq) rows
    → All (λ r. has_id seq r ≡ false) rows
rows-below seq [] h = tt
rows-below seq (r ∷ rs) h = (ground (arith, h.0.1), rows-below seq rs h.1)

-- a row with the next id of the sequence is the only one with it
append-ids :
    (seq : ℕ) (rows : List PermissaoRow) (row : PermissaoRow) (i : ℕ)
    → All (IsRowOf seq) rows
    → row.id ≡ seq
    → count_where (has_id i) rows ≤ 1
    → count_where (has_id i) (rows ++ row ∷ []) ≤ 1
append-ids seq rows row i h e n = ground (
  arith,
  count_where-append_one (has_id i) rows row,
  count_where-none (has_id seq) rows (rows-below seq rows h),
)

appended-IsConsistent :
    (c : Cadastro) (dto : CreatePermissaoDto)
    → IsConsistent c
    → IsConsistent (record c {
      permissao_seq = suc c.permissao_seq;
      permissoes = c.permissoes ++ new_row c.permissao_seq dto ∷ [];
    })
appended-IsConsistent c dto h = record {
  rows =
      All-append_one (IsRowOf (suc c.permissao_seq)) c.permissoes (new_row c.permissao_seq dto)
        (rows-weaken c.permissao_seq c.permissoes h.rows) (refl, omega arith);
  ids = λ i.
      append-ids c.permissao_seq c.permissoes (new_row c.permissao_seq dto) i h.rows refl (h.ids i);
}

advanced-IsConsistent :
    (c : Cadastro)
    → IsConsistent c
    → IsConsistent (record c { permissao_seq = suc c.permissao_seq })
advanced-IsConsistent c h = record {
  rows = rows-weaken c.permissao_seq c.permissoes h.rows;
  ids = h.ids;
}

pub create-Preserves : (dto : CreatePermissaoDto) → Preserves IsConsistent (Repository.create dto)
unfolding Repository.create
create-Preserves dto = record {
  preserves = λ c h. elim (Bool-cases (any (takes_name dto.nome dto.codigo) c.permissoes)) [
    | inl taken ↦ rw taken (advanced-IsConsistent c h)
    | inr fresh ↦ rw fresh (appended-IsConsistent c dto h)
  ];
}

write-Preserves :
    (id : ℕ) (change : PermissaoRow → PermissaoRow)
    → ((r : PermissaoRow) → (change r).id ≡ r.id)
    → ((r : PermissaoRow)
        → r.ativo ≡ is_none r.deleted_at
        → (change r).ativo ≡ is_none (change r).deleted_at)
    → Preserves IsConsistent (write id change)
unfolding write
write-Preserves id change same keeps = record {
  preserves = λ c h. record {
    rows =
        All-update_where (IsRowOf c.permissao_seq) (has_id id) change c.permissoes
          (λ r p. (keeps r p.0, ground (arith, same r, p.1))) h.rows;
    ids = λ i. ground (
      arith,
      count_where-update_where_same (has_id i) (has_id id) change c.permissoes
          (λ r. ap (λ (k : ℕ). k == i) (same r)),
      h.ids i,
    );
  };
}

marks_deleted-Preserves : (now id : ℕ) → Preserves IsConsistent (write id (mark_deleted now))
marks_deleted-Preserves now id = write-Preserves id (mark_deleted now) (λ r. refl) (λ r e. refl)

marks_restored-Preserves : (id : ℕ) → Preserves IsConsistent (write id mark_restored)
marks_restored-Preserves id = write-Preserves id mark_restored (λ r. refl) (λ r e. refl)

pub repository_remove-Preserves : (now id : ℕ) → Preserves IsConsistent (Repository.remove now id)
unfolding Repository.remove
repository_remove-Preserves now id =
    then_or_raise-Preserves IsConsistent (not_found permissao_nao_encontrada)
      (marks_deleted-Preserves now id)

pub repository_restore-Preserves : (id : ℕ) → Preserves IsConsistent (Repository.restore id)
unfolding Repository.restore
repository_restore-Preserves id =
    then_or_raise-Preserves IsConsistent (not_found permissao_nao_encontrada)
      (marks_restored-Preserves id)

-- an update that does not name `ativo`
pub repository_update-Preserves :
    (id : ℕ) (dto : UpdatePermissaoDto)
    → dto.ativo ≡ none
    → Preserves IsConsistent (Repository.update id dto)
unfolding Repository.update
repository_update-Preserves id dto e = record {
  preserves = λ c h.
      let written = write-Preserves id (changed_by dto) (λ r. refl) (λ r p. rw e p) in
      elim (Bool-cases (any (has_id id) c.permissoes)) [
        | inr missing ↦ rw missing h
        | inl there ↦ rw there (elim (Bool-cases (any (Repository.clashes id dto) c.permissoes)) [
          | inl taken ↦ rw taken h
          | inr free ↦ rw free (written.preserves c h)
        ])
      ];
}

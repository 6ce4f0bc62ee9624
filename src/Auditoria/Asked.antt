-- ===== src/Auditoria/Asked.antt =====
-- What a query of src/shared/infrastructure/repositories/prisma-audit-log.repository.ts asks for.
use api_padrao.Prelude.{
  ℕ, String, Bool, true, false, ◌&&◌, Option, none, some, ◌≡◌, refl, ltb, ◌==◌, nat_eq, string_eq,
  arith,
}
use api_padrao.Auditoria.Log.{
  AuditLogItem, AuditLogQueryOptions, is_wanted, is_by, is_before, is_filtered, matches,
}

-- a filter that is not given lets every row pass
abbrev pub agrees : {A : Type 0} → (A → Bool) → Option A → Bool
agrees holds none = true
agrees holds (some wanted) = holds wanted

abbrev pub is_user : Option ℕ → ℕ → Bool
is_user none wanted = false
is_user (some usuario_id) wanted = usuario_id == wanted

-- the row has the user, the action and the resource of the filters, and is older than the cursor
unfoldable pub is_asked : AuditLogQueryOptions → AuditLogItem → Bool
is_asked o row =
    agrees (is_user row.usuario_id) o.usuario_id
    && agrees (λ (acao : String). row.acao == acao) o.acao
    && agrees (λ (recurso : String). row.recurso == recurso) o.recurso
    && agrees (λ (cursor : ℕ). ltb row.created_at cursor) o.cursor

by-agrees :
    (wanted usuario_id : Option ℕ) → is_by wanted usuario_id ≡ agrees (is_user usuario_id) wanted
by-agrees none usuario_id = refl
by-agrees (some wanted) none = refl
by-agrees (some wanted) (some usuario_id) = refl

wanted-agrees :
    (wanted : Option String) (value : String)
    → is_wanted wanted value ≡ agrees (λ (w : String). value == w) wanted
wanted-agrees none value = refl
wanted-agrees (some wanted) value = refl

before-agrees :
    (cursor : Option ℕ) (created_at : ℕ)
    → is_before cursor created_at ≡ agrees (λ (c : ℕ). ltb created_at c) cursor
before-agrees none created_at = refl
before-agrees (some cursor) created_at = refl

pub matches-asked : (o : AuditLogQueryOptions) (row : AuditLogItem) → matches o row ≡ is_asked o row
unfolding matches is_filtered is_asked
matches-asked o row =
    rw
      (
        by-agrees o.usuario_id row.usuario_id,
        wanted-agrees o.acao row.acao,
        wanted-agrees o.recurso row.recurso,
        before-agrees o.cursor row.created_at,
      )
      (ground arith)

-- ===== src/Tests/Logs.antt =====
-- The pages of the audit log.
use api_padrao.Prelude.{
  Bool, true, count_where, select_where, ℕ, String, none, some, List, [], ◌∷◌, ◌≡◌, refl, arith,
}
use api_padrao.Prelude.Newest.{Ties}
use api_padrao.Auditoria.Asked.{is_asked}
use api_padrao.Auditoria.Log.{AuditLogItem, AuditLogQueryOptions, find_many}
use api_padrao.Auditoria.Paginas.{IsDescending, follow}
use api_padrao.Auditoria.Paginas.Complete.{follow_complete}

abbrev row : String → ℕ → AuditLogItem
row id created_at = record {
  id = id;
  usuario_id = some 1;
  acao = "CRIAR";
  recurso = "EMPRESA";
  recurso_id = none;
  detalhes = none;
  ip = none;
  user_agent = none;
  created_at = created_at;
}

abbrev older_last : Ties AuditLogItem
older_last row r = true

-- stored in no order
abbrev log : List AuditLogItem
log = row "c" 30 ∷ row "d" 40 ∷ row "b" 20 ∷ []

abbrev pages_of_two : AuditLogQueryOptions
pages_of_two = record {
  cursor = none;
  limit = some 2;
  acao = some "CRIAR";
  usuario_id = none;
  recurso = none;
}

first_page : (find_many older_last pages_of_two log).next_cursor ≡ some 30
unfolding find_many select_where
first_page = refl

-- two rows of one instant on both sides of the end of a page: the second is in no page
abbrev tied_log : List AuditLogItem
tied_log = row "d" 40 ∷ row "c" 30 ∷ row "b" 30 ∷ []

tied_row_lost :
    follow (λ n. older_last) 4 pages_of_two tied_log ≡ some (row "d" 40 ∷ row "c" 30 ∷ [])
unfolding follow select_where
tied_row_lost = refl

follow_complete_example :
    (rows : List AuditLogItem) × (follow (λ n. older_last) 4 pages_of_two log ≡ some rows)
    × IsDescending rows
    × ((p : AuditLogItem → Bool)
        → count_where p rows ≡ count_where p (select_where (is_asked pages_of_two) log))
unfolding count_where is_asked
follow_complete_example =
    follow_complete (λ n. older_last) log ((refl, (refl, tt)), ((refl, tt), (tt, tt))) 4
      pages_of_two (omega arith)

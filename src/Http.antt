-- ===== src/Http.antt =====
-- The exceptions that the services raise, one constructor for each HTTP status, with what the
-- message says. `HttpException` with status 429 is `too_many_requests`.
use api_padrao.Prelude.{ℕ, List}

pub data Motivo : Type 0 where
  conta_bloqueada credenciais_invalidas : Motivo
  refresh_invalido refresh_expirado atividade_suspeita : Motivo
  usuario_inativo token_de_reset_invalido : Motivo
  sem_empresas empresa_nao_informada sem_acesso_a_empresa sem_permissao : Motivo
  tenant_divergente sem_token idempotencia_em_andamento : Motivo
  usuario_nao_encontrado email_ja_cadastrado email_em_uso : Motivo
  nao_esta_deletado ja_esta_deletado modificado_por_outra : Motivo
  sem_permissao_de_listar sem_permissao_de_acessar sem_permissao_de_atualizar : Motivo
  sem_permissao_de_restaurar sem_permissao_de_deletar sem_permissao_de_ativar : Motivo
  permissao_nao_encontrada perfil_nao_encontrado empresa_nao_encontrada : Motivo
  nome_ja_existe : Motivo
  -- the ids that the message lists
  permissoes_nao_encontradas : List ℕ → Motivo

pub data HttpException : Type 0 where
  bad_request unauthorized forbidden not_found conflict too_many_requests : Motivo → HttpException
  -- any other error: of the database, or of the e-mail sender
  unexpected : ℕ → HttpException

pub data Result {ℓ} (A : Type ℓ) : Type ℓ where
  ok : A → Result A
  err : HttpException → Result A

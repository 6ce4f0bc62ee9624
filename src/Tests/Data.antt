-- ===== src/Tests/Data.antt =====
-- Users, tokens and requests for the runs.
use Prim.Native.String
use api_padrao.Prelude.{ℕ, String, Text, true, false, Option, none, some, [], ◌∷◌, ◌==◌, string_eq}
use api_padrao.Payload.{JwtPayload}
use api_padrao.Database.{UsuarioRow, RefreshToken, PasswordResetToken, Database}
use api_padrao.Cache
use api_padrao.World.{World, Outage, Request, Ports}
use api_padrao.Auth.{LoginUsuarioDto}

-- a hash that can be read
abbrev pub hashed : String → String
hashed s = String.◌++◌ "#" s

abbrev pub ports : Ports
ports = record {
  hash_token = hashed;
  hash_password = hashed;
  compare = λ senha hash. hashed senha == hash;
  sign = λ payload. "jwt";
  send_failure = λ mail. none;
  refresh_expires_days = none;
  frontend_url = none;
  app_login_url = none;
}

abbrev pub all_up : Outage
all_up = record { cache_get = false; cache_set = false; cache_del = false; prisma = false }

abbrev pub redis_down : Outage
redis_down = record { cache_get = true; cache_set = true; cache_del = true; prisma = false }

abbrev pub request : ℕ → String → Request
request now fresh = record {
  now = now;
  outage = all_up;
  raw_token = fresh;
  row_id = fresh;
  ip = none;
  user_agent = none;
}

abbrev pub request_without_redis : ℕ → Request
request_without_redis now = record (request now "") { outage = redis_down }

-- "ana", and the same in capitals
abbrev pub ana : Text
ana = 97 ∷ 110 ∷ 97 ∷ []

abbrev pub ana_in_capitals : Text
ana_in_capitals = 65 ∷ 78 ∷ 65 ∷ []

abbrev pub ana_row : UsuarioRow
ana_row = record {
  id = 1;
  email = ana;
  senha = some "#certa";
  created_at = 0;
  updated_at = 0;
  deleted_at = none;
  ativo = true;
}

abbrev pub empty_db : Database
empty_db = record {
  usuarios = ana_row ∷ [];
  vinculos = [];
  refresh_tokens = [];
  reset_tokens = [];
  login_history = [];
  login_attempts = [];
}

abbrev pub world : World
world = record {
  db = empty_db;
  attempts = Cache.empty;
  validity = Cache.empty;
  profiles = Cache.empty;
  mails = [];
}

abbrev pub dto : String → LoginUsuarioDto
dto senha = record { email = ana; senha = senha }

abbrev pub refresh_row : Option ℕ → RefreshToken
refresh_row revoked_at = record {
  id = "r";
  token_hash = "#r";
  user_id = 1;
  expires_at = 5000;
  revoked_at = revoked_at;
}

abbrev pub with_refresh : Option ℕ → World
with_refresh revoked_at = record world {
  db = record empty_db { refresh_tokens = refresh_row revoked_at ∷ [] };
}

abbrev pub reset_row : PasswordResetToken
reset_row = record {
  id = "p";
  token_hash = "#p";
  user_id = 1;
  expires_at = 5000;
  used_at = none;
  created_at = 0;
}

abbrev pub with_reset : World
with_reset = record (with_refresh none) {
  db = record (with_refresh none).db { reset_tokens = reset_row ∷ [] };
}

-- a token of the company "e1", with one permission in a profile
abbrev pub payload_with : String → JwtPayload
payload_with perfil = record {
  email = ana;
  user_id = none;
  sub = some 1;
  empresas = some (
      record {
        id = "e1";
        perfis =
            some (
              record { codigo = perfil; permissoes = some (record { codigo = "READ" } ∷ []) } ∷ []);
      }
      ∷ []);
}

-- ===== src/World.antt =====
-- What a request handler reads and writes: the database, the cache, the e-mails that were handed to
-- the sender, and what one request is given from outside (time, fresh values, outages).
use api_padrao.Prelude.{ℕ, String, Text, Bool, Option, List}
use api_padrao.Database.{Database}
use api_padrao.Cache.{CacheMap}
use api_padrao.Http.{HttpException}
use api_padrao.Payload.{JwtAccessToken}
use api_padrao.Usuarios.Entity.{Usuario}

pub data MailValue : Type 0 where
  text : Text → MailValue
  str : String → MailValue
  moment : ℕ → MailValue

pub record Mail : Type 0 where
  pub template : String
  pub to : Text
  pub variables : List (String × MailValue)

pub record World : Type 0 where
  pub db : Database
  pub attempts : CacheMap Text ℕ
  pub validity : CacheMap ℕ Bool
  pub profiles : CacheMap ℕ Usuario
  pub mails : List Mail

-- Which calls of the storage of login attempts and of the caches raise during one request.
pub record Outage : Type 0 where
  pub cache_get : Bool
  pub cache_set : Bool
  pub cache_del : Bool
  pub prisma : Bool

-- `now` is the instant that the request's `new Date()` calls return, in milliseconds; `raw_token`
-- is what uuidv4() or randomBytes(32) gives, `row_id` the uuid of the row that is created.
pub record Request : Type 0 where
  pub now : ℕ
  pub outage : Outage
  pub raw_token : String
  pub row_id : String
  pub ip : Option String
  pub user_agent : Option String

-- Code outside of the repository, and the configuration: SHA-256, bcrypt, the JWT signature, and
-- the e-mail sender, of which only a failure is seen.
pub record Ports : Type 0 where
  pub hash_token : String → String
  pub hash_password : String → String
  pub compare : String → String → Bool
  pub sign : JwtAccessToken → String
  pub send_failure : Mail → Option HttpException
  pub refresh_expires_days : Option ℕ
  pub frontend_url : Option String
  pub app_login_url : Option String

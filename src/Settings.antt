-- ===== src/Settings.antt =====
-- The configuration (src/server/config.go) and what is set up from it (src/server/httpServer.go,
-- emailService.go, redis.go, authDB.go, src/main/main.go). `decode` is what `json.Unmarshal` reads of
-- the one field of `Config` that has a name in JSON; `itoa` is the `%d` of `fmt.Sprintf`.
use singal.Common.{
  ◌*◌, ◌≡◌, ◌==◌, Bool, false, String, Option, none, some, List, [], ℤ, pos, negsuc, ◌+◌, arith,
}
use singal.Media.{CodecCapabilities}
use singal.Redis.{◌<>◌}

pub record HeaderExtension : Type 0 where
  pub kind : String
  pub uri : String
  pub preferred_id : ℤ
  pub preferred_encrypt : Bool
  pub direction : String

pub record Http : Type 0 where
  pub addr : String
  pub read_time_out : ℤ
  pub write_time_out : ℤ
  pub is_keep_alive : ℤ

pub record RouterRtpCapabilities : Type 0 where
  pub media_codecs : List CodecCapabilities
  pub header_extensions : List HeaderExtension

pub record DatabaseConfig : Type 0 where
  pub host : String
  pub port : ℤ
  pub username : String
  pub password : String
  pub name : String

pub record RedisConfig : Type 0 where
  pub host : String
  pub port : ℤ
  pub password : String
  pub db : ℤ

pub record EmailConfig : Type 0 where
  pub smtp_host : String
  pub smtp_port : ℤ
  pub from_email : String
  pub password : String

pub record Config : Type 0 where
  pub rtp_capabilities : RouterRtpCapabilities
  pub http : Http
  pub database : DatabaseConfig
  pub redis : RedisConfig
  pub email : EmailConfig

-- `&Config{}`
abbrev pub new_config : Config
new_config = record {
  rtp_capabilities = record { media_codecs = []; header_extensions = [] };
  http = record { addr = ""; read_time_out = pos 0; write_time_out = pos 0; is_keep_alive = pos 0 };
  database = record { host = ""; port = pos 0; username = ""; password = ""; name = "" };
  redis = record { host = ""; port = pos 0; password = ""; db = pos 0 };
  email = record { smtp_host = ""; smtp_port = pos 0; from_email = ""; password = "" };
}

-- `InitSetting`; the text of the file is `none` where it is not read, and the result is `none` where
-- it returns an error.
unfoldable pub init_setting :
    (String → Option RouterRtpCapabilities) → Option String → Option Config
init_setting decode file = elim file [
  | none ↦ none
  | some text ↦ elim (decode text) [
    | none ↦ none
    | some capabilities ↦ some (record new_config { rtp_capabilities = capabilities })
  ]
]

pub record HttpServer : Type 0 where
  pub addr : String
  pub read_timeout : ℤ
  pub write_timeout : ℤ
  pub keep_alives_enabled : Bool

-- `time.Duration(n) * time.Second`, in nanoseconds; the product is taken to fit.
abbrev seconds : ℤ → ℤ
seconds (pos n) = pos (n * 1000000000)
seconds (negsuc n) = negsuc (n * 1000000000 + 999999999)

abbrev is_one : ℤ → Bool
is_one (pos n) = n == 1
is_one (negsuc n) = false

-- The server of `NewHttpServer`; keep-alives are asked for, or left as they are by default.
unfoldable pub new_http_server : Config → HttpServer
new_http_server c = record {
  addr = c.http.addr;
  read_timeout = seconds c.http.read_time_out;
  write_timeout = seconds c.http.write_time_out;
  keep_alives_enabled = is_one c.http.is_keep_alive;
}

pub record EmailService : Type 0 where
  pub smtp_host : String
  pub smtp_port : ℤ
  pub from_email : String
  pub password : String

unfoldable pub init_email_service : Config → EmailService
init_email_service c = record {
  smtp_host = c.email.smtp_host;
  smtp_port = c.email.smtp_port;
  from_email = c.email.from_email;
  password = c.email.password;
}

-- The message that `sendEmail` hands to the mail server, and the address of that server.
unfoldable pub email_message : EmailService → String → String → String → String
email_message s to subject body =
    "From: " <> s.from_email <> "\r\nTo: " <> to <> "\r\nSubject: " <> subject <> "\r\n\r\n" <> body

module _ (itoa : ℤ → String) where
  unfoldable pub smtp_address : EmailService → String
  smtp_address s = s.smtp_host <> ":" <> itoa s.smtp_port

  -- The `Addr` of `InitRedisClient`.
  unfoldable pub redis_address : Config → String
  redis_address c = c.redis.host <> ":" <> itoa c.redis.port

  -- The source name of `InitAuthDB`.
  unfoldable pub data_source_name : Config → String
  data_source_name c =
      c.database.username
      <> ":"
      <> c.database.password
      <> "@tcp("
      <> c.database.host
      <> ":"
      <> itoa c.database.port
      <> ")/"
      <> c.database.name
      <> "?charset=utf8mb4&parseTime=True&loc=Local"

-- Whatever the file holds, the HTTP server that is set up from it has the empty address, no timeouts
-- and no wish for keep-alives.
pub new_http_server-init_setting :
    (decode : String → Option RouterRtpCapabilities) (file : Option String) (c : Config)
    → init_setting decode file ≡ some c
    → new_http_server c ≡ record {
      addr = "";
      read_timeout = pos 0;
      write_timeout = pos 0;
      keep_alives_enabled = false;
    }
unfolding init_setting new_http_server
new_http_server-init_setting decode file c e = ground (arith, e)

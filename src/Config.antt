-- ===== src/Config.antt =====
-- internal/config: the configuration, its JSON, and the statements' file (sqls.go).
use userservice.Prelude.{
  ℕ, ℤ, pos, negsuc, suc, String, ◌<>◌, str_eq, itoa, Bool, false, List, [], ◌∷◌, ◌==◌,
  if◌then◌else◌,
}
use userservice.Flow.{Act, Result, ok, err, attempt, finish, ◌>>=◌, run}
use userservice.Shared.{Error}

-- The struct `Config`; AUTHN_TIMEOUT and MAX_LOGINS are taken to be at least 0.
pub record Config : Type 0 where
  pub mysql_host : String
  pub mysql_port : ℕ
  pub mysql_pwd : String
  pub mysql_user : String
  pub redis_user : String
  pub redis_pass : String
  pub redis_host : String
  pub redis_port : ℤ
  pub maild_host : String
  pub maild_port : ℕ
  pub maild_user : String
  pub maild_pass : String
  pub maild_sender : String
  pub sms_account_id : String
  pub sms_auth_token : String
  pub sms_sender : String
  pub authn_timeout : ℕ
  pub max_logins : ℕ
  pub cookie_name : String
  pub logon_url : String
  pub reset_url : String
  pub success_url : String
  pub server_host : String
  pub server_port : ℕ
  pub log_level : String
  pub email_test_mode : Bool
  pub sms_test_mode : Bool

-- What an environment that sets only the required variables gives, by the fields' tags.
abbrev pub defaults : String → ℕ → String → String → Config
defaults mysql_host mysql_port mysql_pwd mysql_user = record {
  mysql_host = mysql_host;
  mysql_port = mysql_port;
  mysql_pwd = mysql_pwd;
  mysql_user = mysql_user;
  redis_user = "";
  redis_pass = "";
  redis_host = "redis";
  redis_port = pos 6379;
  maild_host = "mail.google.com";
  maild_port = 587;
  maild_user = "svc";
  maild_pass = "snakeoil";
  maild_sender = "no-reply@cffc.io";
  sms_account_id = "";
  sms_auth_token = "";
  sms_sender = "";
  authn_timeout = 15;
  max_logins = 5;
  cookie_name = "us-authn";
  logon_url = "/authnz/login.html";
  reset_url = "/authnz/login.html?reset";
  success_url = "/";
  server_host = "0.0.0.0";
  server_port = 3000;
  log_level = "INFO";
  email_test_mode = false;
  sms_test_mode = false;
}

-- A value of the configuration in JSON.
pub data Json : Type 0 where
  text : String → Json
  number : ℤ → Json
  flag : Bool → Json

abbrev pub Fields : Type 0
Fields = List (String × Json)

-- `omitempty`
text_unless_empty : String → String → Fields → Fields
text_unless_empty key value rest = if str_eq value "" then rest else (key, text value) ∷ rest

port_unless_zero : String → ℕ → Fields → Fields
port_unless_zero key value rest = if value == 0 then rest else (key, number (pos value)) ∷ rest

-- What `json.Marshal` writes of a configuration, by the tags of its fields: those tagged "-" are left
-- out.
unfoldable pub json_fields : Config → Fields
unfolding text_unless_empty port_unless_zero
json_fields c =
    ("mysql_host", text c.mysql_host)
    ∷ ("mysql_port", number (pos c.mysql_port))
    ∷ ("mysql_user", text c.mysql_user)
    ∷ ("redis_user", text c.redis_user)
    ∷ ("redis_host", text c.redis_host)
    ∷ ("redis_port", number c.redis_port)
    ∷ text_unless_empty "maild_host" c.maild_host (
        port_unless_zero "maild_port" c.maild_port (
          text_unless_empty "maild_user" c.maild_user (
            ("maild_sender", text c.maild_sender)
            ∷ text_unless_empty "sms_acct_id" c.sms_account_id (
                text_unless_empty "sms_auth_token" c.sms_auth_token (
                  text_unless_empty "sms_sender" c.sms_sender (
                    ("authn_timeout", number (pos c.authn_timeout))
                    ∷ ("max_logins", number (pos c.max_logins))
                    ∷ ("authn_cookie", text c.cookie_name)
                    ∷ ("logon_url", text c.logon_url)
                    ∷ ("reset_url", text c.reset_url)
                    ∷ ("success_url", text c.success_url)
                    ∷ ("server_host", text c.server_host)
                    ∷ ("server_port", number (pos c.server_port))
                    ∷ ("min_log_level", text c.log_level)
                    ∷ ("email_test_mode", flag c.email_test_mode)
                    ∷ ("sms_test_mode", flag c.sms_test_mode)
                    ∷ []))))))

-- encoding/json: one value, the struct's fields in their order, and a map of them, whose keys it sorts.
pub record Marshal : Type 0 where
  pub value : Json → String
  pub struct : Fields → String
  pub fields : Fields → String

-- `JSON`, which is logged; encoding such a struct gives no error.
unfoldable pub json : Marshal → Config → String
json marshal c = marshal.struct (json_fields c)

-- `%d` of fmt
abbrev show_int : ℤ → String
show_int (pos n) = itoa n
show_int (negsuc n) = "-" <> itoa (suc n)

-- The URL in `newMysql`.
pub mysql_url : Config → String
mysql_url c =
    c.mysql_user
    <> ":"
    <> c.mysql_pwd
    <> "@tcp("
    <> c.mysql_host
    <> ":"
    <> itoa c.mysql_port
    <> ")/userservice?parseTime=true"

-- The URL in `newRedis`.
pub redis_url : Config → String
redis_url c =
    "redis://"
    <> c.redis_user
    <> ":"
    <> c.redis_pass
    <> "@"
    <> c.redis_host
    <> ":"
    <> show_int c.redis_port
    <> "/0"

-- The server's address in `NewInstance`.
pub server_addr : Config → String
server_addr c = c.server_host <> ":" <> itoa c.server_port

-- The statements, by group and name.
abbrev pub Sqls : Type 0
Sqls = List (String × List (String × String))

-- `NewSqls`; opening the file and decoding YAML are calls of libraries.
unfoldable pub new_sqls :
    {S File : Type 0}
    → (String → Act S (Result Error File))
    → (File → Act S (Result Error Sqls))
    → String
    → Act S (Result Error Sqls)
new_sqls open_file decode vendor = run do
  file ← attempt (open_file ("sql/" <> vendor <> "/runtime.yaml")) (λ e. err e)
  result ← attempt (decode file) (λ e. err e)
  finish (ok result)

-- ===== src/Shared.antt =====
-- shared/v1: the types that the service and its clients share, their methods, the errors, and the
-- interfaces that the router calls. shared/v2 passes the same names on.
pub mod Client
use userservice.Prelude.{
  ℕ, String, ◌<>◌, len, Bool, true, false, not, Option, none, some, List, ltb, ◌==◌, if◌then◌else◌,
}
use userservice.Flow.{Act}

-- The errors of var.go, and those of the database: `sql.ErrNoRows`, `*mysql.MySQLError` by its
-- message, and any other by its text.
pub data Error : Type 0 where
  user_exists user_not_added user_not_updated user_not_deleted : Error
  address_not_added address_not_updated : Error
  bad_user_or_pass max_failed_login missing_auth_token transaction : Error
  redis_token_fail missing_params passwords_match undeliverable : Error
  no_rows : Error
  mysql other : String → Error

-- `err.Error()`; a MySQL error's text is shown by its message alone.
pub error_text : Error → String
error_text user_exists = "user already exists"
error_text user_not_added = "user was not added"
error_text user_not_updated = "user was not updated"
error_text user_not_deleted = "user was not deleted"
error_text address_not_added = "address was not added"
error_text address_not_updated = "address was not updated"
error_text bad_user_or_pass = "bad username or password"
error_text max_failed_login = "too many failed login attempts"
error_text missing_auth_token = "missing auth token"
error_text transaction = "transaction error"
error_text redis_token_fail = "failed redis login token"
error_text missing_params = "parameter missing from URL"
error_text passwords_match = "passwords match"
error_text undeliverable = "there is no way to send this user reset data"
error_text no_rows = "sql: no rows in result set"
error_text (mysql message) = message
error_text (other message) = message

-- Times are numbers of seconds; 0 is Go's zero time.
pub record Address : Type 0 where
  pub uuid : String
  pub street1 : String
  pub street2 : String
  pub city : String
  pub state : String
  pub country : String
  pub zip : String
  pub mtime : ℕ
  pub ctime : ℕ

pub record BasicAuth : Type 0 where
  pub uuid : String
  pub name : String
  pub pass : String
  pub salt : String
  pub login_success : Option ℕ
  pub login_failure : Option ℕ
  pub failure_count : ℕ
  pub mtime : ℕ
  pub ctime : ℕ

pub record Contact : Type 0 where
  pub first_name : String
  pub last_name : String
  pub bill_to : Option Address
  pub ship_to : Option Address
  pub phone : Option String
  pub mtime : ℕ
  pub ctime : ℕ

pub record User : Type 0 where
  pub uuid : String
  pub name : String
  pub contact : Option Contact
  pub email : Option String
  pub cell : Option String
  pub mtime : ℕ
  pub ctime : ℕ
  pub dtime : Option ℕ

-- A pointer that is not nil, to a text that is not empty.
filled : Option String → Bool
filled none = false
filled (some s) = not (len s == 0)

-- `(u *User) Undeliverable`
unfoldable pub is_undeliverable : User → Bool
unfolding filled
is_undeliverable u = if filled u.email then false else if filled u.cell then false else true

-- `Password.Valid`; `len` counts bytes.
unfoldable pub password_valid : String → Bool
password_valid p = if ltb (len p) 8 then false else true

-- `(*Email).Valid`
unfoldable pub email_valid : Option String → Bool
email_valid none = false
email_valid (some e) = if len e == 0 then false else true

-- `(*Cell).Valid`
unfoldable pub cell_valid : Option String → Bool
cell_valid none = false
cell_valid (some c) = if len c == 0 then false else true

-- `BasicAuth.Redact`
unfoldable pub redact : BasicAuth → BasicAuth
redact a = record a { pass = ""; salt = "" }

-- A mail of gomail and a text message of twilio: the receiver and the body.
pub record Message : Type 0 where
  pub to : String
  pub body : String

pub reset_link : String → String → String
reset_link host token = "<a \"href=https://" <> host <> "/otp/" <> token <> "\">Change Password</a>"

reset_message : Option String → String → String → Option Message
reset_message none host token = none
reset_message (some to) host token = some (record { to = to; body = reset_link host token })

unfoldable pub password_reset_email : User → String → String → Option Message
unfolding reset_message
password_reset_email u = reset_message u.email

unfoldable pub password_reset_sms : User → String → String → Option Message
unfolding reset_message
password_reset_sms u = reset_message u.cell

-- The interfaces of api.go. A method that writes through its argument returns that too; `none` is a
-- call that never returns.
pub record Addresser (S : Type 0) : Type 0 where
  pub get_all_addresses : Act S (List Address × Option Error)
  pub get_address : String → Act S (Option Address × Option Error)
  pub add_address : Address → Act S (String × Option Error)
  pub update_address : Address → Act S (Option Error)

pub record Auther (S : Type 0) : Type 0 where
  pub get_auth_by_attrs : Option String → Option String → Act S (BasicAuth × Option Error)
  pub change_password : String → String → String → Act S (Option Error)
  pub login : BasicAuth → Act S (BasicAuth × Option Error)
  pub reset_password : Option String → Act S (String × Option Error)

pub record Contacter (S : Type 0) : Type 0 where
  pub update_contact : String → Contact → Act S (Option Error)

pub record Userer (S : Type 0) : Type 0 where
  pub get_all_users : Act S (List User × Option Error)
  pub get_user : String → Act S (Option User × Option Error)
  pub add_user : User → Act S (Option (String × Option Error))
  pub update_user : User → Act S (Option Error)
  pub delete_user : String → Act S (Option Error)
  pub create_contact : User → Contact → Act S (User × Option Error)

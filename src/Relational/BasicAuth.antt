-- ===== src/Relational/BasicAuth.antt =====
-- internal/relational/basicauth.go: logins by name and password, with a count of failures.
pub mod Laws
pub mod Outcomes
pub mod Logins
pub mod Lockout
pub mod Passwords
pub mod Memory
mod Tests
use userservice.Prelude.{
  ℕ, ◌+◌, ◌%◌, String, str_eq, not, Option, none, some, [], ◌∷◌, ltb, if◌then◌else◌, is_some,
}
use userservice.Flow.{Act, Proc, Result, ok, err, finish, call, return_if, ◌>>=◌, ◌>>◌, run}
use userservice.Shared.{
  Error, BasicAuth, bad_user_or_pass, max_failed_login, passwords_match, user_not_updated,
  password_valid,
}
use userservice.Relational.{Conn, affected, hash, generate_salt}
use userservice.Relational.Scan.{text, num, opt_text, opt_time, scan, scan_auth}

abbrev max_failure : ℕ
max_failure = 3

-- The zero value of the struct.
abbrev pub no_auth : BasicAuth
no_auth = record {
  uuid = "";
  name = "";
  pass = "";
  salt = "";
  login_success = none;
  login_failure = none;
  failure_count = 0;
  mtime = 0;
  ctime = 0;
}

-- On an error no caller reads the struct.
abbrev pub auth_result : Result Error BasicAuth → BasicAuth × Option Error
auth_result (ok a) = (a, none)
auth_result (err e) = (no_auth, some e)

unfoldable pub validate : BasicAuth → String → Option Error
validate old new =
    if not (password_valid new)
    then some bad_user_or_pass
    else if str_eq new old.name
    then some passwords_match
    else if str_eq (hash new old.salt) old.pass
    then some passwords_match
    else none

-- The checks of `SoftLogin`.
unfoldable pub login_error : BasicAuth → BasicAuth → Option Error
login_error login result =
    if ltb max_failure result.failure_count
    then some max_failed_login
    else if not (str_eq (hash login.pass result.salt) result.pass)
    then some bad_user_or_pass
    else none

-- What `Login` stores after a wrong password, and after the right one.
abbrev pub failed_auth : BasicAuth → ℕ → BasicAuth
failed_auth result now = record no_auth {
  uuid = result.uuid;
  pass = result.pass;
  salt = result.salt;
  login_success = result.login_success;
  login_failure = some now;
  failure_count = (result.failure_count + 1) % 256;
}

abbrev pub passed_auth : BasicAuth → ℕ → BasicAuth
passed_auth result now = record no_auth {
  uuid = result.uuid;
  pass = result.pass;
  salt = result.salt;
  login_success = some now;
  login_failure = result.login_failure;
  failure_count = 0;
}

module _ {S : Type 0} (db : Conn S) where
  unfoldable pub get_auth_by_attrs :
      Option String → Option String → Act S (BasicAuth × Option Error)
  get_auth_by_attrs id name = run do
    row ← call (db.query_row (db.sqls "basic-auth" "select") (opt_text id ∷ opt_text name ∷ []))
    finish (auth_result (scan scan_auth row))

  unfoldable pub update_basic_auth : BasicAuth → Act S (Option Error)
  update_basic_auth login = run do
    result ← call (
        db.exec (db.sqls "basic-auth" "update") (
          text login.pass
          ∷ text login.salt
          ∷ opt_time login.login_success
          ∷ opt_time login.login_failure
          ∷ num login.failure_count
          ∷ text login.uuid
          ∷ []))
    finish (affected user_not_updated result)

  unfoldable pub soft_login : BasicAuth → Act S (BasicAuth × Option Error)
  soft_login login = run do
    found ← call (get_auth_by_attrs (some login.uuid) none)
    return_if (is_some found.1) found
    finish (found.0, login_error login found.0)

  -- `Login` after `SoftLogin`.
  record_login : ℕ → BasicAuth → Option Error → Act S (BasicAuth × Option Error)
  record_login now result (some bad_user_or_pass) = run do
    e ← call (update_basic_auth (failed_auth result now))
    return_if (is_some e) (result, e)
    finish (result, some bad_user_or_pass)
  record_login now result none = run do
    e ← call (update_basic_auth (passed_auth result now))
    return_if (is_some e) (result, e)
    finish (record result { login_success = some now }, none)
  record_login now result e = run do finish (result, e)

  unfoldable pub login : BasicAuth → Act S (BasicAuth × Option Error)
  unfolding record_login
  login given =
      run
        do now ← call db.now; soft ← call (soft_login given); call (record_login now soft.0 soft.1)

  unfoldable pub change_password : String → String → String → Act S (Option Error)
  change_password uid old new = run do
    logged ← call (login (record no_auth { uuid = uid; pass = old }))
    return_if (is_some logged.1) logged.1
    return_if (is_some (validate logged.0 new)) (validate logged.0 new)
    now ← call db.now
    e ← call (
        update_basic_auth (record logged.0 {
          salt = generate_salt;
          pass = hash new generate_salt;
          login_success = some now;
          failure_count = 0;
        }))
    finish e

  unfoldable pub reset_password : Option String → Act S (String × Option Error)
  reset_password id = run do
    found ← call (get_auth_by_attrs id none)
    return_if (is_some found.1) ("", found.1)
    now ← call db.now
    seed ← call db.new_string
    e ← call (
        update_basic_auth (record found.0 {
          salt = generate_salt;
          pass = hash seed generate_salt;
          login_success = some now;
          failure_count = 0;
        }))
    finish (seed, e)

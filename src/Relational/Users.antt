-- ===== src/Relational/Users.antt =====
-- internal/relational/user.go: the users' rows.
pub mod Retries
pub mod Directory
pub mod Laws
pub mod Calls
pub mod Refinement
pub mod Memory
mod Tests
use userservice.Prelude.{
  ℕ, zero, suc, String, not, ◌&&◌, Bool, true, false, Option, none, some, List, [], ◌∷◌,
  if◌then◌else◌, is_some, find?,
}
use userservice.Flow.{Act, Proc, Result, ok, err, finish, call, return_if, ◌>>=◌, ◌>>◌, run}
use userservice.Shared.{
  Error, User, Contact, user_exists, user_not_added, user_not_updated, user_not_deleted,
  undeliverable, mysql, email_valid, cell_valid,
}
use userservice.Relational.{Conn, Rows, affected, scan_rows}
use userservice.Relational.Scan.{text, time, opt_text, scan, scan_user_row, scan_user}
use userservice.Relational.Contacts.{get_contact, add_contact}

-- `strings.Contains`
abbrev pub has_substring : String → String → Bool
has_substring s t = is_some (find? s t)

-- What `AddUser` does about an error of the statement: try again with a fresh id, or report it.
pub data Verdict : Type 0 where
  again : Verdict
  report : Error → Verdict

pub verdict : Error → Verdict
verdict (mysql message) =
    if has_substring message "users.PRIMARY"
    then again
    else if has_substring message "users.name"
    then report user_exists
    else report (mysql message)
verdict e = report e

module _ {S : Type 0} (db : Conn S) where
  unfoldable pub all_users : Result Error Rows → List User × Option Error
  all_users (err e) = ([], some e)
  all_users (ok rows) = scan_rows scan_user_row rows.rows []

  -- A nil list is the empty list.
  unfoldable pub get_all_users : Act S (List User × Option Error)
  unfolding all_users
  get_all_users =
      run do rows ← call (db.query (db.sqls "user" "select-all") []); finish (all_users rows)

  with_contact : User → Option Contact × Option Error → Option User × Option Error
  with_contact user (contact, none) = (some (record user { contact = contact }), none)
  with_contact user (contact, some e) = (none, some e)

  user_found : String → Result Error User → Act S (Option User × Option Error)
  unfolding with_contact
  user_found id (err e) = run do finish (none, some e)
  user_found id (ok user) =
      run do contact ← call (get_contact db id); finish (with_contact user contact)

  pub get_user : String → Act S (Option User × Option Error)
  unfolding user_found
  get_user id = run do
    row ← call (db.query_row (db.sqls "user" "select") (text id ∷ []))
    call (user_found id (scan scan_user row))

  -- The row that `AddUser` inserts; password and salt are empty.
  unfoldable pub insert_user : User → Act S (Result Error (Result Error ℕ))
  insert_user u = db.exec (db.sqls "user" "insert") (
      text u.uuid
      ∷ text u.name
      ∷ opt_text u.email
      ∷ opt_text u.cell
      ∷ text ""
      ∷ text ""
      ∷ time u.mtime
      ∷ time u.ctime
      ∷ [])

  pub reported_or :
      Act S (Option (String × Option Error))
      → String
      → Verdict
      → Act S (Option (String × Option Error))
  reported_or retry id again = retry
  reported_or retry id (report e) = λ s. (some (id, some e), s)

  -- The end of `AddUser`: the error of the insert, another try, or the check of the rows.
  pub inserted_or :
      Act S (Option (String × Option Error))
      → String
      → Result Error (Result Error ℕ)
      → Act S (Option (String × Option Error))
  unfolding reported_or
  inserted_or retry id (ok rows) = λ s. (some (id, affected user_not_added (ok rows)), s)
  inserted_or retry id (err e) = reported_or retry id (verdict e)

  -- `AddUser`, which calls itself until the id is new; `none` means that the fuel ran out.
  pub add_user : ℕ → User → Act S (Option (String × Option Error))
  unfolding inserted_or
  add_user zero u = run do finish none
  add_user (suc fuel) u = run do
    return_if (not (email_valid u.email) && not (cell_valid u.cell)) (some ("", some undeliverable))
    now ← call db.now
    id ← call db.uuidgen
    let u' = record u { uuid = id; mtime = now; ctime = now }
    result ← call (insert_user u')
    call (inserted_or (add_user fuel u') id result)

  pub update_user : User → Act S (Option Error)
  update_user u = run do
    now ← call db.now
    result ← call (
        db.exec (db.sqls "user" "update")
          (text u.name ∷ opt_text u.email ∷ opt_text u.cell ∷ time now ∷ text u.uuid ∷ []))
    finish (affected user_not_updated result)

  pub delete_user : String → Act S (Option Error)
  delete_user id = run do
    now ← call db.now
    result ← call (db.exec (db.sqls "user" "delete") (time now ∷ text id ∷ []))
    finish (affected user_not_deleted result)

  -- The user comes back with the contact that was made.
  pub create_contact : User → Contact → Act S (User × Option Error)
  create_contact u c =
      run do made ← call (add_contact db u.uuid c); finish (record u { contact = made.0 }, made.1)

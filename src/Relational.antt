-- ===== src/Relational.antt =====
-- internal/relational/conn.go: the connection to the database, and the steps that its methods share.
-- `QueryRowContext`, `QueryContext` and `ExecContext` are the driver's; the statements are those of
-- the configuration, by group and name.
pub mod Scan
pub mod Affected
pub mod Reading
pub mod Logging
mod Tests
pub mod BasicAuth
pub mod Users
pub mod Addresses
pub mod Contacts
use userservice.Prelude.{
  ℕ, String, ◌<>◌, Option, none, some, List, [], ◌∷◌, ◌++◌, ◌==◌, if◌then◌else◌,
}
use userservice.Flow.{Act, Result, ok, err}
use userservice.Shared.{Error}
use userservice.Relational.Scan.{Value, scan_error}

-- What `QueryContext` gives: the rows, and the error, if any, that ended the iteration.
pub record Rows : Type 0 where
  pub rows : List (List Value)
  pub ended_by : Option Error

pub record Conn (S : Type 0) : Type 0 where
  pub query_row : String → List Value → Act S (Result Error (List Value))
  pub query : String → List Value → Act S (Result Error Rows)
  -- the outer error is that of the statement, the inner that of `RowsAffected`
  pub exec : String → List Value → Act S (Result Error (Result Error ℕ))
  pub uuidgen : Act S String
  pub new_string : Act S String
  pub now : Act S ℕ
  pub sqls : String → String → String

-- `if err == nil { if rows, err = result.RowsAffected(); err == nil && rows != 1 { err = e } }`
unfoldable pub affected : Error → Result Error (Result Error ℕ) → Option Error
affected e (err x) = some x
affected e (ok (err x)) = some x
affected e (ok (ok n)) = if n == 1 then none else some e

-- The loop `for rows.Next()`: up to the first row that does not scan.
pub scan_rows {ℓ} :
    {A : Type ℓ} → (List Value → Option A) → List (List Value) → List A → List A × Option Error
scan_rows f [] result = (result, none)
scan_rows f (row ∷ rows) result = elim (f row) [
  | none ↦ (result, some scan_error)
  | some a ↦ scan_rows f rows (result ++ a ∷ [])
]

-- The password's hash, as it stands in the code.
unfoldable pub hash : String → String → String
hash pass salt = pass <> salt

unfoldable pub generate_salt : String
generate_salt = "salt"

-- ===== src/Relational/Addresses.antt =====
-- internal/relational/address.go: the addresses' rows.
pub mod Laws
pub mod RoundTrip
pub mod Memory
mod Tests
use userservice.Prelude.{String, Option, none, some, List, [], ◌∷◌}
use userservice.Flow.{Act, Result, ok, err, finish, call, ◌>>=◌, run}
use userservice.Shared.{Error, Address, other, address_not_updated}
use userservice.Relational.{Conn, Rows, affected, scan_rows}
use userservice.Relational.Scan.{text, time, scan, scan_address}

-- The rows up to the first that does not scan.
unfoldable pub all_addresses : Result Error Rows → List Address × Option Error
all_addresses (err e) = ([], some e)
all_addresses (ok rows) = scan_rows scan_address rows.rows []

unfoldable pub address_result : Result Error Address → Option Address × Option Error
address_result (ok a) = (some a, none)
address_result (err e) = (none, some e)

module _ {S : Type 0} (db : Conn S) where
  unfoldable pub get_all_addresses : Act S (List Address × Option Error)
  unfolding all_addresses
  get_all_addresses =
      run do rows ← call (db.query (db.sqls "address" "select-all") []); finish (all_addresses rows)

  unfoldable pub get_address : String → Act S (Option Address × Option Error)
  unfolding address_result
  get_address id = run do
    row ← call (db.query_row (db.sqls "address" "select") (text id ∷ []))
    finish (address_result (scan scan_address row))

  -- The error is one of its own, not the `AddressNotAddedError` of shared/v1.
  unfoldable pub add_address : Address → Act S (String × Option Error)
  add_address addr = run do
    now ← call db.now
    id ← call db.uuidgen
    result ← call (
        db.exec (db.sqls "address" "insert") (
          text id
          ∷ text addr.street1
          ∷ text addr.street2
          ∷ text addr.city
          ∷ text addr.state
          ∷ text addr.country
          ∷ text addr.zip
          ∷ time now
          ∷ time now
          ∷ []))
    finish (id, affected (other "address was not added") result)

  pub update_address : Address → Act S (Option Error)
  update_address addr = run do
    now ← call db.now
    result ← call (
        db.exec (db.sqls "address" "update") (
          text addr.street1
          ∷ text addr.street2
          ∷ text addr.city
          ∷ text addr.state
          ∷ text addr.country
          ∷ text addr.zip
          ∷ time now
          ∷ text addr.uuid
          ∷ []))
    finish (affected address_not_updated result)

-- ===== src/Relational/Contacts.antt =====
-- internal/relational/contact.go: a user's contact, with the addresses that it names.
pub mod Reading
pub mod Laws
pub mod Memory
pub mod RoundTrip
mod Tests
use userservice.Prelude.{String, ◌<>◌, str_eq, Option, none, some, [], ◌∷◌, is_some}
use userservice.Flow.{Act, Result, ok, err, finish, call, return_if, ◌>>=◌, ◌>>◌, run}
use userservice.Shared.{Error, Address, Contact, other, no_rows}
use userservice.Relational.{Conn, affected}
use userservice.Relational.Scan.{text, time, opt_text, scan, scan_contact}
use userservice.Relational.Addresses.{get_address}

-- A missing contact is nil and no error.
unfoldable pub no_contact : Error → Option Contact × Option Error
no_contact no_rows = (none, none)
no_contact e = (none, some e)

-- The id of an address that may be nil.
abbrev pub address_id : Option Address → Option String
address_id none = none
address_id (some a) = some a.uuid

module _ {S : Type 0} (db : Conn S) where
  -- The address of an id that may be nil.
  pub fetch_address : Option String → Act S (Option Address × Option Error)
  fetch_address none = run do finish (none, none)
  fetch_address (some id) = get_address db id

  unfoldable pub contact_found :
      Result Error (Contact × Option String × Option String) → Act S (Option Contact × Option Error)
  contact_found (err e) = run do finish (no_contact e)
  contact_found (ok (c, billto, shipto)) = run do
    bill ← call (fetch_address billto)
    return_if (is_some bill.1) (some (record c { bill_to = bill.0 }), bill.1)
    ship ← call (fetch_address shipto)
    finish (some (record c { bill_to = bill.0; ship_to = ship.0 }), ship.1)

  unfoldable pub get_contact : String → Act S (Option Contact × Option Error)
  unfolding contact_found
  get_contact id = run do
    row ← call (db.query_row (db.sqls "contact" "select") (text id ∷ []))
    call (contact_found (scan scan_contact row))

  pub add_contact : String → Contact → Act S (Option Contact × Option Error)
  add_contact id c = run do
    return_if (str_eq id "") (none, some (other "contacts require a valid user"))
    now ← call db.now
    let c' = record c { mtime = now; ctime = now }
    result ← call (
        db.exec (db.sqls "contact" "insert") (
          text c.first_name
          ∷ text c.last_name
          ∷ opt_text (address_id c.bill_to)
          ∷ opt_text (address_id c.ship_to)
          ∷ time now
          ∷ time now
          ∷ text id
          ∷ []))
    finish (some c', affected (other ("contact was not inserted: '" <> id <> "'")) result)

  unfoldable pub update_contact : String → Contact → Act S (Option Error)
  update_contact id c = run do
    now ← call db.now
    result ← call (
        db.exec (db.sqls "contact" "update") (
          text c.first_name
          ∷ text c.last_name
          ∷ opt_text (address_id c.bill_to)
          ∷ opt_text (address_id c.ship_to)
          ∷ time now
          ∷ text id
          ∷ []))
    finish (affected (other ("contact was not updated: '" <> id <> "'")) result)

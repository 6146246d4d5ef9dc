-- ===== src/Relational/Contacts/Laws.antt =====
-- What contact.go relies on of the database: the statements "contact"/"select" and "update" and the
-- statement "address"/"select" of sql/mysql/runtime.yaml, on a view of the contacts by their user's id.
use userservice.Prelude.{ℕ, String, str_eq, ◌≡◌, Option, none, some, List, [], ◌∷◌, if◌then◌else◌}
use mathlib.Core.Option
use userservice.Flow.{ok, err}
use userservice.Shared.{Address, Contact, no_rows}
use userservice.Relational.{Conn}
use userservice.Relational.Scan.{Value, text, time, opt_text, scan_contact, scan_address}
use userservice.Relational.Contacts.{address_id}

-- A row, which names its addresses by their ids.
pub record Row : Type 0 where
  pub first_name : String
  pub last_name : String
  pub billto : Option String
  pub shipto : Option String
  pub mtime : ℕ
  pub ctime : ℕ

abbrev pub Table : Type 0
Table = String → Option Row

-- What `Scan` gives of a row.
abbrev pub scanned_row : Row → Contact × Option String × Option String
scanned_row x = (
  record {
    first_name = x.first_name;
    last_name = x.last_name;
    bill_to = none;
    ship_to = none;
    phone = none;
    mtime = x.mtime;
    ctime = x.ctime;
  },
  x.billto,
  x.shipto,
)

-- "contact"/"update" keeps the time at which the row was made.
abbrev pub changed : Contact → ℕ → Row → Row
changed c now x = record {
  first_name = c.first_name;
  last_name = c.last_name;
  billto = address_id c.bill_to;
  shipto = address_id c.ship_to;
  mtime = now;
  ctime = x.ctime;
}

abbrev pub change : String → Contact → ℕ → Table → Table
change id c now w j = if str_eq id j then Option.map (changed c now) (w j) else w j

abbrev pub update_args : String → Contact → ℕ → List Value
update_args id c now =
    text c.first_name
    ∷ text c.last_name
    ∷ opt_text (address_id c.bill_to)
    ∷ opt_text (address_id c.ship_to)
    ∷ time now
    ∷ text id
    ∷ []

pub record ContactLaws {S : Type 0} (db : Conn S) (view : S → Table) : Type 0 where
  pub select_row :
      (id : String) (x : Row) (row : List Value) (s : S)
      → view s id ≡ some x
      → (db.query_row (db.sqls "contact" "select") (text id ∷ []) s).0 ≡ ok row
      → scan_contact row ≡ some (scanned_row x)
  pub select_missing :
      (id : String) (s : S)
      → (db.query_row (db.sqls "contact" "select") (text id ∷ []) s).0 ≡ err no_rows
      → view s id ≡ none
  pub select_address :
      (id : String) (a : Address) (row : List Value) (s : S)
      → (db.query_row (db.sqls "address" "select") (text id ∷ []) s).0 ≡ ok row
      → scan_address row ≡ some a
      → a.uuid ≡ id
  pub update_ok :
      (id : String) (c : Contact) (now : ℕ) (s : S)
      → (db.exec (db.sqls "contact" "update") (update_args id c now) s).0 ≡ ok (ok 1)
      → view (db.exec (db.sqls "contact" "update") (update_args id c now) s).1
        ≡ change id c now (view s)
  pub now_view : (s : S) → view (db.now s).1 ≡ view s

-- ===== src/Relational/Addresses/Laws.antt =====
-- What address.go relies on of the database: the statements "address"/"select", "insert" and "update" of
-- sql/mysql/runtime.yaml, on a view of the rows by their id.
use userservice.Prelude.{String, str_eq, ◌≡◌, Option, some, List, [], ◌∷◌, if◌then◌else◌}
use mathlib.Core.Option
use userservice.Flow.{ok}
use userservice.Shared.{Address}
use userservice.Relational.{Conn}
use userservice.Relational.Scan.{Value, text, time, scan_address}

abbrev pub Table : Type 0
Table = String → Option Address

-- The rows with one more, or with another in its place.
abbrev pub put : Address → Table → Table
put x w id = if str_eq x.uuid id then some x else w id

-- "address"/"update" keeps the time at which the row was made.
abbrev pub change : Address → Table → Table
change x w id =
    if str_eq x.uuid id then Option.map (λ a. record x { ctime = a.ctime }) (w id) else w id

abbrev pub insert_args : Address → List Value
insert_args x =
    text x.uuid
    ∷ text x.street1
    ∷ text x.street2
    ∷ text x.city
    ∷ text x.state
    ∷ text x.country
    ∷ text x.zip
    ∷ time x.mtime
    ∷ time x.ctime
    ∷ []

abbrev pub update_args : Address → List Value
update_args x =
    text x.street1
    ∷ text x.street2
    ∷ text x.city
    ∷ text x.state
    ∷ text x.country
    ∷ text x.zip
    ∷ time x.mtime
    ∷ text x.uuid
    ∷ []

pub record AddressLaws {S : Type 0} (db : Conn S) (view : S → Table) : Type 0 where
  pub select_row :
      (id : String) (a : Address) (row : List Value) (s : S)
      → view s id ≡ some a
      → (db.query_row (db.sqls "address" "select") (text id ∷ []) s).0 ≡ ok row
      → scan_address row ≡ some a
  pub insert_ok :
      (x : Address) (s : S)
      → (db.exec (db.sqls "address" "insert") (insert_args x) s).0 ≡ ok (ok 1)
      → view (db.exec (db.sqls "address" "insert") (insert_args x) s).1 ≡ put x (view s)
  pub update_ok :
      (x : Address) (s : S)
      → (db.exec (db.sqls "address" "update") (update_args x) s).0 ≡ ok (ok 1)
      → view (db.exec (db.sqls "address" "update") (update_args x) s).1 ≡ change x (view s)
  pub now_view : (s : S) → view (db.now s).1 ≡ view s
  pub uuid_view : (s : S) → view (db.uuidgen s).1 ≡ view s

-- ===== src/Relational/Addresses/Memory.antt =====
-- A table of addresses in memory with three statements of address.go: it shows that what the code relies
-- on can be met.
use userservice.Prelude.{
  ℕ, String, ◌<>◌, str_eq, eq_iff, ◌≡◌, refl, Option, none, some, is_some, List, [], ◌∷◌, arith,
  if◌then◌else◌,
}
use mathlib.Core.Path.{fun_ext}
use userservice.Flow.{Result, ok, err}
use userservice.Shared.{Error, Address, no_rows, mysql, other}
use userservice.Relational.{Conn}
use userservice.Relational.Scan.{Value, text, time, scan_address}
use userservice.Relational.Addresses.Laws.{Table, put, change, insert_args, AddressLaws}

abbrev pub Rows : Type 0
Rows = List Address

unfoldable pub find : String → Rows → Option Address
find id [] = none
find id (a ∷ s) = if str_eq a.uuid id then some a else find id s

-- Every row of the id is changed.
unfoldable pub write : Address → Rows → Rows
write x [] = []
write x (a ∷ s) =
    let rest = write x s in
    (if str_eq x.uuid a.uuid then record x { ctime = a.ctime } else a) ∷ rest

unfoldable pub row_of : Option Address → Result Error (List Value)
row_of none = err no_rows
row_of (some a) = ok (
    text a.uuid
    ∷ text a.street1
    ∷ text a.street2
    ∷ text a.city
    ∷ text a.state
    ∷ text a.country
    ∷ text a.zip
    ∷ time a.mtime
    ∷ time a.ctime
    ∷ [])

-- The values of an insert or of an update, by their number.
unfoldable pub execute : List Value → Rows → Result Error (Result Error ℕ) × Rows
execute (text id ∷ text a ∷ text b ∷ text c ∷ text d ∷ text e ∷ text f ∷ time m ∷ time t ∷ []) s = (
  if is_some (find id s) then err (mysql "Duplicate entry") else ok (ok 1),
  if is_some (find id s)
      then s
      else record {
        uuid = id;
        street1 = a;
        street2 = b;
        city = c;
        state = d;
        country = e;
        zip = f;
        mtime = m;
        ctime = t;
      }
        ∷ s,
)
execute (text a ∷ text b ∷ text c ∷ text d ∷ text e ∷ text f ∷ time m ∷ text id ∷ []) s = (
  ok (ok (if is_some (find id s) then 1 else 0)),
  write
      (record {
        uuid = id;
        street1 = a;
        street2 = b;
        city = c;
        state = d;
        country = e;
        zip = f;
        mtime = m;
        ctime = 0;
      })
      s,
)
execute _ s = (err (other "not a statement of this table"), s)

select : List Value → Rows → Result Error (List Value)
select (text id ∷ []) s = row_of (find id s)
select _ s = err (other "not a statement of this table")

unfoldable pub db : Conn Rows
unfolding select
db = record {
  query_row = λ statement args s. (select args s, s);
  query = λ statement args s. (err (other "not a statement of this table"), s);
  exec = λ statement args s. execute args s;
  uuidgen = λ s. ("fresh", s);
  new_string = λ s. ("seed", s);
  now = λ s. (1000, s);
  sqls = λ group name. group <> "/" <> name;
}

abbrev pub view : Rows → Table
view s id = find id s

find-write : (x : Address) (s : Rows) (id : String) → find id (write x s) ≡ change x (view s) id
unfolding find write
find-write x [] id = ground arith
find-write x (a ∷ s) id =
    ground (arith, find-write x s id, eq_iff x.uuid a.uuid, eq_iff a.uuid id, eq_iff x.uuid id)

find-insert :
    (x : Address) (s : Rows) (id : String)
    → (execute (insert_args x) s).0 ≡ ok (ok 1)
    → find id (if is_some (find x.uuid s) then s else x ∷ s) ≡ put x (view s) id
unfolding find execute
find-insert x s id q = ground (arith, q)

row_of-scan :
    (o : Option Address) (a : Address) (row : List Value)
    → o ≡ some a
    → row_of o ≡ ok row
    → scan_address row ≡ some a
unfolding row_of scan_address
row_of-scan none a row h q = cc
row_of-scan (some b) a row h q = ground (arith, h)

pub db-laws : AddressLaws db view
unfolding db execute
db-laws = record {
  select_row = λ id a row s h q. row_of-scan (find id s) a row h q;
  insert_ok = λ x s q. fun_ext (λ id. find-insert x s id q);
  update_ok = λ x s q. fun_ext (λ id. find-write (record x { ctime = 0 }) s id);
  now_view = λ s. refl;
  uuid_view = λ s. refl;
}

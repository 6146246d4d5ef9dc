-- ===== src/Relational/Contacts/Memory.antt =====
-- A table of contacts in memory, and an address of each id, with three statements of contact.go and
-- address.go: it shows that what the code relies on can be met.
use userservice.Prelude.{
  ℕ, String, ◌<>◌, str_eq, eq_iff, ◌≡◌, refl, ap, sym, ◌∙◌, Option, none, some, is_some, List, [],
  ◌∷◌, lookup, arith, if◌then◌else◌,
}
use mathlib.Core.Path.{fun_ext}
use userservice.Flow.{Result, ok, err}
use userservice.Shared.{Error, Address, Contact, no_rows, other}
use userservice.Relational.{Conn}
use userservice.Relational.Scan.{Value, text, time, opt_text, scan_contact, scan_address}
use userservice.Relational.Contacts.{address_id}
use userservice.Relational.Contacts.Laws.{Row, Table, scanned_row, changed, change, ContactLaws}

abbrev pub Rows : Type 0
Rows = List (String × Row)

abbrev pub view : Rows → Table
view s id = lookup id s

abbrev pub values : Row → List Value
values x =
    text x.first_name
    ∷ text x.last_name
    ∷ opt_text x.billto
    ∷ opt_text x.shipto
    ∷ time x.mtime
    ∷ time x.ctime
    ∷ []

abbrev pub row_of : Option Row → Result Error (List Value)
row_of none = err no_rows
row_of (some x) = ok (values x)

-- The address of any id.
abbrev pub address_row : String → List Value
address_row id =
    text id
    ∷ text "Elm Street 1"
    ∷ text ""
    ∷ text "Springwood"
    ∷ text "OH"
    ∷ text "US"
    ∷ text "1"
    ∷ time 5
    ∷ time 5
    ∷ []

abbrev pub select : String → List Value → Rows → Result Error (List Value)
select q (text id ∷ []) s =
    if str_eq q "address/select" then ok (address_row id) else row_of (lookup id s)
select q _ s = err (other "not a statement of these tables")

abbrev pub opt_of : Value → Option String
opt_of (text t) = some t
opt_of _ = none

-- Every row of the id is changed.
unfoldable pub write : String → (Row → Row) → Rows → Rows
write id f [] = []
write id f ((k, x) ∷ s) = let rest = write id f s in (k, if str_eq id k then f x else x) ∷ rest

abbrev pub execute : List Value → Rows → Result Error (Result Error ℕ) × Rows
execute (text a ∷ text b ∷ x ∷ y ∷ time m ∷ text id ∷ []) s = (
  ok (ok (if is_some (lookup id s) then 1 else 0)),
  write id
      (λ r. record {
        first_name = a;
        last_name = b;
        billto = opt_of x;
        shipto = opt_of y;
        mtime = m;
        ctime = r.ctime;
      })
      s,
)
execute _ s = (err (other "not a statement of this table"), s)

unfoldable pub db : Conn Rows
db = record {
  query_row = λ q args s. (select q args s, s);
  query = λ q args s. (err (other "not a statement of this table"), s);
  exec = λ q args s. execute args s;
  uuidgen = λ s. ("fresh", s);
  new_string = λ s. ("seed", s);
  now = λ s. (1000, s);
  sqls = λ group name. group <> "/" <> name;
}

opt_of_text : (o : Option String) → opt_of (opt_text o) ≡ o
opt_of_text none = refl
opt_of_text (some t) = refl

lookup-write :
    (id : String) (c : Contact) (now : ℕ) (s : Rows) (j : String)
    → lookup j (write id (changed c now) s) ≡ change id c now (view s) j
unfolding lookup write
lookup-write id c now [] j = ground arith
lookup-write id c now ((k, x) ∷ s) j =
    ground (arith, lookup-write id c now s j, eq_iff id k, eq_iff k j, eq_iff id j)

abbrev row_with : Row → Option String → Option String → Row
row_with r x y = record r { billto = x; shipto = y }

values-scan :
    (r : Row) (x y : Option String)
    → scan_contact (values (row_with r x y)) ≡ some (scanned_row (row_with r x y))
unfolding scan_contact
values-scan r none none = refl
values-scan r none (some y) = refl
values-scan r (some x) none = refl
values-scan r (some x) (some y) = refl

abbrev row_in : Result Error (List Value) → List Value
row_in (err e) = []
row_in (ok row) = row

row_of-scan :
    (o : Option Row) (x : Row) (row : List Value)
    → o ≡ some x
    → row_of o ≡ ok row
    → scan_contact row ≡ some (scanned_row x)
row_of-scan none x row h q = ground arith
row_of-scan (some y) x row h q =
    let e = values-scan x x.billto x.shipto in
    ap (λ r. scan_contact (row_in r)) (sym q) ∙ ap (λ o. scan_contact (row_in (row_of o))) h ∙ e

row_of-missing : (o : Option Row) → row_of o ≡ err no_rows → o ≡ none
row_of-missing none q = refl
row_of-missing (some x) q = ground arith

abbrev uuid_in : Option Address → String
uuid_in none = ""
uuid_in (some a) = a.uuid

address-keyed :
    (id : String) (a : Address) (row : List Value)
    → select "address/select" (text id ∷ []) [] ≡ ok row
    → scan_address row ≡ some a
    → a.uuid ≡ id
unfolding scan_address
address-keyed id a row q e = ap uuid_in (sym e ∙ ap (λ r. scan_address (row_in r)) (sym q))

pub db-laws : ContactLaws db view
unfolding db lookup
db-laws = record {
  select_row = λ id x row s h q. row_of-scan (lookup id s) x row h q;
  select_missing = λ id s q. row_of-missing (lookup id s) q;
  select_address = λ id a row s q e. address-keyed id a row q e;
  update_ok = λ id c now s q. fun_ext (λ j.
      rw (opt_of_text (address_id c.bill_to), opt_of_text (address_id c.ship_to))
        (lookup-write id c now s j));
  now_view = λ s. refl;
}

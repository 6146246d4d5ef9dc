-- ===== src/Relational/Contacts/Tests.antt =====
-- A contact on the table in memory.
use userservice.Prelude.{eq_iff, ◌≡◌, refl, none, some, [], ◌∷◌, arith, lookup}
use userservice.Flow.{run}
use userservice.Shared.{Address, Contact}
use userservice.Relational.{affected}
use userservice.Relational.Contacts.{get_contact, update_contact}
use userservice.Relational.Contacts.Laws.{Row, changed}
use userservice.Relational.Contacts.Memory.{Rows, view, write, db, db-laws}
use userservice.Relational.Contacts.RoundTrip.{Shown, update_contact-get_contact}

abbrev row : Row
row = record {
  first_name = "Ann";
  last_name = "Smith";
  billto = none;
  shipto = some "work";
  mtime = 5;
  ctime = 5;
}

abbrev table : Rows
table = ("ann-id", row) ∷ []

abbrev home : Address
home = record {
  uuid = "home";
  street1 = "Elm Street 1";
  street2 = "";
  city = "Springwood";
  state = "OH";
  country = "US";
  zip = "1";
  mtime = 5;
  ctime = 5;
}

abbrev moved : Contact
moved = record {
  first_name = "Ann";
  last_name = "Jones";
  bill_to = some home;
  ship_to = none;
  phone = none;
  mtime = 0;
  ctime = 0;
}

update_contact-get_contact_example :
    let s' = (update_contact db "ann-id" moved table).1 in
    Shown (changed moved 1000 row) (get_contact db "ann-id" s').0
    × (view s' "bob-id" ≡ view table "bob-id")
unfolding run update_contact affected lookup write db
update_contact-get_contact_example =
    update_contact-get_contact db view db-laws "ann-id" moved row table refl refl "bob-id"
      (λ e. ground (arith, eq_iff "ann-id" "bob-id"))

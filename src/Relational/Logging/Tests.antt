-- ===== src/Relational/Logging/Tests.antt =====
-- The logged methods on Prometheus and the addresses' table in memory.
use userservice.Prelude.{none, some, [], ◌∷◌}
use userservice.Shared.{Address, Contact}
use userservice.Relational.Addresses.Memory.{Rows}

abbrev home : Address
home = record {
  uuid = "home";
  street1 = "Elm Street 1";
  street2 = "";
  city = "Springwood";
  state = "OH";
  country = "US";
  zip = "1";
  mtime = 5;
  ctime = 5;
}

abbrev ann : Contact
ann = record {
  first_name = "Ann";
  last_name = "Smith";
  bill_to = some home;
  ship_to = none;
  phone = none;
  mtime = 0;
  ctime = 0;
}

abbrev table : Rows
table = home ∷ []

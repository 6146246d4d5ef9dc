-- ===== src/Relational/Addresses/Tests.antt =====
-- Addresses on the table in memory.
use userservice.Prelude.{eq_iff, ◌≡◌, refl, arith, [], ◌∷◌}
use userservice.Flow.{run}
use userservice.Shared.{Address}
use userservice.Relational.{affected}
use userservice.Relational.Addresses.{address_result, get_address, add_address, update_address}
use userservice.Relational.Addresses.Memory.{Rows, find, write, execute, db, db-laws, view}
use userservice.Relational.Addresses.RoundTrip.{
  Reads, stored, add_address-get_address, update_address-get_address,
}

abbrev home : Address
home = record {
  uuid = "home";
  street1 = "Elm Street 1";
  street2 = "";
  city = "Springwood";
  state = "OH";
  country = "US";
  zip = "1";
  mtime = 5;
  ctime = 5;
}

abbrev table : Rows
table = home ∷ []

rows_run : Unit {0}
unfolding run db find write execute affected get_address add_address update_address address_result
rows_run = tt

added_home :
    let s' = (add_address db home table).1 in
    Reads (get_address db "fresh" s').0 (stored db view db-laws home table)
    × (view s' "home" ≡ view table "home")
unfolding rows_run
added_home =
    add_address-get_address db view db-laws home table refl "home"
      (λ e. ground (arith, eq_iff "fresh" "home"))

abbrev moved : Address
moved = record home { city = "Springfield" }

update_address-get_address_example :
    let s' = (update_address db moved table).1 in
    Reads (get_address db "home" s').0 (record moved { mtime = 1000; ctime = 5 })
    × (view s' "fresh" ≡ view table "fresh")
unfolding rows_run
update_address-get_address_example =
    update_address-get_address db view db-laws moved home table refl refl "fresh"
      (λ e. ground (arith, eq_iff "home" "fresh"))

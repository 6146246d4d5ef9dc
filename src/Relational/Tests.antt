-- ===== src/Relational/Tests.antt =====
-- The lists that are read from a database whose connection is lost after one row.
use userservice.Prelude.{ℕ, str_eq, ◌≡◌, ◌↔◌, refl, none, some, List, [], ◌∷◌, if◌then◌else◌}
use userservice.Flow.{ok, err, run}
use userservice.Shared.{no_rows, other}
use userservice.Relational.{Conn, scan_rows}
use userservice.Relational.Scan.{Value, null, text, time, scan_user_row, scan_address}
use userservice.Relational.Users.{all_users, get_all_users}
use userservice.Relational.Addresses.{all_addresses, get_all_addresses}
use userservice.Relational.Reading.{ReadDelivered, get_all_users-ReadDelivered}

abbrev address_row : List Value
address_row =
    text "home"
    ∷ text "Elm Street 1"
    ∷ text ""
    ∷ text "Springwood"
    ∷ text "OH"
    ∷ text "US"
    ∷ text "1"
    ∷ time 5
    ∷ time 5
    ∷ []

abbrev user_row : List Value
user_row = text "ann-id" ∷ text "ann" ∷ time 5 ∷ time 5 ∷ null ∷ []

abbrev losing : Conn ℕ
losing = record {
  query_row = λ q args s. (err no_rows, s);
  query = λ q args s. (
    ok (record {
      rows = (if str_eq q "user" then user_row else address_row) ∷ [];
      ended_by = some (other "invalid connection");
    }),
    s,
  );
  exec = λ q args s. (ok (ok 0), s);
  uuidgen = λ s. ("id", s);
  new_string = λ s. ("seed", s);
  now = λ s. (7, s);
  sqls = λ group name. group;
}

get_all_users-ReadDelivered_example :
    ((get_all_users losing 0).0.1 ≡ none)
    ↔ ReadDelivered losing 0 scan_user_row (losing.query "user" [] 0).0 (get_all_users losing 0).0.0
get_all_users-ReadDelivered_example = get_all_users-ReadDelivered losing 0

-- The lost connection is not reported.
losing_users : (get_all_users losing 0).0.1 ≡ none
unfolding run get_all_users all_users scan_rows scan_user_row
losing_users = refl

losing_addresses : (get_all_addresses losing 0).0.1 ≡ none
unfolding run get_all_addresses all_addresses scan_rows scan_address
losing_addresses = refl

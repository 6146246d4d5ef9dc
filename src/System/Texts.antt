-- ===== src/System/Texts.antt =====
-- An encoding of requests and answers, for the tests.
use userservice.Prelude.{[], ◌∷◌, none, some, ◌<>◌}
use userservice.Flow.{ok}
use userservice.Shared.{User, Contact, Address}
use userservice.Relational.BasicAuth.{no_auth}
use userservice.Router.{Encoding}

abbrev pub ann_user : User
ann_user = record {
  uuid = "ann-id";
  name = "ann";
  contact = none;
  email = some "ann@host";
  cell = none;
  mtime = 0;
  ctime = 0;
  dtime = none;
}

abbrev pub no_address : Address
no_address = record {
  uuid = "";
  street1 = "";
  street2 = "";
  city = "";
  state = "";
  country = "";
  zip = "";
  mtime = 0;
  ctime = 0;
}

abbrev no_contact : Contact
no_contact = record {
  first_name = "";
  last_name = "";
  bill_to = none;
  ship_to = none;
  phone = none;
  mtime = 0;
  ctime = 0;
}

-- Each type has one text.
abbrev pub encoding : Encoding
encoding = record {
  user_of_json = λ _. ok ann_user;
  user_pointer_of_json = λ _. ok (some ann_user);
  contact_of_json = λ _. ok no_contact;
  address_of_json = λ _. ok no_address;
  auth_of_json = λ _. ok (record no_auth { uuid = "ann-id"; pass = "password1" });
  passwords_of_json = λ _. ok ("password1", "password3");
  strings_of_json = λ _. ("redirect", "/page") ∷ [];
  json_of_users = λ _. "[]";
  json_of_user = λ _. "{}";
  json_of_addresses = λ _. "[]";
  json_of_address = λ _. "{}";
  json_of_auth = λ a. a.name <> a.pass <> a.salt;
  escape_html = λ s. s;
  show_user = λ u. u.name;
}

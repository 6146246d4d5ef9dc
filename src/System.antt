-- ===== src/System.antt =====
-- internal/cmd/serve-mysql/main.go: the service as `main` puts it together, the database and redis
-- being parts of one world.
pub mod Passwords
pub mod Logins
pub mod Memory
pub mod Main
pub mod Clients
pub mod Statuses
pub mod Texts
mod Tests
use userservice.Prelude.{ℕ, String, Option}
use userservice.Flow.{Act}
use userservice.Config.{Config}
use userservice.Redis.{Authn}
use userservice.Shared.{Error, Message, Addresser, Auther, Contacter, Userer}
use userservice.Relational.{Conn}
use userservice.Relational.Addresses.{get_all_addresses, get_address, add_address, update_address}
use userservice.Relational.Contacts.{update_contact}
use userservice.Relational.Users.{
  get_all_users, get_user, add_user, update_user, delete_user, create_contact,
}
use userservice.Relational.BasicAuth.{get_auth_by_attrs, change_password, login, reset_password}
use userservice.Validation.{ValidatorConfig, new_validator, validator}
use userservice.Router.{Encoding, UserService}

-- The validator's part of the configuration.
abbrev pub sessions : Config → ValidatorConfig
sessions cfg = record {
  cookie_name = cfg.cookie_name;
  authn_timeout = cfg.authn_timeout;
  max_logins = cfg.max_logins;
}

module _ {S : Type 0} (db : Conn S) where
  abbrev addresser : Addresser S
  addresser = record {
    get_all_addresses = get_all_addresses db;
    get_address = get_address db;
    add_address = add_address db;
    update_address = update_address db;
  }

  abbrev auther : Auther S
  auther = record {
    get_auth_by_attrs = get_auth_by_attrs db;
    change_password = change_password db;
    login = login db;
    reset_password = reset_password db;
  }

  abbrev contacter : Contacter S
  contacter = record { update_contact = update_contact db }

  -- The fuel bounds the calls of `AddUser` to itself.
  abbrev userer : ℕ → Userer S
  userer fuel = record {
    get_all_users = get_all_users db;
    get_user = get_user db;
    add_user = add_user db fuel;
    update_user = update_user db;
    delete_user = delete_user db;
    create_contact = create_contact db;
  }

-- The `UserService` of `main`: the connection in four places, the validator, and the two senders.
abbrev pub service :
    {S : Type 0}
    → Conn S
    → ℕ
    → Authn S
    → Config
    → Act S ℕ
    → Act S String
    → (Option Message → Act S (Option Error))
    → (Option Message → Act S (Option Error))
    → Encoding
    → UserService S
service db fuel authn cfg now fresh mail sms encoding = record {
  send_mail = mail;
  send_sms = sms;
  addresser = addresser db;
  auther = auther db;
  contacter = contacter db;
  userer = userer db fuel;
  validator = validator (new_validator authn (sessions cfg) now fresh);
  success_url = cfg.success_url;
  logon_url = cfg.logon_url;
  now = now;
  encoding = encoding;
}

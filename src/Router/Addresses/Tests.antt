-- ===== src/Router/Addresses/Tests.antt =====
-- An address that is posted to the service on a table in memory, which redis does not reach.
use userservice.Prelude.{String, str_eq, ◌≡◌, ◌↔◌, true, refl, none, [], ◌∷◌, if◌then◌else◌}
use userservice.Flow.{ok, err, run}
use userservice.Config.{defaults}
use userservice.Shared.{Address}
use userservice.Redis.{Authn, Reply, failed}
use userservice.Relational.{affected}
use userservice.Relational.Addresses as Stored
use userservice.Relational.Addresses.Memory.{Rows, find, execute, db, db-laws, view}
use userservice.Relational.Addresses.RoundTrip.{stored}
use userservice.Router.{Request, succeeds, succeeded, UserService, send, success}
use userservice.Router.Addresses.{get_address, post_address, patch_address}
use userservice.Router.Addresses.Bodies.{Patched, patch_address_iff}
use userservice.Router.Addresses.RoundTrip.{accepted, Shows, post_address-get_address}
use userservice.System.{service}
use userservice.System.Texts.{no_address, encoding}

abbrev down : {A : Type 0} → Reply Rows A
down s = (err (failed "connection refused"), s)

abbrev no_redis : Authn Rows
no_redis = record {
  exists = λ k. down;
  expire = λ k t. down;
  hdel = λ k fs. down;
  hget = λ k f. down;
  hget_all = λ k. down;
  hset = λ k fs. down;
  sadd = λ k ms. down;
  smembers = λ k. down;
  srem = λ k ms. down;
}

abbrev us : UserService Rows
us =
    service db 3 no_redis (defaults "mysql" 3306 "secret" "svc") (λ s. (1000, s)) (λ s. ("id", s))
      (λ m s. (none, s)) (λ m s. (none, s)) encoding

abbrev request : Request
request = record {
  url_param = λ name. if str_eq name "address_id" then "fresh" else "";
  body = ok "{}";
  cookie = λ name. none;
  remote_addr = "here";
  host = "host";
}

post_address-get_address_example :
    let (x, s') = post_address us request [] in
    (body : String) × (a : Address) × (request.body ≡ ok body)
    × (encoding.address_of_json body ≡ ok a)
    × (x ≡ accepted (λ s. s) "fresh")
    × Shows us (get_address us request s').0 (stored db view db-laws a [])
unfolding run post_address send success db find execute affected Stored.add_address
post_address-get_address_example =
    post_address-get_address us db view db-laws refl refl request request [] refl refl

-- The body's address has a row; the URL names another.
abbrev changing : Request
changing = record request { url_param = λ name. "another" }

abbrev held : Rows
held = no_address ∷ []

changed : Rows
changed = (patch_address us changing held).1

patch_address_iff_example :
    ((patch_address us changing held ≡ (succeeded 204 [], changed))
      ↔ Patched us changing held changed)
    × ((succeeds (patch_address us changing held).0 ≡ true)
        ↔ Patched us changing held (patch_address us changing held).1)
patch_address_iff_example = patch_address_iff us changing held changed

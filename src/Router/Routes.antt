-- ===== src/Router/Routes.antt =====
-- internal/router/routes.go: the routes, the health check and the settings. Chi finds the route of a
-- request; the handler of /metrics is Prometheus'.
pub mod Reach
pub mod Context
pub mod Secrets
pub mod Statuses
mod Tests
use userservice.Prelude.{
  ℕ, String, ◌<>◌, str_eq, Option, none, some, List, [], ◌∷◌, lookup, map, if◌then◌else◌,
}
use userservice.Flow.{Act, finish, ◌>>=◌, run}
use userservice.Config.{Config, Marshal, json_fields}
use userservice.Http.{status_ok, status_not_found}
use userservice.Router.{Request, Response, Served, answered, new_response, UserService, Handler}
use userservice.Router.Users.{
  get_all_users, get_user, post_user, patch_user, delete_user, create_contact,
}
use userservice.Router.Addresses.{get_all_addresses, get_address, post_address, patch_address}
use userservice.Router.Contacts.{patch_contact}
use userservice.Router.Passwords.{get_auth, post_login, patch_login, delete_login}
use userservice.Router.Sessions.{post_logout, get_valid, get_login_otp}

-- The configuration as `settings` reads it back from its own JSON: each value by its key, as JSON.
pub record Settings : Type 0 where
  pub all : String
  pub values : List (String × String)

-- What `settings` keeps: the configuration's JSON, decoded into a map; a map is written with its keys
-- in order, which is left to the encoder.
unfoldable pub settings_of : Marshal → Config → Settings
settings_of marshal cfg = record {
  all = marshal.fields (json_fields cfg);
  values = map (λ f. (f.0, marshal.value f.1)) (json_fields cfg);
}

abbrev pub replied : {S : Type 0} → ℕ → String → Act S Served
replied code text s = (answered (record new_response { status = some code; body = text ∷ [] }), s)

hc : {S : Type 0} → Handler S
hc r = replied status_ok "OK"

-- A value that was decoded from JSON is encoded again without an error.
pub setting : Option String → String → ℕ × String
setting none key = (status_not_found, "{\"error\": \"no value for key: " <> key <> "\"}")
setting (some value) key = (status_ok, "{\"value\": " <> value <> "}")

pub settings : {S : Type 0} → Settings → Handler S
settings cfg r =
    let key = r.url_param "name" in
    let (code, text) = setting (lookup key cfg.values) key in
    if str_eq key "*" then replied status_ok cfg.all else replied code text

pub data Method : Type 0 where
  get post patch delete : Method

pub record Route (S : Type 0) : Type 0 where
  pub method : Method
  pub pattern : String
  pub handler : Handler S

module _ {S : Type 0} (us : UserService S) (cfg : Settings) (metrics : Handler S) where
  abbrev route : Method → String → Handler S → Route S
  route m p h = record { method = m; pattern = p; handler = h }

  -- `NewInstance`
  pub routes : List (Route S)
  routes =
      route get "/users" (get_all_users us)
      ∷ route get "/user/{user_id}" (get_user us)
      ∷ route post "/user" (post_user us)
      ∷ route patch "/user/{user_id}" (patch_user us)
      ∷ route delete "/user/{user_id}" (delete_user us)
      ∷ route post "/user/{user_id}/contact" (create_contact us)
      ∷ route patch "/contact/{user_id}" (patch_contact us)
      ∷ route get "/addresses" (get_all_addresses us)
      ∷ route get "/address/{address_id}" (get_address us)
      ∷ route post "/address" (post_address us)
      ∷ route patch "/address/{address_id}" (patch_address us)
      ∷ route get "/auth/{username}" (get_auth us)
      ∷ route post "/auth" (post_login us)
      ∷ route patch "/auth/{user_id}" (patch_login us)
      ∷ route delete "/auth" (delete_login us)
      ∷ route post "/logout" (post_logout us)
      ∷ route get "/valid" (get_valid us)
      ∷ route get "/otp/{pad}" (get_login_otp us)
      ∷ route get "/hc" hc
      ∷ route get "/metrics" metrics
      ∷ route get "/settings" (settings cfg)
      ∷ []

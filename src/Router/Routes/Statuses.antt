-- ===== src/Router/Routes/Statuses.antt =====
-- The statuses of all routes.
use userservice.Prelude.{
  String, str_eq, ◌≡◌, refl, true, Bool-cases, inl, inr, Option, none, some, List, [], ◌∷◌, lookup,
}
use userservice.Flow.Results.{given}
use userservice.Http.{is_status}
use userservice.Router.{Request, UserService, Handler}
use userservice.Router.Statuses.{well_sent}
use userservice.Router.Users.Statuses.{
  get_all_users-well_sent, get_user-well_sent, post_user-well_sent, patch_user-well_sent,
  delete_user-well_sent, create_contact-well_sent,
}
use userservice.Router.Addresses.Statuses.{
  get_all_addresses-well_sent, get_address-well_sent, post_address-well_sent,
  patch_address-well_sent,
}
use userservice.Router.Contacts.Statuses.{patch_contact-well_sent}
use userservice.Router.Passwords.Statuses.{
  get_auth-well_sent, post_login-well_sent, patch_login-well_sent, delete_login-well_sent,
}
use userservice.Router.Sessions.Statuses.{
  StatusCodes, post_logout-well_sent, get_valid-well_sent, get_login_otp-well_sent,
}
use userservice.Router.Routes.{Settings, setting, settings, hc, Route, routes}

infixr 5 ◌&◌
pub data Every {S : Type 0} (P : Route S → Type 0) : List (Route S) → Type 0 where
  end : Every P []
  ◌&◌ : {x : Route S} {xs : List (Route S)} → P x → Every P xs → Every P (x ∷ xs)

setting-well_sent : (value : Option String) (key : String) → is_status (setting value key).0 ≡ true
unfolding setting
setting-well_sent none key = refl
setting-well_sent (some value) key = refl

settings-well_sent :
    {S : Type 0} (cfg : Settings) (r : Request) (s : S) → well_sent (settings cfg r s).0 ≡ true
unfolding settings
settings-well_sent cfg r s = elim (Bool-cases (str_eq (r.url_param "name") "*")) [
  | inl all ↦ rw (settings, all) refl
  | inr one ↦
      rw (settings, one)
        (setting-well_sent (lookup (r.url_param "name") cfg.values) (r.url_param "name"))
]

pub routes-well_sent :
    {S : Type 0} (us : UserService S) (cfg : Settings) (metrics : Handler S)
    → StatusCodes us.validator
    → ((r : Request) (s : S) → well_sent (metrics r s).0 ≡ true)
    → (r : Request) (s : S)
    → Every (λ x. well_sent (x.handler r s).0 ≡ true) (routes us cfg metrics)
unfolding routes hc
routes-well_sent us cfg metrics codes fine r s =
    given (get_all_users-well_sent us r) s
    & given (get_user-well_sent us r) s
    & given (post_user-well_sent us r) s
    & given (patch_user-well_sent us r) s
    & given (delete_user-well_sent us r) s
    & given (create_contact-well_sent us r) s
    & given (patch_contact-well_sent us r) s
    & given (get_all_addresses-well_sent us r) s
    & given (get_address-well_sent us r) s
    & given (post_address-well_sent us r) s
    & given (patch_address-well_sent us r) s
    & given (get_auth-well_sent us codes r) s
    & given (post_login-well_sent us codes r) s
    & given (patch_login-well_sent us codes r) s
    & given (delete_login-well_sent us codes r) s
    & given (post_logout-well_sent us codes r) s
    & given (get_valid-well_sent us codes r) s
    & given (get_login_otp-well_sent us codes r) s
    & refl
    & fine r s
    & settings-well_sent cfg r s
    & end

-- ===== src/Router/Sessions.antt =====
-- internal/router/validator.go: the handlers of /logout, /valid and /otp. The session's cookie is
-- looked up as "us-authn", whatever its name in the configuration.
pub mod Statuses
pub mod Ends
pub mod Pads
use userservice.Prelude.{
  ℕ, ◌+◌, ◌*◌, ℤ, pos, String, str_eq, true, Option, none, some, [], ◌==◌, if◌then◌else◌,
}
use userservice.Flow.{Act, Proc, finish, call, return_if, ◌>>=◌, ◌>>◌, run}
use userservice.Http.{
  Cookie, status_moved_permanently, status_temporary_redirect, status_bad_request,
}
use userservice.Validation.{Validator}
use userservice.Router.{
  Request, Served, answered, new_response, set_location, set_cookie, send, success, refused,
  UserService, Handler,
}

-- The cookie with which `GetLoginOTP` keeps the pad for two minutes.
abbrev pub pad_cookie : String → ℕ → Cookie
pad_cookie pad now = record {
  name = "authn-pad";
  value = pad;
  path = "/";
  expires = some (now + 2 * 60);
  max_age = pos (2 * 60);
  http_only = true;
}

module _ {S : Type 0} (us : UserService S) where
  unfoldable pub post_logout : Handler S
  post_logout r = elim (r.cookie "us-authn") [
    | none ↦ λ s.
        (answered (success status_moved_permanently [] (set_location us.logon_url new_response)), s)
    | some token ↦ run do
      out ← call (us.validator.logout token)
      finish (answered (success out.1 [] (set_cookie out.0 new_response)))
  ]

  unfoldable pub get_valid : Handler S
  get_valid r = elim (r.cookie "us-authn") [
    | none ↦ λ s.
        (answered (send status_temporary_redirect [] (set_location us.logon_url new_response)), s)
    | some token ↦ run do
      checked ← call (us.validator.valid token)
      let w = set_cookie (some checked.0) new_response
      finish (
          answered (
            success checked.1 []
              (if checked.1 == status_temporary_redirect then set_location us.logon_url w else w)))
  ]

  unfoldable pub get_login_otp : Handler S
  get_login_otp r = run do
    let pad = r.url_param "pad"
    return_if (str_eq pad "") (refused status_bad_request [])
    loc ← call (us.validator.login_otp pad)
    now ← call us.now
    finish (
        answered (
          success loc.1 []
            (set_cookie (some (pad_cookie pad now)) (set_location loc.0 new_response))))

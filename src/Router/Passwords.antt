-- ===== src/Router/Passwords.antt =====
-- internal/router/basicauth.go: the handlers of /auth: logins, changes of password, and the mails by
-- which a password is reset.
pub mod Logins
pub mod Changes
pub mod Resets
pub mod Statuses
use userservice.Prelude.{
  ℕ, ℤ, negsuc, String, str_eq, Bool, true, false, not, ◌==◌, Option, none, some, List, [], ◌∷◌,
  lookup, is_some, if◌then◌else◌,
}
use userservice.Flow.{
  Act, Proc, Result, ok, err, finish, pure, call, attempt, return_if, ◌>>=◌, ◌>>◌, run,
}
use userservice.Http.{
  Cookie, status_ok, status_no_content, status_moved_permanently, status_bad_request,
  status_internal_server_error,
}
use userservice.Shared.{
  Error, BasicAuth, User, error_text, redact, is_undeliverable, password_reset_email,
  password_reset_sms, Auther, Userer,
}
use userservice.Validation.{Validator}
use userservice.Router.{
  Request, Response, Served, answered, panicked, new_response, set_location, set_cookie, send,
  success, refused, succeeded, checked, Encoding, UserService, Handler,
}

-- The cookie that removes the pad; it has no expiry date, and its age is -1.
abbrev pub no_pad : Cookie
no_pad = record {
  name = "authn-pad";
  value = "";
  path = "/";
  expires = none;
  max_age = negsuc 0;
  http_only = true;
}

abbrev pub not_ok : ℕ → Bool
not_ok code = not (code == status_ok)

-- Two addresses that are both there and differ.
abbrev pub mismatch : Option String → Option String → Bool
mismatch (some a) (some b) = not (str_eq a b)
mismatch _ _ = false

-- `location["redirect"]` of a map.
abbrev pub redirect_of : Option String → String
redirect_of none = ""
redirect_of (some url) = url

-- The end of `GetAuth`.
unfoldable pub shown : (BasicAuth → String) → BasicAuth → Option Error → Served
shown json auth (some e) = refused status_bad_request (error_text e ∷ [])
shown json auth none = succeeded status_ok (json (redact auth) ∷ [])

-- The end of a login: the session's cookie and the page to go to.
unfoldable pub welcome : ℕ → String → Cookie → Response → Served
welcome code url cookie w =
    answered (success code [] (set_location url (set_cookie (some cookie) w)))

module _ {S : Type 0} (us : UserService S) where
  unfoldable pub get_auth : Handler S
  get_auth r = run do
    let name = r.url_param "username"
    return_if (str_eq name "") (refused status_bad_request ("missing parameter" ∷ []))
    found ← call (us.auther.get_auth_by_attrs none (some name))
    finish (shown us.json_of_auth found.0 found.1)

  unfoldable pub post_login : Handler S
  post_login r = run do
    body ← checked r.body (λ e. refused status_bad_request (error_text e ∷ []))
    login ←
        checked (us.auth_of_json body) (λ e. refused status_bad_request (error_text e ∷ body ∷ []))
    auth ← call (us.auther.login login)
    return_if (is_some auth.1)
        (refused status_bad_request (elim auth.1 [ none ↦ [] | some e ↦ error_text e ∷ [] ]))
    session ← call (us.validator.login auth.0.uuid r.remote_addr)
    return_if (not_ok session.1) (refused session.1 [])
    finish (welcome status_moved_permanently us.success_url session.0 new_response)

  -- `authnPad`, on a pad that the request has.
  unfoldable pub pad_password : String → String → String → Act S (String × ℕ)
  pad_password pad id old = run do
    done ← call (us.validator.complete_otp pad)
    return_if (not_ok done.1) (old, done.1)
    return_if (not (str_eq done.0 id)) (old, status_bad_request)
    pwd ← call (us.auther.reset_password (some id))
    return_if (is_some pwd.1) (old, status_internal_server_error)
    finish (pwd.0, status_ok)

  -- `authnPad`: the response, the password to change from, and a status. It takes the pad away.
  unfoldable pub authn_pad : Request → String → String → Response → Act S (Response × String × ℕ)
  unfolding pad_password
  authn_pad r id old w = elim (r.cookie "authn-pad") [
    | none ↦ λ s. ((w, old, status_ok), s)
    | some pad ↦ λ s.
        let ((pwd, code), s') = pad_password pad id old s in
        ((set_cookie (some no_pad) w, pwd, code), s')
  ]

  -- `PatchLogin` on the passwords of the body.
  unfoldable pub change_of : Request → String × String → Proc S Served Served
  change_of r pair = do
    let id = r.url_param "user_id"
    pad ← call (authn_pad r id pair.0 new_response)
    let w = pad.0
    return_if (not_ok pad.2) (answered (send pad.2 [] w))
    e ← call (us.auther.change_password id pad.1 pair.1)
    return_if (is_some e) (
        answered
          (send status_internal_server_error (elim e [ none ↦ [] | some x ↦ error_text x ∷ [] ]) w))
    session ← call (us.validator.login id r.remote_addr)
    return_if (not_ok session.1) (answered (send session.1 ("failed redis login" ∷ []) w))
    finish (welcome status_no_content us.success_url session.0 w)

  unfoldable pub patch_login : Handler S
  patch_login r = run do
    let id = r.url_param "user_id"
    return_if (str_eq id "") (refused status_bad_request ("missing uid" ∷ []))
    body ← checked r.body (λ _. refused status_bad_request ("couldn't read body" ∷ []))
    pair ←
        checked (us.passwords_of_json body)
          (λ _. refused status_bad_request ("couldn't unmarshal form" ∷ []))
    change_of r pair

  -- `DeleteLogin` once the user is found: the checks against the records, the pad, and the messages.
  unfoldable pub send_reset : Request → String → User → User → Proc S Served Served
  send_reset r url login user = do
    return_if (is_undeliverable user) (refused status_bad_request [])
    return_if (mismatch login.email user.email) (refused status_bad_request [])
    return_if (mismatch login.cell user.cell) (refused status_bad_request [])
    pad ← call (us.validator.otp user.uuid r.remote_addr url)
    return_if (str_eq pad.0 "") (refused pad.1 ("couldn't generate token" ∷ []))
    e ← call (us.send_mail (password_reset_email user r.host pad.0))
    return_if (is_some e)
        (refused status_internal_server_error (elim e [ none ↦ [] | some x ↦ error_text x ∷ [] ]))
    e' ← call (us.send_sms (password_reset_sms user r.host pad.0))
    return_if (is_some e') (refused status_internal_server_error [])
    finish (succeeded status_no_content [])

  -- `Undeliverable` panics on a nil user, here and below.
  unfoldable pub reset_found : Request → String → User → Option User → Proc S Served Served
  reset_found r url login none = finish panicked
  reset_found r url login (some user) = send_reset r url login user

  -- `DeleteLogin` on the user of the body.
  unfoldable pub forgotten : Request → String → User → Proc S Served Served
  forgotten r body login = do
    return_if (is_undeliverable login) (refused status_bad_request [])
    let url = redirect_of (lookup "redirect" (us.strings_of_json body))
    return_if (str_eq url "") (refused status_bad_request ("redirect required" ∷ body ∷ []))
    user ← call (us.userer.get_user login.uuid)
    return_if (is_some user.1) (refused status_internal_server_error (us.show_user login ∷ []))
    reset_found r url login user.0

  -- A body of `null` is a nil user.
  unfoldable pub forgotten_by : Request → String → Option User → Proc S Served Served
  forgotten_by r body none = finish panicked
  forgotten_by r body (some login) = forgotten r body login

  unfoldable pub delete_login : Handler S
  delete_login r = run do
    body ← checked r.body (λ e. refused status_bad_request (error_text e ∷ []))
    login ← checked (us.user_pointer_of_json body) (λ _. refused status_bad_request (body ∷ []))
    forgotten_by r body login
